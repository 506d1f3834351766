-- ===== src/RedisPool/Results.antt =====
-- What `init` and `getConnect` of redis/redispool.cpp give back.
use Prim.Native.Nat.{min}
use cnode.Prelude.{
  ℕ, zero, suc, ◌+◌, ◌≤◌, ◌<◌, ◌≡◌, ◌≢◌, ◌↔◌, ◌⊎◌, refl, Bool, true, false, ◌&&◌, List, [], ◌∷◌,
  none, some, Bool-cases, Option-cases, inl, inr, if◌then◌else◌, arith, length, length-append, ltb,
  ◌==◌, ◌∙◌, ◌^◌, subst,
}
use cnode.Prelude.Int.{pos, inc, to_u32, ◌<ℤ◌}
use cnode.Redis.{Conf, Conn, Env, err_init_fail, err_redis_emptypool, err_redis_conn}
use cnode.RedisPool.{
  Pool, can_create_poolconn, create_connect, add_pooled, init_loop, init_pool, init, get_connect,
}
use cnode.RedisPool.Invariant.{started}

-- On a pool that is set up, the code is 0 exactly if a connection is handed out; otherwise
-- nothing is stored, and the code is the one for an empty pool, exactly if the caller insists on
-- the pool, none is free and the limit is reached, or else the one for a failed connect.
pub get_connect-code :
    (only_pool : Bool) (e : Env) (p : Pool)
    → p.inited ≡ true
    → let (q, code, out) = get_connect only_pool e p in
      ((code ≡ 0) ↔ (out ≢ none))
      × ((code ≡ err_redis_emptypool)
          ↔ ((only_pool ≡ true) × (p.freeconn_list ≡ []) × (can_create_poolconn p ≡ false)))
      × ((code ≡ 0) ⊎ (code ≡ err_redis_emptypool) ⊎ (code ≡ err_redis_conn))
unfolding get_connect
get_connect-code only_pool e p up = go p.freeconn_list refl
  where
    go :
        (free : List Conn)
        → p.freeconn_list ≡ free
        → let (q, code, out) = get_connect only_pool e p in
          ((code ≡ 0) ↔ (out ≢ none))
          × ((code ≡ err_redis_emptypool)
              ↔ ((only_pool ≡ true) × (p.freeconn_list ≡ []) × (can_create_poolconn p ≡ false)))
          × ((code ≡ 0) ⊎ (code ≡ err_redis_emptypool) ⊎ (code ≡ err_redis_conn))
    go [] h = ground arith
    go (c ∷ rest) h = ground arith

-- The pool that has connected `k` times; its limit, as a number, is `m`.
record Opened (m k : ℕ) (p : Pool) : Type 0 where
  limit : p.conn_max_process ≡ pos m
  counted : p.conn_count_process ≡ pos k
  total : p.totalconn_count ≡ pos k
  peek : p.peek_conn_count ≡ pos 0
  free : length p.freeconn_list ≡ k

add_pooled-Opened :
    (m k : ℕ) (p : Pool) (e : Env) (c : Conn)
    → Opened m k p
    → Opened m (k + 1) (add_pooled (create_connect p e).0 c)
unfolding add_pooled create_connect inc
add_pooled-Opened m k p e c v =
    ground (arith, length-append p.freeconn_list (record c { inpool = true } ∷ []))

can_create-Opened : (m k : ℕ) (p : Pool) → Opened m k p → can_create_poolconn p ≡ ltb k m
unfolding can_create_poolconn
can_create-Opened m k p v = ground arith

pub create_connect_up :
    (p : Pool) (e : Env) → e.connects ≡ true → (c : Conn) × ((create_connect p e).1 ≡ some c)
unfolding create_connect
create_connect_up p e up = elim (Option-cases (create_connect p e).1) [
  | inl n ↦ absurd (ground arith)
  | inr (c, m) ↦ (c, m)
]

-- With a server that answers, the loop stops at the limit or after `rounds` rounds.
init_loop-Opened :
    (rounds m k : ℕ) (env : ℕ → Env) (p : Pool)
    → ((i : ℕ) → (env i).connects ≡ true)
    → k ≤ m
    → Opened m k p
    → ((init_loop rounds k env p).1 ≡ min (k + rounds) m)
      × Opened m (min (k + rounds) m) (init_loop rounds k env p).0
unfolding init_loop
init_loop-Opened zero m k env p up le v = ground arith
init_loop-Opened (suc rounds) m k env p up le v = elim (Bool-cases (ltb k m)) [
  | inl room ↦
      let (c, e) = create_connect_up p (env k) (up k) in
      let same : k + suc rounds ≡ k + 1 + rounds = omega arith in
      rw (can_create-Opened m k p v ∙ room, e, init_loop, same)
        (init_loop-Opened rounds m (k + 1) env _ up (ground arith)
          (add_pooled-Opened m k p (env k) c v))
  | inr full ↦
      let stop : k ≡ min (k + suc rounds) m = ground arith in
      rw (can_create-Opened m k p v ∙ full, init_loop) (stop, subst (λ t. Opened m t p) stop v)
]

-- With a server that answers, `init` opens as many connections as asked for, or as the limit
-- allows if that is less, and returns 0, but for one case: asked for some with a limit of 0, it
-- returns the error of a failed start.
pub init_opens :
    (conf : Conf) (m n : ℕ) (env : ℕ → Env) (p : Pool)
    → conf.redisname ≢ none
    → conf.process_max_conn_num ≡ pos m
    → conf.init_conn_num ≡ pos n
    → n < 2 ^ 31
    → ((i : ℕ) → (env i).connects ≡ true)
    → let (q, result) = init (some conf) env p in
      (length q.freeconn_list ≡ min n m)
      × (q.totalconn_count ≡ pos (min n m))
      × (q.conn_count_process ≡ pos (min n m))
      × (result ≡ (if ltb 0 n && m == 0 then err_init_fail else 0))
unfolding init_pool init
init_opens conf m n env p named limit asked small up =
    let v : Opened m 0 (started conf p) = record {
      limit = limit;
      counted = refl;
      total = refl;
      peek = refl;
      free = refl;
    } in
    let asked_u32 : to_u32 conf.init_conn_num ≡ n = unfold to_u32 in ground arith in
    let opened = init_loop-Opened n m 0 env (started conf p) up (omega arith) v in
    ground (arith, opened)

-- The highest number of connections, `m_peek_conn_count`, misses those that `init` opened: it is
-- below `m_totalconn_count` as soon as one was.
pub init_peek :
    (conf : Conf) (m n : ℕ) (env : ℕ → Env) (p : Pool)
    → conf.redisname ≢ none
    → conf.process_max_conn_num ≡ pos (suc m)
    → conf.init_conn_num ≡ pos (suc n)
    → suc n < 2 ^ 31
    → ((i : ℕ) → (env i).connects ≡ true)
    → let q = (init (some conf) env p).0 in q.peek_conn_count <ℤ q.totalconn_count
unfolding init_pool init
init_peek conf m n env p named limit asked small up =
    let v : Opened (suc m) 0 (started conf p) = record {
      limit = limit;
      counted = refl;
      total = refl;
      peek = refl;
      free = refl;
    } in
    let asked_u32 : to_u32 conf.init_conn_num ≡ suc n = unfold to_u32 in ground arith in
    let opened = init_loop-Opened (suc n) (suc m) 0 env (started conf p) up (omega arith) v in
    ground (arith, opened)
