-- ===== src/RedisPool/Invariant.antt =====
-- The counters of redis/redispool.cpp agree with the connections that exist.
use cnode.Prelude.{
  ℕ, zero, suc, ◌+◌, ◌≡◌, refl, inl, inr, Bool, true, List, [], ◌∷◌, ◌++◌, Option, none, some,
  get_elem?, Bool-cases, Option-cases, ◌≢◌, if◌then◌else◌, arith, length, length-append, ◌∙◌,
}
use cnode.Prelude.Int.{pos, inc, dec, ◌≤ℤ◌, to_u32}
use cnode.Redis.{Conf, Conn, Env}
use cnode.RedisPool.{
  Pool, can_create_poolconn, default_timeout, create_connect, add_pooled, init_loop, init_pool,
  init, get_connect, rel_connect,
}
use cnode.RedisPool.Client.{System, Call, gets, releases, remove_at, step, run}

-- How many of these connections count as pooled.
abbrev pub pooled : List Conn → ℕ
pooled [] = 0
pooled (c ∷ cs) = (if c.inpool then 1 else 0) + pooled cs

abbrev pub AllPooled : List Conn → Type 0
AllPooled [] = Unit {0}
AllPooled (c ∷ cs) = (c.inpool ≡ true) × AllPooled cs

-- `totalconn_count` counts all connections, `conn_count_process` the pooled ones, within the
-- limit; the free ones are all pooled.
pub record Inv (s : System) : Type 0 where
  pub inited : s.pool.inited ≡ true
  pub free_pooled : AllPooled s.pool.freeconn_list
  pub total : s.pool.totalconn_count ≡ pos (length s.pool.freeconn_list + length s.leased)
  pub counted : s.pool.conn_count_process ≡ pos (length s.pool.freeconn_list + pooled s.leased)
  pub bounded : s.pool.conn_count_process ≤ℤ s.pool.conn_max_process

AllPooled-append :
    (cs : List Conn) (c : Conn) → AllPooled cs → c.inpool ≡ true → AllPooled (cs ++ c ∷ [])
AllPooled-append [] c h e = (e, tt)
AllPooled-append (x ∷ cs) c h e = (h.0, AllPooled-append cs c h.1 e)

length-remove_at :
    (cs : List Conn) (i : ℕ) {c : Conn}
    → get_elem? cs i ≡ some c
    → (suc (length (remove_at cs i)) ≡ length cs)
      × ((if c.inpool then 1 else 0) + pooled (remove_at cs i) ≡ pooled cs)
length-remove_at [] i e = ground arith
length-remove_at (x ∷ cs) zero e = ground arith
length-remove_at (x ∷ cs) (suc i) e = ground (arith, length-remove_at cs i e)

get_connect-Inv :
    (s : System) (only_pool : Bool) (e : Env) (free : List Conn)
    → s.pool.freeconn_list ≡ free
    → Inv s
    → Inv (step s (gets only_pool e))
unfolding step get_connect can_create_poolconn inc dec
get_connect-Inv s only_pool e [] h v = ground arith
get_connect-Inv s only_pool e (c ∷ rest) h v = ground arith

rel_connect-Inv :
    (s : System) (i : ℕ) (check : Bool) (e : Env) (o : Option Conn)
    → get_elem? s.leased i ≡ o
    → Inv s
    → Inv (step s (releases i check e))
unfolding step rel_connect inc dec
rel_connect-Inv s i check e none h v = ground arith
rel_connect-Inv s i check e (some c) h v = ground (
  arith,
  length-remove_at s.leased i h,
  AllPooled-append s.pool.freeconn_list (record c { last_user_time = e.now }) v.free_pooled,
  length-append s.pool.freeconn_list (record c { last_user_time = e.now } ∷ []),
)

pub step-Inv : (s : System) (c : Call) → Inv s → Inv (step s c)
step-Inv s (gets only_pool e) v = get_connect-Inv s only_pool e s.pool.freeconn_list refl v
step-Inv s (releases i check e) v = rel_connect-Inv s i check e (get_elem? s.leased i) refl v

pub run-Inv : (s : System) (cs : List Call) → Inv s → Inv (run s cs)
unfolding run
run-Inv s [] v = v
run-Inv s (c ∷ cs) v = run-Inv (step s c) cs (step-Inv s c v)

-- What `init_loop` keeps, from a pool that nobody uses yet.
record Filling (p : Pool) : Type 0 where
  free_pooled : AllPooled p.freeconn_list
  total : p.totalconn_count ≡ pos (length p.freeconn_list)
  counted : p.conn_count_process ≡ pos (length p.freeconn_list)
  bounded : p.conn_count_process ≤ℤ p.conn_max_process

create_connect-Filling : (p : Pool) (e : Env) → Filling p → Filling (create_connect p e).0
unfolding create_connect
create_connect-Filling p e v = ground arith

add_pooled-Filling :
    (p : Pool) (c : Conn) → can_create_poolconn p ≡ true → Filling p → Filling (add_pooled p c)
unfolding add_pooled can_create_poolconn inc
add_pooled-Filling p c h v = ground (
  arith,
  AllPooled-append p.freeconn_list (record c { inpool = true }) v.free_pooled,
  length-append p.freeconn_list (record c { inpool = true } ∷ []),
)

can_create-create_connect :
    (p : Pool) (e : Env) → can_create_poolconn (create_connect p e).0 ≡ can_create_poolconn p
unfolding create_connect can_create_poolconn
can_create-create_connect p e = ground arith

init_loop-Filling :
    (count num : ℕ) (env : ℕ → Env) (p : Pool) → Filling p → Filling (init_loop count num env p).0
unfolding init_loop
init_loop-Filling zero num env p v = v
init_loop-Filling (suc count) num env p v =
    let q = (create_connect p (env num)).0 in
    elim (Bool-cases (can_create_poolconn p)) [
      | inl room ↦ elim (Option-cases (create_connect p (env num)).1) [
        | inl e ↦ rw (room, e, init_loop) (create_connect-Filling p (env num) v)
        | inr (c, e) ↦
            rw (room, e, init_loop)
              (init_loop-Filling count (num + 1) env (add_pooled q c) (
                add_pooled-Filling q c (can_create-create_connect p (env num) ∙ room)
                  (create_connect-Filling p (env num) v)))
      ]
      | inr full ↦ rw (full, init_loop) v
    ]

-- The pool on which `init` starts to connect.
abbrev pub started : Conf → Pool → Pool
started conf p = record p {
  conf = some conf;
  conn_max_process = conf.process_max_conn_num;
  wait_timeout = default_timeout;
  conn_count_process = pos 0;
  totalconn_count = pos 0;
  peek_conn_count = pos 0;
  freeconn_list = [];
}

pub init-started :
    (conf : Conf) (env : ℕ → Env) (p : Pool)
    → conf.redisname ≢ none
    → (init (some conf) env p).0
      ≡ record ((init_loop (to_u32 conf.init_conn_num) 0 env (started conf p)).0) { inited = true }
unfolding init init_pool
init-started conf env p named = ground arith

-- A pool that `init` set up is consistent, whatever the object held before, if the limit that is
-- configured is not negative.
pub init-Inv :
    (conf : Conf) (env : ℕ → Env) (p : Pool)
    → conf.redisname ≢ none
    → pos 0 ≤ℤ conf.process_max_conn_num
    → Inv (record { pool = (init (some conf) env p).0; leased = [] })
init-Inv conf env p named limit =
    let v : Filling (started conf p) = record {
      free_pooled = tt;
      total = refl;
      counted = refl;
      bounded = omega arith;
    } in
    rw (init-started conf env p named)
      (ground (arith, init_loop-Filling (to_u32 conf.init_conn_num) 0 env (started conf p) v))

-- The counters stay exact and within the limit under any sequence of calls by clients that give
-- back only what they hold, whatever the clock and the server answer, from a pool that `init`
-- set up with a limit that is not negative.
pub run-init-Inv :
    (conf : Conf) (env : ℕ → Env) (p : Pool) (cs : List Call)
    → conf.redisname ≢ none
    → pos 0 ≤ℤ conf.process_max_conn_num
    → Inv (run (record { pool = (init (some conf) env p).0; leased = [] }) cs)
run-init-Inv conf env p cs named limit = run-Inv _ cs (init-Inv conf env p named limit)
