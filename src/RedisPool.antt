-- ===== src/RedisPool.antt =====
-- redis/redispool.h and redis/redispool.cpp: the pool of connections to one Redis server.
-- `RedisConnPool::f` is `f` here. `live` and `next_id` stand for the heap of `Redis` objects:
-- `new` takes a fresh address and `delete` takes it off `live`.
-- The counters are of type `int`; they are integers here, without the wrap at 2^31.
pub mod Client
pub mod Invariant
pub mod Ownership
pub mod Parent
pub mod Race
pub mod Results
mod Tests
use cnode.Prelude.{
  ℕ, zero, suc, ◌+◌, Bool, true, false, not, ◌&&◌, List, [], ◌∷◌, ◌++◌, Option, none, some, ltb,
  ◌==◌, if◌then◌else◌,
}
use cnode.Prelude.Int.{ℤ, pos, inc, dec, ltb_ℤ, to_u32}
use cnode.Redis.{
  Conf, Conn, Env, err_param_input, err_init_fail, err_redis_emptypool, err_redis_conn,
}

pub record Pool : Type 0 where
  pub self : ℕ
  pub conf : Option Conf
  pub conn_count_process : ℤ
  pub conn_max_process : ℤ
  pub totalconn_count : ℤ
  pub wait_timeout : ℕ
  pub peek_conn_count : ℤ
  pub inited : Bool
  pub freeconn_list : List Conn
  pub next_id : ℕ
  pub live : List ℕ

abbrev pub default_timeout : ℕ
default_timeout = 600

-- The constructor sets two fields and empties the list; the other fields keep what memory held.
unfoldable pub construct : Pool → Pool
construct p = record p { conf = none; inited = false; freeconn_list = [] }

abbrev pub erase_id : ℕ → List ℕ → List ℕ
erase_id a [] = []
erase_id a (x ∷ xs) = if x == a then xs else x ∷ erase_id a xs

unfoldable pub can_create_poolconn : Pool → Bool
can_create_poolconn p = ltb_ℤ p.conn_count_process p.conn_max_process

-- A `Redis` whose constructor could not connect is deleted at once.
unfoldable pub create_connect : Pool → Env → Pool × Option Conn
create_connect p e =
    if e.connects
    then (
      record p { next_id = p.next_id + 1; live = p.next_id ∷ p.live },
      some
          (record { id = p.next_id; inpool = false; last_user_time = e.now; parent = some p.self }),
    )
    else (record p { next_id = p.next_id + 1 }, none)

unfoldable pub destroy_connect : Pool → Conn → Pool
destroy_connect p c = record p { live = erase_id c.id p.live }

-- One round of the loop of `init_pool` that got its connection.
unfoldable pub add_pooled : Pool → Conn → Pool
add_pooled p c = record p {
  freeconn_list = p.freeconn_list ++ record c { inpool = true } ∷ [];
  conn_count_process = inc p.conn_count_process;
  totalconn_count = inc p.totalconn_count;
}

-- The loop of `init_pool`: `count` rounds are left, `num` have succeeded; round `num` meets
-- `env num`. The result is the pool and the final `num`.
unfoldable pub init_loop : (count num : ℕ) → (ℕ → Env) → Pool → Pool × ℕ
init_loop zero num env p = (p, num)
init_loop (suc count) num env p =
    let (q, made) = create_connect p (env num) in
    elim (can_create_poolconn p) [
      | false ↦ (p, num)
      | true ↦ elim made [
        | none ↦ (q, num)
        | some c ↦ init_loop count (num + 1) env (add_pooled q c)
      ]
    ]

-- `init_pool`: an error only if connections were asked for and the first one failed.
unfoldable pub init_pool : ℕ → (ℕ → Env) → Pool → Pool × ℕ
init_pool count env p =
    let (q, num) = init_loop count 0 env p in
    (q, if num == count then 0 else if ltb 0 num then 0 else err_init_fail)

unfoldable pub init : Option Conf → (ℕ → Env) → Pool → Pool × ℕ
init none env p = (p, err_param_input)
init (some conf) env p = elim conf.redisname [
  | none ↦ (p, err_param_input)
  | some name ↦
      let (q, result) = init_pool (to_u32 conf.init_conn_num) env (record p {
        conf = some conf;
        conn_max_process = conf.process_max_conn_num;
        wait_timeout = default_timeout;
        conn_count_process = pos 0;
        totalconn_count = pos 0;
        peek_conn_count = pos 0;
        freeconn_list = [];
      }) in
      (record q { inited = true }, result)
]

-- The loop of `uninit` over the free list.
unfoldable pub destroy_all : List Conn → Pool → Pool
unfolding destroy_connect
destroy_all [] p = p
destroy_all (c ∷ cs) p = destroy_all cs (destroy_connect p c)

unfoldable pub uninit : Pool → Pool
unfolding destroy_all
uninit p =
    if p.inited
    then (let q = destroy_all p.freeconn_list (record p { conf = none }) in
        record q { freeconn_list = []; inited = false })
    else p

-- What the first locked section of `getConnect` finds: a free connection, or none together
-- with the answer of `can_create_poolconn`.
pub data Taken : Type 0 where
  reuse : Conn → Taken
  fresh : Bool → Taken

take_from : List Conn → Pool → Pool × Taken
unfolding can_create_poolconn
take_from [] p = (p, fresh (can_create_poolconn p))
take_from (c ∷ rest) p = (record p { freeconn_list = rest }, reuse c)

unfoldable pub take_free : Pool → Pool × Taken
unfolding take_from
take_free p = take_from p.freeconn_list p

-- The second locked section, for a connection that was just made.
unfoldable pub register : Pool → Bool → Pool
register p can_create =
    let total = inc p.totalconn_count in
    record p {
      totalconn_count = total;
      conn_count_process = if can_create then inc p.conn_count_process else p.conn_count_process;
      peek_conn_count = if ltb_ℤ p.peek_conn_count total then total else p.peek_conn_count;
    }

-- The locked section for a connection that could not be opened again.
unfoldable pub discard : Pool → Pool
discard p = record p {
  totalconn_count = dec p.totalconn_count;
  conn_count_process = dec p.conn_count_process;
}

-- The branch `NULL == p` of `getConnect`.
unfoldable pub open_new : Bool → Bool → Env → Pool → Pool × ℕ × Option Conn
unfolding create_connect register
open_new only_pool can_create e p =
    if only_pool && not can_create
    then (p, err_redis_emptypool, none)
    else (let (q, made) = create_connect p e in
        elim made [
          | none ↦ (q, err_redis_conn, none)
          | some c ↦ (register q can_create, 0, some (record c { inpool = can_create }))
        ])

-- Its other branch: a connection idle for longer than `m_wait_timeout` is tested first.
unfoldable pub check_idle : Conn → Env → Pool → Pool × ℕ × Option Conn
unfolding destroy_connect discard
check_idle c e p =
    if ltb (c.last_user_time + p.wait_timeout) e.now
    then if e.alive
      then (p, 0, some c)
      else if e.reconnects
      then (p, 0, some (record c { last_user_time = e.now }))
      else (discard (destroy_connect p c), err_redis_conn, none)
    else (p, 0, some c)

finish_get : Bool → Env → Pool × Taken → Pool × ℕ × Option Conn
unfolding open_new check_idle
finish_get only_pool e (p, reuse c) = check_idle c e p
finish_get only_pool e (p, fresh can_create) = open_new only_pool can_create e p

-- The pool, the code, and what is stored through `rds` (`none`: `rds` is left as it was).
unfoldable pub get_connect : Bool → Env → Pool → Pool × ℕ × Option Conn
unfolding finish_get take_free
get_connect only_pool e p =
    if p.inited then finish_get only_pool e (take_free p) else (p, err_param_input, none)

rel_long : Conn → Bool → Env → Pool → Pool
unfolding destroy_connect
rel_long c check e p =
    if check && not e.alive
    then (let q = destroy_connect p c in
        record q {
          conn_count_process = dec q.conn_count_process;
          totalconn_count = dec q.totalconn_count;
        })
    else record p { freeconn_list = p.freeconn_list ++ record c { last_user_time = e.now } ∷ [] }

rel_short : Option Conn → Pool → Pool
unfolding destroy_connect
rel_short none p = record p { totalconn_count = dec p.totalconn_count }
rel_short (some c) p =
    let q = destroy_connect p c in record q { totalconn_count = dec q.totalconn_count }

rel_inited : Option Conn → Bool → Env → Pool → Pool
unfolding rel_long rel_short
rel_inited none check e p = rel_short none p
rel_inited (some c) check e p = if c.inpool then rel_long c check e p else rel_short (some c) p

unfoldable pub rel_connect : Option Conn → Bool → Env → Pool → Pool
unfolding rel_inited
rel_connect rds check e p = if p.inited then rel_inited rds check e p else p

-- The destructor.
unfoldable pub destruct : Pool → Pool
destruct p = if p.inited then uninit p else p
