-- ===== src/PoolAdmin.antt =====
-- redis/redispooladmin.cpp: `RedisConnPoolAdmin`, the pools by name. An address stands for a pool;
-- `destroyed` keeps what a pool held when its destructor had run. tinyxml supplies the document,
-- hiredis and the clock answer through `Env`; each call runs by itself.
pub mod Entries
pub mod Register
pub mod Get
pub mod Lent
pub mod Clients
mod Tests
use cnode.Prelude.{
  ℕ, zero, suc, ◌+◌, Bool, true, false, List, [], ◌∷◌, ◌++◌, map, Option, none, some, ◌==◌,
  if◌then◌else◌, ◌||◌,
}
use cnode.Prelude.Int.{ℤ, pos, negsuc}
use cnode.Prelude.Bytes.{Bytes, lookup, assign, erase}
use cnode.Redis.{
  Conf, Conn, Env, err_param_input, err_dup_init, err_loadconf, err_parse_tag, err_invalid_name,
}
use cnode.RedisPool
use cnode.RedisPool.{Pool}
use cnode.RedisConf.{Document, unreadable, rootless, rooted, load_confs}

pub record Admin : Type 0 where
  pub conn_pools : List (Bytes × Pool)
  pub all_conf : List (Bytes × Conf)
  pub next_pool : ℕ
  pub destroyed : List Pool

abbrev pub new_admin : Admin
new_admin = record { conn_pools = []; all_conf = []; next_pool = 0; destroyed = [] }

abbrev pub is_zero : ℤ → Bool
is_zero (pos n) = n == 0
is_zero (negsuc n) = false

unfoldable pub load_pool_from_file : Document → Admin → Admin × ℕ
unfolding load_confs
load_pool_from_file unreadable a = (a, err_loadconf)
load_pool_from_file rootless a = (a, err_parse_tag)
load_pool_from_file (rooted root children) a =
    (record a { all_conf = load_confs root children a.all_conf }, 0)

-- `new RedisConnPool`, on memory that held `raw`.
unfoldable pub new_pool : ℕ → Pool → Pool
unfolding RedisPool.construct
new_pool self raw = RedisPool.construct (record raw { self = self; live = []; next_id = 0 })

-- The pool that `init` is called on is kept under the name, or deleted.
unfoldable pub keep_pool : Bytes → Pool × ℕ → Admin → Admin × ℕ
unfolding assign RedisPool.destruct
keep_pool name (pool, ret) a =
    if ret == 0
    then (record a { conn_pools = assign name pool a.conn_pools; next_pool = a.next_pool + 1 }, 0)
    else (
      record a {
        destroyed = a.destroyed ++ RedisPool.destruct pool ∷ [];
        next_pool = a.next_pool + 1;
      },
      ret,
    )

register_named : Bytes → Conf → (ℕ → Env) → Pool → Admin → Admin × ℕ
unfolding lookup keep_pool new_pool RedisPool.init
register_named name conf env raw a = elim (lookup name a.conn_pools) [
  | some pool ↦ (a, err_dup_init)
  | none ↦ keep_pool name (RedisPool.init (some conf) env (new_pool a.next_pool raw)) a
]

-- `RegisterPool(conf)`.
unfoldable pub register_pool : Option Conf → (ℕ → Env) → Pool → Admin → Admin × ℕ
unfolding register_named
register_pool none env raw a = (a, err_param_input)
register_pool (some conf) env raw a = elim conf.redisname [
  | none ↦ (a, err_param_input)
  | some name ↦ register_named name conf env raw a
]

-- The loop of `RegisterPool()`.
unfoldable pub register_loop : List (Bytes × Conf) → (Bytes → ℕ → Env) → Pool → Admin → Admin
unfolding register_pool
register_loop [] env raw a = a
register_loop ((name, conf) ∷ confs) env raw a =
    let skip = is_zero conf.process_max_conn_num || is_zero conf.init_conn_num in
    register_loop confs env raw (if skip then a else (register_pool (some conf) (env name) raw a).0)

unfoldable pub register_all : (Bytes → ℕ → Env) → Pool → Admin → Admin × ℕ
unfolding register_loop
register_all env raw a = (register_loop a.all_conf env raw a, 0)

-- `delete` of the pools and of the configurations. Without a name, all of them.
unfoldable pub destroy_pool : Option Bytes → Admin → Admin
unfolding lookup erase RedisPool.destruct
destroy_pool none a = record a {
  conn_pools = [];
  all_conf = [];
  destroyed = a.destroyed ++ map (λ entry. RedisPool.destruct entry.1) a.conn_pools;
}
destroy_pool (some name) a = record a {
  conn_pools = erase name a.conn_pools;
  all_conf = erase name a.all_conf;
  destroyed = elim (lookup name a.conn_pools) [
    | none ↦ a.destroyed
    | some pool ↦ a.destroyed ++ RedisPool.destruct pool ∷ []
  ];
}

-- `pool->getConnect(predis)`, on the pool under the name.
unfoldable pub borrow : Bytes → Env → Pool → Admin → Admin × ℕ × Option Conn
unfolding assign RedisPool.get_connect
borrow name e pool a =
    let (q, code, out) = RedisPool.get_connect false e pool in
    (record a { conn_pools = assign name q a.conn_pools }, code, out)

-- `GetConnect`, which calls itself when it has registered the pool; `none` is out of fuel.
unfoldable pub get_connect :
    ℕ → Bytes → Env → (ℕ → Env) → Pool → Admin → Option (Admin × ℕ × Option Conn)
unfolding lookup borrow register_pool
get_connect zero name e env raw a = none
get_connect (suc fuel) name e env raw a = elim (lookup name a.conn_pools) [
  | some pool ↦ some (borrow name e pool a)
  | none ↦ elim (lookup name a.all_conf) [
    | none ↦ some (a, err_invalid_name, none)
    | some conf ↦
        let (b, ret) = register_pool (some conf) env raw a in
        elim (ret == 0) [ true ↦ get_connect fuel name e env raw b | false ↦ some (b, ret, none) ]
  ]
]

-- `relConnect` of the pool at an address; `none` when there is no pool.
unfoldable pub release_at : ℕ → Conn → Env → List (Bytes × Pool) → Option (List (Bytes × Pool))
unfolding RedisPool.rel_connect
release_at self c e [] = none
release_at self c e ((k, p) ∷ rest) = elim (p.self == self) [
  | true ↦ some ((k, RedisPool.rel_connect (some c) false e p) ∷ rest)
  | false ↦ elim (release_at self c e rest) [ none ↦ none | some later ↦ some ((k, p) ∷ later) ]
]

-- `ReleaseConnect`; `none` is the use of a pool that was deleted.
unfoldable pub release_connect : Option Conn → Env → Admin → Option Admin
unfolding release_at
release_connect none e a = some a
release_connect (some c) e a = elim c.parent [
  | none ↦ some a
  | some self ↦ elim (release_at self c e a.conn_pools) [
    | none ↦ none
    | some pools ↦ some (record a { conn_pools = pools })
  ]
]
