-- ===== src/MongoAdmin.antt =====
-- mongo/mongopooladmin.cpp: `MongoConnPoolAdmin`, the pools of MongoDB by name. An address stands for
-- a pool; `destroyed` keeps what a pool held when its destructor had run. rapidjson supplies the
-- document, mongoc answers through `Answers`; each call runs by itself.
pub mod Once
mod Tests
use cnode.Prelude.{
  ℕ, zero, suc, ◌+◌, Bool, true, false, List, [], ◌∷◌, ◌++◌, map, Option, none, some, ◌==◌,
  if◌then◌else◌,
}
use cnode.Prelude.Int.{ℤ, pos, negsuc}
use cnode.Prelude.Bytes.{Bytes, lookup, assign, erase}
use cnode.MongoPool
use cnode.MongoPool.{Pool, Conf, Conn, Answers, emog_param_input}

abbrev pub emog_loadconf : ℕ
emog_loadconf = 302

abbrev pub emog_dup_init : ℕ
emog_dup_init = 304

abbrev pub emog_invalid_name : ℕ
emog_invalid_name = 305

-- What `GetStr` and `GetInt` read of an object of the file.
pub record Member : Type 0 where
  pub mongo_uri : Option Bytes
  pub db_name : Option Bytes
  pub coll_name : Option Bytes
  pub poolconnmax : Option ℤ
  pub initconn : Option ℤ

-- A file: it cannot be parsed, is no object, or has members, `none` for one that is no object.
pub data Json : Type 0 where
  unparsed : Json
  no_object : Json
  members : List (Bytes × Option Member) → Json

-- A pool at its address.
pub record Held : Type 0 where
  pub self : ℕ
  pub pool : Pool

pub record Admin : Type 0 where
  pub conn_pools : List (Bytes × Held)
  pub all_conf : List (Bytes × Conf)
  pub next_pool : ℕ
  pub destroyed : List Pool

abbrev or_empty : Option Bytes → Bytes
or_empty none = []
or_empty (some s) = s

abbrev or_zero : Option ℤ → ℤ
or_zero none = pos 0
or_zero (some n) = n

-- The loop of `LoadPoolFromFile`.
unfoldable pub load_loop : List (Bytes × Option Member) → List (Bytes × Conf) → List (Bytes × Conf)
unfolding assign
load_loop [] confs = confs
load_loop ((name, none) ∷ rest) confs = load_loop rest confs
load_loop ((name, some m) ∷ rest) confs = elim m.mongo_uri [
  | none ↦ load_loop rest confs
  | some uri ↦ load_loop rest (
      assign name
        (record {
          poolname = name;
          mongo_uri = uri;
          db_name = or_empty m.db_name;
          coll_name = or_empty m.coll_name;
          process_max_conn_num = or_zero m.poolconnmax;
          init_conn_num = or_zero m.initconn;
        })
        confs)
]

-- `LoadPoolFromFile` of a name, which may be null, and what the file holds.
unfoldable pub load_pool_from_file : Option Bytes → Json → Admin → Admin × ℕ
unfolding load_loop
load_pool_from_file none file a = (a, emog_param_input)
load_pool_from_file (some []) file a = (a, emog_param_input)
load_pool_from_file (some (c ∷ name)) unparsed a = (a, emog_loadconf)
load_pool_from_file (some (c ∷ name)) no_object a = (a, emog_param_input)
load_pool_from_file (some (c ∷ name)) (members ms) a =
    (record a { all_conf = load_loop ms a.all_conf }, 0)

-- The destructor.
unfoldable pub destruct : Pool → Pool
unfolding MongoPool.uninit
destruct p = MongoPool.uninit p

-- `new MongoConnPool`, on memory that held `raw`.
unfoldable pub new_pool : Pool → Pool
new_pool raw = record raw {
  conf = none;
  inited = false;
  freeconn_list = [];
  live = [];
  next_id = 0;
}

unfoldable pub keep_pool : Bytes → Pool × ℕ → Admin → Admin × ℕ
unfolding assign destruct
keep_pool name (pool, ret) a =
    if ret == 0
    then (
      record a {
        conn_pools = assign name (record { self = a.next_pool; pool = pool }) a.conn_pools;
        next_pool = a.next_pool + 1;
      },
      0,
    )
    else (
      record a { destroyed = a.destroyed ++ destruct pool ∷ []; next_pool = a.next_pool + 1 },
      ret,
    )

-- `RegisterPool(conf)`.
unfoldable pub register_pool : Option Conf → Answers → Pool → Admin → Admin × ℕ
unfolding lookup keep_pool new_pool MongoPool.init
register_pool none n raw a = (a, emog_param_input)
register_pool (some conf) n raw a = elim (lookup conf.poolname a.conn_pools) [
  | some pool ↦ (a, emog_dup_init)
  | none ↦ keep_pool conf.poolname (MongoPool.init (some conf) n (new_pool raw)) a
]

abbrev is_none : ℤ → Bool
is_none (pos n) = n == 0
is_none (negsuc n) = false

-- The loop of `RegisterPool()`.
unfoldable pub register_loop : List (Bytes × Conf) → (Bytes → Answers) → Pool → Admin → Admin
unfolding register_pool
register_loop [] n raw a = a
register_loop ((name, conf) ∷ confs) n raw a =
    let b =
      if is_none conf.process_max_conn_num
      then a
      else if is_none conf.init_conn_num
      then a
      else (register_pool (some conf) (n name) raw a).0 in
    register_loop confs n raw b

unfoldable pub register_all : (Bytes → Answers) → Pool → Admin → Admin × ℕ
unfolding register_loop
register_all n raw a = (register_loop a.all_conf n raw a, 0)

unfoldable pub destroy_pool : Option Bytes → Admin → Admin
unfolding lookup erase destruct
destroy_pool none a = record a {
  conn_pools = [];
  all_conf = [];
  destroyed = a.destroyed ++ map (λ entry. destruct entry.1.pool) a.conn_pools;
}
destroy_pool (some name) a = record a {
  conn_pools = erase name a.conn_pools;
  all_conf = erase name a.all_conf;
  destroyed = elim (lookup name a.conn_pools) [
    | none ↦ a.destroyed
    | some h ↦ a.destroyed ++ destruct h.pool ∷ []
  ];
}

-- `pool->getConnect(pmongo)`; a connection comes with the address of its `parent`.
unfoldable pub borrow : Bytes → Answers → Option Conn → Held → Admin → Admin × ℤ × Option Conn × ℕ
unfolding assign MongoPool.get_connect
borrow name n mog h a =
    let (q, code, out) = MongoPool.get_connect false n mog h.pool in
    (record a { conn_pools = assign name (record h { pool = q }) a.conn_pools }, code, out, h.self)

-- `GetConnect`, which calls itself when it has registered the pool; `none` is out of fuel.
unfoldable pub get_connect :
    ℕ → Bytes → Answers → Option Conn → Pool → Admin → Option (Admin × ℤ × Option Conn × ℕ)
unfolding lookup borrow register_pool
get_connect zero name n mog raw a = none
get_connect (suc fuel) name n mog raw a = elim (lookup name a.conn_pools) [
  | some h ↦ some (borrow name n mog h a)
  | none ↦ elim (lookup name a.all_conf) [
    | none ↦ some (a, pos emog_invalid_name, mog, 0)
    | some conf ↦
        let (b, ret) = register_pool (some conf) n raw a in
        elim (ret == 0) [
          | true ↦ get_connect fuel name n mog raw b
          | false ↦ some (b, pos ret, mog, 0)
        ]
  ]
]

unfoldable pub release_at : ℕ → Conn → List (Bytes × Held) → Option (List (Bytes × Held))
unfolding MongoPool.rel_connect
release_at at c [] = none
release_at at c ((k, h) ∷ rest) = elim (h.self == at) [
  | true ↦ some ((k, record h { pool = MongoPool.rel_connect (some c) h.pool }) ∷ rest)
  | false ↦ elim (release_at at c rest) [ none ↦ none | some later ↦ some ((k, h) ∷ later) ]
]

-- `ReleaseConnect` of a connection with its `parent`: one without a parent is deleted. The second part
-- is what it deletes; `none` is the use of a deleted pool.
unfoldable pub release_connect :
    Option Conn → (parent : Option ℕ) → Admin → Option (Admin × List Conn)
unfolding release_at
release_connect none parent a = some (a, [])
release_connect (some c) none a = some (a, c ∷ [])
release_connect (some c) (some parent) a = elim (release_at parent c a.conn_pools) [
  | none ↦ none
  | some pools ↦ some (record a { conn_pools = pools }, [])
]
