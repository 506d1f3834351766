-- ===== src/MongoPool.antt =====
-- mongo/mongopool.h and mongo/mongopool.cpp: `MongoConnPool`, the pool of connections to MongoDB.
-- `live` and `next_id` stand for the heap of `Mongo` objects. What the calls of mongoc give is an
-- argument, `Answers`. The counters are integers, without the wrap at 2^31.
pub mod Sound
pub mod Race
mod Tests
use cnode.Prelude.{
  ℕ, zero, suc, ◌+◌, Bool, true, false, not, ◌&&◌, ◌||◌, List, [], ◌∷◌, ◌++◌, Option, none, some,
  ltb, ◌==◌, if◌then◌else◌, get_elem?,
}
use cnode.Prelude.Int.{ℤ, pos, negsuc, inc, dec, ltb_ℤ}
use cnode.Prelude.Bytes.{Bytes}
use cnode.RedisPool.{erase_id}
use cnode.RedisPool.Client.{remove_at}

abbrev pub emog_param_input : ℕ
emog_param_input = 301

abbrev pub emog_init_fail : ℕ
emog_init_fail = 303

-- `mongo_pool_conf_t`.
pub record Conf : Type 0 where
  pub poolname : Bytes
  pub mongo_uri : Bytes
  pub db_name : Bytes
  pub coll_name : Bytes
  pub process_max_conn_num : ℤ
  pub init_conn_num : ℤ

-- A `Mongo` object, by its address, with its `inpool`. Its `parent` is the pool.
pub record Conn : Type 0 where
  pub id : ℕ
  pub inpool : Bool

-- What `mongoc_client_pool_pop` and its collection give, `mongoc_client_new` and its collection:
-- whether they are not null.
pub record Answers : Type 0 where
  pub popped : Bool
  pub popped_coll : Bool
  pub made : Bool
  pub made_coll : Bool

pub record Pool : Type 0 where
  pub conf : Option Conf
  pub conn_count_process : ℤ
  pub conn_max_process : ℤ
  pub totalconn_count : ℤ
  pub peek_conn_count : ℤ
  pub inited : Bool
  pub freeconn_list : List Conn
  pub next_id : ℕ
  pub live : List ℕ

-- The limit that `create_connect` reads from the configuration.
unfoldable pub max_of : Option Conf → ℤ
max_of none = pos 0
max_of (some conf) = conf.process_max_conn_num

unfoldable pub raise_peek : Pool → Pool
raise_peek p =
    if ltb_ℤ p.peek_conn_count p.totalconn_count
    then record p { peek_conn_count = p.totalconn_count }
    else p

-- `new Mongo` of a connection that belongs to the pool, or of a short one.
unfoldable pub new_pooled : Pool → Pool × Option Conn
unfolding raise_peek
new_pooled p = (
  raise_peek (record p {
    conn_count_process = inc p.conn_count_process;
    totalconn_count = inc p.totalconn_count;
    next_id = p.next_id + 1;
    live = p.next_id ∷ p.live;
  }),
  some (record { id = p.next_id; inpool = true }),
)

unfoldable pub new_short : Pool → Pool × Option Conn
unfolding raise_peek
new_short p = (
  raise_peek (record p {
    totalconn_count = inc p.totalconn_count;
    next_id = p.next_id + 1;
    live = p.next_id ∷ p.live;
  }),
  some (record { id = p.next_id; inpool = false }),
)

-- The second half of `create_connect`.
unfoldable pub short_connect : Bool → Answers → Pool → Pool × Option Conn
unfolding new_short
short_connect only_pool a p =
    if not only_pool && (a.made && a.made_coll) then new_short p else (p, none)

unfoldable pub create_connect : Bool → Answers → Pool → Pool × Option Conn
unfolding max_of new_pooled short_connect
create_connect only_pool a p =
    if ltb_ℤ p.conn_count_process (max_of p.conf) && (a.popped && a.popped_coll)
    then new_pooled p
    else short_connect only_pool a p

unfoldable pub code_of : Option Conn → ℤ
code_of none = pos 1
code_of (some c) = pos 0

-- `getConnect`: the pool, the code, and what `mog` holds, where `mog` is what it held before.
unfoldable pub get_connect : Bool → Answers → Option Conn → Pool → Pool × ℤ × Option Conn
unfolding create_connect code_of
get_connect only_pool a mog p =
    if p.inited
    then (elim p.freeconn_list [
      | [] ↦ (let (q, made) = create_connect only_pool a p in (q, code_of made, made))
      | c ∷ rest ↦ (record p { freeconn_list = rest }, pos 0, some c)
    ])
    else (p, negsuc 0, mog)

unfoldable pub destroy_connect : Option Conn → Pool → Pool
destroy_connect none p = p
destroy_connect (some c) p = record p { live = erase_id c.id p.live }

unfoldable pub is_pooled : Option Conn → Bool
is_pooled none = false
is_pooled (some c) = c.inpool

unfoldable pub push_free : Option Conn → Pool → Pool
push_free none p = p
push_free (some c) p = record p { freeconn_list = p.freeconn_list ++ c ∷ [] }

unfoldable pub rel_connect : Option Conn → Pool → Pool
unfolding is_pooled push_free destroy_connect
rel_connect mog p =
    if p.inited
    then if is_pooled mog
      then push_free mog p
      else (let q = destroy_connect mog p in record q { totalconn_count = dec q.totalconn_count })
    else p

-- `Mongo::ping`.
abbrev pub ping : ℕ
ping = 0

-- The end of `init`: the first connection, `pinged` being what `ping` gives for it.
unfoldable pub first_connect : (pinged : ℕ) → Pool × ℤ × Option Conn → Pool × ℕ
unfolding rel_connect
first_connect zero (p, pos zero, mog) = (rel_connect mog p, 0)
first_connect (suc n) (p, pos zero, mog) = (p, emog_init_fail)
first_connect pinged (p, code, mog) = (p, emog_init_fail)

is_empty : Bytes → Bool
is_empty [] = true
is_empty (c ∷ s) = false

unfoldable pub bad_conf : Conf → Bool
unfolding is_empty
bad_conf conf =
    is_empty conf.mongo_uri
    || (ltb_ℤ conf.process_max_conn_num conf.init_conn_num || ltb_ℤ conf.init_conn_num (pos 0))

-- The pool behind `m_inited = true`.
unfoldable pub started : Conf → Pool → Pool
started conf p = record p {
  conf = some conf;
  conn_max_process = conf.process_max_conn_num;
  conn_count_process = pos 0;
  totalconn_count = pos 0;
  peek_conn_count = pos 0;
  freeconn_list = [];
  inited = true;
}

unfoldable pub init : Option Conf → Answers → Pool → Pool × ℕ
unfolding bad_conf started get_connect first_connect
init none a p = (p, emog_param_input)
init (some conf) a p =
    if bad_conf conf
    then (p, emog_param_input)
    else if ltb_ℤ (pos 0) conf.init_conn_num
    then first_connect ping (get_connect false a none (started conf p))
    else (started conf p, 0)

unfoldable pub destroy_all : List Conn → Pool → Pool
unfolding destroy_connect
destroy_all [] p = p
destroy_all (c ∷ cs) p = destroy_all cs (destroy_connect (some c) p)

unfoldable pub uninit : Pool → Pool
unfolding destroy_all
uninit p =
    if p.inited
    then (let q = destroy_all p.freeconn_list (record p { conf = none }) in
        record q { freeconn_list = []; inited = false })
    else p

-- Clients: what they hold, and their calls. `releases i` gives back the i-th connection that is
-- held; an index out of range is no call.
pub record System : Type 0 where
  pub pool : Pool
  pub leased : List Conn

pub data Call : Type 0 where
  gets : Bool → Answers → Call
  releases : ℕ → Call

unfoldable pub after_get : List Conn → Pool × ℤ × Option Conn → System
after_get leased (p, code, none) = record { pool = p; leased = leased }
after_get leased (p, code, some c) = record { pool = p; leased = c ∷ leased }

unfoldable pub release_held : System → ℕ → Option Conn → System
unfolding rel_connect
release_held s i none = s
release_held s i (some c) = record {
  pool = rel_connect (some c) s.pool;
  leased = remove_at s.leased i;
}

unfoldable pub step : System → Call → System
unfolding after_get release_held get_connect
step s (gets only_pool a) = after_get s.leased (get_connect only_pool a none s.pool)
step s (releases i) = release_held s i (get_elem? s.leased i)

unfoldable pub run : System → List Call → System
unfolding step
run s [] = s
run s (c ∷ cs) = run (step s c) cs
