-- ===== src/RedisConf.antt =====
-- redis/redispooladmin.cpp `LoadPoolFromFile`: the configurations of the pools, from the elements
-- of a document that tinyxml has parsed.
pub mod Load
mod Tests
use cnode.Prelude.{Bool, false, List, [], ◌∷◌, Option, none, some, if◌then◌else◌}
use cnode.Prelude.Int.{ℤ, pos, ltb_ℤ, to_i16}
use cnode.Prelude.Bytes.{Bytes, codes, eq_bytes, lookup, assign}
use cnode.Redis.{Conf}
use cnode.Xml.{Element, attr_int, attr_strptr, attr_strdup}

abbrev pub def_redis_connecttimeout : ℤ
def_redis_connecttimeout = pos 2

abbrev pub def_redis_cmdtimeout : ℤ
def_redis_cmdtimeout = pos 3

abbrev pub def_redis_initconnnum : ℤ
def_redis_initconnnum = pos 1

-- The configuration that one element gives.
unfoldable pub conf_of : ℤ → Element → Conf
unfolding attr_strdup attr_int
conf_of public_selectno e =
    let int = λ (name : Bytes). λ (def : ℤ). attr_int (some e) name def in
    let max = int (codes "processMaxConnNum") (pos 0) in
    let init = int (codes "initConnNum") def_redis_initconnnum in
    record {
      redisname = attr_strdup (some e) (codes "redisname") false;
      host = attr_strdup (some e) (codes "host") false;
      port = to_i16 (int (codes "port") (pos 0));
      selectno = to_i16 (int (codes "selectno") public_selectno);
      connect_timeout = int (codes "connectTimeout") def_redis_connecttimeout;
      cmd_timeout = int (codes "cmdTimeout") def_redis_cmdtimeout;
      process_max_conn_num = max;
      init_conn_num = if ltb_ℤ max init then max else init;
    }

-- One round of the loop over the elements.
unfoldable pub load_element : ℤ → Element → List (Bytes × Conf) → List (Bytes × Conf)
unfolding attr_strptr conf_of lookup assign
load_element public_selectno e confs = elim (attr_strptr (some e) (codes "redisname") false) [
  | none ↦ confs
  | some name ↦ elim (lookup name confs) [
    | none ↦ assign name (conf_of public_selectno e) confs
    | some conf ↦ confs
  ]
]

unfoldable pub load_loop : ℤ → List Element → List (Bytes × Conf) → List (Bytes × Conf)
unfolding load_element
load_loop public_selectno [] confs = confs
load_loop public_selectno (e ∷ es) confs =
    load_loop public_selectno es (load_element public_selectno e confs)

-- `FirstChildElement("redis")`: the elements from the first one with that tag on.
unfoldable pub from_redis : List Element → List Element
unfolding eq_bytes
from_redis [] = []
from_redis (e ∷ es) = if eq_bytes e.tag (codes "redis") then e ∷ es else from_redis es

-- What `LoadFile` gives: nothing, a document without a root, or a root with its children.
pub data Document : Type 0 where
  unreadable : Document
  rootless : Document
  rooted : Element → List Element → Document

-- The configurations that a document's root and its children add.
unfoldable pub load_confs : Element → List Element → List (Bytes × Conf) → List (Bytes × Conf)
unfolding load_loop from_redis attr_int
load_confs root children confs =
    let public_selectno = to_i16 (attr_int (some root) (codes "selectno") (pos 0)) in
    load_loop public_selectno (from_redis children) confs
