-- ===== src/RedisConf/Tests.antt =====
-- Runs of redis/redispooladmin.cpp `LoadPoolFromFile`, and its theorem at such an input.
use cnode.Prelude.{◌≡◌, refl, List, [], ◌∷◌, none, some}
use cnode.Prelude.Int.{pos, to_i16}
use cnode.Prelude.Bytes.{codes, eq_bytes, lookup, assign}
use cnode.StrParse.{atoi}
use cnode.Redis.{Conf}
use cnode.Xml.{Element, attr_int, attr_strptr, attr_strdup}
use cnode.RedisConf.{conf_of, load_element, load_loop, from_redis, load_confs}
use cnode.RedisConf.Load.{option_map, first_named, load_confs-lookup}

abbrev root : Element
root = record { tag = codes "root"; text = none; attributes = (codes "selectno", codes "2") ∷ [] }

-- An element that is passed over, one that starts the loop, one with another tag, and a second one
-- of the first one's name.
abbrev children : List Element
children =
    record { tag = codes "x"; text = none; attributes = (codes "redisname", codes "a") ∷ [] }
    ∷ record {
      tag = codes "redis";
      text = none;
      attributes =
          (codes "redisname", codes "a")
          ∷ (codes "port", codes "65537")
          ∷ (codes "processMaxConnNum", codes "3")
          ∷ (codes "initConnNum", codes "5")
          ∷ [];
    }
    ∷ record { tag = codes "y"; text = none; attributes = (codes "redisname", codes "b") ∷ [] }
    ∷ record { tag = codes "redis"; text = none; attributes = (codes "redisname", codes "a") ∷ [] }
    ∷ []

abbrev conf_a : Conf
conf_a = record {
  redisname = some (codes "a");
  host = none;
  port = pos 1;
  selectno = pos 2;
  process_max_conn_num = pos 3;
  init_conn_num = pos 3;
  connect_timeout = pos 2;
  cmd_timeout = pos 3;
}

loads_a : lookup (codes "a") (load_confs root children []) ≡ some conf_a
unfolding load_confs load_loop load_element from_redis conf_of attr_int attr_strptr attr_strdup atoi
    lookup assign eq_bytes to_i16
loads_a = refl

load_confs-lookup_example :
    lookup (codes "a") (load_confs root children [])
    ≡ option_map
        (conf_of (to_i16 (attr_int (some root) (codes "selectno") (pos 0))))
        (first_named (codes "a") (from_redis children))
unfolding lookup
load_confs-lookup_example = load_confs-lookup (codes "a") root children []
