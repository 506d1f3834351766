-- ===== src/MongoPool/Tests.antt =====
-- Runs of mongo/mongopool.cpp, and its theorems at such inputs.
use cnode.Prelude.{ℕ, ◌≡◌, refl, true, false, List, [], ◌∷◌, none, some}
use cnode.Prelude.Int.{pos, inc}
use cnode.Prelude.Bytes.{codes}
use cnode.MongoPool.{
  Conf, Conn, Answers, Pool, init, bad_conf, Call, gets, releases, run, get_connect, create_connect,
}
use cnode.MongoPool.Sound.{SoundAt, run-init-SoundAt}

abbrev conf : Conf
conf = record {
  poolname = codes "cnode_pool";
  mongo_uri = codes "mongodb://h";
  db_name = codes "cloud";
  coll_name = codes "test";
  process_max_conn_num = pos 3;
  init_conn_num = pos 2;
}

abbrev all : Answers
all = record { popped = true; popped_coll = true; made = true; made_coll = true }

abbrev memory : Pool
memory = record {
  conf = none;
  conn_count_process = pos 9;
  conn_max_process = pos 9;
  totalconn_count = pos 9;
  peek_conn_count = pos 9;
  inited = false;
  freeconn_list = [];
  next_id = 0;
  live = [];
}

init_ok : (init (some conf) all memory).1 ≡ 0
unfolding init bad_conf get_connect create_connect inc
init_ok = refl

abbrev calls : List Call
calls = gets false all ∷ gets false all ∷ releases 1 ∷ gets true all ∷ []

run-init-SoundAt_example :
    SoundAt 0 (run (record { pool = (init (some conf) all memory).0; leased = [] }) calls)
run-init-SoundAt_example = run-init-SoundAt 0 conf all memory calls refl init_ok

abbrev conn : ℕ → Conn
conn n = record { id = n; inpool = true }
