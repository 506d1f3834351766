-- ===== src/MongoAdmin/Tests.antt =====
-- A run of mongo/mongopooladmin.cpp, and its theorem at such an input.
use cnode.Prelude.{ℕ, ◌≡◌, true, false, [], ◌∷◌, Option, none, some}
use cnode.Prelude.Int.{ℤ, pos}
use cnode.Prelude.Bytes.{codes}
use cnode.MongoPool.{Conn, Answers, Pool}
use cnode.MongoAdmin.{Admin, Member, load_loop, get_connect}
use cnode.MongoAdmin.Once.{load_loop-IsOwn, get_connect-ends}

abbrev member : Member
member = record {
  mongo_uri = some (codes "mongodb://h");
  db_name = none;
  coll_name = none;
  poolconnmax = some (pos 2);
  initconn = some (pos 1);
}

abbrev admin : Admin
admin = record {
  conn_pools = [];
  all_conf = load_loop ((codes "p", some member) ∷ (codes "q", none) ∷ []) [];
  next_pool = 0;
  destroyed = [];
}

abbrev memory : Pool
memory = record {
  conf = none;
  conn_count_process = pos 0;
  conn_max_process = pos 0;
  totalconn_count = pos 0;
  peek_conn_count = pos 0;
  inited = false;
  freeconn_list = [];
  next_id = 0;
  live = [];
}

abbrev all : Answers
all = record { popped = true; popped_coll = true; made = true; made_coll = true }

get_connect-ends_example :
    (r : Admin × ℤ × Option Conn × ℕ) × (get_connect 2 (codes "p") all none memory admin ≡ some r)
    × (get_connect 9 (codes "p") all none memory admin ≡ some r)
get_connect-ends_example =
    get_connect-ends 7 (codes "p") all none memory admin
      (load_loop-IsOwn ((codes "p", some member) ∷ (codes "q", none) ∷ []) [] tt)
