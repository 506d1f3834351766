-- ===== src/PoolAdmin/Tests.antt =====
-- Runs of redis/redispooladmin.cpp, and its theorems at such inputs.
use cnode.Prelude.{◌≡◌, refl, true, List, [], ◌∷◌, none, some, arith}
use cnode.Prelude.Int.{pos, to_u32, inc}
use cnode.Prelude.Bytes.{codes, lookup, assign, eq_bytes}
use cnode.Redis.{Conf, Conn, Env}
use cnode.RedisPool
use cnode.RedisPool.{Pool}
use cnode.PoolAdmin.{Admin, new_admin, get_connect, register_pool, borrow, new_pool, keep_pool}
use cnode.PoolAdmin.Register.{IsAdmin}
use cnode.PoolAdmin.Clients.{
  System, Call, registers, gets, releases, IsSystem, nothing_lent, run, run-nothing_lent,
}

abbrev conf_a : Conf
conf_a = record {
  redisname = some (codes "a");
  host = some (codes "127.0.0.1");
  port = pos 6379;
  selectno = pos 0;
  process_max_conn_num = pos 3;
  init_conn_num = pos 1;
  connect_timeout = pos 2;
  cmd_timeout = pos 3;
}

abbrev raw : Pool
raw = record {
  self = 77;
  conf = none;
  conn_count_process = pos 7;
  conn_max_process = pos 7;
  totalconn_count = pos 7;
  wait_timeout = 7;
  peek_conn_count = pos 7;
  inited = true;
  freeconn_list = [];
  next_id = 7;
  live = [];
}

abbrev up : Env
up = record { now = 100; connects = true; alive = true; reconnects = true }

-- One configuration that is loaded, and no pool yet.
abbrev loaded : Admin
loaded = record new_admin { all_conf = (codes "a", conf_a) ∷ [] }

loaded-IsAdmin : IsAdmin loaded
loaded-IsAdmin = record {
  pools = record { homes = tt; fresh = λ s l. refl; once = λ s. omega arith };
  confs = ((refl, omega arith), tt);
}

abbrev conn : Conn
conn = record { id = 0; inpool = true; last_user_time = 100; parent = some 0 }

abbrev pool_a : Pool
pool_a = record {
  self = 0;
  conf = some conf_a;
  conn_count_process = pos 1;
  conn_max_process = pos 3;
  totalconn_count = pos 1;
  wait_timeout = 600;
  peek_conn_count = pos 0;
  inited = true;
  freeconn_list = [];
  next_id = 1;
  live = 0 ∷ [];
}

abbrev lending : Admin
lending = record loaded { conn_pools = (codes "a", pool_a) ∷ []; next_pool = 1 }

-- The first call registers the pool, and takes the connection that it opened.
registers_and_gets :
    get_connect 2 (codes "a") up (λ i. up) raw loaded ≡ some (lending, 0, some conn)
unfolding get_connect register_pool keep_pool new_pool borrow lookup assign RedisPool.init
    RedisPool.init_pool RedisPool.get_connect RedisPool.construct eq_bytes RedisPool.init_loop
    to_u32 RedisPool.add_pooled inc
registers_and_gets = refl

lending-IsAdmin : IsAdmin lending
lending-IsAdmin = record {
  pools = record {
    homes = (record { address = refl; inited = refl; free = tt }, tt);
    fresh = λ s l. ground (arith, l);
    once = λ s. ground arith;
  };
  confs = loaded-IsAdmin.confs;
}

finds_a : lookup (codes "a") lending.conn_pools ≡ some pool_a
unfolding lookup eq_bytes
finds_a = refl

abbrev calls : List Call
calls =
    registers (some conf_a) (λ i. up) raw
    ∷ gets (codes "a") up (λ i. up) raw
    ∷ gets (codes "a") up (λ i. up) raw
    ∷ releases 1 up
    ∷ gets (codes "b") up (λ i. up) raw
    ∷ []

run-nothing_lent_example : (t : System) × (run nothing_lent calls ≡ some t) × IsSystem t
run-nothing_lent_example = run-nothing_lent calls
