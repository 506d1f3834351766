-- ===== src/RedisPool/Tests.antt =====
-- Runs of redis/redispool.cpp on small inputs, and its theorems at such inputs.
use cnode.Prelude.{ℕ, ◌≡◌, refl, true, false, List, [], ◌∷◌, none, some, arith}
use cnode.Prelude.Int.{pos, inc, to_u32}
use cnode.Prelude.Bytes.{codes}
use cnode.Redis.{Conf, Env, err_redis_emptypool}
use cnode.RedisPool.{
  Pool, can_create_poolconn, init_loop, init_pool, create_connect, add_pooled, init, get_connect,
  rel_connect,
}
use cnode.RedisPool.Client.{System, Call, gets, releases, step, run}
use cnode.RedisPool.Invariant.{Inv, run-init-Inv}
use cnode.RedisPool.Ownership.{OwnedAt, run-init-OwnedAt}
use cnode.RedisPool.Race.{Threads, Within, Reach-Within, two-threads-exceed}

abbrev blank : Pool
blank = record {
  self = 1;
  conf = none;
  conn_count_process = pos 7;
  conn_max_process = pos 7;
  totalconn_count = pos 7;
  wait_timeout = 7;
  peek_conn_count = pos 7;
  inited = false;
  freeconn_list = [];
  next_id = 0;
  live = [];
}

abbrev conf : Conf
conf = record {
  redisname = some (codes "qlyredis");
  host = some (codes "127.0.0.1");
  port = pos 6379;
  selectno = pos 0;
  process_max_conn_num = pos 3;
  init_conn_num = pos 2;
  connect_timeout = pos 2;
  cmd_timeout = pos 3;
}

abbrev up : ℕ → Env
up t = record { now = t; connects = true; alive = true; reconnects = true }

abbrev down : ℕ → Env
down t = record { now = t; connects = false; alive = false; reconnects = false }

abbrev two_free : Pool
two_free = (init (some conf) up blank).0

-- Two from the list, one more up to the limit, then one outside the pool; releases follow.
abbrev calls : List Call
calls =
    gets false (up 10)
    ∷ gets false (up 11)
    ∷ gets true (up 12)
    ∷ gets true (up 13)
    ∷ gets false (up 14)
    ∷ releases 0 false (up 15)
    ∷ releases 0 true (down 16)
    ∷ releases 0 false (up 17)
    ∷ gets false (down 900)
    ∷ []

-- The object made outside the pool and the broken one are gone; the idle one could not be
-- opened again.
run-calls : (run (record { pool = two_free; leased = [] }) calls).pool.live ≡ 0 ∷ []
unfolding run step init init_pool init_loop can_create_poolconn create_connect add_pooled inc
    get_connect rel_connect to_u32
run-calls = refl

fails_at_limit :
    (get_connect true (up 5) (record two_free { freeconn_list = []; conn_count_process = pos 3 })).1
    ≡ err_redis_emptypool
unfolding get_connect init init_pool init_loop can_create_poolconn create_connect add_pooled inc
    to_u32
fails_at_limit = refl

run-init-Inv_example : Inv (run (record { pool = two_free; leased = [] }) calls)
run-init-Inv_example = run-init-Inv conf up blank calls (λ e. cc) (omega arith)

run-init-OwnedAt_example : OwnedAt 2 (run (record { pool = two_free; leased = [] }) calls)
run-init-OwnedAt_example = run-init-OwnedAt 2 conf up blank calls (λ e. cc) (omega arith) refl

abbrev lent : System
lent = record {
  pool = record blank { inited = true; next_id = 1; live = 0 ∷ [] };
  leased = record { id = 0; inpool = true; last_user_time = 3; parent = some 1 } ∷ [];
}

lent-OwnedAt : OwnedAt 0 lent
lent-OwnedAt = record { exact = refl; single = omega arith; unused = λ h. absurd (omega arith) }

abbrev nearly_full : Pool
nearly_full = record blank {
  inited = true;
  conn_count_process = pos 2;
  conn_max_process = pos 3;
  totalconn_count = pos 2;
}

one_left : inc nearly_full.conn_count_process ≡ nearly_full.conn_max_process
unfolding inc
one_left = refl

abbrev after_two : Threads
after_two = (two-threads-exceed nearly_full (up 4) refl one_left refl).0

Reach-Within_example : Within 2 after_two
Reach-Within_example =
    Reach-Within {n = 2} (omega arith) (two-threads-exceed nearly_full (up 4) refl one_left refl).1
