-- ===== src/Redis.antt =====
-- redis/redis.h: the error codes, the pool's configuration, and what the pools keep of a
-- `Redis` object. The commands themselves go to hiredis, which answers through `Env`.
use cnode.Prelude.{ℕ, Bool, Option}
use cnode.Prelude.Int.{ℤ}
use cnode.Prelude.Bytes.{Bytes}

abbrev pub err_param_input : ℕ
err_param_input = 101

abbrev pub err_init_fail : ℕ
err_init_fail = 103

abbrev pub err_dup_init : ℕ
err_dup_init = 105

abbrev pub err_loadconf : ℕ
err_loadconf = 106

abbrev pub err_parse_tag : ℕ
err_parse_tag = 107

abbrev pub err_invalid_name : ℕ
err_invalid_name = 108

abbrev pub err_redis_emptypool : ℕ
err_redis_emptypool = 205

abbrev pub err_redis_conn : ℕ
err_redis_conn = 206

-- `redis_pool_conf_t`. `none` is a null string.
pub record Conf : Type 0 where
  pub redisname : Option Bytes
  pub host : Option Bytes
  pub port : ℤ
  pub selectno : ℤ
  pub process_max_conn_num : ℤ
  pub init_conn_num : ℤ
  pub connect_timeout : ℤ
  pub cmd_timeout : ℤ

-- A `Redis` object: its address, `inpool`, `lastUserTime`, and the pool that `parent` names.
pub record Conn : Type 0 where
  pub id : ℕ
  pub inpool : Bool
  pub last_user_time : ℕ
  pub parent : Option ℕ

-- What one call meets outside: the clock, whether a new `Redis` is in state 0 when its
-- constructor ends, whether `getstate()` of the connection at hand is 0, and whether its
-- `reconnect()` gives 0.
pub record Env : Type 0 where
  pub now : ℕ
  pub connects : Bool
  pub alive : Bool
  pub reconnects : Bool
