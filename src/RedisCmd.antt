-- ===== src/RedisCmd.antt =====
-- redis/redis.cpp: `Redis`, a connection to one server, and its commands. hiredis is an argument: what
-- its calls answer in a world `W` of their own. `pserver` is `none` when it is null, or the `err` of
-- the context; a `selectno` of 0 stands for those below too. `none` for a whole result is the use of a null pointer.
pub mod Wrappers
pub mod Reconnect
pub mod Exec
pub mod Outcome
pub mod Text
pub mod Hash
mod Tests
use cnode.Prelude.{
  ℕ, zero, suc, ◌+◌, ◌-◌, ◌/◌, ◌%◌, Bool, true, false, not, ◌&&◌, ◌||◌, List, [], ◌∷◌, ◌++◌, Option,
  none, some, ltb, ◌==◌, if◌then◌else◌,
}
use cnode.Prelude.Int.{ℤ, pos, negsuc, to_u32}
use cnode.Prelude.Bytes.{to_lower, Bytes, codes, within, eq_bytes, assign}
use cnode.Redis.{err_param_input}

abbrev pub err_disconnect : ℕ
err_disconnect = 200

abbrev pub err_reply_null : ℕ
err_reply_null = 202

abbrev pub err_reply_type : ℕ
err_reply_type = 203

-- `REDIS_REPLY_STRING` to `REDIS_REPLY_ERROR`.
pub data ReplyType : Type 0 where
  string : ReplyType
  array : ReplyType
  integer : ReplyType
  nil : ReplyType
  status : ReplyType
  error : ReplyType

abbrev pub is_status : ReplyType → Bool
is_status status = true
is_status _ = false

abbrev pub is_string : ReplyType → Bool
is_string string = true
is_string _ = false

abbrev pub is_integer : ReplyType → Bool
is_integer integer = true
is_integer _ = false

abbrev pub is_array : ReplyType → Bool
is_array array = true
is_array _ = false

abbrev pub is_nil : ReplyType → Bool
is_nil nil = true
is_nil _ = false

-- An element of an array, as far as the code reads it.
pub record Child : Type 0 where
  pub type : ReplyType
  pub str : Option Bytes

pub record Reply : Type 0 where
  pub type : ReplyType
  pub str : Option Bytes
  pub integer : ℤ
  pub element : List Child

-- `redisConnectWithTimeout` gives a context by its `err`, or null; `redisSetTimeout` succeeds or
-- not; `redisCommand` of a text leaves an `err` in the context and gives a reply, or null.
pub record Hiredis (W : Type 0) : Type 0 where
  pub connect : W → W × Option ℕ
  pub set_timeout : W → W × Bool
  pub command : ℕ → Bytes → W → W × ℕ × Option Reply

-- `sent` lists the texts of the calls of `redisCommand`.
pub record Redis (W : Type 0) : Type 0 where
  pub pserver : Option ℕ
  pub selectno : ℕ
  pub sent : List Bytes
  pub world : W

-- `%d` of a number, of as many digits as `fuel` at most.
unfoldable pub print_nat : (fuel n : ℕ) → Bytes
print_nat zero n = []
print_nat (suc fuel) n =
    let front = print_nat fuel (n / 10) in
    if ltb n 10 then (b'0' + n) ∷ [] else front ++ (b'0' + n % 10) ∷ []

-- `%d` of an `int`.
unfoldable pub print_int : ℤ → Bytes
unfolding print_nat
print_int (pos n) = print_nat 10 n
print_int (negsuc n) = b'-' ∷ print_nat 10 (n + 1)

-- `0 == strcasecmp(s, "OK")`.
unfoldable pub is_ok : Bytes → Bool
unfolding to_lower
is_ok (a ∷ b ∷ []) = to_lower a == b'o' && to_lower b == b'k'
is_ok _ = false

-- `r->type == REDIS_REPLY_STATUS && 0 == strcasecmp(r->str, "OK")`.
unfoldable pub status_ok : Reply → Option Bool
unfolding is_ok
status_ok r = elim (is_status r.type) [
  | true ↦ elim r.str [ none ↦ none | some s ↦ some (is_ok s) ]
  | false ↦ some false
]

module _ {W : Type 0} where
  -- `getstate`; a context has an `err` of 0 when it is in order.
  unfoldable pub getstate : Redis W → ℕ
  getstate rds = elim rds.pserver [ none ↦ 1 | some err ↦ err ]

  -- `redisCommand` on the context that is there.
  unfoldable pub redis_command : Hiredis W → Bytes → Redis W → Option (Redis W × Option Reply)
  redis_command h text rds = elim rds.pserver [
    | none ↦ none
    | some err ↦
        let (world, after, r) = h.command err text rds.world in
        some (record rds { pserver = some after; sent = rds.sent ++ text ∷ []; world = world }, r)
  ]

  unfoldable pub select_text : Redis W → Bytes
  unfolding print_nat
  select_text rds = codes "select " ++ print_nat 5 rds.selectno

  -- `select_no`: the text has the number of the configuration, whatever the argument is.
  unfoldable pub select_no : Hiredis W → ℕ → Redis W → Option (Redis W × ℕ)
  unfolding redis_command status_ok select_text
  select_no h zero rds = some (rds, 0)
  select_no h (suc k) rds = elim (redis_command h (select_text rds) rds) [
    | none ↦ none
    | some (q, none) ↦ some (q, err_reply_null)
    | some (q, some r) ↦ elim (status_ok r) [
      | none ↦ none
      | some ok ↦ some (q, if ok then 0 else 1)
    ]
  ]

  -- The end of `reconnect`, with the context that was made.
  unfoldable pub connected : Hiredis W → Redis W → Option (Redis W × ℕ)
  unfolding select_no
  connected h rds =
      let (world, set) = h.set_timeout rds.world in
      elim (select_no h rds.selectno (record rds { world = world })) [
        | none ↦ none
        | some (q, zero) ↦ some (q, if getstate q == 0 then 0 else 1)
        | some (q, suc ret) ↦ some (q, suc ret)
      ]

  unfoldable pub reconnect : Hiredis W → Redis W → Option (Redis W × ℕ)
  unfolding connected
  reconnect h rds =
      let (world, server) = h.connect rds.world in
      elim server [
        | none ↦ some (record rds { pserver = none; world = world }, 1)
        | some err ↦ connected h (record rds { pserver = some err; world = world })
      ]

  -- The constructor: a context with an error is freed.
  unfoldable pub new_redis : Hiredis W → Redis W → Option (Redis W)
  unfolding reconnect
  new_redis h rds = elim (reconnect h (record rds { pserver = none })) [
    | none ↦ none
    | some (q, ret) ↦ some (if getstate q == 0 then q else record q { pserver = none })
  ]

  -- The head of a round of `_exec_cmd`: the connection as it is then, or the error that ends the
  -- loop, whose log reads `pserver->errstr`.
  unfoldable pub ready : Hiredis W → Redis W → Option (Redis W × ℕ)
  unfolding getstate reconnect
  ready h rds = elim (getstate rds) [
    | zero ↦ some (rds, 0)
    | suc err ↦ elim (reconnect h rds) [
      | none ↦ none
      | some (q, zero) ↦ some (q, 0)
      | some (q, suc ret) ↦ elim q.pserver [ none ↦ none | some e ↦ some (q, err_disconnect) ]
    ]
  ]

  -- The loop of `_exec_cmd`, with `rounds` rounds left; `ret` is the code so far.
  unfoldable pub exec_loop :
      ℕ → ℕ → Hiredis W → Bytes → Redis W → Option (Redis W × ℕ × Option Reply)
  unfolding ready redis_command reconnect
  exec_loop zero ret h cmd rds = some (rds, ret, none)
  exec_loop (suc rounds) ret h cmd rds = elim (ready h rds) [
    | none ↦ none
    | some (p, suc code) ↦ some (p, suc code, none)
    | some (p, zero) ↦ elim (redis_command h cmd p) [
      | none ↦ none
      | some (q, some r) ↦ some (q, 0, some r)
      | some (q, none) ↦ elim (reconnect h q) [
        | none ↦ none
        | some (s, _) ↦ exec_loop rounds err_reply_null h cmd s
      ]
    ]
  ]

  -- `_exec_cmd` with its two tries; the code -1 it starts with is never left.
  unfoldable pub exec_cmd : Hiredis W → Bytes → Redis W → Option (Redis W × ℕ × Option Reply)
  unfolding exec_loop
  exec_cmd h cmd rds = exec_loop 2 err_reply_null h cmd rds
