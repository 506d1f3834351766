-- ===== src/RedisCmd/Wrappers.antt =====
-- redis/redis.cpp: the commands, each a text for `_exec_cmd` and a reading of its reply. A `none`
-- among the arguments is a null pointer.
use cnode.Prelude.{
  ℕ, zero, suc, Bool, true, false, List, [], ◌∷◌, ◌++◌, Option, none, some, if◌then◌else◌,
}
use cnode.Prelude.Int.{ℤ, to_u32}
use cnode.Prelude.Bytes.{Bytes, codes, assign}
use cnode.Redis.{err_param_input}
use cnode.RedisCmd.{
  Hiredis, Redis, Reply, is_string, is_integer, is_array, is_nil, Child, err_reply_type, status_ok,
  exec_cmd, print_int,
}

abbrev pub blank : Bytes
blank = b' ' ∷ []

abbrev pub checked : Bool → ℕ
checked ok = if ok then 0 else err_reply_type

unfoldable pub ok_status : Reply → Option (ℕ × Unit {0})
unfolding status_ok
ok_status r = elim (status_ok r) [ none ↦ none | some ok ↦ some (checked ok, tt) ]

unfoldable pub any_integer : Reply → Option (ℕ × Unit {0})
any_integer r = some (checked (is_integer r.type), tt)

-- `value.clear()`, and the text of a reply that is one.
unfoldable pub string_or_nil : Reply → Option (ℕ × Bytes)
string_or_nil r = elim (is_string r.type) [
  | true ↦ elim r.str [ none ↦ none | some s ↦ some (0, s) ]
  | false ↦ some (checked (is_nil r.type), [])
]

-- The loop of `hgetall`: `field` is the name that waits for its value.
unfoldable pub hash_loop :
    List Child → Option Bytes → List (Bytes × Bytes) → Option (List (Bytes × Bytes))
unfolding assign
hash_loop [] field hashdata = some hashdata
hash_loop (c ∷ cs) field hashdata = elim (is_string c.type) [
  | false ↦ hash_loop cs field hashdata
  | true ↦ elim field [
    | none ↦ hash_loop cs c.str hashdata
    | some name ↦ elim c.str [
      | none ↦ none
      | some value ↦ hash_loop cs none (assign name value hashdata)
    ]
  ]
]

-- The text of a map.
unfoldable pub print_hash : List (Bytes × Bytes) → Bytes
print_hash [] = []
print_hash ((name, value) ∷ m) = blank ++ name ++ blank ++ value ++ print_hash m

unfoldable pub list_loop : List Child → List Bytes → List Bytes
list_loop [] result = result
list_loop (c ∷ cs) result = list_loop cs (elim c.str [ none ↦ result | some s ↦ result ++ s ∷ [] ])

unfoldable pub hash_of : List (Bytes × Bytes) → Reply → Option (ℕ × List (Bytes × Bytes))
unfolding hash_loop
hash_of hashdata r = elim (hash_loop r.element none hashdata) [ none ↦ none | some m ↦ some (0, m) ]

unfoldable pub length_of : ℕ → Reply → Option (ℕ × ℕ)
unfolding to_u32
length_of len r = some (if is_integer r.type then (0, to_u32 r.integer) else (err_reply_type, len))

unfoldable pub list_of : List Bytes → Reply → Option (ℕ × List Bytes)
unfolding list_loop
list_of result r =
    some (if is_array r.type then (0, list_loop r.element result) else (err_reply_type, result))

module _ {W : Type 0} where
  -- `_exec_cmd`, and what is done with a reply when its code is 0.
  unfoldable pub with_reply {ℓ} :
      {A : Type ℓ}
      → Hiredis W
      → Bytes
      → A
      → (Reply → Option (ℕ × A))
      → Redis W
      → Option (Redis W × ℕ × A)
  unfolding exec_cmd
  with_reply h cmd old reads rds = elim (exec_cmd h cmd rds) [
    | none ↦ none
    | some (q, suc code, r) ↦ some (q, suc code, old)
    | some (q, zero, none) ↦ none
    | some (q, zero, some r) ↦ elim (reads r) [ none ↦ none | some (code, a) ↦ some (q, code, a) ]
  ]

  unfoldable pub set :
      Hiredis W → Option Bytes → Option Bytes → Redis W → Option (Redis W × ℕ × Unit {0})
  unfolding with_reply ok_status
  set h (some key) (some value) rds =
      with_reply h (codes "set " ++ key ++ blank ++ value) tt ok_status rds
  set h _ _ rds = some (rds, err_param_input, tt)

  -- The key of `get` is not tested: a null one is appended to a string.
  unfoldable pub get : Hiredis W → Bytes → Option Bytes → Redis W → Option (Redis W × ℕ × Bytes)
  unfolding with_reply string_or_nil
  get h value none rds = none
  get h value (some key) rds = with_reply h (codes "get " ++ key) value string_or_nil rds

  unfoldable pub rpush :
      Hiredis W → Option Bytes → Option Bytes → Redis W → Option (Redis W × ℕ × Unit {0})
  unfolding with_reply
  rpush h (some key) (some value) rds =
      with_reply h (codes "rpush " ++ key ++ blank ++ value) tt any_integer rds
  rpush h _ _ rds = some (rds, err_param_input, tt)

  unfoldable pub hset :
      Hiredis W
      → Option Bytes
      → Option Bytes
      → Option Bytes
      → Redis W
      → Option (Redis W × ℕ × Unit {0})
  unfolding with_reply
  hset h (some key) (some field) (some value) rds =
      with_reply h (codes "hset " ++ key ++ blank ++ field ++ blank ++ value) tt any_integer rds
  hset h _ _ _ rds = some (rds, err_param_input, tt)

  unfoldable pub hget :
      Hiredis W → Bytes → Option Bytes → Option Bytes → Redis W → Option (Redis W × ℕ × Bytes)
  unfolding with_reply string_or_nil
  hget h value (some key) (some field) rds =
      with_reply h (codes "hget " ++ key ++ blank ++ field) value string_or_nil rds
  hget h value _ _ rds = some (rds, err_param_input, value)

  unfoldable pub hgetall :
      Hiredis W
      → Option Bytes
      → List (Bytes × Bytes)
      → Redis W
      → Option (Redis W × ℕ × List (Bytes × Bytes))
  unfolding with_reply hash_of
  hgetall h none hashdata rds = some (rds, err_param_input, hashdata)
  hgetall h (some key) hashdata rds =
      with_reply h (codes "hgetall " ++ key) hashdata (hash_of hashdata) rds

  unfoldable pub hmset :
      Hiredis W → Option Bytes → Option Bytes → Redis W → Option (Redis W × ℕ × Unit {0})
  unfolding with_reply ok_status
  hmset h (some key) (some strhash) rds =
      with_reply h (codes "hmset " ++ key ++ blank ++ strhash) tt ok_status rds
  hmset h _ _ rds = some (rds, err_param_input, tt)

  unfoldable pub hmset_map :
      Hiredis W → Option Bytes → List (Bytes × Bytes) → Redis W → Option (Redis W × ℕ × Unit {0})
  unfolding hmset print_hash
  hmset_map h key hashdata rds = hmset h key (some (print_hash hashdata)) rds

  unfoldable pub del : Hiredis W → Option Bytes → Redis W → Option (Redis W × ℕ × Unit {0})
  unfolding with_reply
  del h none rds = some (rds, err_param_input, tt)
  del h (some key) rds = with_reply h (codes "del " ++ key) tt any_integer rds

  -- `len` keeps its value when the reply is no number.
  unfoldable pub llen : Hiredis W → ℕ → Option Bytes → Redis W → Option (Redis W × ℕ × ℕ)
  unfolding with_reply length_of
  llen h len none rds = some (rds, err_param_input, len)
  llen h len (some key) rds = with_reply h (codes "llen " ++ key) len (length_of len) rds

  unfoldable pub lrange :
      Hiredis W
      → List Bytes
      → Option Bytes
      → (beg end : ℤ) → Redis W
      → Option (Redis W × ℕ × List Bytes)
  unfolding with_reply list_of print_int
  lrange h result none beg end rds = some (rds, err_param_input, result)
  lrange h result (some key) beg end rds =
      with_reply h (codes "lrange " ++ key ++ blank ++ print_int beg ++ blank ++ print_int end)
        result (list_of result) rds
