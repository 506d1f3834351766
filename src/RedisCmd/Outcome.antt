-- ===== src/RedisCmd/Outcome.antt =====
-- redis/redis.cpp: the codes of the commands, in any sequence of them.
use cnode.Prelude.{
  ℕ, zero, suc, ◌≡◌, ◌≢◌, ◌⊎◌, ◌↔◌, refl, ap, Bool, true, false, not, ◌==◌, List, [], ◌∷◌, ◌++◌,
  arith, Option, none, some, Every, length, Option-cases, Bool-cases, inl, inr,
}
use cnode.Prelude.Int.{ℤ, to_u32}
use cnode.Prelude.Bytes.{Bytes, codes, eq_bytes, assign}
use cnode.Redis.{err_param_input}
use cnode.StrParse.{all_of}
use cnode.RedisCmd.{
  Hiredis, select_text, Redis, Reply, Child, is_string, is_integer, is_array, is_nil,
  err_disconnect, err_reply_null, err_reply_type, exec_cmd,
}
use cnode.RedisCmd.Wrappers.{
  checked, with_reply, ok_status, any_integer, hash_of, length_of, list_of, string_or_nil,
  hash_loop, list_loop, set, get, rpush, hset, hget, hgetall, hmset, hmset_map, del, llen, lrange,
}
use cnode.RedisCmd.Reconnect.{IsTold, IsHiredis, status_ok-some}
use cnode.RedisCmd.Exec.{exec_cmd-total}

-- A call of a command, with what its out-parameters held.
pub data Command : Type 0 where
  sets : (key value : Option Bytes) → Command
  gets : (value : Bytes) (key : Option Bytes) → Command
  rpushes : (key value : Option Bytes) → Command
  hsets : (key field value : Option Bytes) → Command
  hgets : (value : Bytes) (key field : Option Bytes) → Command
  hgetalls : (key : Option Bytes) (hashdata : List (Bytes × Bytes)) → Command
  hmsets : (key strhash : Option Bytes) → Command
  hmset_maps : (key : Option Bytes) (hashdata : List (Bytes × Bytes)) → Command
  dels : (key : Option Bytes) → Command
  llens : (len : ℕ) (key : Option Bytes) → Command
  lranges : (result : List Bytes) (key : Option Bytes) (beg end : ℤ) → Command

abbrev text_of : Option Bytes → Bytes
text_of none = []
text_of (some s) = s

abbrev pairs_text : List (Bytes × Bytes) → Bytes
pairs_text [] = []
pairs_text ((k, v) ∷ rest) = (k ++ v) ++ pairs_text rest

-- The texts that a command puts into the format of `redisCommand`.
abbrev arguments : Command → Bytes
arguments (sets key value) = text_of key ++ text_of value
arguments (gets value key) = text_of key
arguments (rpushes key value) = text_of key ++ text_of value
arguments (hsets key field value) = (text_of key ++ text_of field) ++ text_of value
arguments (hgets value key field) = text_of key ++ text_of field
arguments (hgetalls key hashdata) = text_of key
arguments (hmsets key strhash) = text_of key ++ text_of strhash
arguments (hmset_maps key hashdata) = text_of key ++ pairs_text hashdata
arguments (dels key) = text_of key
arguments (llens len key) = text_of key
arguments (lranges result key beg end) = text_of key

-- Whether `get` has a key.
abbrev has_key : Command → Bool
has_key (gets value none) = false
has_key _ = true

-- No `%` comes into the format, and `get` has a key.
abbrev pub IsCall : Command → Type 0
IsCall c = (has_key c ≡ true) × (all_of (λ x. not (x == b'%')) (arguments c) ≡ true)

abbrev pub IsCode : ℕ → Type 0
IsCode code =
    (code ≡ 0)
    ⊎ (code ≡ err_param_input)
    ⊎ (code ≡ err_disconnect)
    ⊎ (code ≡ err_reply_null)
    ⊎ (code ≡ err_reply_type)

checked-IsCode : (ok : Bool) → IsCode (checked ok)
checked-IsCode true = inl refl
checked-IsCode false = inr (inr (inr (inr refl)))

abbrev Reads {ℓ} : {A : Type ℓ} → (Reply → Option (ℕ × A)) → Type ℓ
Reads {A = A} reads =
    (r : Reply) → IsTold r → (code : ℕ) × (a : A) × (reads r ≡ some (code, a)) × IsCode code

-- What is read of each reply.
ok_status-Reads : Reads ok_status
unfolding ok_status
ok_status-Reads r t =
    let (b, e) = status_ok-some r t.status_str in
    (checked b, tt, rw (ok_status, e) refl, checked-IsCode b)

string_or_nil-Reads : Reads string_or_nil
unfolding string_or_nil
string_or_nil-Reads r t = elim (Bool-cases (is_string r.type)) [
  | inr e ↦
      (checked (is_nil r.type), [], rw (e, string_or_nil) refl, checked-IsCode (is_nil r.type))
  | inl e ↦ elim (Option-cases r.str) [
    | inl n ↦ absurd (t.string_str e n)
    | inr (s, n) ↦ (0, s, rw (e, n, string_or_nil) refl, inl refl)
  ]
]

hash_loop-some :
    (cs : List Child) (field : Option Bytes) (m : List (Bytes × Bytes))
    → Every (λ c. is_string c.type ≡ true → c.str ≢ none) cs
    → (o : List (Bytes × Bytes)) × (hash_loop cs field m ≡ some o)
unfolding hash_loop
hash_loop-some [] field m t = (m, refl)
hash_loop-some (c ∷ cs) field m (t, ts) = elim (Bool-cases (is_string c.type)) [
  | inr e ↦ (let (o, f) = hash_loop-some cs field m ts in (o, rw (e, hash_loop) f))
  | inl e ↦ elim (Option-cases field) [
    | inl n ↦ (let (o, f) = hash_loop-some cs c.str m ts in (o, rw (e, n, hash_loop) f))
    | inr (name, n) ↦ elim (Option-cases c.str) [
      | inl k ↦ absurd (t e k)
      | inr (value, k) ↦
          (let (o, f) = hash_loop-some cs none (assign name value m) ts in
            (o, rw (e, n, k, hash_loop) f))
    ]
  ]
]

hash_of-Reads : (m : List (Bytes × Bytes)) → Reads (hash_of m)
unfolding hash_of
hash_of-Reads m r t =
    let (o, f) = hash_loop-some r.element none m t.element_str in
    (0, o, rw (f, hash_of) refl, inl refl)

length_of-Reads : (len : ℕ) → Reads (length_of len)
unfolding length_of
length_of-Reads len r t = elim (Bool-cases (is_integer r.type)) [
  | inl e ↦ (0, to_u32 r.integer, rw (e, length_of) refl, inl refl)
  | inr e ↦ (err_reply_type, len, rw (e, length_of) refl, inr (inr (inr (inr refl))))
]

list_of-Reads : (result : List Bytes) → Reads (list_of result)
unfolding list_of
list_of-Reads result r t = elim (Bool-cases (is_array r.type)) [
  | inl e ↦ (0, list_loop r.element result, rw (e, list_of) refl, inl refl)
  | inr e ↦ (err_reply_type, result, rw (e, list_of) refl, inr (inr (inr (inr refl))))
]

any_integer-Reads : Reads any_integer
unfolding any_integer
any_integer-Reads r t = (checked (is_integer r.type), tt, refl, checked-IsCode _)

module _ {W : Type 0} where
  -- The connection and the code, without what is stored through the out-parameters.
  abbrev pub code_only {ℓ} : {A : Type ℓ} → Option (Redis W × ℕ × A) → Option (Redis W × ℕ)
  code_only none = none
  code_only (some (q, code, a)) = some (q, code)

  unfoldable pub perform : Hiredis W → Command → Redis W → Option (Redis W × ℕ)
  unfolding set get rpush hset hget hgetall hmset hmset_map del llen lrange
  perform h (sets key value) rds = code_only (set h key value rds)
  perform h (gets value key) rds = code_only (get h value key rds)
  perform h (rpushes key value) rds = code_only (rpush h key value rds)
  perform h (hsets key field value) rds = code_only (hset h key field value rds)
  perform h (hgets value key field) rds = code_only (hget h value key field rds)
  perform h (hgetalls key hashdata) rds = code_only (hgetall h key hashdata rds)
  perform h (hmsets key strhash) rds = code_only (hmset h key strhash rds)
  perform h (hmset_maps key hashdata) rds = code_only (hmset_map h key hashdata rds)
  perform h (dels key) rds = code_only (del h key rds)
  perform h (llens len key) rds = code_only (llen h len key rds)
  perform h (lranges result key beg end) rds = code_only (lrange h result key beg end rds)

  -- Their codes in turn.
  unfoldable pub perform_all : Hiredis W → List Command → Redis W → Option (Redis W × List ℕ)
  unfolding perform
  perform_all h [] rds = some (rds, [])
  perform_all h (c ∷ cs) rds = elim (perform h c rds) [
    | none ↦ none
    | some (q, code) ↦ elim (perform_all h cs q) [
      | none ↦ none
      | some (s, codes) ↦ some (s, code ∷ codes)
    ]
  ]

  abbrev Performed {ℓ} : {A : Type ℓ} → Option (Redis W × ℕ × A) → Type 0
  Performed o = (q : Redis W) × (code : ℕ) × (code_only o ≡ some (q, code)) × IsCode code

  with_reply-Performed {ℓ} :
      {A : Type ℓ} (h : Hiredis W) (cmd : Bytes) (old : A) (reads : Reply → Option (ℕ × A))
      (rds : Redis W)
      → IsHiredis h
      → eq_bytes cmd (select_text rds) ≡ false
      → Reads reads
      → Performed (with_reply h cmd old reads rds)
  unfolding with_reply
  with_reply-Performed h cmd old reads rds law n total =
      let (q, code, o, g, agree, three, _, _, told) = exec_cmd-total h cmd rds law n in
      go q code o g agree three told
    where
      go :
          (q : Redis W) (code : ℕ) (o : Option Reply)
          → exec_cmd h cmd rds ≡ some (q, code, o)
          → (code ≡ 0) ↔ (o ≢ none)
          → (code ≡ 0) ⊎ (code ≡ err_disconnect) ⊎ (code ≡ err_reply_null)
          → ((r : Reply) → o ≡ some r → IsTold r)
          → Performed (with_reply h cmd old reads rds)
      go q zero none g agree three told = absurd (agree.0 refl refl)
      go q zero (some r) g agree three told =
          let (code, a, f, c) = total r (told r refl) in (q, code, rw (with_reply, g, f) refl, c)
      go q (suc code) o g agree three told = (
        q,
        suc code,
        rw (with_reply, g) refl,
        elim three [
          | inl e ↦ inl e
          | inr (inl e) ↦ inr (inr (inl e))
          | inr (inr e) ↦ inr (inr (inr (inl e)))
        ],
      )

  -- Every command comes to its end with one of the codes of its own.
  pub perform-Performed :
      (h : Hiredis W) (c : Command) (rds : Redis W)
      → IsHiredis h
      → has_key c ≡ true
      → (q : Redis W) × (code : ℕ) × (perform h c rds ≡ some (q, code)) × IsCode code
  unfolding perform set get rpush hset hget hgetall hmset hmset_map del llen lrange eq_bytes
      select_text
  perform-Performed h (sets (some key) (some value)) rds law k =
      with_reply-Performed h _ tt ok_status rds law refl ok_status-Reads
  perform-Performed h (sets none value) rds law k = (rds, err_param_input, refl, inr (inl refl))
  perform-Performed h (sets (some key) none) rds law k =
      (rds, err_param_input, refl, inr (inl refl))
  perform-Performed h (gets value none) rds law k = absurd (ground arith)
  perform-Performed h (gets value (some key)) rds law k =
      with_reply-Performed h _ value string_or_nil rds law refl string_or_nil-Reads
  perform-Performed h (rpushes (some key) (some value)) rds law k =
      with_reply-Performed h _ tt _ rds law refl any_integer-Reads
  perform-Performed h (rpushes none value) rds law k = (rds, err_param_input, refl, inr (inl refl))
  perform-Performed h (rpushes (some key) none) rds law k =
      (rds, err_param_input, refl, inr (inl refl))
  perform-Performed h (hsets (some key) (some field) (some value)) rds law k =
      with_reply-Performed h _ tt _ rds law refl any_integer-Reads
  perform-Performed h (hsets none field value) rds law k =
      (rds, err_param_input, refl, inr (inl refl))
  perform-Performed h (hsets (some key) none value) rds law k =
      (rds, err_param_input, refl, inr (inl refl))
  perform-Performed h (hsets (some key) (some field) none) rds law k =
      (rds, err_param_input, refl, inr (inl refl))
  perform-Performed h (hgets value (some key) (some field)) rds law k =
      with_reply-Performed h _ value string_or_nil rds law refl string_or_nil-Reads
  perform-Performed h (hgets value none field) rds law k =
      (rds, err_param_input, refl, inr (inl refl))
  perform-Performed h (hgets value (some key) none) rds law k =
      (rds, err_param_input, refl, inr (inl refl))
  perform-Performed h (hgetalls none hashdata) rds law k =
      (rds, err_param_input, refl, inr (inl refl))
  perform-Performed h (hgetalls (some key) hashdata) rds law k =
      with_reply-Performed h _ hashdata _ rds law refl (hash_of-Reads hashdata)
  perform-Performed h (hmsets (some key) (some strhash)) rds law k =
      with_reply-Performed h _ tt ok_status rds law refl ok_status-Reads
  perform-Performed h (hmsets none strhash) rds law k = (rds, err_param_input, refl, inr (inl refl))
  perform-Performed h (hmsets (some key) none) rds law k =
      (rds, err_param_input, refl, inr (inl refl))
  perform-Performed h (hmset_maps none hashdata) rds law k =
      (rds, err_param_input, refl, inr (inl refl))
  perform-Performed h (hmset_maps (some key) hashdata) rds law k =
      with_reply-Performed h _ tt ok_status rds law refl ok_status-Reads
  perform-Performed h (dels none) rds law k = (rds, err_param_input, refl, inr (inl refl))
  perform-Performed h (dels (some key)) rds law k =
      with_reply-Performed h _ tt _ rds law refl any_integer-Reads
  perform-Performed h (llens len none) rds law k = (rds, err_param_input, refl, inr (inl refl))
  perform-Performed h (llens len (some key)) rds law k =
      with_reply-Performed h _ len _ rds law refl (length_of-Reads len)
  perform-Performed h (lranges result none beg end) rds law k =
      (rds, err_param_input, refl, inr (inl refl))
  perform-Performed h (lranges result (some key) beg end) rds law k =
      with_reply-Performed h _ result _ rds law refl (list_of-Reads result)

  -- With a hiredis that has memory for its contexts, any sequence of commands, null arguments among
  -- them, comes to its end without the use of a null pointer, if the key of `get` is not null and no
  -- argument holds a `%`, which the format of `redisCommand` would read; and each command gives 0, `ERR_PARAM_INPUT`, `ERR_DISCONNECT`, `ERR_REPLY_NULL` or `ERR_REPLY_TYPE`.
  pub perform_all-total :
      (h : Hiredis W) (cs : List Command) (rds : Redis W)
      → IsHiredis h
      → Every IsCall cs
      → (q : Redis W) × (results : List ℕ) × (perform_all h cs rds ≡ some (q, results))
        × (length results ≡ length cs)
        × Every IsCode results
  unfolding perform_all
  perform_all-total h [] rds law k = (rds, [], refl, refl, tt)
  perform_all-total h (c ∷ cs) rds law k =
      let (q, code, f, i) = perform-Performed h c rds law k.0.0 in
      let (s, results, g, l, e) = perform_all-total h cs q law k.1 in
      (s, code ∷ results, rw (perform_all, f, g) refl, ap suc l, (i, e))
