-- ===== src/RedisCmd/Reconnect.antt =====
-- redis/redis.cpp `reconnect`: what it needs of hiredis, and what it keeps.
use cnode.Prelude.{
  ℕ, zero, suc, ◌+◌, ◌≡◌, ◌≢◌, refl, ◌∙◌, Bool, true, false, [], ◌∷◌, ◌++◌, Option, none, some,
  if◌then◌else◌, ◌==◌, Option-cases, Bool-cases, inl, inr, arith, count, count-append, Every,
}
use cnode.Prelude.Bytes.{Bytes, eq_bytes}
use cnode.RedisCmd.{
  Hiredis, Redis, Reply, is_string, is_status, err_reply_null, is_ok, status_ok, select_text,
  getstate, redis_command, select_no, connected, reconnect,
}

-- A status and a text have their bytes, also among the elements.
pub record IsTold (r : Reply) : Type 0 where
  pub status_str : is_status r.type ≡ true → r.str ≢ none
  pub string_str : is_string r.type ≡ true → r.str ≢ none
  pub element_str : Every (λ c. is_string c.type ≡ true → c.str ≢ none) r.element

-- What is documented of hiredis: a context is null only where memory is short; a status and a text
-- have their bytes.
pub record IsHiredis {W : Type 0} (h : Hiredis W) : Type 0 where
  pub allocates : (w : W) → (h.connect w).1 ≢ none
  pub tells :
      (err : ℕ) (text : Bytes) (w : W) (r : Reply) → (h.command err text w).2 ≡ some r → IsTold r

-- How often a text was sent.
abbrev pub times_sent : {W : Type 0} → Bytes → Redis W → ℕ
times_sent cmd rds = count (eq_bytes cmd) rds.sent

-- What reconnecting keeps: the number it selects, and how often any other text was sent.
pub record Kept {W : Type 0} (cmd : Bytes) (p q : Redis W) : Type 0 where
  pub same_select : q.selectno ≡ p.selectno
  pub same_times : times_sent cmd q ≡ times_sent cmd p

pub status_ok-some :
    (r : Reply) → (is_status r.type ≡ true → r.str ≢ none) → (b : Bool) × (status_ok r ≡ some b)
unfolding status_ok
status_ok-some r t = elim (Bool-cases (is_status r.type)) [
  | inr e ↦ (false, rw (e, status_ok) refl)
  | inl e ↦ elim (Option-cases r.str) [
    | inl n ↦ absurd (t e n)
    | inr (s, n) ↦ (is_ok s, rw (e, n, status_ok) refl)
  ]
]

module _ {W : Type 0} (h : Hiredis W) (law : IsHiredis h) (cmd : Bytes) where
  pub redis_command-some :
      (text : Bytes) (rds : Redis W) (err : ℕ)
      → rds.pserver ≡ some err
      → (q : Redis W) × (o : Option Reply) × (redis_command h text rds ≡ some (q, o))
        × (q.selectno ≡ rds.selectno)
        × (times_sent cmd q ≡ times_sent cmd rds + (if eq_bytes cmd text then 1 else 0))
        × ((r : Reply) → o ≡ some r → IsTold r)
        × (q.pserver ≢ none)
  unfolding redis_command
  redis_command-some text rds err e =
      let a = h.command err text rds.world in
      (
        record rds { pserver = some a.1; sent = rds.sent ++ text ∷ []; world = a.0 },
        a.2,
        rw (e, redis_command) refl,
        refl,
        count-append (eq_bytes cmd) rds.sent (text ∷ []) ∙ omega arith,
        λ r f. law.tells err text rds.world r f,
        λ f. cc,
      )

  select_no-some :
      (k : ℕ) (rds : Redis W) (err : ℕ)
      → rds.pserver ≡ some err
      → eq_bytes cmd (select_text rds) ≡ false
      → (q : Redis W) × (ret : ℕ) × (select_no h k rds ≡ some (q, ret))
        × Kept cmd rds q
        × (q.pserver ≢ none)
  unfolding select_no select_text
  select_no-some zero rds err e n =
      (rds, 0, refl, record { same_select = refl; same_times = refl }, λ f. cc)
  select_no-some (suc k) rds err e n =
      let (q, o, g, s, t, l, p) = redis_command-some (select_text rds) rds err e in
      let kept : Kept cmd rds q = record { same_select = s; same_times = t ∙ rw n (omega arith) } in
      elim (Option-cases o) [
        | inl m ↦ (q, err_reply_null, rw (select_no, g, m) refl, kept, p)
        | inr (r, m) ↦
            let (b, f) = status_ok-some r (l r m).status_str in
            (q, (if b then 0 else 1), rw (select_no, g, m, f) refl, kept, p)
      ]

  connected-some :
      (rds : Redis W) (err : ℕ)
      → rds.pserver ≡ some err
      → eq_bytes cmd (select_text rds) ≡ false
      → (q : Redis W) × (ret : ℕ) × (connected h rds ≡ some (q, ret))
        × Kept cmd rds q
        × (q.pserver ≢ none)
  unfolding connected select_text
  connected-some rds err e n =
      let p = record rds { world = (h.set_timeout rds.world).0 } in
      let (q, ret, g, k, l) = select_no-some rds.selectno p err e n in
      let kept : Kept cmd rds q = record {
        same_select = k.same_select;
        same_times = k.same_times;
      } in
      go ret (q) g kept l
    where
      go :
          (ret : ℕ) (q : Redis W)
          → select_no h rds.selectno (record rds { world = (h.set_timeout rds.world).0 })
            ≡ some (q, ret)
          → Kept cmd rds q
          → q.pserver ≢ none
          → (q : Redis W) × (ret : ℕ) × (connected h rds ≡ some (q, ret))
            × Kept cmd rds q
            × (q.pserver ≢ none)
      go zero q g k l = (q, (if getstate q == 0 then 0 else 1), rw (connected, g) refl, k, l)
      go (suc ret) q g k l = (q, suc ret, rw (connected, g) refl, k, l)

  -- `reconnect` keeps what was sent, but for its own text, and leaves a context.
  pub reconnect-some :
      (rds : Redis W)
      → eq_bytes cmd (select_text rds) ≡ false
      → (q : Redis W) × (ret : ℕ) × (reconnect h rds ≡ some (q, ret))
        × Kept cmd rds q
        × (q.pserver ≢ none)
  unfolding reconnect select_text
  reconnect-some rds n = elim (Option-cases (h.connect rds.world).1) [
    | inl m ↦ absurd (law.allocates rds.world m)
    | inr (err, m) ↦
        let p : Redis W = record rds { pserver = some err; world = (h.connect rds.world).0 } in
        let (q, ret, g, k, l) = connected-some p err refl n in
        (
          q,
          ret,
          rw (reconnect, m) g,
          record { same_select = k.same_select; same_times = k.same_times },
          l,
        )
  ]
