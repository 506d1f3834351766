-- ===== src/RedisCmd/Exec.antt =====
-- redis/redis.cpp `_exec_cmd`: what it gives back, and how often it sends its command.
use cnode.Prelude.{
  ℕ, zero, suc, ◌+◌, ◌≤◌, ◌≡◌, ◌≢◌, ◌⊎◌, ◌↔◌, refl, ap, ◌∙◌, false, ◌++◌, Option, none, some,
  Option-cases, inl, inr, arith,
}
use cnode.Prelude.Bytes.{Bytes, codes, eq_bytes, eq_bytes_iff}
use cnode.RedisCmd.{
  Hiredis, select_text, Redis, Reply, err_disconnect, err_reply_null, print_nat, getstate,
  reconnect, ready, exec_loop, exec_cmd,
}
use cnode.RedisCmd.Reconnect.{
  IsTold, IsHiredis, times_sent, Kept, redis_command-some, reconnect-some,
}

module _ {W : Type 0} (h : Hiredis W) (law : IsHiredis h) (cmd : Bytes) where
  -- What the head of a round gives.
  abbrev Ready : Redis W → Redis W → ℕ → Type 0
  Ready rds q code = Kept cmd rds q × (q.pserver ≢ none) × ((code ≡ 0) ⊎ (code ≡ err_disconnect))

  ready-some :
      (rds : Redis W)
      → eq_bytes cmd (select_text rds) ≡ false
      → (q : Redis W) × (code : ℕ) × (ready h rds ≡ some (q, code)) × Ready rds q code
  unfolding ready getstate
  ready-some rds n = go rds.pserver refl
    where
      after :
          (err ret : ℕ) (q : Redis W) (x : ℕ)
          → getstate rds ≡ suc err
          → reconnect h rds ≡ some (q, ret)
          → Kept cmd rds q
          → q.pserver ≢ none
          → q.pserver ≡ some x
          → (q : Redis W) × (code : ℕ) × (ready h rds ≡ some (q, code)) × Ready rds q code
      after err zero q x e g k l m = (q, 0, rw (ready, e, g) refl, (k, l, inl refl))
      after err (suc ret) q x e g k l m = (
        q,
        err_disconnect,
        rw (ready, e, g, m) (ap (λ s. some (record q { pserver = s }, err_disconnect)) m),
        (k, l, inr refl),
      )

      lost :
          (err : ℕ)
          → getstate rds ≡ suc err
          → (q : Redis W) × (code : ℕ) × (ready h rds ≡ some (q, code)) × Ready rds q code
      lost err e =
          let (q, ret, g, k, l) = reconnect-some h law cmd rds n in
          elim (Option-cases q.pserver) [
            | inl m ↦ absurd (l m)
            | inr (x, m) ↦ after err ret q x e g k l m
          ]

      go :
          (s : Option ℕ)
          → rds.pserver ≡ s
          → (q : Redis W) × (code : ℕ) × (ready h rds ≡ some (q, code)) × Ready rds q code
      go none e = lost 0 (rw (e, getstate) refl)
      go (some zero) e = (
        rds,
        0,
        rw (e, ready, getstate) (ap (λ k. some (record rds { pserver = k }, 0)) e),
        (record { same_select = refl; same_times = refl }, λ f. cc, inl refl),
      )
      go (some (suc err)) e = lost err (rw (e, getstate) refl)

  -- What a run of the loop ends with.
  abbrev pub Ended : ℕ → Option Reply → Type 0
  Ended code o =
      ((code ≡ 0) × (o ≢ none)) ⊎ (((code ≡ err_disconnect) ⊎ (code ≡ err_reply_null)) × (o ≡ none))

  pub record Run (rounds : ℕ) (rds q : Redis W) (code : ℕ) (o : Option Reply) : Type 0 where
    pub ended : Ended code o
    pub told : (r : Reply) → o ≡ some r → IsTold r
    pub tries : times_sent cmd q ≤ times_sent cmd rds + rounds
    pub same_select : q.selectno ≡ rds.selectno

  abbrev Looped : ℕ → Redis W → Type 0
  unfolding exec_loop
  Looped rounds rds =
      (q : Redis W) × (code : ℕ) × (o : Option Reply) × (exec_loop rounds err_reply_null h cmd rds
        ≡ some (q, code, o))
      × Run rounds rds q code o

  -- A round behind its head, given what the later rounds do.
  from_ready :
      (rounds : ℕ) (rds : Redis W)
      → eq_bytes cmd (select_text rds) ≡ false
      → (p : Redis W) (code err : ℕ) → ready h rds ≡ some (p, code)
      → Kept cmd rds p
      → ((code ≡ 0) ⊎ (code ≡ err_disconnect))
      → p.pserver ≡ some err
      → ((s : Redis W) → eq_bytes cmd (select_text s) ≡ false → Looped rounds s)
      → Looped (suc rounds) rds
  unfolding exec_loop select_text
  from_ready rounds rds n p (suc code) err g k m z later = (
    p,
    suc code,
    none,
    rw (exec_loop, g) refl,
    record {
      ended = inr (inl (ground (arith, m)), refl);
      told = λ r e. absurd cc;
      tries = omega (arith, k.same_times);
      same_select = k.same_select;
    },
  )
  from_ready rounds rds n p zero err g k m z later =
      let (q, o, c, s, t, l, u) = redis_command-some h law cmd cmd p err z in
      let t1 : times_sent cmd q ≡ times_sent cmd rds + 1 =
        ground (arith, t, k.same_times, eq_bytes_iff cmd cmd) in
      elim (Option-cases o) [
        | inr (r, e) ↦ (
          q,
          0,
          some r,
          rw (exec_loop, g, c, e) refl,
          record {
            ended = inl (refl, λ f. cc);
            told = λ x f. l x (e ∙ f);
            tries = omega (arith, t1);
            same_select = s ∙ k.same_select;
          },
        )
        | inl e ↦
            let sel : q.selectno ≡ rds.selectno = s ∙ k.same_select in
            let (v, ret, w, y, x) =
              reconnect-some h law cmd q
                (ap (λ i. eq_bytes cmd (codes "select " ++ print_nat 5 i)) sel ∙ n) in
            let (q2, code2, o2, g2, run) = later v (
              ap (λ i. eq_bytes cmd (codes "select " ++ print_nat 5 i)) (y.same_select ∙ sel)
              ∙ n) in
            (
              q2,
              code2,
              o2,
              rw (exec_loop, g, c, e, w) g2,
              record {
                ended = run.ended;
                told = run.told;
                tries = omega (arith, run.tries, y.same_times, t1);
                same_select = run.same_select ∙ y.same_select ∙ sel;
              },
            )
      ]

  exec_loop-some :
      (rounds : ℕ) (rds : Redis W) → eq_bytes cmd (select_text rds) ≡ false → Looped rounds rds
  unfolding exec_loop
  exec_loop-some zero rds n = (
    rds,
    err_reply_null,
    none,
    refl,
    record {
      ended = inr (inr refl, refl);
      told = λ r e. absurd cc;
      tries = omega arith;
      same_select = refl;
    },
  )
  exec_loop-some (suc rounds) rds n =
      let (p, code, g, (k, l, m)) = ready-some rds n in
      elim (Option-cases p.pserver) [
        | inl z ↦ absurd (l z)
        | inr (err, z) ↦ from_ready rounds rds n p code err g k m z (exec_loop-some rounds)
      ]

-- With a hiredis that has memory for its contexts, `_exec_cmd` of a text that is not the one of
-- `select_no` uses no null pointer. Its code is 0 exactly when it gives a reply, and else
-- `ERR_DISCONNECT` or `ERR_REPLY_NULL`; it sends the text twice at most, whether or not it had to
-- connect again, and goes on selecting the same number.
pub exec_cmd-total :
    {W : Type 0} (h : Hiredis W) (cmd : Bytes) (rds : Redis W)
    → IsHiredis h
    → eq_bytes cmd (select_text rds) ≡ false
    → (q : Redis W) × (code : ℕ) × (o : Option Reply) × (exec_cmd h cmd rds ≡ some (q, code, o))
      × ((code ≡ 0) ↔ (o ≢ none))
      × ((code ≡ 0) ⊎ (code ≡ err_disconnect) ⊎ (code ≡ err_reply_null))
      × (times_sent cmd q ≤ times_sent cmd rds + 2)
      × (q.selectno ≡ rds.selectno)
      × ((r : Reply) → o ≡ some r → IsTold r)
unfolding exec_cmd
exec_cmd-total h cmd rds law n =
    let (q, code, o, g, run) = exec_loop-some h law cmd 2 rds n in
    (
      q,
      code,
      o,
      g,
      codes_agree code o run.ended,
      codes_three code o run.ended,
      run.tries,
      run.same_select,
      run.told,
    )
  where
    codes_agree : (code : ℕ) (o : Option Reply) → Ended h law cmd code o → (code ≡ 0) ↔ (o ≢ none)
    codes_agree code o (inl (z, w)) = (λ x. w, λ x. z)
    codes_agree code o (inr (z, w)) = (λ x. absurd (ground (arith, z, x)), λ f. absurd (f w))

    codes_three :
        (code : ℕ) (o : Option Reply)
        → Ended h law cmd code o
        → (code ≡ 0) ⊎ (code ≡ err_disconnect) ⊎ (code ≡ err_reply_null)
    codes_three code o (inl e) = inl e.0
    codes_three code o (inr e) = inr e.0
