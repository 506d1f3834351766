-- ===== src/ThreadData/Resumed.antt =====
-- dealbase.cpp `postResume`, server.cpp `PipeNotifyCB`: every handler that is posted is resumed.
use cnode.Prelude.{
  ℕ, zero, suc, ◌+◌, ◌*◌, ◌≤◌, ◌<◌, ◌≡◌, refl, sym, ap, ◌∙◌, subst, false, List, [], ◌∷◌, ◌++◌,
  if◌then◌else◌, arith, Bool-cases, ◌⊎◌, inl, inr, length, length-append, length-take, length-drop,
}
use mathlib.Core.List.{append-nil}
use cnode.ThreadData.{pop_resume, write_pipe, read_pipe}
use cnode.ThreadData.Wakeup.{
  Wake, written, notified, looked, drained, Quiet, writes, reads, looks, drains, Reachable, IsAwake,
  Reachable-IsAwake, Quiet-IsAwake, pop_resume-cases, rs,
}

-- A bound on the steps that are left when nothing more is posted.
abbrev pub left : Wake → ℕ
left w =
    4 * w.writers
    + 3 * length w.td.pipe
    + 2 * length w.buff
    + length w.td.resume
    + (if w.draining then 1 else 0)

-- Each step that posts nothing takes from the bound.
pub Quiet-left : (w u : Wake) → Quiet w u → left u < left w
unfolding drained written notified looked write_pipe read_pipe
Quiet-left w u (writes _ l) = omega (arith, l, length-append w.td.pipe (b'r' ∷ []))
Quiet-left w u (reads _ d e l) =
    ground (arith, d, ap (λ k. length k) e, l, length-take 64 w.td.pipe, length-drop 64 w.td.pipe)
Quiet-left w u (looks _ c rest d e) = ground (arith, d, ap (λ k. length k) e)
Quiet-left w u (drains _ d) = elim (pop_resume-cases w.td) [
  | inl (e, f) ↦ subst (λ k. left (drained k w) < left w) (sym f) (ground (arith, d))
  | inr (p, rest, e, f) ↦
      subst (λ k. left (drained k w) < left w) (sym f) (ground (arith, d, ap (λ k. length k) e))
]

pub data Run : Wake → Wake → Type 0 where
  over : (w : Wake) → Run w w
  after : (w u v : Wake) → Quiet w u → Run u v → Run w v

abbrev pub steps : {w u : Wake} → Run w u → ℕ
steps (over w) = 0
steps (after w u v q r) = suc (steps r)

-- No call of `postResume` and no call of `PipeNotifyCB` is under way, and the pipe is empty.
pub record IsSettled (w : Wake) : Type 0 where
  pub no_writer : w.writers ≡ 0
  pub no_byte : w.td.pipe ≡ []
  pub no_buff : w.buff ≡ []
  pub no_drain : w.draining ≡ false

IsSettled-or-step : (w : Wake) → IsSettled w ⊎ ((u : Wake) × Quiet w u)
IsSettled-or-step w = elim (Bool-cases w.draining) [
  | inl d ↦ inr (drained (pop_resume w.td) w, drains w d)
  | inr d ↦ at_bytes w.buff refl d
]
  where
    at_pipe :
        (p : List ℕ) (n : ℕ)
        → w.td.pipe ≡ p
        → w.writers ≡ n
        → w.buff ≡ []
        → w.draining ≡ false
        → IsSettled w ⊎ ((u : Wake) × Quiet w u)
    at_pipe [] zero e f g d = inl (record { no_writer = f; no_byte = e; no_buff = g; no_drain = d })
    at_pipe [] (suc n) e f g d = inr (written w, writes w (omega arith))
    at_pipe (c ∷ p) n e f g d =
        inr (notified w, reads w d g (rw (ap (λ k. length k) e) (omega arith)))

    at_bytes :
        (b : List ℕ) → w.buff ≡ b → w.draining ≡ false → IsSettled w ⊎ ((u : Wake) × Quiet w u)
    at_bytes [] g d = at_pipe w.td.pipe w.writers refl refl g d
    at_bytes (c ∷ rest) g d = inr (looked c rest w, looks w c rest d g)

settled-resumed : (w : Wake) → IsAwake w → IsSettled w → (w.td.resume ≡ []) × (w.resumed ≡ w.posted)
settled-resumed w a z = go w.td.resume refl
  where
    go : (r : List ℕ) → w.td.resume ≡ r → (w.td.resume ≡ []) × (w.resumed ≡ w.posted)
    go [] e = (e, sym (append-nil w.resumed) ∙ ap (λ k. w.resumed ++ k) (sym e) ∙ a.order)
    go (p ∷ rest) e = absurd (
        ground (
          arith,
          a.woken (rw (ap (λ k. length k) e) (omega arith)),
          z.no_writer,
          z.no_drain,
          ap (λ k. rs k) z.no_byte,
          ap (λ k. rs k) z.no_buff,
        ))

Quiet-posted : (w u : Wake) → Quiet w u → u.posted ≡ w.posted
unfolding written notified looked drained
Quiet-posted w u (writes _ l) = refl
Quiet-posted w u (reads _ d e l) = refl
Quiet-posted w u (looks _ c rest d e) = refl
Quiet-posted w u (drains _ d) = elim (pop_resume-cases w.td) [
  | inl (e, f) ↦ ap (λ k. (drained k w).posted) f
  | inr (p, rest, e, f) ↦ ap (λ k. (drained k w).posted) f
]

-- However the steps are ordered once nothing more is posted, there are no more of them than a bound
-- that the state gives, and when no call is under way and the pipe is empty, every handler that was
-- posted was resumed once, in the order of the posts, and `resume` is empty.
pub Run-resumes :
    (w u : Wake) (r : Run w u)
    → Reachable w
    → (steps r + left u ≤ left w) × (IsSettled u → (u.td.resume ≡ []) × (u.resumed ≡ w.posted))
Run-resumes w u r h = go w u r (Reachable-IsAwake w h)
  where
    go :
        (w u : Wake) (r : Run w u)
        → IsAwake w
        → (steps r + left u ≤ left w) × (IsSettled u → (u.td.resume ≡ []) × (u.resumed ≡ w.posted))
    go w _ (over _) a = (omega arith, settled-resumed w a)
    go w v (after _ u _ q r) a =
        let (l, f) = go u v r (Quiet-IsAwake w u q a) in
        (omega (arith, l, Quiet-left w u q), λ z. ((f z).0, (f z).1 ∙ Quiet-posted w u q))

-- From every state that is reached, when nothing more is posted, the steps that are left lead to a
-- state in which no call is under way, the pipe is empty and every handler that was posted was
-- resumed once, in the order of the posts: no handler waits in `resume` for a wake-up that is lost.
pub posted-resumed :
    (w : Wake)
    → Reachable w
    → (u : Wake) × Run w u × IsSettled u × (u.td.resume ≡ []) × (u.resumed ≡ w.posted)
posted-resumed w h = go (left w) w (omega arith) (Reachable-IsAwake w h)
  where
    go :
        (n : ℕ) (w : Wake)
        → left w ≤ n
        → IsAwake w
        → (u : Wake) × Run w u × IsSettled u × (u.td.resume ≡ []) × (u.resumed ≡ w.posted)
    go zero w l a = elim (IsSettled-or-step w) [
      | inl z ↦ (w, over w, z, (settled-resumed w a z).0, (settled-resumed w a z).1)
      | inr (u, q) ↦ absurd (omega (arith, l, Quiet-left w u q))
    ]
    go (suc n) w l a = elim (IsSettled-or-step w) [
      | inl z ↦ (w, over w, z, (settled-resumed w a z).0, (settled-resumed w a z).1)
      | inr (u, q) ↦
          (let (v, r, z, e, f) =
              go n u (omega (arith, l, Quiet-left w u q)) (Quiet-IsAwake w u q a) in
            (v, after w u v q r, z, e, f ∙ Quiet-posted w u q))
    ]
