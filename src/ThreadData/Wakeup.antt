-- ===== src/ThreadData/Wakeup.antt =====
-- dealbase.cpp `postResume`, server.cpp `PipeNotifyCB`: other threads hand handlers back to the
-- event thread through `resume` and wake it by a byte on the pipe.
use cnode.Prelude.{
  ℕ, suc, ◌+◌, ◌-◌, ◌≤◌, ◌≡◌, refl, sym, ap, ◌∙◌, subst, ◌⊎◌, Bool, true, false, not, ◌&&◌, ◌||◌,
  List, [], ◌∷◌, ◌++◌, Option, none, some, ◌==◌, if◌then◌else◌, arith, inl, inr, length, count,
  count-append, count-take-drop,
}
use mathlib.Core.List.{append_assoc}
use cnode.ThreadData.{ThreadData, new_thread, push_resume, pop_resume, write_pipe, read_pipe}

-- A thread with the calls of `postResume` between their two halves, and `PipeNotifyCB` at the bytes
-- it has still to look at, `draining` inside its inner loop.
pub record Wake : Type 0 where
  pub td : ThreadData
  pub writers : ℕ
  pub buff : List ℕ
  pub resumecall : Bool
  pub draining : Bool
  pub posted : List ℕ
  pub resumed : List ℕ

abbrev pub idle : Wake
idle = record {
  td = new_thread;
  writers = 0;
  buff = [];
  resumecall = false;
  draining = false;
  posted = [];
  resumed = [];
}

unfoldable pub post : ℕ → Wake → Wake
unfolding push_resume
post ptr w = record w {
  td = push_resume ptr w.td;
  writers = suc w.writers;
  posted = w.posted ++ ptr ∷ [];
}

unfoldable pub written : Wake → Wake
unfolding write_pipe
written w = record w { td = write_pipe w.td; writers = w.writers - 1 }

-- The call of `read`, at the head of `PipeNotifyCB`.
unfoldable pub notified : Wake → Wake
unfolding read_pipe
notified w = record w { td = (read_pipe w.td).0; buff = (read_pipe w.td).1; resumecall = false }

-- One turn of the loop over the bytes.
unfoldable pub looked : ℕ → List ℕ → Wake → Wake
looked c rest w = record w {
  buff = rest;
  resumecall = w.resumecall || c == b'r';
  draining = c == b'r' && not w.resumecall;
}

-- One turn of the loop `while ( (deal = tdata->popResume()) )`, which ends when there is none.
unfoldable pub drained : ThreadData × Option ℕ → Wake → Wake
drained (td, none) w = record w { draining = false }
drained (td, some ptr) w = record w { td = td; resumed = w.resumed ++ ptr ∷ [] }

-- The steps that post nothing.
pub data Quiet : Wake → Wake → Type 0 where
  writes : (w : Wake) → 1 ≤ w.writers → Quiet w (written w)
  reads :
      (w : Wake) → w.draining ≡ false → w.buff ≡ [] → 1 ≤ length w.td.pipe → Quiet w (notified w)
  looks :
      (w : Wake) (c : ℕ) (rest : List ℕ)
      → w.draining ≡ false
      → w.buff ≡ c ∷ rest
      → Quiet w (looked c rest w)
  drains : (w : Wake) → w.draining ≡ true → Quiet w (drained (pop_resume w.td) w)

pub data Step : Wake → Wake → Type 0 where
  posts : (w : Wake) (ptr : ℕ) → Step w (post ptr w)
  quiet : (w u : Wake) → Quiet w u → Step w u

pub data Reachable : Wake → Type 0 where
  start : Reachable idle
  next : (w u : Wake) → Reachable w → Step w u → Reachable u

-- The bytes that wake the thread.
abbrev pub rs : List ℕ → ℕ
rs cs = count (λ c. c == b'r') cs

-- The handlers resumed are the first ones posted, and while some are left, something is under way
-- that makes the thread look at `resume` again.
pub record IsAwake (w : Wake) : Type 0 where
  pub order : w.resumed ++ w.td.resume ≡ w.posted
  pub woken :
      1 ≤ length w.td.resume
      → 1
        ≤ w.writers
          + rs w.td.pipe
          + (if w.draining then 1 else 0)
          + (if w.resumecall then 0 else rs w.buff)

pub post-IsAwake : (w : Wake) (ptr : ℕ) → IsAwake w → IsAwake (post ptr w)
unfolding post push_resume
post-IsAwake w ptr a = record {
  order = sym (append_assoc w.resumed w.td.resume (ptr ∷ [])) ∙ ap (λ k. k ++ ptr ∷ []) a.order;
  woken = λ h. omega arith;
}

writes-IsAwake : (w : Wake) → 1 ≤ w.writers → IsAwake w → IsAwake (written w)
unfolding written write_pipe
writes-IsAwake w l a = record {
  order = a.order;
  woken = λ h. ground (arith, a.woken h, l, count-append (λ c. c == b'r') w.td.pipe (b'r' ∷ []));
}

reads-IsAwake : (w : Wake) → w.draining ≡ false → w.buff ≡ [] → IsAwake w → IsAwake (notified w)
unfolding notified read_pipe
reads-IsAwake w d e a = record {
  order = a.order;
  woken = λ h.
      ground (arith, a.woken h, d, ap (λ k. rs k) e, count-take-drop (λ c. c == b'r') 64 w.td.pipe);
}

looks-IsAwake :
    (w : Wake) (c : ℕ) (rest : List ℕ)
    → w.draining ≡ false
    → w.buff ≡ c ∷ rest
    → IsAwake w
    → IsAwake (looked c rest w)
unfolding looked
looks-IsAwake w c rest d e a = record {
  order = a.order;
  woken = λ h. ground (arith, a.woken h, d, ap (λ k. rs k) e);
}

-- The two outcomes of `popResume`.
pub pop_resume-cases :
    (td : ThreadData)
    → ((td.resume ≡ []) × (pop_resume td ≡ (td, none)))
      ⊎ ((p : ℕ) × (rest : List ℕ) × (td.resume ≡ p ∷ rest)
          × (pop_resume td ≡ (record td { resume = rest }, some p)))
unfolding pop_resume
pop_resume-cases td = go td.resume refl
  where
    go :
        (r : List ℕ)
        → td.resume ≡ r
        → ((td.resume ≡ []) × (pop_resume td ≡ (td, none)))
          ⊎ ((p : ℕ) × (rest : List ℕ) × (td.resume ≡ p ∷ rest)
              × (pop_resume td ≡ (record td { resume = rest }, some p)))
    go [] e = inl (e, rw (e, pop_resume) (ap (λ k. (record td { resume = k }, none)) e))
    go (p ∷ rest) e = inr (p, rest, e, rw (e, pop_resume) refl)

drains-IsAwake : (w : Wake) → w.draining ≡ true → IsAwake w → IsAwake (drained (pop_resume w.td) w)
unfolding drained
drains-IsAwake w d a = elim (pop_resume-cases w.td) [
  | inl (e, f) ↦
      subst (λ k. IsAwake (drained k w)) (sym f)
        (record { order = a.order; woken = λ h. absurd (ground (arith, h, ap (λ k. length k) e)) })
  | inr (p, rest, e, f) ↦
      subst (λ k. IsAwake (drained k w)) (sym f)
        (record {
          order = append_assoc w.resumed (p ∷ []) rest ∙ ap (λ k. w.resumed ++ k) (sym e) ∙ a.order;
          woken = λ h. ground (arith, d);
        })
]

pub Quiet-IsAwake : (w u : Wake) → Quiet w u → IsAwake w → IsAwake u
Quiet-IsAwake w u (writes _ l) a = writes-IsAwake w l a
Quiet-IsAwake w u (reads _ d e l) a = reads-IsAwake w d e a
Quiet-IsAwake w u (looks _ c rest d e) a = looks-IsAwake w c rest d e a
Quiet-IsAwake w u (drains _ d) a = drains-IsAwake w d a

pub Reachable-IsAwake : (w : Wake) → Reachable w → IsAwake w
Reachable-IsAwake w start = record { order = refl; woken = λ h. absurd (omega arith) }
Reachable-IsAwake w (next v _ r (posts _ p)) = post-IsAwake v p (Reachable-IsAwake v r)
Reachable-IsAwake w (next v _ r (quiet _ _ q)) = Quiet-IsAwake v w q (Reachable-IsAwake v r)
