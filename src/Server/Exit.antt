-- ===== src/Server/Exit.antt =====
-- The loop in which `WaitExit` of server.cpp waits for the tasks.
use cnode.Prelude.{
  ℕ, zero, suc, ◌+◌, ◌*◌, ◌/◌, ◌≤◌, ◌<◌, ◌≡◌, ◌⊎◌, refl, some, arith, ◌&&◌, ltb, Bool-cases, inl,
  inr, dec_lt, subst,
}
use cnode.Server.{wait_loop}

-- How the loop ends, from a round `i` on.
Ends : (size : ℕ → ℕ) → (wait : ℕ) → ℕ × ℕ → Type 0
Ends size wait (rounds, last) =
    (last ≡ size rounds)
    × ((last ≡ 0) ⊎ (wait ≤ rounds * 300))
    × ((j : ℕ) → j < rounds → (0 < size j) × (j * 300 < wait))

more_rounds :
    (size : ℕ → ℕ) (wait i : ℕ)
    → ((j : ℕ) → j < i → (0 < size j) × (j * 300 < wait))
    → (0 < size i) × (i * 300 < wait)
    → (j : ℕ) → j < suc i
    → (0 < size j) × (j * 300 < wait)
more_rounds size wait i k h j l = elim (dec_lt j i) [
  | yes m ↦ k j m
  | no m ↦ (let e : i ≡ j = omega (arith, m, l) in subst (λ n. (0 < size n) × (n * 300 < wait)) e h)
]

wait_loop-Ends :
    (fuel : ℕ) (size : ℕ → ℕ) (wait i tms : ℕ)
    → tms ≡ i * 300
    → wait + 300 ≤ (fuel + i) * 300
    → i * 300 < wait + 300
    → ((j : ℕ) → j < i → (0 < size j) × (j * 300 < wait))
    → (r : ℕ × ℕ) × (wait_loop fuel size wait i tms ≡ some r) × Ends size wait r
unfolding wait_loop Ends
wait_loop-Ends zero size wait i tms t h b k = absurd (omega arith)
wait_loop-Ends (suc fuel) size wait i tms t h b k =
    elim (Bool-cases (ltb 0 (size i) && ltb tms wait)) [
      | inl more ↦
          (let (r, e, f) =
              wait_loop-Ends fuel size wait (suc i) (tms + 300) (omega arith) (omega arith)
                (ground (arith, more)) (more_rounds size wait i k (ground (arith, more, t))) in
            (r, rw (wait_loop, more) e, f))
      | inr done ↦ ((i, size i), rw (wait_loop, done) refl, (refl, ground arith, k))
    ]

-- The loop ends, and each of its rounds counts 300 ms: it is left in the first round before which
-- the pool is empty or the time is over, with the size that the pool has then. No round before
-- found the pool empty or the time over.
pub wait_loop_ends :
    (size : ℕ → ℕ) (wait : ℕ)
    → (rounds : ℕ) × (last : ℕ) × (wait_loop (wait / 300 + 2) size wait 0 0 ≡ some (rounds, last))
      × (last ≡ size rounds)
      × ((last ≡ 0) ⊎ (wait ≤ rounds * 300))
      × ((j : ℕ) → j < rounds → (0 < size j) × (j * 300 < wait))
unfolding Ends
wait_loop_ends size wait =
    let (r, e, f) =
      wait_loop-Ends (wait / 300 + 2) size wait 0 0 refl (omega arith) (omega arith)
        (λ j l. absurd (omega arith)) in
    (r.0, r.1, e, f.0, f.1, f.2)
