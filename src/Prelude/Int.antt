-- ===== src/Prelude/Int.antt =====
-- The C type `int` as an integer over the native numbers, under the library's names.
-- Ranges are not built in: a value leaves [-2^31, 2^31) only where a statement allows it.
use cnode.Prelude.{
  ℕ, zero, suc, ◌+◌, ◌-◌, ◌%◌, ◌^◌, ◌≤◌, ◌<◌, ◌≡◌, Bool, true, false, if◌then◌else◌, arith, ltb,
}

-- `negsuc n` is -(n + 1).
pub data ℤ : Type 0 where
  pos : ℕ → ℤ
  negsuc : ℕ → ℤ

abbrev pub pos_part : ℤ → ℕ
pos_part (pos n) = n
pos_part (negsuc n) = 0

abbrev pub neg_part : ℤ → ℕ
neg_part (pos n) = 0
neg_part (negsuc n) = suc n

-- `++n` and `--n`.
unfoldable pub inc : ℤ → ℤ
inc (pos n) = pos (n + 1)
inc (negsuc zero) = pos 0
inc (negsuc (suc n)) = negsuc n

unfoldable pub dec : ℤ → ℤ
dec (pos zero) = negsuc 0
dec (pos (suc n)) = pos n
dec (negsuc n) = negsuc (suc n)

infix 50 ◌≤ℤ◌ ◌<ℤ◌
abbrev pub ◌≤ℤ◌ : ℤ → ℤ → Type 0
a ≤ℤ b = pos_part a + neg_part b ≤ pos_part b + neg_part a

abbrev pub ◌<ℤ◌ : ℤ → ℤ → Type 0
a <ℤ b = pos_part a + neg_part b < pos_part b + neg_part a

abbrev pub ltb_ℤ : ℤ → ℤ → Bool
ltb_ℤ a b = ltb (pos_part a + neg_part b) (pos_part b + neg_part a)

-- Whether a code is 0.
abbrev pub gives_zero : ℤ → Bool
gives_zero (pos zero) = true
gives_zero (pos (suc n)) = false
gives_zero (negsuc n) = false

-- How many tasks `addTask` of comm/taskpool.cpp leaves in the queue with a code that is not 0: the
-- positive codes are those of `pthread_create`.
abbrev pub stale_of : ℤ → ℕ
stale_of (pos zero) = 0
stale_of (pos (suc n)) = 1
stale_of (negsuc n) = 0

-- The conversion from `int` to `unsigned int`.
unfoldable pub to_u32 : ℤ → ℕ
to_u32 (pos n) = n % 2 ^ 32
to_u32 (negsuc n) = 2 ^ 32 - 1 - n % 2 ^ 32

-- The conversion from `int` to `short`.
unfoldable pub to_i16 : ℤ → ℤ
to_i16 n =
    let m = (pos_part n + (2 ^ 16 - neg_part n % 2 ^ 16)) % 2 ^ 16 in
    if ltb m (2 ^ 15) then pos m else negsuc (2 ^ 16 - 1 - m)

pub inc_pos : (n : ℕ) → inc (pos n) ≡ pos (n + 1)
unfolding inc
inc_pos n = ground arith

pub dec_pos : (n : ℕ) → 0 < n → dec (pos n) ≡ pos (n - 1)
unfolding dec
dec_pos zero h = absurd (omega arith)
dec_pos (suc n) h = ground arith
