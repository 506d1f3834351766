-- ===== src/Base64/Bits.antt =====
-- The `|` of comm/base64.cpp as a sum, and the array of comm/base64.cpp read both ways.
use Prim.Native.Nat.{bit_or, max, digits, bit_or-bitwise}
use cnode.Prelude.{
  ℕ, zero, suc, ◌+◌, ◌*◌, ◌/◌, ◌%◌, ◌^◌, ◌≤◌, ◌<◌, ◌≡◌, refl, ap, Bool, true, false, not, Option,
  none, some, ◌==◌, arith, sym, subst, Bool-cases, inl, inr, ◌∙◌, if◌then◌else◌,
}
use cnode.Prelude.Bytes.{char_at}
use cnode.Base64.{alphabet, find_pos}

abbrev join_digits : (rounds x y : ℕ) → ℕ
join_digits rounds x y = digits (λ d. d) max rounds x y

join_digits-zero : (rounds y : ℕ) → join_digits rounds 0 y ≡ y
join_digits-zero zero y = refl
join_digits-zero (suc rounds) y = refl

-- Rounds past the last digit of the first number do nothing.
join_digits_same : (x r s y : ℕ) → x ≤ r → x ≤ s → join_digits r x y ≡ join_digits s x y
join_digits_same zero r s y h k = join_digits-zero r y ∙ sym (join_digits-zero s y)
join_digits_same (suc x) zero s y h k = absurd (omega arith)
join_digits_same (suc x) (suc r) zero y h k = absurd (omega arith)
join_digits_same (suc x) (suc r) (suc s) y h k =
    let half = join_digits_same (suc x / 2) r s (y / 2) (omega arith) (omega arith) in
    omega (arith, half)

-- `x | y` by its lowest digit and the rest.
lowest_digit : (x y : ℕ) → bit_or x y ≡ bit_or (x / 2) (y / 2) * 2 + max (x % 2) (y % 2)
lowest_digit zero y =
    let whole : bit_or 0 y ≡ y = bit_or-bitwise 0 y in
    let half : bit_or 0 (y / 2) ≡ y / 2 = bit_or-bitwise 0 (y / 2) in omega (arith, whole, half)
lowest_digit (suc x) y =
    let half = suc x / 2 in
    let same = join_digits_same half x half (y / 2) (omega arith) (omega arith) in
    omega (arith, same, bit_or-bitwise half (y / 2), bit_or-bitwise (suc x) y)

join_digits_left : (rounds x : ℕ) → x ≤ rounds → join_digits rounds x 0 ≡ x
join_digits_left rounds zero h = join_digits-zero rounds 0
join_digits_left zero (suc x) h = absurd (omega arith)
join_digits_left (suc rounds) (suc x) h =
    omega (arith, join_digits_left rounds (suc x / 2) (omega arith))

bit_or-zero : (x : ℕ) → bit_or x 0 ≡ x
bit_or-zero x = bit_or-bitwise x 0 ∙ join_digits_left x x (omega arith)

bit_or_six : (a b : ℕ) → a % 64 ≡ 0 → b < 64 → bit_or a b ≡ a + b
bit_or_six a b h l =
    let a3 = a / 2 / 2 / 2 in
    let b3 = b / 2 / 2 / 2 in
    let end : b3 / 2 / 2 / 2 ≡ 0 = omega arith in
    omega (
      arith,
      lowest_digit a b,
      lowest_digit (a / 2) (b / 2),
      lowest_digit (a / 2 / 2) (b / 2 / 2),
      lowest_digit a3 b3,
      lowest_digit (a3 / 2) (b3 / 2),
      lowest_digit (a3 / 2 / 2) (b3 / 2 / 2),
      ap (bit_or (a3 / 2 / 2 / 2)) end,
      bit_or-zero (a3 / 2 / 2 / 2),
    )

-- Six bits below a number that is shifted to make room for them.
pub bit_or-shifted : (x y : ℕ) → y < 64 → bit_or (x * 2 ^ 6) y ≡ x * 64 + y
bit_or-shifted x y h = bit_or_six (x * 64) y (omega arith) h

-- Whether a test passes at `rounds` numbers from `first` on.
scan : (ℕ → Bool) → (first rounds : ℕ) → Bool
scan test first zero = true
scan test first (suc rounds) = if test first then scan test (suc first) rounds else false

scan_lem :
    (test : ℕ → Bool) (first rounds at : ℕ)
    → scan test first rounds ≡ true
    → first ≤ at
    → at < first + rounds
    → test at ≡ true
unfolding scan
scan_lem test first zero at passed l h = absurd (omega arith)
scan_lem test first (suc rounds) at passed l h =
    let here : test first ≡ true = ground arith in
    elim (Bool-cases (first == at)) [
      | inl e ↦ subst (λ k. test k ≡ true) (ground (arith, e)) here
      | inr e ↦
          scan_lem test (suc first) rounds at (ground (arith, passed, here)) (ground (arith, e, l))
            (omega (arith, h))
    ]

is_some_of : ℕ → Option ℕ → Bool
is_some_of n none = false
is_some_of n (some m) = m == n

is_some_of_eq : (n : ℕ) (o : Option ℕ) → is_some_of n o ≡ true → o ≡ some n
unfolding is_some_of
is_some_of_eq n none h = cc
is_some_of_eq n (some m) h = ground arith

table : scan (λ i. is_some_of i (find_pos (char_at alphabet i))) 0 64 ≡ true
unfolding scan is_some_of find_pos
table = refl

-- Each of the 64 entries stands at one place in the array.
pub find_pos-alphabet : (i : ℕ) → i < 64 → find_pos (char_at alphabet i) ≡ some i
find_pos-alphabet i h = is_some_of_eq i _ (scan_lem _ 0 64 i table (omega arith) (omega arith))

unpadded : scan (λ i. not (char_at alphabet i == b'=')) 0 64 ≡ true
unfolding scan
unpadded = refl

pub alphabet-ne-equals : (i : ℕ) → i < 64 → (char_at alphabet i == b'=') ≡ false
alphabet-ne-equals i h = ground (arith, scan_lem _ 0 64 i unpadded (omega arith) (omega arith))
