-- ===== src/Md5/Absorb.antt =====
-- comm/md5.cpp: the loop over the blocks of a message, and how messages one after another go
-- through it.
use cnode.Prelude.{
  ℕ, zero, suc, ◌+◌, ◌*◌, ◌%◌, ◌^◌, ltb, ◌≤◌, ◌<◌, ◌≡◌, refl, sym, ap, ◌∙◌, true, false, ◌++◌, leb,
  arith, length, take, drop, length-take, length-drop, length-append, Bool-cases, inl, inr,
  take-append-drop,
}
use cnode.Prelude.Bytes.{Bytes, drop-append, take-append}
use cnode.Md5.{transform_blocks}
use cnode.Md5.Transform.{Words, transform}
use mathlib.Core.List.{append_assoc}

-- The blocks of a message as long as there is a whole one.
unfoldable pub whole_blocks : (rounds : ℕ) → Words → Bytes → Words × Bytes
whole_blocks zero state m = (state, m)
whole_blocks (suc rounds) state m = elim (leb 64 (length m)) [
  | true ↦ whole_blocks rounds (transform state (take 64 m)) (drop 64 m)
  | false ↦ (state, m)
]

-- The loop of `update` takes these, where `i + 63` does not wrap around.
pub blocks_fit :
    (n i : ℕ) (w : Words) (m : Bytes)
    → i + length m + 64 ≤ 2 ^ 32
    → transform_blocks n i w m ≡ whole_blocks n w m
unfolding transform_blocks whole_blocks
blocks_fit zero i w m l = refl
blocks_fit (suc n) i w m l = elim (Bool-cases (leb 64 (length m))) [
  | inl e ↦
      let g : 64 ≤ length m = ground (arith, e) in
      let t : ltb ((i + 63) % 2 ^ 32) (i + length m) ≡ true = ground (arith, g, l) in
      rw (e, t, transform_blocks, whole_blocks)
        (blocks_fit n (i + 64) (transform w (take 64 m)) (drop 64 m)
          (omega (arith, g, l, length-drop 64 m)))
  | inr e ↦
      let t : ltb ((i + 63) % 2 ^ 32) (i + length m) ≡ false = ground (arith, e, l) in
      rw (e, t, transform_blocks, whole_blocks) refl
]

-- The state after the whole blocks of a message, with what is left of the message.
abbrev pub absorb : Words → Bytes → Words × Bytes
absorb state m = whole_blocks (length m) state m

pub blocks_short : (n : ℕ) (w : Words) (m : Bytes) → length m < 64 → whole_blocks n w m ≡ (w, m)
unfolding whole_blocks
blocks_short zero w m l = refl
blocks_short (suc n) w m l =
    let e : leb 64 (length m) ≡ false = ground (arith, l) in rw (e, whole_blocks) refl

blocks_long :
    (n : ℕ) (w : Words) (m : Bytes)
    → 64 ≤ length m
    → whole_blocks (suc n) w m ≡ whole_blocks n (transform w (take 64 m)) (drop 64 m)
unfolding whole_blocks
blocks_long n w m l =
    let e : leb 64 (length m) ≡ true = ground (arith, l) in rw (e, whole_blocks) refl

-- More rounds than blocks change nothing.
pub blocks_fuel :
    (n k : ℕ) (w : Words) (m : Bytes)
    → length m ≤ n * 64
    → length m ≤ k * 64
    → whole_blocks n w m ≡ whole_blocks k w m
blocks_fuel zero k w m a b =
    blocks_short zero w m (omega arith) ∙ sym (blocks_short k w m (omega arith))
blocks_fuel n zero w m a b =
    blocks_short n w m (omega arith) ∙ sym (blocks_short zero w m (omega arith))
blocks_fuel (suc n) (suc k) w m a b = elim (Bool-cases (leb 64 (length m))) [
  | inl e ↦
      let l : 64 ≤ length m = ground (arith, e) in
      blocks_long n w m l
      ∙ blocks_fuel n k (transform w (take 64 m)) (drop 64 m) (omega (arith, length-drop 64 m))
          (omega (arith, length-drop 64 m))
      ∙ sym (blocks_long k w m l)
  | inr e ↦
      let l : length m < 64 = ground (arith, e) in
      blocks_short (suc n) w m l ∙ sym (blocks_short (suc k) w m l)
]

-- A whole block in front.
pub absorb_block :
    (w : Words) (block m : Bytes)
    → length block ≡ 64
    → absorb w (block ++ m) ≡ absorb (transform w block) m
absorb_block w block m l =
    let n = length-append block m in
    blocks_fuel (length (block ++ m)) (suc (length m)) w (block ++ m) (omega (arith, n))
      (omega (arith, n, l))
    ∙ blocks_long (length m) w (block ++ m) (omega (arith, n, l))
    ∙ ap (λ k. whole_blocks (length m) (transform w (take k (block ++ m))) (drop k (block ++ m)))
        (sym l)
    ∙ ap (λ t. whole_blocks (length m) (transform w t) (drop (length block) (block ++ m)))
        (take-append block m)
    ∙ ap (whole_blocks (length m) (transform w block)) (drop-append block m)

-- What a message leaves is shorter than a block, and as long as its length says.
absorb_left :
    (n : ℕ) (w : Words) (m : Bytes)
    → length m ≤ n * 64
    → length (whole_blocks n w m).1 ≡ length m % 64
absorb_left zero w m l =
    ap length (ap (λ r. r.1) (blocks_short zero w m (omega arith))) ∙ omega arith
absorb_left (suc n) w m l = elim (Bool-cases (leb 64 (length m))) [
  | inl e ↦
      let b : 64 ≤ length m = ground (arith, e) in
      ap (λ r. length r.1) (blocks_long n w m b)
      ∙ absorb_left n (transform w (take 64 m)) (drop 64 m) (omega (arith, length-drop 64 m))
      ∙ omega (arith, length-drop 64 m)
  | inr e ↦
      let b : length m < 64 = ground (arith, e) in
      ap (λ r. length r.1) (blocks_short (suc n) w m b) ∙ omega (arith, b)
]

pub length-absorb : (w : Words) (m : Bytes) → length (absorb w m).1 ≡ length m % 64
length-absorb w m = absorb_left (length m) w m (omega arith)

absorb_more :
    (n : ℕ) (w : Words) (m b : Bytes)
    → length m ≤ n * 64
    → absorb w (m ++ b) ≡ absorb (whole_blocks n w m).0 ((whole_blocks n w m).1 ++ b)
absorb_more zero w m b l =
    sym (ap (λ r. absorb r.0 (r.1 ++ b)) (blocks_short zero w m (omega arith)))
absorb_more (suc n) w m b l = elim (Bool-cases (leb 64 (length m))) [
  | inl e ↦
      let g : 64 ≤ length m = ground (arith, e) in
      ap (λ t. absorb w (t ++ b)) (sym (take-append-drop 64 m))
      ∙ ap (absorb w) (append_assoc (take 64 m) (drop 64 m) b)
      ∙ absorb_block w (take 64 m) (drop 64 m ++ b) (omega (arith, length-take 64 m))
      ∙ absorb_more n (transform w (take 64 m)) (drop 64 m) b (omega (arith, length-drop 64 m))
      ∙ sym (ap (λ r. absorb r.0 (r.1 ++ b)) (blocks_long n w m g))
  | inr e ↦ sym (ap (λ r. absorb r.0 (r.1 ++ b)) (blocks_short (suc n) w m (ground (arith, e))))
]

-- Two messages one after the other.
pub absorb-append :
    (w : Words) (m b : Bytes) → absorb w (m ++ b) ≡ absorb (absorb w m).0 ((absorb w m).1 ++ b)
absorb-append w m b = absorb_more (length m) w m b (omega arith)
