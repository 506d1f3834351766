-- ===== src/Base64/Bounds.antt =====
-- What `Encode` and `Decode` of comm/base64.cpp write, against the blocks that they allocate.
use cnode.Prelude.{
  ℕ, ◌+◌, ◌-◌, ◌*◌, ◌/◌, ◌%◌, ◌≤◌, ◌<◌, ◌≡◌, ◌⊎◌, ap, Bool, [], ◌∷◌, ◌++◌, some, arith, length,
  length-append, take, Option-cases, inl, inr, length-take,
}
use cnode.Prelude.Int.{ℤ}
use cnode.Prelude.Bytes.{Bytes}
use cnode.Base64.{
  encode_group, encode_loop, encode, encode_capacity, emit_group, decode_group, decode_loop,
  equal_count, done, decode,
}

length-encode_loop : (b : Bytes) → length (encode_loop b) ≡ (length b + 2) / 3 * 4
unfolding encode_loop encode_group
length-encode_loop [] = omega arith
length-encode_loop (x ∷ []) = omega arith
length-encode_loop (x ∷ y ∷ []) = omega arith
length-encode_loop (x ∷ y ∷ z ∷ b) = omega (arith, length-encode_loop b)

-- `Encode`, where it gives a text, writes four bytes for every three begun, and its block holds them
-- and the zero that ends the text.
pub encode_bounds :
    (given : ℕ → Bool) (b : Bytes) {t : Bytes}
    → encode given b ≡ some t
    → (length t ≡ (length b + 2) / 3 * 4) × (length t + 1 ≤ encode_capacity (length b))
unfolding encode
encode_bounds given b e =
    (ground (arith, e, length-encode_loop b), ground (arith, e, length-encode_loop b))

decode_group-length :
    (s : Bytes) {w : Bytes}
    → length s ≤ 4
    → decode_group s ≡ some w
    → length w ≡ length s - length s / 4
unfolding decode_group emit_group
decode_group-length [] h e = ground arith
decode_group-length (a ∷ []) h e = ground arith
decode_group-length (a ∷ b ∷ []) h e = ground arith
decode_group-length (a ∷ b ∷ c ∷ []) h e = ground arith
decode_group-length (a ∷ b ∷ c ∷ d ∷ []) h e = ground arith
decode_group-length (a ∷ b ∷ c ∷ d ∷ f ∷ s) h e = absurd (omega arith)

decode_loop_parts :
    (a b c d : ℕ) (s : Bytes) {w : Bytes}
    → decode_loop (a ∷ b ∷ c ∷ d ∷ s) ≡ some w
    → (x y : Bytes) × (decode_group (a ∷ b ∷ c ∷ d ∷ []) ≡ some x)
      × (decode_loop s ≡ some y)
      × (w ≡ x ++ y)
unfolding decode_loop
decode_loop_parts a b c d s e = elim (Option-cases (decode_group (a ∷ b ∷ c ∷ d ∷ []))) [
  | inl n ↦ absurd (ground arith)
  | inr (x, g) ↦ elim (Option-cases (decode_loop s)) [
    | inl n ↦ absurd (ground arith)
    | inr (y, l) ↦ (x, y, g, l, ground arith)
  ]
]

-- `Decode` writes as many bytes as it reads, less one for each full group of four.
decode_loop-length :
    (s : Bytes) {w : Bytes} → decode_loop s ≡ some w → length w ≡ length s - length s / 4
unfolding decode_loop
decode_loop-length [] e = ground arith
decode_loop-length (a ∷ []) e = decode_group-length (a ∷ []) (omega arith) e
decode_loop-length (a ∷ b ∷ []) e = decode_group-length (a ∷ b ∷ []) (omega arith) e
decode_loop-length (a ∷ b ∷ c ∷ []) e = decode_group-length (a ∷ b ∷ c ∷ []) (omega arith) e
decode_loop-length (a ∷ b ∷ c ∷ d ∷ s) e =
    let (x, y, g, l, j) = decode_loop_parts a b c d s e in
    omega (
      arith,
      ap length j,
      length-append x y,
      decode_group-length (a ∷ b ∷ c ∷ d ∷ []) (omega arith) g,
      decode_loop-length s l,
    )

equal_count-le : (s : Bytes) → equal_count s ≤ 3
equal_count-le s = ground arith

-- The sizes of the block and of what is written, wherever `Decode` comes to write.
decode_sizes :
    (s : Bytes) {capacity : ℕ} {written : Bytes} {out_len : ℤ}
    → decode s ≡ done capacity written out_len
    → (capacity ≡ length s / 4 * 3 + 1 - equal_count s)
      × (3 ≤ length s)
      × (equal_count s ≤ length s / 4 * 3 + 1)
      × (length written ≡ length s - equal_count s - (length s - equal_count s) / 4)
unfolding decode
decode_sizes s {capacity} {written} e =
    let limit = length s - equal_count s in
    let n : length (take limit s) ≡ limit = omega (arith, length-take limit s) in
    elim (Option-cases (decode_loop (take limit s))) [
      | inl f ↦ absurd (ground arith)
      | inr (w, f) ↦
          let l : length w ≡ limit - limit / 4 = rw n at (decode_loop-length (take limit s) f) in
          (ground arith, ground arith, ground arith, ground arith)
    ]

-- A text whose length is a multiple of four is decoded within its block.
pub decode_bounds :
    (s : Bytes) {capacity : ℕ} {written : Bytes} {out_len : ℤ}
    → length s % 4 ≡ 0
    → decode s ≡ done capacity written out_len
    → length written ≤ capacity
decode_bounds s m e =
    let (c, l, q, w) = decode_sizes s e in omega (arith, equal_count-le s, c, l, q, w)

-- A text of any other length, with no padding at its end, but for one byte over: `Decode` writes
-- past the end of its block.
pub decode_overflow :
    (s : Bytes) {capacity : ℕ} {written : Bytes} {out_len : ℤ}
    → (length s % 4 ≡ 2) ⊎ (length s % 4 ≡ 3)
    → equal_count s ≡ 0
    → decode s ≡ done capacity written out_len
    → capacity < length written
decode_overflow s m z e = let (c, l, q, w) = decode_sizes s e in omega (arith, z, c, l, q, w)
