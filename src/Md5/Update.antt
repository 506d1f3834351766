-- ===== src/Md5/Update.antt =====
-- comm/md5.cpp: `update` carries the message along, in whatever pieces it comes.
use cnode.Prelude.{
  ℕ, zero, suc, ◌+◌, ◌-◌, ◌*◌, ◌%◌, ◌^◌, ◌≤◌, ◌<◌, ◌≡◌, refl, sym, ap, subst, ◌∙◌, [], ◌∷◌, ◌++◌,
  leb, arith, length, take, drop, length-take, length-drop, length-append, Bool-cases, inl, inr,
  take-append-drop,
}
use cnode.Prelude.Bytes.{Bytes, take-append}
use cnode.Md5.{
  Md5, update, update_buffer, put, new_count0, new_count1, index_of, transform_blocks, init_state,
  reset,
}
use cnode.Md5.Transform.{Words, transform}
use cnode.Md5.Absorb.{
  absorb, absorb-append, absorb_block, length-absorb, blocks_short, blocks_fuel, blocks_fit,
  whole_blocks,
}
use mathlib.Core.List.{append_assoc}

-- `md5` has taken in the message `m`.
pub record Represents (md5 : Md5) (m : Bytes) : Type 0 where
  pub state : md5.state ≡ (absorb init_state m).0
  pub left : take (length m % 64) md5.buffer ≡ (absorb init_state m).1
  pub room : length md5.buffer ≡ 64
  pub count : md5.count0 + md5.count1 * 2 ^ 32 ≡ length m * 8 % 2 ^ 64
  pub low : md5.count0 < 2 ^ 32

pub index_lem : (md5 : Md5) (m : Bytes) → Represents md5 m → index_of md5 ≡ length m % 64
index_lem md5 m r = omega (arith, r.count, r.low)

count_lem :
    (md5 : Md5) (n len : ℕ)
    → md5.count0 + md5.count1 * 2 ^ 32 ≡ n * 8 % 2 ^ 64
    → md5.count0 < 2 ^ 32
    → len < 2 ^ 32
    → (new_count0 md5 len + new_count1 md5 len * 2 ^ 32 ≡ (n + len) * 8 % 2 ^ 64)
      × (new_count0 md5 len < 2 ^ 32)
unfolding new_count0 new_count1
count_lem md5 n len c l b = (ground (arith, c, l, b), omega arith)

length-put :
    (index : ℕ) (input buffer : Bytes)
    → index + length input ≤ length buffer
    → length (put index input buffer) ≡ length buffer
unfolding put
length-put index input buffer l = omega (
  arith,
  length-append (take index buffer) (input ++ drop (index + length input) buffer),
  length-append input (drop (index + length input) buffer),
  length-take index buffer,
  length-drop (index + length input) buffer,
)

-- What was put stands behind what was there.
take-put :
    (index : ℕ) (input buffer left : Bytes)
    → take index buffer ≡ left
    → length left ≡ index
    → take (index + length input) (put index input buffer) ≡ left ++ input
unfolding put
take-put index input buffer left e l =
    let rest = drop (index + length input) buffer in
    ap (λ t. take (index + length input) (t ++ (input ++ rest))) e
    ∙ ap (take (index + length input)) (sym (append_assoc left input rest))
    ∙ ap (λ k. take k ((left ++ input) ++ rest)) (omega (arith, l, length-append left input))
    ∙ take-append (left ++ input) rest

take_all : (s : Bytes) (n : ℕ) → length s ≤ n → take n s ≡ s
take_all [] zero l = refl
take_all [] (suc n) l = refl
take_all (x ∷ s) zero l = absurd (omega arith)
take_all (x ∷ s) (suc n) l = ap (◌∷◌ x) (take_all s n (omega arith))

-- The buffer and the state after `update`, for a buffer that holds `left`.
record Filled (state : Words) (buffer left input : Bytes) (r : Words × Bytes) : Type 0 where
  absorbed : r.0 ≡ (absorb state (left ++ input)).0
  kept : take ((length left + length input) % 64) r.1 ≡ (absorb state (left ++ input)).1
  size : length r.1 ≡ 64

Filled-short :
    (state : Words) (buffer left input : Bytes)
    → take (length left) buffer ≡ left
    → length buffer ≡ 64
    → length left + length input < 64
    → Filled state buffer left input (state, put (length left) input buffer)
Filled-short state buffer left input e room l =
    let short =
      blocks_short (length (left ++ input)) state (left ++ input)
        (omega (arith, l, length-append left input)) in
    record {
      absorbed = sym (ap (λ r. r.0) short);
      kept =
          ap (λ k. take k (put (length left) input buffer)) (omega (arith, l))
          ∙ take-put (length left) input buffer left e refl
          ∙ sym (ap (λ r. r.1) short);
      size = length-put (length left) input buffer (omega (arith, room, l)) ∙ room;
    }

module _ (state : Words) (buffer left input : Bytes) (e : take (length left) buffer ≡ left)
    (room : length buffer ≡ 64) (low : length left < 64) (l : 64 ≤ length left + length input)
    (fit : length input + 64 ≤ 2 ^ 32) where
  part : ℕ
  part = 64 - length left

  full : Bytes
  unfolding part
  full = put (length left) (take part input) buffer

  length-full : length full ≡ 64
  unfolding full part
  length-full =
      length-put (length left) (take part input) buffer
        (omega (arith, room, low, l, length-take part input))
      ∙ room

  full_lem : full ≡ left ++ take part input
  unfolding full part
  full_lem =
      sym (take_all full 64 (omega (arith, length-full)))
      ∙ ap (λ k. take k full) {x = 64} (omega (arith, low, l, length-take part input))
      ∙ take-put (length left) (take part input) buffer left e refl

  absorb-full : absorb state (left ++ input) ≡ absorb (transform state full) (drop part input)
  absorb-full =
      ap (λ t. absorb state (left ++ t)) (sym (take-append-drop part input))
      ∙ ap (absorb state) (sym (append_assoc left (take part input) (drop part input)))
      ∙ ap (λ t. absorb state (t ++ drop part input)) (sym full_lem)
      ∙ absorb_block state full (drop part input) length-full

  blocks : Words × Bytes
  unfolding full part
  blocks = transform_blocks (length input) part (transform state full) (drop part input)

  blocks_lem : blocks ≡ absorb state (left ++ input)
  unfolding blocks
  blocks_lem =
      blocks_fit (length input) part (transform state full) (drop part input)
        (omega (arith, length-drop part input, low, l, fit))
      ∙ blocks_fuel (length input) (length (drop part input)) (transform state full)
          (drop part input) (omega (arith, length-drop part input)) (omega arith)
      ∙ sym absorb-full

  left_lem : length blocks.1 ≡ (length left + length input) % 64
  left_lem =
      ap (λ r. length r.1) blocks_lem
      ∙ length-absorb state (left ++ input)
      ∙ ap (λ k. k % 64) (length-append left input)

  Filled-long : Filled state buffer left input (blocks.0, put 0 blocks.1 full)
  Filled-long = record {
    absorbed = ap (λ r. r.0) blocks_lem;
    kept =
        ap (λ k. take k (put 0 blocks.1 full)) {y = 0 + length blocks.1} (omega (arith, left_lem))
        ∙ take-put 0 blocks.1 full [] refl refl
        ∙ ap (λ r. r.1) blocks_lem;
    size = length-put 0 blocks.1 full (omega (arith, left_lem, length-full)) ∙ length-full;
  }

update_buffer-Filled :
    (state : Words) (buffer left input : Bytes)
    → take (length left) buffer ≡ left
    → length buffer ≡ 64
    → length left < 64
    → length input + 64 ≤ 2 ^ 32
    → Filled state buffer left input (update_buffer (length left) input state buffer)
unfolding update_buffer blocks full part
update_buffer-Filled state buffer left input e room low fit =
    elim (Bool-cases (leb (64 - length left) (length input))) [
      | inl b ↦
          rw (b, update_buffer)
            (Filled-long state buffer left input e room low (ground (arith, b, low)) fit)
      | inr b ↦
          rw (b, update_buffer)
            (Filled-short state buffer left input e room (ground (arith, b, low)))
    ]

-- `update` appends: what has taken in `m` has taken in `m ++ input` afterwards, for an input of at most
-- 2^32 - 64 bytes, up to which the loop's `i + 63` does not wrap around, whatever the pieces in which
-- the bytes come. The count of bits is exact modulo 2^64.
pub update-Represents :
    (md5 : Md5) (m input : Bytes)
    → Represents md5 m
    → length input + 64 ≤ 2 ^ 32
    → Represents (update input md5) (m ++ input)
unfolding update
update-Represents md5 m input r b =
    let left = (absorb init_state m).1 in
    let l : length left ≡ length m % 64 = length-absorb init_state m in
    let i : index_of md5 ≡ length left = omega (arith, index_lem md5 m r, l) in
    let c = count_lem md5 (length m) (length input) r.count r.low (omega (arith, b)) in
    let n = length-append m input in
    let f =
      update_buffer-Filled md5.state md5.buffer left input (ap (λ k. take k md5.buffer) l ∙ r.left)
        r.room (omega (arith, l)) b in
    let g =
      subst
        (λ k. Filled md5.state md5.buffer left input (update_buffer k input md5.state md5.buffer))
        (sym i) f in
    let whole : absorb md5.state (left ++ input) ≡ absorb init_state (m ++ input) =
      ap (λ w. absorb w (left ++ input)) r.state ∙ sym (absorb-append init_state m input) in
    let filled = (update_buffer (index_of md5) input md5.state md5.buffer).1 in
    record {
      state = g.absorbed ∙ ap (λ x. x.0) whole;
      left =
          ap (λ k. take k filled) {y = (length left + length input) % 64} (omega (arith, n, l))
          ∙ g.kept
          ∙ ap (λ x. x.1) whole;
      room = g.size;
      count = c.0 ∙ ap (λ k. k * 8 % 2 ^ 64) (sym n);
      low = c.1;
    }

pub reset-Represents : (md5 : Md5) → length md5.buffer ≡ 64 → Represents (reset md5) []
unfolding reset whole_blocks
reset-Represents md5 room = record {
  state = refl;
  left = refl;
  room = room;
  count = refl;
  low = omega arith;
}
