-- ===== src/Base64/RoundTrip.antt =====
-- `Decode` of comm/base64.cpp undoes `Encode`.
use mathlib.Core.List.{append-nil, append_assoc}
use cnode.Prelude.{
  ℕ, suc, ◌+◌, ◌-◌, ◌*◌, ◌/◌, ◌%◌, ◌^◌, ◌≤◌, ◌<◌, ◌≡◌, ◌≢◌, refl, ap, ◌∙◌, Bool, true, false, [],
  ◌∷◌, ◌++◌, some, ltb, arith, length, take,
}
use cnode.Prelude.Bytes.{Bytes, char_at, take-append}
use cnode.Base64.{
  alphabet, encode_group, encode_loop, encode, encode_capacity, prepare_loop, emit_group,
  decode_group, decode_loop, equal_count, decode, encode_string, decode_string,
}
use cnode.Base64.Bits.{bit_or-shifted, find_pos-alphabet, alphabet-ne-equals}

abbrev pub AreBytes : Bytes → Type 0
AreBytes [] = Unit {0}
AreBytes (x ∷ s) = (x < 256) × AreBytes s

prepare_loop_step :
    (p i : ℕ) (s : Bytes)
    → i < 64
    → prepare_loop p (char_at alphabet i ∷ s) ≡ prepare_loop (p * 64 + i) s
unfolding prepare_loop
prepare_loop_step p i s h =
    rw (find_pos-alphabet i h, prepare_loop) (ap (λ t. prepare_loop t s) (bit_or-shifted p i h))

prepare_loop_end : (p c : ℕ) → p ≡ c → prepare_loop p [] ≡ some c
unfolding prepare_loop
prepare_loop_end p c h = ap some h

prepare_four :
    (c : ℕ)
    → c < 2 ^ 24
    → prepare_loop 0 (
        char_at alphabet (c / 2 ^ 18 % 64)
        ∷ char_at alphabet (c / 2 ^ 12 % 64)
        ∷ char_at alphabet (c / 2 ^ 6 % 64)
        ∷ char_at alphabet (c % 64)
        ∷ [])
      ≡ some c
prepare_four c h =
    prepare_loop_step 0 (c / 2 ^ 18 % 64) _ (omega arith)
    ∙ prepare_loop_step _ (c / 2 ^ 12 % 64) _ (omega arith)
    ∙ prepare_loop_step _ (c / 2 ^ 6 % 64) _ (omega arith)
    ∙ prepare_loop_step _ (c % 64) _ (omega arith)
    ∙ prepare_loop_end _ _ (omega arith)

prepare_three :
    (c : ℕ)
    → c < 2 ^ 24
    → prepare_loop 0 (
        char_at alphabet (c / 2 ^ 18 % 64)
        ∷ char_at alphabet (c / 2 ^ 12 % 64)
        ∷ char_at alphabet (c / 2 ^ 6 % 64)
        ∷ [])
      ≡ some (c / 64)
prepare_three c h =
    prepare_loop_step 0 (c / 2 ^ 18 % 64) _ (omega arith)
    ∙ prepare_loop_step _ (c / 2 ^ 12 % 64) _ (omega arith)
    ∙ prepare_loop_step _ (c / 2 ^ 6 % 64) _ (omega arith)
    ∙ prepare_loop_end _ _ (omega arith)

prepare_two :
    (c : ℕ)
    → c < 2 ^ 24
    → prepare_loop 0 (char_at alphabet (c / 2 ^ 18 % 64) ∷ char_at alphabet (c / 2 ^ 12 % 64) ∷ [])
      ≡ some (c / 2 ^ 12)
prepare_two c h =
    prepare_loop_step 0 (c / 2 ^ 18 % 64) _ (omega arith)
    ∙ prepare_loop_step _ (c / 2 ^ 12 % 64) _ (omega arith)
    ∙ prepare_loop_end _ _ (omega arith)

decode_four :
    (x y z : ℕ)
    → x < 256
    → y < 256
    → z < 256
    → decode_group (encode_group ((x * 256 + y) * 256 + z) 3) ≡ some (x ∷ y ∷ z ∷ [])
unfolding encode_group decode_group
decode_four x y z hx hy hz =
    let c = (x * 256 + y) * 256 + z in
    let read = prepare_four c (omega arith) in
    rw (read, decode_group) (unfold emit_group in ground arith)

decode_three :
    (x y : ℕ)
    → x < 256
    → y < 256
    → decode_group (take 3 (encode_group ((x * 256 + y) * 256) 2)) ≡ some (x ∷ y ∷ 0 ∷ [])
unfolding encode_group decode_group
decode_three x y hx hy =
    let c = (x * 256 + y) * 256 in
    let read = prepare_three c (omega arith) in
    rw (read, decode_group) (unfold emit_group in ground arith)

decode_two :
    (x : ℕ) → x < 256 → decode_group (take 2 (encode_group (x * 256 * 256) 1)) ≡ some (x ∷ 0 ∷ [])
unfolding encode_group decode_group
decode_two x hx =
    let read = prepare_two (x * 256 * 256) (omega arith) in
    rw (read, decode_group) (unfold emit_group in ground arith)

-- The text `s` decodes to `b`, up to bytes behind it that the result's length cuts off.
record Decodes (b s : Bytes) : Type 0 where
  long : 4 ≤ length s
  few : equal_count s ≤ 2
  size : length s / 4 * 3 ≡ length b + equal_count s
  extra : Bytes
  loop : decode_loop (take (length s - equal_count s) s) ≡ some (b ++ extra)

equal_count_four :
    (a b c d : ℕ) (s : Bytes) → 3 ≤ length s → equal_count (a ∷ b ∷ c ∷ d ∷ s) ≡ equal_count s
equal_count_four a b c d s h =
    let n1 : length (a ∷ b ∷ c ∷ d ∷ s) - 1 ≡ suc (suc (suc (suc (length s - 1)))) = omega arith in
    let n2 : length (a ∷ b ∷ c ∷ d ∷ s) - 2 ≡ suc (suc (suc (suc (length s - 2)))) = omega arith in
    let n3 : length (a ∷ b ∷ c ∷ d ∷ s) - 3 ≡ suc (suc (suc (suc (length s - 3)))) = omega arith in
    rw (n1, n2, n3)

Decodes-four :
    (a b c d x y z : ℕ) (t s : Bytes)
    → decode_group (a ∷ b ∷ c ∷ d ∷ []) ≡ some (x ∷ y ∷ z ∷ [])
    → Decodes t s
    → Decodes (x ∷ y ∷ z ∷ t) (a ∷ b ∷ c ∷ d ∷ s)
Decodes-four a b c d x y z t s g v =
    let same = equal_count_four a b c d s (omega (arith, v.long)) in
    let cut : length (a ∷ b ∷ c ∷ d ∷ s) - equal_count (a ∷ b ∷ c ∷ d ∷ s)
        ≡ suc (suc (suc (suc (length s - equal_count s)))) =
      omega (arith, same, v.long, v.few) in
    record {
      long = omega arith;
      few = rw same v.few;
      size = rw same (omega (arith, v.size));
      extra = v.extra;
      loop = rw cut (unfold decode_loop in rw (g, v.loop, decode_loop));
    }

Decodes-one : (x : ℕ) → x < 256 → Decodes (x ∷ []) (encode_group (x * 256 * 256) 1)
unfolding encode_group
Decodes-one x h =
    let c = x * 256 * 256 in
    let second = alphabet-ne-equals (c / 2 ^ 12 % 64) (omega arith) in
    let two : equal_count (encode_group c 1) ≡ 2 = rw second in
    record {
      long = omega arith;
      few = rw two (omega arith);
      size = rw two (omega arith);
      extra = 0 ∷ [];
      loop = rw two (unfold decode_loop in decode_two x h);
    }

Decodes-two :
    (x y : ℕ) → x < 256 → y < 256 → Decodes (x ∷ y ∷ []) (encode_group ((x * 256 + y) * 256) 2)
unfolding encode_group
Decodes-two x y h k =
    let c = (x * 256 + y) * 256 in
    let second = alphabet-ne-equals (c / 2 ^ 12 % 64) (omega arith) in
    let third = alphabet-ne-equals (c / 2 ^ 6 % 64) (omega arith) in
    let one : equal_count (encode_group c 2) ≡ 1 = rw (third, second) in
    record {
      long = omega arith;
      few = rw one (omega arith);
      size = rw one (omega arith);
      extra = 0 ∷ [];
      loop = rw one (unfold decode_loop in decode_three x y h k);
    }

Decodes-three :
    (x y z : ℕ)
    → x < 256
    → y < 256
    → z < 256
    → Decodes (x ∷ y ∷ z ∷ []) (encode_group ((x * 256 + y) * 256 + z) 3)
unfolding encode_group
Decodes-three x y z h k l =
    let c = (x * 256 + y) * 256 + z in
    let second = alphabet-ne-equals (c / 2 ^ 12 % 64) (omega arith) in
    let third = alphabet-ne-equals (c / 2 ^ 6 % 64) (omega arith) in
    let fourth = alphabet-ne-equals (c % 64) (omega arith) in
    let none_of : equal_count (encode_group c 3) ≡ 0 = rw (fourth, third, second) in
    record {
      long = omega arith;
      few = rw none_of (omega arith);
      size = rw none_of (omega arith);
      extra = [];
      loop = rw none_of (unfold decode_loop in rw (decode_four x y z h k l, decode_loop));
    }

encode_loop-Decodes : (b : Bytes) → b ≢ [] → AreBytes b → Decodes b (encode_loop b)
unfolding encode_loop
encode_loop-Decodes [] n h = absurd (n refl)
encode_loop-Decodes (x ∷ []) n h = Decodes-one x h.0
encode_loop-Decodes (x ∷ y ∷ []) n h = Decodes-two x y h.0 h.1.0
encode_loop-Decodes (x ∷ y ∷ z ∷ []) n h = rw append-nil (Decodes-three x y z h.0 h.1.0 h.1.1.0)
encode_loop-Decodes (x ∷ y ∷ z ∷ w ∷ t) n h =
    unfold encode_group in
    Decodes-four _ _ _ _ x y z (w ∷ t) (encode_loop (w ∷ t)) (decode_four x y z h.0 h.1.0 h.1.1.0)
      (encode_loop-Decodes (w ∷ t) (λ e. cc) h.1.1.1)

decode-Decodes : (x : ℕ) (b s : Bytes) → Decodes (x ∷ b) s → decode_string s ≡ some (x ∷ b)
unfolding decode_string decode
decode-Decodes x b s v =
    let long : ltb (length s) 3 ≡ false = ground (arith, v.long) in
    let enough : ltb (length s / 4 * 3 + 1) (equal_count s) ≡ false = ground (arith, v.size) in
    let whole : ltb (length s / 4 * 3) (equal_count s) ≡ false = ground (arith, v.size) in
    let size : length s / 4 * 3 - equal_count s ≡ suc (length b) = omega (arith, v.size) in
    rw (long, enough, whole, v.loop, size)
      (ap (λ t. some (x ∷ t)) (ap (take (length b)) (append_assoc b v.extra _) ∙ take-append b _))

-- Decoding in place what was encoded in place gives the same bytes, for every string of fewer than
-- 2^29 bytes but the empty one, if `Encode` is given its block.
pub decode_string-encode_string :
    (given : ℕ → Bool) (b : Bytes)
    → b ≢ []
    → AreBytes b
    → length b < 2 ^ 29
    → given (encode_capacity (length b)) ≡ true
    → decode_string (encode_string given b) ≡ some b
unfolding encode_string encode
decode_string-encode_string given [] n h l g = absurd (n refl)
decode_string-encode_string given (x ∷ b) n h l g =
    let v = encode_loop-Decodes (x ∷ b) n h in
    let fits : ltb (length (x ∷ b) * 4) (2 ^ 31) ≡ true = ground (arith, l) in
    let some_out : ltb 0 (length (encode_loop (x ∷ b))) ≡ true = ground (arith, v.long) in
    rw (fits, g, some_out) (decode-Decodes x b (encode_loop (x ∷ b)) v)
