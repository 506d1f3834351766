-- ===== src/Md5/Digest.antt =====
-- comm/md5.cpp: `digest` computes the MD5 of RFC 1321, and what it leaves behind.
use cnode.Prelude.{
  ℕ, zero, suc, ◌+◌, ◌-◌, ◌*◌, ◌/◌, ◌%◌, ◌^◌, ◌≤◌, ◌<◌, ◌≡◌, refl, sym, ap, ◌∙◌, true, false, [],
  ◌∷◌, ◌++◌, arith, length, take, replicate, length-take,
}
use cnode.Prelude.Bytes.{Bytes, codes}
use cnode.Md5.{Md5, update, get_digest, final, index_of, init_state, padding, pad_len}
use cnode.Md5.Transform.{
  encode, word_list, transform, rounds, mix, rotate_left, add_words, decode, f, g, h, i, complement,
}
use cnode.Md5.Absorb.{absorb, whole_blocks}
use cnode.Md5.Update.{Represents, update-Represents, index_lem}
use mathlib.Core.List.{append_assoc}

-- RFC 1321, 3.1 and 3.2: a byte 0x80, as many zeros as it takes to come to 56 modulo 64, and the
-- number of bits in eight bytes, low byte first.
abbrev pub zeros : ℕ → Bytes
zeros len = replicate ((119 - len % 64) % 64) 0

abbrev pub little_endian : (n value : ℕ) → Bytes
little_endian zero value = []
little_endian (suc n) value = value % 256 ∷ little_endian n (value / 256)

abbrev pub padded : Bytes → Bytes
padded m = m ++ ((128 ∷ zeros (length m)) ++ little_endian 8 (length m * 8 % 2 ^ 64))

-- RFC 1321, 3.5: the words after the last block.
abbrev pub md5_of : Bytes → Bytes
md5_of m = encode (word_list (absorb init_state (padded m)).0)

take-replicate : (k n : ℕ) (a : ℕ) → k ≤ n → take k (replicate n a) ≡ replicate k a
take-replicate zero n a l = refl
take-replicate (suc k) zero a l = absurd (omega arith)
take-replicate (suc k) (suc n) a l = ap (◌∷◌ a) (take-replicate k n a (omega arith))

padding-suc : (k j : ℕ) → k ≡ suc j → j ≤ 63 → take k padding ≡ 128 ∷ replicate j 0
padding-suc zero j e l = absurd (omega arith)
padding-suc (suc k) j e l =
    ap (◌∷◌ 128)
      (take-replicate k 63 0 (omega arith) ∙ ap (λ n. replicate n 0) {x = k} {y = j} (omega arith))

pub padding_lem :
    (index : ℕ) → index < 64 → take (pad_len index) padding ≡ 128 ∷ replicate ((119 - index) % 64) 0
padding_lem index l =
    padding-suc (pad_len index) ((119 - index) % 64) (ground (arith, l)) (omega (arith, l))

bits_lem :
    (low high value : ℕ)
    → low + high * 2 ^ 32 ≡ value
    → low < 2 ^ 32
    → encode (low ∷ high ∷ []) ≡ little_endian 8 value
unfolding encode
bits_lem low high value e l =
    let v : value ≡ low + high * 2 ^ 32 = sym e in
    let d : value / 256 / 256 / 256 / 256 ≡ high = omega (arith, e, l) in
    let a1 : value / 256 % 256 ≡ low / 2 ^ 8 % 256 = omega (arith, e, l) in
    let a2 : value / 256 / 256 % 256 ≡ low / 2 ^ 16 % 256 = omega (arith, e, l) in
    let a3 : value / 256 / 256 / 256 % 256 ≡ low / 2 ^ 24 % 256 = omega (arith, e, l) in
    let a0 : value % 256 ≡ low % 256 = omega (arith, e, l) in
    let b1 : high / 2 ^ 8 ≡ high / 256 = refl in
    let b2 : high / 2 ^ 16 ≡ high / 256 / 256 = omega arith in
    let b3 : high / 2 ^ 24 ≡ high / 256 / 256 / 256 = omega arith in
    rw (a0, a1, a2, a3, d, b2, b3) refl

-- The two calls of `update` in `final`, with the bytes they append.
module _ (md5 : Md5) (m : Bytes) (r : Represents md5 m) where
  pad_bytes : Bytes
  pad_bytes = take (pad_len (index_of md5)) padding

  bit_bytes : Bytes
  bit_bytes = encode (md5.count0 ∷ md5.count1 ∷ [])

  index_low : index_of md5 < 64
  index_low = omega arith

  pad_bytes_lem : pad_bytes ≡ 128 ∷ zeros (length m)
  unfolding pad_bytes
  pad_bytes_lem =
      padding_lem (index_of md5) index_low
      ∙ ap (λ k. 128 ∷ replicate ((119 - k) % 64) 0) (index_lem md5 m r)

  bit_bytes_lem : bit_bytes ≡ little_endian 8 (length m * 8 % 2 ^ 64)
  unfolding bit_bytes
  bit_bytes_lem = bits_lem md5.count0 md5.count1 (length m * 8 % 2 ^ 64) r.count r.low

  ended-Represents :
      Represents (update bit_bytes (update pad_bytes md5)) ((m ++ pad_bytes) ++ bit_bytes)
  unfolding pad_bytes bit_bytes encode
  ended-Represents =
      update-Represents (update pad_bytes md5) (m ++ pad_bytes) bit_bytes
        (update-Represents md5 m pad_bytes r
          (omega (arith, length-take (pad_len (index_of md5)) padding)))
        (omega arith)

  padded_lem : (m ++ pad_bytes) ++ bit_bytes ≡ padded m
  padded_lem =
      append_assoc m pad_bytes bit_bytes
      ∙ ap (λ t. m ++ (t ++ bit_bytes)) pad_bytes_lem
      ∙ ap (λ t. m ++ ((128 ∷ zeros (length m)) ++ t)) bit_bytes_lem

-- RFC 1321, A.5: digests of its test suite, of which the last has two blocks.
md5_of_empty :
    md5_of (codes "")
    ≡ 212 ∷ 29 ∷ 140 ∷ 217 ∷ 143 ∷ 0 ∷ 178 ∷ 4 ∷ 233 ∷ 128 ∷ 9 ∷ 152 ∷ 236 ∷ 248 ∷ 66 ∷ 126 ∷ []
unfolding whole_blocks transform rounds mix rotate_left add_words decode encode f g h i complement
md5_of_empty = refl

md5_of_abc :
    md5_of (codes "abc")
    ≡ 144 ∷ 1 ∷ 80 ∷ 152 ∷ 60 ∷ 210 ∷ 79 ∷ 176 ∷ 214 ∷ 150 ∷ 63 ∷ 125 ∷ 40 ∷ 225 ∷ 127 ∷ 114 ∷ []
unfolding whole_blocks transform rounds mix rotate_left add_words decode encode f g h i complement
md5_of_abc = refl

md5_of_digits :
    md5_of
      (codes "12345678901234567890123456789012345678901234567890123456789012345678901234567890")
    ≡ 87 ∷ 237 ∷ 244 ∷ 162 ∷ 43 ∷ 227 ∷ 201 ∷ 85 ∷ 172 ∷ 73 ∷ 218 ∷ 46 ∷ 33 ∷ 7 ∷ 182 ∷ 122 ∷ []
unfolding whole_blocks transform rounds mix rotate_left add_words decode encode f g h i complement
md5_of_digits = refl

-- `digest` gives the MD5 of the message that was taken in, if it was not computed yet: the blocks of
-- the message with its padding and its count of bits as RFC 1321 puts them there, through the rounds of
-- comm/md5.cpp. Of these, no more is said than that they give the digests that RFC 1321 lists for
-- the empty text, "abc" and eighty digits.
pub get_digest-md5_of :
    (md5 : Md5) (m : Bytes)
    → Represents md5 m
    → md5.finished ≡ false
    → ((get_digest md5).digest ≡ md5_of m)
      × (md5_of (codes "")
          ≡ 212 ∷ 29 ∷ 140 ∷ 217 ∷ 143 ∷ 0 ∷ 178 ∷ 4 ∷ 233 ∷ 128 ∷ 9 ∷ 152 ∷ 236 ∷ 248 ∷ 66 ∷ 126
            ∷ [])
      × (md5_of (codes "abc")
          ≡ 144 ∷ 1 ∷ 80 ∷ 152 ∷ 60 ∷ 210 ∷ 79 ∷ 176 ∷ 214 ∷ 150 ∷ 63 ∷ 125 ∷ 40 ∷ 225 ∷ 127 ∷ 114
            ∷ [])
      × (md5_of (
            codes
              "12345678901234567890123456789012345678901234567890123456789012345678901234567890")
          ≡ 87 ∷ 237 ∷ 244 ∷ 162 ∷ 43 ∷ 227 ∷ 201 ∷ 85 ∷ 172 ∷ 73 ∷ 218 ∷ 46 ∷ 33 ∷ 7 ∷ 182 ∷ 122
            ∷ [])
unfolding get_digest final pad_bytes bit_bytes
get_digest-md5_of md5 m r e =
    let v : Represents (record md5 { finished = true }) m = record {
      state = r.state;
      left = r.left;
      room = r.room;
      count = r.count;
      low = r.low;
    } in
    let digest : (get_digest md5).digest ≡ md5_of m =
      rw (e, get_digest)
        (ap (λ w. encode (word_list w))
            (ended-Represents (record md5 { finished = true }) m v).state
          ∙ ap (λ t. encode (word_list (absorb init_state t).0))
              (padded_lem (record md5 { finished = true }) m v)) in
    (digest, md5_of_empty, md5_of_abc, md5_of_digits)
