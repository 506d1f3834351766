-- ===== src/Base64.antt =====
-- comm/base64.h and comm/base64.cpp, over bytes as numbers. A mask with a shift,
-- `(c & mask) >> k`, is written `c / 2 ^ k % 64`, and `& 0xFF` is `% 256`.
pub mod Bits
pub mod RoundTrip
pub mod Bounds
mod Tests
use Prim.Native.Nat.{bit_or}
use cnode.Prelude.{
  ℕ, zero, suc, ◌+◌, ◌-◌, ◌*◌, ◌/◌, ◌%◌, ◌^◌, Bool, true, false, List, [], ◌∷◌, ◌++◌, Option, none,
  some, leb, ltb, ◌==◌, if◌then◌else◌, length, get_or, take, replicate,
}
use cnode.Prelude.Int.{ℤ, pos, negsuc}
use cnode.Prelude.Bytes.{Bytes, codes, char_at}

-- The array `base64`, without the zero that ends it.
abbrev pub alphabet : Bytes
alphabet = codes "ABCDEFGHIJKLMNOPQRSTUVWXYZabcdefghijklmnopqrstuvwxyz0123456789+/"

-- The four bytes that a round of `Encode` writes for the number `c`, of which `left` bytes (at
-- least one) were still in the input: `i > size` means `left < 3`, and `i > size + 1`, `left < 2`.
unfoldable pub encode_group : (c left : ℕ) → Bytes
encode_group c left =
    char_at alphabet (c / 2 ^ 18 % 64)
    ∷ char_at alphabet (c / 2 ^ 12 % 64)
    ∷ (if ltb left 2 then b'=' else char_at alphabet (c / 2 ^ 6 % 64))
    ∷ (if ltb left 3 then b'=' else char_at alphabet (c % 64))
    ∷ []

-- The loop of `Encode` on what is left of the input.
unfoldable pub encode_loop : Bytes → Bytes
unfolding encode_group
encode_loop [] = []
encode_loop (x ∷ []) = encode_group (x * 256 * 256) 1
encode_loop (x ∷ y ∷ []) = encode_group ((x * 256 + y) * 256) 2
encode_loop (x ∷ y ∷ z ∷ rest) = encode_group ((x * 256 + y) * 256 + z) 3 ++ encode_loop rest

-- The bytes that `Encode` asks `calloc` for, while `size * 4` fits an `int`.
abbrev pub encode_capacity : ℕ → ℕ
encode_capacity size = size * 4 / 3 + 4

-- `Encode` of a buffer: the text, whose length is the result. `given` tells whether `calloc` gives
-- a block; `none` is the -1 of one that gives none, and stands as well for a size whose product
-- with 4 overflows.
unfoldable pub encode : (given : ℕ → Bool) → Bytes → Option Bytes
unfolding encode_loop
encode given inbuf =
    if ltb (length inbuf * 4) (2 ^ 31)
    then if given (encode_capacity (length inbuf)) then some (encode_loop inbuf) else none
    else none

-- `strrchr(s, ch)` as a position, over a text with the zero that ends it.
unfoldable pub strrchr : Bytes → ℕ → Option ℕ
strrchr [] ch = if 0 == ch then some 0 else none
strrchr (c ∷ s) ch = elim (strrchr s ch) [
  | some p ↦ some (suc p)
  | none ↦ if c == ch then some 0 else none
]

-- `none`: the byte is not in the array, and `find_pos` subtracts from a null pointer.
unfoldable pub find_pos : ℕ → Option ℕ
unfolding strrchr
find_pos ch = strrchr alphabet ch

-- The inner loop of `Decode`, on the bytes of one group.
unfoldable pub prepare_loop : ℕ → Bytes → Option ℕ
unfolding find_pos
prepare_loop prepare [] = some prepare
prepare_loop prepare (c ∷ s) = elim (find_pos c) [
  | none ↦ none
  | some found ↦ prepare_loop (bit_or (prepare * 2 ^ 6) found) s
]

-- The bytes that a round writes: three, or `temp` if that is less.
unfoldable pub emit_group : (temp prepare : ℕ) → Bytes
emit_group temp prepare =
    let shifted = prepare * 2 ^ ((4 - temp) * 6) in
    take temp (shifted / 2 ^ 16 % 256 ∷ shifted / 2 ^ 8 % 256 ∷ shifted % 256 ∷ [])

unfoldable pub decode_group : Bytes → Option Bytes
decode_group s = elim (prepare_loop 0 s) [
  | none ↦ none
  | some prepare ↦ some (emit_group (length s) prepare)
]

-- The outer loop, on the bytes before the padding.
unfoldable pub decode_loop : Bytes → Option Bytes
decode_loop [] = some []
decode_loop (a ∷ []) = decode_group (a ∷ [])
decode_loop (a ∷ b ∷ []) = decode_group (a ∷ b ∷ [])
decode_loop (a ∷ b ∷ c ∷ []) = decode_group (a ∷ b ∷ c ∷ [])
decode_loop (a ∷ b ∷ c ∷ d ∷ rest) = elim (decode_group (a ∷ b ∷ c ∷ d ∷ [])) [
  | none ↦ none
  | some x ↦ elim (decode_loop rest) [ none ↦ none | some y ↦ some (x ++ y) ]
]

abbrev pub equal_at : Bytes → ℕ → ℕ
equal_at s k = if char_at s (length s - k) == b'=' then 1 else 0

abbrev pub equal_count : Bytes → ℕ
equal_count s = equal_at s 1 + equal_at s 2 + equal_at s 3

-- What `Decode` does: it reads outside of its input or subtracts from a null pointer; it
-- returns -1; or it writes `written` into a block of `capacity` zeros and returns `out_len`.
pub data Decoded : Type 0 where
  fault : Decoded
  failed : Decoded
  done : (capacity : ℕ) (written : Bytes) (out_len : ℤ) → Decoded

written_to : ℕ → ℤ → Option Bytes → Decoded
written_to capacity out_len none = fault
written_to capacity out_len (some written) = done capacity written out_len

-- `calloc` refuses a negative size. It is taken to give the other blocks.
unfoldable pub decode : Bytes → Decoded
unfolding written_to decode_loop
decode s =
    let equals = equal_count s in
    let whole = length s / 4 * 3 in
    if ltb (length s) 3
    then fault
    else if ltb (whole + 1) equals
    then failed
    else written_to (whole + 1 - equals)
        (if ltb whole equals then negsuc 0 else pos (whole - equals))
        (decode_loop (take (length s - equals) s))

assign_text : Bytes → Option Bytes → Bytes
assign_text iobuff none = iobuff
assign_text iobuff (some text) = if ltb 0 (length text) then text else iobuff

-- `Encode` and `Decode` of a string in place; both leave it alone unless some bytes came out, and
-- the second takes the block's zeros where fewer were written than the result says.
unfoldable pub encode_string : (given : ℕ → Bool) → Bytes → Bytes
unfolding encode assign_text
encode_string given iobuff = assign_text iobuff (encode given iobuff)

assign_positive : Bytes → Bytes → ℤ → Bytes
assign_positive iobuff block (pos zero) = iobuff
assign_positive iobuff block (pos (suc n)) = take (suc n) block
assign_positive iobuff block (negsuc n) = iobuff

assign_decoded : Bytes → Decoded → Option Bytes
unfolding assign_positive
assign_decoded iobuff fault = none
assign_decoded iobuff failed = some iobuff
assign_decoded iobuff (done capacity written out_len) =
    some (assign_positive iobuff (written ++ replicate capacity 0) out_len)

-- `none` is a fault.
unfoldable pub decode_string : Bytes → Option Bytes
unfolding decode assign_decoded
decode_string iobuff = assign_decoded iobuff (decode iobuff)
