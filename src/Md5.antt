-- ===== src/Md5.antt =====
-- comm/md5.h and comm/md5.cpp: the class `MD5`. A `uint32` is a number below 2^32, with the
-- wrap-around of its operations written out.
pub mod Transform
pub mod Absorb
pub mod Update
pub mod Digest
mod Tests
use cnode.Prelude.{
  ℕ, zero, suc, ◌+◌, ◌-◌, ◌*◌, ◌/◌, ◌%◌, ◌^◌, Bool, true, false, List, [], ◌∷◌, ◌++◌, leb, ltb,
  if◌then◌else◌, length, take, drop, replicate,
}
use cnode.Prelude.Bytes.{Bytes, char_at}
use cnode.Md5.Transform.{Words, transform, words, word_list, encode}

pub record Md5 : Type 0 where
  pub state : Words
  -- The number of bits modulo 2^64, low word first.
  pub count0 : ℕ
  pub count1 : ℕ
  pub buffer : Bytes
  pub digest : Bytes
  pub finished : Bool

abbrev pub init_state : Words
init_state = words 0x67452301 0xefcdab89 0x98badcfe 0x10325476

unfoldable pub reset : Md5 → Md5
reset md5 = record md5 { finished = false; count0 = 0; count1 = 0; state = init_state }

-- `memcpy(&_buffer[index], input, length)`.
unfoldable pub put : ℕ → Bytes → Bytes → Bytes
put index input buffer = take index buffer ++ (input ++ drop (index + length input) buffer)

-- The loop of `update` over whole blocks from `i` on, on what stands there, with what is left of it:
-- `i + length input` is the length of the whole. The `uint32` sum of the test wraps around; where it
-- does, the last round reads behind the input, of which the model has nothing.
unfoldable pub transform_blocks : (rounds i : ℕ) → Words → Bytes → Words × Bytes
transform_blocks zero i state input = (state, input)
transform_blocks (suc rounds) i state input = elim (ltb ((i + 63) % 2 ^ 32) (i + length input)) [
  | true ↦ transform_blocks rounds (i + 64) (transform state (take 64 input)) (drop 64 input)
  | false ↦ (state, input)
]

abbrev pub index_of : Md5 → ℕ
index_of md5 = md5.count0 / 8 % 64

unfoldable pub new_count0 : Md5 → ℕ → ℕ
new_count0 md5 len = (md5.count0 + len * 8 % 2 ^ 32) % 2 ^ 32

unfoldable pub new_count1 : Md5 → ℕ → ℕ
unfolding new_count0
new_count1 md5 len =
    ((if ltb (new_count0 md5 len) (len * 8 % 2 ^ 32) then md5.count1 + 1 else md5.count1)
      + len % 2 ^ 32 / 2 ^ 29)
    % 2 ^ 32

-- The part of `update` that fills the buffer, with `index` bytes in it.
unfoldable pub update_buffer : ℕ → Bytes → Words → Bytes → Words × Bytes
unfolding put transform_blocks
update_buffer index input state buffer =
    let part_len = 64 - index in
    let full = put index (take part_len input) buffer in
    let blocks =
      transform_blocks (length input) part_len (transform state full) (drop part_len input) in
    if leb part_len (length input)
    then (blocks.0, put 0 blocks.1 full)
    else (state, put index input buffer)

unfoldable pub update : Bytes → Md5 → Md5
unfolding new_count0 new_count1 update_buffer
update input md5 =
    let r = update_buffer (index_of md5) input md5.state md5.buffer in
    record md5 {
      finished = false;
      count0 = new_count0 md5 (length input);
      count1 = new_count1 md5 (length input);
      state = r.0;
      buffer = r.1;
    }

abbrev pub padding : Bytes
padding = 128 ∷ replicate 63 0

abbrev pub pad_len : ℕ → ℕ
pad_len index = if ltb index 56 then 56 - index else 120 - index

-- The state and the count are put back, and the buffer is not.
unfoldable pub final : Md5 → Md5
unfolding update
final md5 =
    let bits = encode (md5.count0 ∷ md5.count1 ∷ []) in
    let ended = update bits (update (take (pad_len (index_of md5)) padding) md5) in
    record ended {
      digest = encode (word_list ended.state);
      state = md5.state;
      count0 = md5.count0;
      count1 = md5.count1;
    }

-- `digest()` returns the field `digest` of this.
unfoldable pub get_digest : Md5 → Md5
unfolding final
get_digest md5 = if md5.finished then md5 else final (record md5 { finished = true })

unfoldable pub hex_digit : ℕ → ℕ
hex_digit n = if ltb n 10 then b'0' + n else b'a' + (n - 10)

unfoldable pub bytes_to_hex_string : Bytes → Bytes
unfolding hex_digit
bytes_to_hex_string [] = []
bytes_to_hex_string (t ∷ input) =
    hex_digit (t / 16) ∷ hex_digit (t % 16) ∷ bytes_to_hex_string input

unfoldable pub to_string : Md5 → Bytes
unfolding get_digest bytes_to_hex_string
to_string md5 = bytes_to_hex_string (get_digest md5).digest
