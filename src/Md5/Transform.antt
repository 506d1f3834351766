-- ===== src/Md5/Transform.antt =====
-- comm/md5.cpp: the transformation of one block, `encode` and `decode`.
use Prim.Native.Nat.{bit_and, bit_or, bit_xor}
use cnode.Prelude.{ℕ, ◌+◌, ◌-◌, ◌*◌, ◌/◌, ◌%◌, ◌^◌, List, [], ◌∷◌, get_or}
use cnode.Prelude.Bytes.{Bytes}

-- `_state`.
pub data Words : Type 0 where
  words : (a b c d : ℕ) → Words

abbrev pub word_list : Words → List ℕ
word_list (words a b c d) = a ∷ b ∷ c ∷ d ∷ []

-- `~x`.
unfoldable pub complement : ℕ → ℕ
complement x = 2 ^ 32 - 1 - x

unfoldable pub f : ℕ → ℕ → ℕ → ℕ
unfolding complement
f x y z = bit_or (bit_and x y) (bit_and (complement x) z)

unfoldable pub g : ℕ → ℕ → ℕ → ℕ
unfolding complement
g x y z = bit_or (bit_and x z) (bit_and y (complement z))

unfoldable pub h : ℕ → ℕ → ℕ → ℕ
h x y z = bit_xor (bit_xor x y) z

unfoldable pub i : ℕ → ℕ → ℕ → ℕ
unfolding complement
i x y z = bit_xor y (bit_or x (complement z))

unfoldable pub rotate_left : ℕ → ℕ → ℕ
rotate_left x n = bit_or (x * 2 ^ n % 2 ^ 32) (x / 2 ^ (32 - n))

-- What `FF`, `GG`, `HH` and `II` make of `a`, by the value of `F`, `G`, `H` or `I`.
unfoldable pub mix : (fn a b x s ac : ℕ) → ℕ
unfolding rotate_left
mix fn a b x s ac = (rotate_left ((a + (fn + x + ac)) % 2 ^ 32) s + b) % 2 ^ 32

-- FF(a, b, c, d, k, s, ac), as (k, s, ac).
abbrev round1 : List (ℕ × ℕ × ℕ)
round1 =
    (0, 7, 0xd76aa478)
    ∷ (1, 12, 0xe8c7b756)
    ∷ (2, 17, 0x242070db)
    ∷ (3, 22, 0xc1bdceee)
    ∷ (4, 7, 0xf57c0faf)
    ∷ (5, 12, 0x4787c62a)
    ∷ (6, 17, 0xa8304613)
    ∷ (7, 22, 0xfd469501)
    ∷ (8, 7, 0x698098d8)
    ∷ (9, 12, 0x8b44f7af)
    ∷ (10, 17, 0xffff5bb1)
    ∷ (11, 22, 0x895cd7be)
    ∷ (12, 7, 0x6b901122)
    ∷ (13, 12, 0xfd987193)
    ∷ (14, 17, 0xa679438e)
    ∷ (15, 22, 0x49b40821)
    ∷ []

-- GG(a, b, c, d, k, s, ac), as (k, s, ac).
abbrev round2 : List (ℕ × ℕ × ℕ)
round2 =
    (1, 5, 0xf61e2562)
    ∷ (6, 9, 0xc040b340)
    ∷ (11, 14, 0x265e5a51)
    ∷ (0, 20, 0xe9b6c7aa)
    ∷ (5, 5, 0xd62f105d)
    ∷ (10, 9, 0x2441453)
    ∷ (15, 14, 0xd8a1e681)
    ∷ (4, 20, 0xe7d3fbc8)
    ∷ (9, 5, 0x21e1cde6)
    ∷ (14, 9, 0xc33707d6)
    ∷ (3, 14, 0xf4d50d87)
    ∷ (8, 20, 0x455a14ed)
    ∷ (13, 5, 0xa9e3e905)
    ∷ (2, 9, 0xfcefa3f8)
    ∷ (7, 14, 0x676f02d9)
    ∷ (12, 20, 0x8d2a4c8a)
    ∷ []

-- HH(a, b, c, d, k, s, ac), as (k, s, ac).
abbrev round3 : List (ℕ × ℕ × ℕ)
round3 =
    (5, 4, 0xfffa3942)
    ∷ (8, 11, 0x8771f681)
    ∷ (11, 16, 0x6d9d6122)
    ∷ (14, 23, 0xfde5380c)
    ∷ (1, 4, 0xa4beea44)
    ∷ (4, 11, 0x4bdecfa9)
    ∷ (7, 16, 0xf6bb4b60)
    ∷ (10, 23, 0xbebfbc70)
    ∷ (13, 4, 0x289b7ec6)
    ∷ (0, 11, 0xeaa127fa)
    ∷ (3, 16, 0xd4ef3085)
    ∷ (6, 23, 0x4881d05)
    ∷ (9, 4, 0xd9d4d039)
    ∷ (12, 11, 0xe6db99e5)
    ∷ (15, 16, 0x1fa27cf8)
    ∷ (2, 23, 0xc4ac5665)
    ∷ []

-- II(a, b, c, d, k, s, ac), as (k, s, ac).
abbrev round4 : List (ℕ × ℕ × ℕ)
round4 =
    (0, 6, 0xf4292244)
    ∷ (7, 10, 0x432aff97)
    ∷ (14, 15, 0xab9423a7)
    ∷ (5, 21, 0xfc93a039)
    ∷ (12, 6, 0x655b59c3)
    ∷ (3, 10, 0x8f0ccc92)
    ∷ (10, 15, 0xffeff47d)
    ∷ (1, 21, 0x85845dd1)
    ∷ (8, 6, 0x6fa87e4f)
    ∷ (15, 10, 0xfe2ce6e0)
    ∷ (6, 15, 0xa3014314)
    ∷ (13, 21, 0x4e0811a1)
    ∷ (4, 6, 0xf7537e82)
    ∷ (11, 10, 0xbd3af235)
    ∷ (2, 15, 0x2ad7d2bb)
    ∷ (9, 21, 0xeb86d391)
    ∷ []

-- A round: after each line the words change places, and after four they stand as before.
unfoldable pub rounds : (ℕ → ℕ → ℕ → ℕ) → (x : List ℕ) → List (ℕ × ℕ × ℕ) → Words → Words
unfolding mix
rounds fn x [] w = w
rounds fn x ((k, s, ac) ∷ rest) (words a b c d) =
    rounds fn x rest (words d (mix (fn b c d) a b (get_or x k 0) s ac) b c)

unfoldable pub encode : List ℕ → Bytes
encode [] = []
encode (w ∷ input) = w % 256 ∷ w / 2 ^ 8 % 256 ∷ w / 2 ^ 16 % 256 ∷ w / 2 ^ 24 % 256 ∷ encode input

unfoldable pub decode : Bytes → List ℕ
decode (p ∷ q ∷ r ∷ s ∷ input) =
    bit_or (bit_or (bit_or p (q * 2 ^ 8)) (r * 2 ^ 16)) (s * 2 ^ 24) ∷ decode input
decode _ = []

unfoldable pub add_words : Words → Words → Words
add_words (words a b c d) (words p q r s) =
    words ((a + p) % 2 ^ 32) ((b + q) % 2 ^ 32) ((c + r) % 2 ^ 32) ((d + s) % 2 ^ 32)

unfoldable pub transform : Words → Bytes → Words
unfolding rounds add_words decode f g h i
transform state block =
    let x = decode block in
    add_words state
      (rounds i x round4 (rounds h x round3 (rounds g x round2 (rounds f x round1 state))))
