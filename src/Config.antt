-- ===== src/Config.antt =====
-- comm/config.h and comm/config.cpp: `Config`, a file of sections and keys, and comm/bmsh_config.cpp:
-- the readings of a key with a default. A file is its bytes, without zero bytes. A number is one that
-- fits an `int`.
pub mod Clean
pub mod Lines
pub mod RoundTrip
pub mod Keys
mod Tests
use cnode.Prelude.{
  ℕ, zero, suc, ◌+◌, ◌-◌, ◌*◌, Bool, true, false, not, ◌&&◌, ◌||◌, List, [], ◌∷◌, ◌++◌, Option,
  none, some, ltb, ◌==◌, if◌then◌else◌, length,
}
use cnode.Prelude.Int.{ℤ, pos, negsuc}
use cnode.Prelude.Bytes.{Bytes, codes, eq_bytes, within}
use cnode.StrParse.{atoi}

-- `Pair_Config_Value`.
pub record Entry : Type 0 where
  pub item : Bytes
  pub key : Bytes
  pub value : Bytes

pub record Config : Type 0 where
  pub path : Option Bytes
  pub lst_config : List Entry

abbrev pub is_blank : ℕ → Bool
is_blank c = c == b' ' || c == b'\t'

abbrev pub is_space : ℕ → Bool
is_space c = is_blank c || (c == b'\r' || c == b'\n')

-- A byte that ends a value.
abbrev pub ends_value : ℕ → Bool
ends_value c = is_space c || c == b'#'

-- What stands before and behind the first byte that passes, as `strchr` finds it.
unfoldable pub split_first : (ℕ → Bool) → Bytes → Option (Bytes × Bytes)
split_first p [] = none
split_first p (c ∷ s) = elim (split_first p s) [
  | none ↦ if p c then some ([], s) else none
  | some (a, b) ↦ if p c then some ([], s) else some (c ∷ a, b)
]

-- What stands before the last byte that passes, as `strrchr` finds it.
unfoldable pub before_last : (ℕ → Bool) → Bytes → Option Bytes
before_last p [] = none
before_last p (c ∷ s) = elim (before_last p s) [
  | some a ↦ some (c ∷ a)
  | none ↦ if p c then some [] else none
]

-- `erase(0, find_first_not_of(...))` and `erase(find_last_not_of(...) + 1)`.
unfoldable pub erase_front : (ℕ → Bool) → Bytes → Bytes
erase_front p [] = []
erase_front p (c ∷ s) = let rest = erase_front p s in if p c then rest else c ∷ s

unfoldable pub erase_back : (ℕ → Bool) → Bytes → Bytes
erase_back p [] = []
erase_back p (c ∷ s) = elim (erase_back p s) [ [] ↦ if p c then [] else c ∷ [] | d ∷ t ↦ c ∷ d ∷ t ]

-- `erase(find_first_of(...))`: `none` is the exception where nothing is found.
unfoldable pub erase_from : (ℕ → Bool) → Bytes → Option Bytes
unfolding split_first
erase_from p s = elim (split_first p s) [ none ↦ none | some (a, b) ↦ some a ]

-- `strItem` and the list, while a file is read; how a line or a file ends: it is read on, `load`
-- returns -3, or an exception leaves it.
pub record Loading : Type 0 where
  pub str_item : Bytes
  pub entries : List Entry

pub data Line : Type 0 where
  next : Loading → Line
  unclosed : Line
  thrown : Line

-- A line with a `[`, of which `rest` stands behind.
unfoldable pub section_line : (rest : Bytes) → Loading → Line
unfolding before_last
section_line rest l = elim (before_last (λ c. c == b']') rest) [
  | none ↦ unclosed
  | some item ↦ next (record l { str_item = item })
]

unfoldable pub trim_key : Bytes → Bytes
unfolding erase_front erase_back
trim_key key = erase_back is_blank (erase_front is_space key)

-- A line with a `=` between these two texts.
unfoldable pub key_line : (key value : Bytes) → Loading → Line
unfolding split_first trim_key erase_front erase_from
key_line key value l = elim (split_first (λ c. c == b'#') key) [
  | some found ↦ next l
  | none ↦ elim (erase_from ends_value (erase_front is_space value)) [
    | none ↦ thrown
    | some v ↦ next (record l {
      entries = l.entries ++ record { item = l.str_item; key = trim_key key; value = v } ∷ [];
    })
  ]
]

unfoldable pub load_line : Bytes → Loading → Line
unfolding split_first section_line key_line
load_line [] l = next l
load_line (c ∷ s) l = if c == b'#' then next l else (elim (split_first (λ d. d == b'[') (c ∷ s)) [
  | some (before, rest) ↦ section_line rest l
  | none ↦ elim (split_first (λ d. d == b'=') (c ∷ s)) [
    | none ↦ next l
    | some (key, value) ↦ key_line key value l
  ]
])

-- The bytes that `fgets` reads at most: it is told `MAX_BUF - 1` and leaves room for the zero.
abbrev pub max_line : ℕ
max_line = 1022

unfoldable pub push_byte : ℕ → List Bytes → List Bytes
push_byte c [] = (c ∷ []) ∷ []
push_byte c (line ∷ lines) = (c ∷ line) ∷ lines

-- What the calls of `fgets` give of a text, `left` bytes having room in the first: each ends behind a
-- line's end, or where the buffer is full.
unfoldable pub cut : (left : ℕ) → Bytes → List Bytes
unfolding push_byte
cut left [] = []
cut left (c ∷ s) =
    let ends = c == b'\n' || ltb left 2 in
    let rest = cut (if ends then max_line else left - 1) s in
    if ends then (c ∷ []) ∷ rest else push_byte c rest

-- The loop of `load`: the list that it leaves, and its end.
unfoldable pub load_lines : List Bytes → Loading → List Entry × Line
unfolding load_line
load_lines [] l = (l.entries, next l)
load_lines (line ∷ lines) l = elim (load_line line l) [
  | next k ↦ load_lines lines k
  | unclosed ↦ (l.entries, unclosed)
  | thrown ↦ (l.entries, thrown)
]

-- `load` of a path, which may be null, and what its file holds, if it opens: the code, or `none`
-- for an exception.
unfoldable pub load : (path : Option Bytes) → (file : Option Bytes) → Config → Config × Option ℤ
unfolding load_lines cut
load none file conf = (conf, some (negsuc 0))
load (some path) none conf = (conf, some (negsuc 1))
load (some path) (some text) conf =
    let (entries, end) = load_lines (cut max_line text) (record { str_item = []; entries = [] }) in
    elim end [
      | next l ↦ (record { path = some path; lst_config = entries }, some (pos 0))
      | unclosed ↦ (record conf { lst_config = entries }, some (negsuc 2))
      | thrown ↦ (record conf { lst_config = entries }, none)
    ]

unfoldable pub reload : (file : Option Bytes) → Config → Config × Option ℤ
unfolding load
reload file conf = load conf.path file conf

unfoldable pub unload : Config → Config
unload conf = record { path = none; lst_config = [] }

-- The loop of `read`.
unfoldable pub find_entry : List Entry → (item key : Bytes) → Option Bytes
find_entry [] item key = none
find_entry (e ∷ es) item key =
    let rest = find_entry es item key in
    if eq_bytes item e.item && eq_bytes key e.key then some e.value else rest

-- `read`: the code and `strValue`.
unfoldable pub read : Config → (item key : Bytes) → ℤ × Bytes
unfolding find_entry
read conf item key = elim (find_entry conf.lst_config item key) [
  | none ↦ (negsuc 0, [])
  | some v ↦ (pos 0, v)
]

-- FUNC_STR_CONF_IMP.
unfoldable pub str_conf : Config → (sec key defval : Bytes) → Bytes
unfolding read
str_conf conf sec key defval =
    let (result, outval) = read conf sec key in elim result [ pos n ↦ outval | negsuc n ↦ defval ]

-- The digits of a base at the front of a text: their value and how many they are.
unfoldable pub digit_of : ℕ → Option ℕ
digit_of c =
    if within b'0' b'9' c
    then some (c - b'0')
    else if within b'a' b'f' c
    then some (c - b'a' + 10)
    else if within b'A' b'F' c
    then some (c - b'A' + 10)
    else none

unfoldable pub scan_digits : (base acc count : ℕ) → Bytes → ℕ × ℕ
unfolding digit_of
scan_digits base acc count [] = (acc, count)
scan_digits base acc count (c ∷ s) = elim (digit_of c) [
  | none ↦ (acc, count)
  | some d ↦
      (let rest = scan_digits base (acc * base + d) (suc count) s in
        if ltb d base then rest else (acc, count))
]

-- `sscanf` of a number; `none` where it reads nothing and leaves `outi` unset.
unfoldable pub scan_unsigned : ℕ → Bytes → Option ℕ
unfolding scan_digits
scan_unsigned base s =
    let (value, count) = scan_digits base 0 0 s in elim count [ zero ↦ none | suc n ↦ some value ]

unfoldable pub signed : Bool → Option ℕ → Option ℤ
signed negative none = none
signed false (some n) = some (pos n)
signed true (some zero) = some (pos 0)
signed true (some (suc n)) = some (negsuc n)

unfoldable pub scan_decimal : Bytes → Option ℤ
unfolding scan_unsigned signed
scan_decimal [] = none
scan_decimal (c ∷ s) =
    if c == b'-'
    then signed true (scan_unsigned 10 s)
    else if c == b'+'
    then signed false (scan_unsigned 10 s)
    else signed false (scan_unsigned 10 (c ∷ s))

-- What FUNC_INT_CONF_IMP makes of a value that was read.
unfoldable pub int_of : Bytes → Option ℤ
unfolding scan_unsigned scan_decimal signed atoi
int_of [] = some (atoi [])
int_of (c ∷ []) = some (atoi (c ∷ []))
int_of (c ∷ d ∷ s) =
    if c == b'0'
    then if d == b'x'
      then signed false (scan_unsigned 16 s)
      else signed false (scan_unsigned 8 (c ∷ d ∷ s))
    else scan_decimal (c ∷ d ∷ s)

-- FUNC_INT_CONF_IMP: `none` is an `outi` that was never set.
unfoldable pub int_conf : Config → (sec key : Bytes) → ℤ → Option ℤ
unfolding read int_of
int_conf conf sec key defval =
    let (result, outval) = read conf sec key in
    elim result [ pos n ↦ int_of outval | negsuc n ↦ some defval ]
