-- ===== src/StrParse.antt =====
-- comm/strparse.h and comm/strparse.cpp: `StrParse::f` is `f` here, over strings as lists of
-- bytes. An `int` or `unsigned int` index stands for itself, below 2^31.
pub mod Split
pub mod Join
pub mod QueryString
pub mod Json
pub mod Paths
mod Tests
use cnode.Prelude.{
  ℕ, zero, suc, ◌+◌, ◌-◌, ◌*◌, Bool, true, false, not, ◌&&◌, ◌||◌, List, [], ◌∷◌, ◌++◌, Option,
  none, some, leb, ltb, ◌==◌, if◌then◌else◌, length, take, drop, map,
}
use cnode.Prelude.Int.{ℤ, pos, negsuc}
use cnode.Prelude.Bytes.{Bytes, to_lower, char_at, slice, within, find_from, assign}

-- The loop of `SpliteStr`, with `rounds` = `len - i` rounds left; what it adds to `data`.
unfoldable pub split_loop : (dv : ℕ) (str : Bytes) (rounds i begi : ℕ) → List Bytes
split_loop dv str zero i begi = []
split_loop dv str (suc rounds) i begi = elim (i + 1 == length str) [
  | true ↦ slice str begi (length str - begi) ∷ []
  | false ↦ elim (char_at str i == dv) [
    | true ↦ slice str begi (i - begi) ∷ split_loop dv str rounds (i + 1) (i + 1)
    | false ↦ split_loop dv str rounds (i + 1) begi
  ]
]

unfoldable pub splite_str : List Bytes → Bytes → ℕ → List Bytes
unfolding split_loop
splite_str items str dv = items ++ split_loop dv str (length str) 0 0

-- The state of `SpliteQueryString`.
pub record Query : Type 0 where
  pub findkey : Bool
  pub begidx : ℕ
  pub key : Bytes
  pub out_par : List (Bytes × Bytes)

-- The first half of a round of its loop, at position `i`.
unfoldable pub query_char : Bytes → ℕ → Query → Query
query_char qstr i q =
    if q.findkey
    then if b'=' == char_at qstr i
      then record q { key = slice qstr q.begidx (i - q.begidx); begidx = i + 1; findkey = false }
      else q
    else if b'&' == char_at qstr i
    then record q {
      begidx = i + 1;
      findkey = true;
      out_par = assign q.key (slice qstr q.begidx (i - q.begidx)) q.out_par;
    }
    else q

-- The last part, which ends before position `i`.
unfoldable pub query_end : Bytes → ℕ → Query → Query
query_end qstr i q =
    if q.findkey
    then q
    else record q { out_par = assign q.key (slice qstr q.begidx (i - q.begidx)) q.out_par }

-- A round ends the loop where the next byte is 0; one stands at the end of the string.
unfoldable pub query_loop : (qstr : Bytes) (rounds i : ℕ) → Query → Query
unfolding query_char query_end
query_loop qstr zero i q = q
query_loop qstr (suc rounds) i q =
    let r = query_char qstr i q in
    elim (0 == char_at qstr (i + 1)) [
      | true ↦ query_end qstr (i + 1) r
      | false ↦ query_loop qstr rounds (i + 1) r
    ]

unfoldable pub splite_query_string : List (Bytes × Bytes) → Bytes → List (Bytes × Bytes)
unfolding query_loop
splite_query_string out_par querystr =
    (query_loop querystr (length querystr) 0
      (record { findkey = true; begidx = 0; key = []; out_par = out_par })).out_par

unfoldable pub is_digit : ℕ → Bool
is_digit = within b'0' b'9'

-- `atoi`, where the number fits an `int`: white space, a sign, then digits.
unfoldable pub atoi_digits : ℕ → Bytes → ℕ
unfolding is_digit
atoi_digits acc [] = acc
atoi_digits acc (c ∷ s) =
    let rest = atoi_digits (acc * 10 + (c - b'0')) s in if is_digit c then rest else acc

neg_ℕ : ℕ → ℤ
neg_ℕ zero = pos 0
neg_ℕ (suc n) = negsuc n

unfoldable pub atoi : Bytes → ℤ
unfolding atoi_digits neg_ℕ
atoi [] = pos 0
atoi (c ∷ s) =
    let rest = atoi s in
    if c == b' ' || within 9 13 c
    then rest
    else if c == b'-'
    then neg_ℕ (atoi_digits 0 s)
    else if c == b'+'
    then pos (atoi_digits 0 s)
    else pos (atoi_digits 0 (c ∷ s))

int_item : ℤ → Bytes → ℤ
int_item nildef [] = nildef
int_item nildef (c ∷ s) = atoi (c ∷ s)

-- `SpliteInt` of a string, with `nildef` for an empty item; what `data` holds afterwards.
unfoldable pub splite_int : List ℤ → Bytes → ℕ → ℤ → List ℤ
unfolding int_item
splite_int items str dv nildef = items ++ map (int_item nildef) (splite_str [] str dv)

-- A byte that may stand in a key.
unfoldable pub is_key_char : ℕ → Bool
is_key_char c = within b'a' b'z' c || within b'0' b'9' c || (b'_' == c || b'-' == c)

-- The tests of `PickOneJson` on what stands before and behind the name at `namepos`.
unfoldable pub whole_key : Bytes → ℕ → ℕ → Bool
unfolding is_key_char
whole_key s namelen namepos =
    not (ltb 0 namepos && is_key_char (char_at s (namepos - 1)))
    && not (ltb (namepos + namelen) (length s) && is_key_char (char_at s (namepos + namelen)))

-- `stuck`: the fuel of the model ran out.
pub data Search : Type 0 where
  at : ℕ → Search
  missing : Search
  stuck : Search

-- The loop over the places where the name stands.
unfoldable pub find_key : (fuel : ℕ) (s name : Bytes) → Option ℕ → Search
unfolding whole_key
find_key fuel s name none = missing
find_key zero s name (some namepos) = stuck
find_key (suc fuel) s name (some namepos) = elim (whole_key s (length name) namepos) [
  | true ↦ at namepos
  | false ↦ find_key fuel s name (find_from s name (namepos + length name))
]

-- The first position from `i` on whose byte passes; the list is what stands from `i` on.
unfoldable pub find_first : (ℕ → Bool) → ℕ → Bytes → Option ℕ
find_first p i [] = none
find_first p i (c ∷ s) = let rest = find_first p (suc i) s in if p c then some i else rest

unfoldable pub find_first_of : (ℕ → Bool) → Bytes → ℕ → Option ℕ
unfolding find_first
find_first_of p s from = find_first p from (drop from s)

-- Spaces are skipped; `length` where nothing else follows.
unfoldable pub skip_spaces : ℕ → Bytes → ℕ
skip_spaces i [] = i
skip_spaces i (c ∷ s) = let rest = skip_spaces (suc i) s in if b' ' == c then rest else i

-- The closing quote; a backslash hides the byte behind it.
unfoldable pub quote_end : ℕ → Bytes → Option ℕ
quote_end i [] = none
quote_end i (c ∷ []) = if b'"' == c then some i else none
quote_end i (c ∷ d ∷ s) =
    let skipped = quote_end (i + 2) s in
    let next = quote_end (i + 1) (d ∷ s) in
    if b'"' == c then some i else if b'\\' == c then skipped else next

abbrev pub is_colon : ℕ → Bool
is_colon c = c == b':' || c == b'='

abbrev is_value_end : ℕ → Bool
is_value_end c = c == b' ' || c == b',' || c == b'}' || c == b'\r' || c == b'\n'

substr_to : Bytes → ℕ → Option ℕ → Bytes
substr_to s valpos none = drop valpos s
substr_to s valpos (some valend) = slice s valpos (valend - valpos)

quoted_value : Bytes → ℕ → Option ℕ → Bytes
unfolding substr_to
quoted_value s valpos none = substr_to s (valpos - 1) none
quoted_value s valpos (some valend) = substr_to s valpos (some valend)

-- The value whose first byte is at `valpos`.
unfoldable pub value_at : Bytes → ℕ → Bytes
unfolding quoted_value substr_to quote_end find_first_of
value_at s valpos =
    if b'"' == char_at s valpos
    then quoted_value s (valpos + 1) (quote_end (valpos + 1) (drop (valpos + 1) s))
    else substr_to s valpos (find_first_of is_value_end s valpos)

unfoldable pub value_after : Bytes → Option ℕ → Option Bytes
unfolding value_at skip_spaces
value_after s none = none
value_after s (some colon) =
    let valpos = skip_spaces (colon + 1) (drop (colon + 1) s) in
    if leb (length s) valpos then none else some (value_at s valpos)

unfoldable pub pick_from : Bytes → Bytes → Search → Option Bytes
pick_from s name (at namepos) = value_after s (find_first_of is_colon s (namepos + length name))
pick_from s name missing = none
pick_from s name stuck = none

-- What follows the loop that fills `tempstr`.
unfoldable pub pick_lower : (tempstr name : Bytes) → Option Bytes
pick_lower tempstr name =
    pick_from tempstr name (find_key (length tempstr + 1) tempstr name (find_from tempstr name 0))

-- `some` is the result 0 with what is stored in `ostr`; `none` is the result 1.
unfoldable pub pick_one_json : Bytes → Bytes → Option Bytes
pick_one_json src name = pick_lower (map to_lower src) name

-- The loop of `AdjustPath` on a path of `len` bytes; `none` is the exception of `at`.
unfoldable pub strip_end : (len dv : ℕ) (path : Bytes) → Option Bytes
strip_end zero dv path = none
strip_end (suc len) dv path =
    let rest = strip_end len dv (take len path) in
    if dv == char_at path len then rest else some path

unfoldable pub adjust_path : Bytes → Bool → ℕ → Option Bytes
unfolding strip_end
adjust_path [] useend dv = some []
adjust_path (c ∷ s) useend dv =
    let path : Bytes = c ∷ s in
    if useend
    then if dv == char_at path (length path - 1) then some path else some (path ++ dv ∷ [])
    else strip_end (length path) dv path

unfoldable pub all_of : (ℕ → Bool) → Bytes → Bool
all_of p [] = true
all_of p (c ∷ s) = p c && all_of p s

unfoldable pub is_character : Bytes → Bool → Bool
unfolding all_of
is_character str inc_digit =
    all_of (λ ch. within b'a' b'z' ch || within b'A' b'Z' ch || (inc_digit && is_digit ch)) str

unfoldable pub is_numberic : Bytes → Bool
unfolding all_of is_digit
is_numberic str = all_of is_digit str

-- `AppendFormat`, given the text that the format stands for: the buffer takes 510 bytes of it,
-- and the result is 1 if the whole text is longer than 511.
unfoldable pub append_format : Bytes → Bytes → Bytes × ℕ
append_format ostr text = (ostr ++ take 510 text, if leb 512 (length text) then 1 else 0)
