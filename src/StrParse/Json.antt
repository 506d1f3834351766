-- ===== src/StrParse/Json.antt =====
-- `PickOneJson` of comm/strparse.cpp: its search ends, and what it picks from an object.
use mathlib.Core.List.{append_assoc, map-append}
use cnode.Prelude.{
  ℕ, zero, suc, ◌+◌, ◌-◌, ◌≤◌, ◌<◌, ◌≡◌, refl, sym, ap, ◌∙◌, ◌≢◌, true, false, [], ◌∷◌, ◌++◌,
  Option, none, some, Bool-cases, inl, inr, ◌==◌, leb, arith, length, length-append, map, drop,
  length-drop,
}
use cnode.Prelude.Bytes.{
  to_lower, Bytes, char_at, slice, starts_with, find_at, find_from, drop-append, take-append,
  char_at-append,
}
use cnode.StrParse.{
  whole_key, is_key_char, at, stuck, find_key, find_first, find_first_of, skip_spaces, quote_end,
  value_at, value_after, pick_from, pick_lower, pick_one_json, is_colon,
}

starts_with-length : (name s : Bytes) → starts_with name s ≡ true → length name ≤ length s
unfolding starts_with
starts_with-length [] s h = omega arith
starts_with-length (p ∷ ps) [] h = cc
starts_with-length (p ∷ ps) (c ∷ s) h = ground (arith, starts_with-length ps s)

find_at_bounds :
    (name : Bytes) (i : ℕ) (s : Bytes) {p : ℕ}
    → find_at name i s ≡ some p
    → (i ≤ p) × (p + length name ≤ i + length s)
unfolding find_at
find_at_bounds name i [] e = ground (arith, starts_with-length name [])
find_at_bounds name i (c ∷ s) {p} e =
    ground (arith, starts_with-length name (c ∷ s), find_at_bounds name (suc i) s {p = p})

find_from_bounds :
    (s name : Bytes) (from : ℕ) {p : ℕ}
    → find_from s name from ≡ some p
    → (from ≤ p) × (p + length name ≤ length s)
unfolding find_from
find_from_bounds s name from {p} e =
    ground (arith, find_at_bounds name from (drop from s) {p = p}, length-drop from s)

find_key-ne-stuck :
    (fuel : ℕ) (s name : Bytes) (found : Option ℕ) (low : ℕ)
    → 0 < length name
    → ((p : ℕ) → found ≡ some p → (low ≤ p) × (p + length name ≤ length s))
    → length s < fuel + low
    → find_key fuel s name found ≢ stuck
unfolding find_key
find_key-ne-stuck fuel s name none low n b h = λ e. cc
find_key-ne-stuck zero s name (some p) low n b h = absurd (omega (arith, b p refl))
find_key-ne-stuck (suc fuel) s name (some p) low n b h =
    elim (Bool-cases (whole_key s (length name) p)) [
      | inl e ↦ rw (e, find_key) (λ x. cc)
      | inr e ↦
          rw (e, find_key)
            (find_key-ne-stuck fuel s name (find_from s name (p + length name)) (p + length name) n
              (λ q f. find_from_bounds s name (p + length name) f) (omega (arith, b p refl)))
    ]

-- The search for the key ends for every name but the empty one: with one round for each byte
-- and one more, the fuel of the model does not run out.
pub pick_one_json_ends :
    (s name : Bytes) → name ≢ [] → find_key (length s + 1) s name (find_from s name 0) ≢ stuck
pick_one_json_ends s [] h = absurd (h refl)
pick_one_json_ends s (c ∷ name) h =
    find_key-ne-stuck (length s + 1) s (c ∷ name) (find_from s (c ∷ name) 0) 0 (omega arith)
      (λ q f. find_from_bounds s (c ∷ name) 0 f) (omega arith)

-- Neither a quote nor a backslash stands in the string.
abbrev pub Unquoted : Bytes → Type 0
Unquoted [] = Unit {0}
Unquoted (c ∷ s) = ((b'"' == c) ≡ false) × ((b'\\' == c) ≡ false) × Unquoted s

quote_end-Unquoted :
    (i : ℕ) (v rest : Bytes) → Unquoted v → quote_end i (v ++ (b'"' ∷ rest)) ≡ some (i + length v)
unfolding quote_end
quote_end-Unquoted i [] [] h = ground arith
quote_end-Unquoted i [] (d ∷ rest) h = ground arith
quote_end-Unquoted i (c ∷ []) rest h = ground (arith, quote_end-Unquoted (i + 1) [] rest tt)
quote_end-Unquoted i (c ∷ d ∷ v) rest h =
    ground (arith, quote_end-Unquoted (i + 1) (d ∷ v) rest h.2)

-- `{"name":"v"` and what follows.
abbrev pub document : (name v rest : Bytes) → Bytes
document name v rest = b'{' ∷ b'"' ∷ (name ++ (b'"' ∷ b':' ∷ b'"' ∷ (v ++ (b'"' ∷ rest))))

starts_with-append : (name rest : Bytes) → starts_with name (name ++ rest) ≡ true
unfolding starts_with
starts_with-append [] rest = refl
starts_with-append (c ∷ name) rest = ground (arith, starts_with-append name rest)

find_at-append : (name rest : Bytes) (i : ℕ) → find_at name i (name ++ rest) ≡ some i
unfolding find_at starts_with
find_at-append [] [] i = refl
find_at-append [] (c ∷ rest) i = refl
find_at-append (c ∷ name) rest i = ground (arith, starts_with-append name rest)

-- The first byte of the name is not one of the document's opening.
abbrev pub Begins : Bytes → Type 0
Begins [] = ⊥
Begins (c ∷ name) = (c ≢ b'{') × (c ≢ b'"')

find_from-document :
    (name v rest : Bytes) → Begins name → find_from (document name v rest) name 0 ≡ some 2
unfolding find_from find_at starts_with
find_from-document [] v rest h = absurd h
find_from-document (c ∷ name) v rest h =
    ground (arith, find_at-append (c ∷ name) (b'"' ∷ b':' ∷ b'"' ∷ (v ++ (b'"' ∷ rest))) 2)

-- The parts of a document before and after the closing quote of its name.
abbrev opening : Bytes → Bytes
opening name = b'{' ∷ b'"' ∷ name

char_at-opening :
    (name rest : Bytes) → char_at (opening name ++ rest) (2 + length name) ≡ char_at rest 0
char_at-opening name rest =
    let n : 2 + length name ≡ length (opening name) = omega arith in
    rw n (char_at-append (opening name) rest)

drop-opening : (name rest : Bytes) → drop (2 + length name) (opening name ++ rest) ≡ rest
drop-opening name rest =
    let n : 2 + length name ≡ length (opening name) = omega arith in
    rw n (drop-append (opening name) rest)

find_key-document :
    (name v rest : Bytes)
    → find_key (length (document name v rest) + 1) (document name v rest) name (some 2) ≡ at 2
unfolding find_key whole_key is_key_char
find_key-document name v rest =
    let n : length (document name v rest) + 1 ≡ suc (length (document name v rest)) = omega arith in
    rw n (ground (arith, char_at-opening name (b'"' ∷ b':' ∷ b'"' ∷ (v ++ (b'"' ∷ rest)))))

value_at-quoted :
    (pre v rest : Bytes)
    → Unquoted v
    → value_at (pre ++ (b'"' ∷ (v ++ (b'"' ∷ rest)))) (length pre) ≡ v
unfolding value_at
value_at-quoted pre v rest h =
    let s = pre ++ (b'"' ∷ (v ++ (b'"' ∷ rest))) in
    let whole : s ≡ (pre ++ b'"' ∷ []) ++ (v ++ (b'"' ∷ rest)) =
      sym (append_assoc pre (b'"' ∷ []) _) in
    let n : length pre + 1 ≡ length (pre ++ b'"' ∷ []) =
      omega (arith, length-append pre (b'"' ∷ [])) in
    let behind : drop (length pre + 1) s ≡ v ++ (b'"' ∷ rest) =
      rw (n, whole) (drop-append (pre ++ b'"' ∷ []) _) in
    let closed : quote_end (length pre + 1) (drop (length pre + 1) s)
        ≡ some (length pre + 1 + length v) =
      rw behind (quote_end-Unquoted (length pre + 1) v rest h) in
    let taken : slice s (length pre + 1) (length pre + 1 + length v - (length pre + 1)) ≡ v =
      let k : length pre + 1 + length v - (length pre + 1) ≡ length v = omega arith in
      rw (k, behind) (take-append v (b'"' ∷ rest)) in
    ground (arith, char_at-append pre (b'"' ∷ (v ++ (b'"' ∷ rest))), closed, taken)

value_after-quoted :
    (pre v rest : Bytes) (colon : ℕ)
    → Unquoted v
    → colon + 1 ≡ length pre
    → value_after (pre ++ (b'"' ∷ (v ++ (b'"' ∷ rest)))) (some colon) ≡ some v
unfolding value_after
value_after-quoted pre v rest colon h n =
    let tail = b'"' ∷ (v ++ (b'"' ∷ rest)) in
    let skipped : skip_spaces (length pre) (drop (length pre) (pre ++ tail)) ≡ length pre =
      rw (drop-append pre tail) (unfold skip_spaces in refl) in
    let inside : leb (length (pre ++ tail)) (length pre) ≡ false =
      ground (arith, length-append pre tail) in
    rw (n, skipped, inside) (ap some (value_at-quoted pre v rest h))

find_first_of-document :
    (name v rest : Bytes)
    → find_first_of is_colon (document name v rest) (2 + length name) ≡ some (suc (2 + length name))
unfolding find_first_of find_first
find_first_of-document name v rest =
    rw (drop-opening name (b'"' ∷ b':' ∷ b'"' ∷ (v ++ (b'"' ∷ rest))))

document-parts :
    (name v rest : Bytes)
    → document name v rest ≡ (opening name ++ b'"' ∷ b':' ∷ []) ++ (b'"' ∷ (v ++ (b'"' ∷ rest)))
document-parts name v rest = sym (append_assoc (opening name) (b'"' ∷ b':' ∷ []) _)

pick_from-document :
    (name v rest : Bytes) → Unquoted v → pick_from (document name v rest) name (at 2) ≡ some v
unfolding pick_from
pick_from-document name v rest h =
    ap (value_after (document name v rest)) (find_first_of-document name v rest)
    ∙ ap (λ t. value_after t (some (suc (2 + length name)))) (document-parts name v rest)
    ∙ value_after-quoted (opening name ++ b'"' ∷ b':' ∷ []) v rest (suc (2 + length name)) h
        (omega (arith, length-append (opening name) (b'"' ∷ b':' ∷ [])))

to_lower-Unquoted : (v : Bytes) → Unquoted v → Unquoted (map to_lower v)
unfolding to_lower
to_lower-Unquoted [] h = tt
to_lower-Unquoted (c ∷ v) h = (ground arith, ground arith, to_lower-Unquoted v h.2)

lower-document :
    (name v rest : Bytes)
    → map to_lower name ≡ name
    → map to_lower (document name v rest) ≡ document name (map to_lower v) (map to_lower rest)
unfolding to_lower
lower-document name v rest h =
    ap (λ t. b'{' ∷ b'"' ∷ t)
      (map-append to_lower name _
        ∙ ap (λ t. t ++ map to_lower (b'"' ∷ b':' ∷ b'"' ∷ (v ++ (b'"' ∷ rest)))) h
        ∙ ap (λ t. name ++ (b'"' ∷ b':' ∷ b'"' ∷ t)) (map-append to_lower v (b'"' ∷ rest)))

-- From a text that begins `{"name":"value"`, without any space and with the name in lower case,
-- `PickOneJson` takes that value in lower case, whatever follows. The value holds no quote and no
-- backslash, and the name is not empty and does not begin with `{` or a quote.
pub pick_one_json-document :
    (name v rest : Bytes)
    → Begins name
    → map to_lower name ≡ name
    → Unquoted v
    → pick_one_json (document name v rest) name ≡ some (map to_lower v)
unfolding pick_one_json pick_lower
pick_one_json-document name v rest b l u =
    let w = map to_lower v in
    let r = map to_lower rest in
    ap (λ t. pick_lower t name) (lower-document name v rest l)
    ∙ ap
        (λ t.
          pick_from (document name w r) name
            (find_key (length (document name w r) + 1) (document name w r) name t))
        (find_from-document name w r b)
    ∙ ap (pick_from (document name w r) name) (find_key-document name w r)
    ∙ pick_from-document name w r (to_lower-Unquoted v u)
