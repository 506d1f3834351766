-- ===== src/Prelude/Bytes.antt =====
-- `std::string` as the list of its bytes, with the parts of its interface that the program uses.
use Prim.Native.Char.{code}
use Prim.Native.String.{String}
use cnode.Prelude.{
  ℕ, suc, ◌≡◌, refl, ap, ◌↔◌, Bool, true, false, ◌&&◌, List, [], ◌∷◌, ◌++◌, Option, none, some, ◌+◌,
  ◌-◌, ◌==◌, if◌then◌else◌, arith, length, get_or, take, drop, leb, Every, Bool-cases, inl, inr,
  subst, sym, ◌∙◌,
}

abbrev pub Bytes : Type 0
Bytes = List ℕ

-- The code points of a text: its bytes, if it is ASCII.
abbrev pub codes : String → Bytes
codes String.[] = []
codes (String.◌∷◌ c s) = code c ∷ codes s

-- `s[i]`, 0 at the end.
abbrev pub char_at : Bytes → ℕ → ℕ
char_at s i = get_or s i 0

-- `string(s + from, n)`.
abbrev pub slice : Bytes → ℕ → ℕ → Bytes
slice s from n = take n (drop from s)

-- `lo <= c && c <= hi`.
abbrev pub within : ℕ → ℕ → ℕ → Bool
within lo hi c = leb lo c && leb c hi

-- Also what `tolower` answers in the C locale.
unfoldable pub to_lower : ℕ → ℕ
to_lower c = if within b'A' b'Z' c then b'a' + c - b'A' else c

unfoldable pub eq_bytes : Bytes → Bytes → Bool
eq_bytes [] [] = true
eq_bytes (x ∷ xs) (y ∷ ys) = x == y && eq_bytes xs ys
eq_bytes _ _ = false

pub eq_bytes_iff : (a b : Bytes) → (eq_bytes a b ≡ true) ↔ (a ≡ b)
unfolding eq_bytes
eq_bytes_iff (x ∷ a) (y ∷ b) = ground (arith, eq_bytes_iff a b)
eq_bytes_iff _ _ = ground arith

unfoldable pub starts_with : Bytes → Bytes → Bool
starts_with [] s = true
starts_with (p ∷ ps) [] = false
starts_with (p ∷ ps) (c ∷ s) = p == c && starts_with ps s

-- `s.find(name)`, counted from `at`: `s` is what stands from position `at` on.
unfoldable pub find_at : Bytes → ℕ → Bytes → Option ℕ
unfolding starts_with
find_at name at [] = if starts_with name [] then some at else none
find_at name at (c ∷ s) =
    let rest = find_at name (suc at) s in if starts_with name (c ∷ s) then some at else rest

-- `s.find(name, from)`; `none` is `npos`, also for a start past the end.
unfoldable pub find_from : Bytes → Bytes → ℕ → Option ℕ
unfolding find_at
find_from s name from = if leb from (length s) then find_at name from (drop from s) else none

pub drop-append : (xs ys : Bytes) → drop (length xs) (xs ++ ys) ≡ ys
drop-append [] ys = refl
drop-append (x ∷ xs) ys = drop-append xs ys

pub take-append : (xs ys : Bytes) → take (length xs) (xs ++ ys) ≡ xs
take-append [] ys = refl
take-append (x ∷ xs) ys = ap (◌∷◌ x) (take-append xs ys)

pub char_at-append : (xs ys : Bytes) → char_at (xs ++ ys) (length xs) ≡ char_at ys 0
char_at-append [] ys = refl
char_at-append (x ∷ xs) ys = char_at-append xs ys

pub slice-append :
    (pre item rest : Bytes) → slice (pre ++ (item ++ rest)) (length pre) (length item) ≡ item
slice-append pre item rest = rw (drop-append pre (item ++ rest)) (take-append item rest)

-- A map with `operator[]` for its writes, as the list of its entries; the order of a
-- `std::map` is not kept.
module _ {ℓ} {V : Type ℓ} where
  unfoldable pub lookup : Bytes → List (Bytes × V) → Option V
  lookup k [] = none
  lookup k ((j, v) ∷ m) = if eq_bytes j k then some v else lookup k m

  unfoldable pub assign : Bytes → V → List (Bytes × V) → List (Bytes × V)
  assign k v [] = (k, v) ∷ []
  assign k v ((j, w) ∷ m) = if eq_bytes j k then (j, v) ∷ m else (j, w) ∷ assign k v m

  -- `erase` of the entry that `find` gives.
  unfoldable pub erase : Bytes → List (Bytes × V) → List (Bytes × V)
  erase k [] = []
  erase k ((j, v) ∷ m) = if eq_bytes j k then m else (j, v) ∷ erase k m

  pub lookup-assign :
      (k j : Bytes) (v : V) (m : List (Bytes × V))
      → lookup j (assign k v m) ≡ (if eq_bytes k j then some v else lookup j m)
  unfolding lookup assign
  lookup-assign k j v [] = refl
  lookup-assign k j v ((i, w) ∷ m) =
      ground (arith, eq_bytes_iff k j, eq_bytes_iff i k, eq_bytes_iff i j, lookup-assign k j v m)

-- What holds of every entry of a map.
module _ {ℓ κ} {V : Type ℓ} where
  pub Every-assign :
      (P : Bytes × V → Type κ) (k : Bytes) (v : V) (m : List (Bytes × V))
      → P (k, v)
      → Every P m
      → Every P (assign k v m)
  unfolding assign
  Every-assign P k v [] p h = (p, h)
  Every-assign P k v ((j, w) ∷ m) p h = elim (Bool-cases (eq_bytes j k)) [
    | inl e ↦ rw (e, assign) (subst (λ i. P (i, v)) (sym ((eq_bytes_iff j k).0 e)) p, h.1)
    | inr e ↦ rw (e, assign) (h.0, Every-assign P k v m p h.1)
  ]

  pub Every-erase :
      (P : Bytes × V → Type κ) (k : Bytes) (m : List (Bytes × V)) → Every P m → Every P (erase k m)
  unfolding erase
  Every-erase P k [] h = h
  Every-erase P k ((j, w) ∷ m) h = elim (Bool-cases (eq_bytes j k)) [
    | inl e ↦ rw (e, erase) h.1
    | inr e ↦ rw (e, erase) (h.0, Every-erase P k m h.1)
  ]

  pub Every-lookup :
      (P : Bytes × V → Type κ) (k : Bytes) (v : V) (m : List (Bytes × V))
      → Every P m
      → lookup k m ≡ some v
      → P (k, v)
  unfolding lookup
  Every-lookup P k v [] h f = absurd cc
  Every-lookup P k v ((j, w) ∷ m) h f = elim (Bool-cases (eq_bytes j k)) [
    | inl e ↦
        (let g : some w ≡ some v = rw (e, lookup) at f in
          let i : (j, w) ≡ (k, v) =
            ap (λ x. (x, w)) ((eq_bytes_iff j k).0 e) ∙ ap (λ x. (k, x)) cc in
          subst P i h.0)
    | inr e ↦ Every-lookup P k v m h.1 (rw (e, lookup) at f)
  ]
