-- ===== src/StrParse/Join.antt =====
-- `SpliteStr` of comm/strparse.cpp and the join that it undoes.
use mathlib.Core.List.{append-nil, append_assoc}
use cnode.Prelude.{
  ℕ, ◌≡◌, refl, sym, ap, ◌∙◌, ◌≢◌, false, List, [], ◌∷◌, ◌++◌, Bool-cases, inl, inr, ◌==◌, arith,
}
use cnode.Prelude.Bytes.{Bytes}
use cnode.StrParse.{splite_str}
use cnode.StrParse.Split.{fields, splite_str-fields}

unfoldable pub join : (dv : ℕ) → List Bytes → Bytes
join dv [] = []
join dv (x ∷ []) = x
join dv (x ∷ y ∷ rest) = x ++ (dv ∷ join dv (y ∷ rest))

-- The separator does not stand in the string.
abbrev pub Free : ℕ → Bytes → Type 0
Free dv [] = Unit {0}
Free dv (c ∷ s) = ((c == dv) ≡ false) × Free dv s

-- Fields without separators, the last of them not empty.
abbrev pub AreFields : ℕ → List Bytes → Type 0
AreFields dv [] = Unit {0}
AreFields dv (x ∷ []) = Free dv x × (x ≢ [])
AreFields dv (x ∷ y ∷ rest) = Free dv x × AreFields dv (y ∷ rest)

fields-ne-nil : (dv : ℕ) (cur : Bytes) (c : ℕ) (rest : Bytes) → fields dv cur (c ∷ rest) ≢ []
unfolding fields
fields-ne-nil dv cur c [] = λ e. cc
fields-ne-nil dv cur c (d ∷ rest) = elim (Bool-cases (c == dv)) [
  | inl e ↦ rw (e, fields) (λ h. cc)
  | inr e ↦ rw (e, fields) (fields-ne-nil dv (cur ++ c ∷ []) d rest)
]

join-cons :
    (dv : ℕ) (x : Bytes) (xs : List Bytes) → xs ≢ [] → join dv (x ∷ xs) ≡ x ++ (dv ∷ join dv xs)
unfolding join
join-cons dv x [] h = absurd (h refl)
join-cons dv x (y ∷ xs) h = refl

join-fields :
    (dv : ℕ) (cur : Bytes) (c : ℕ) (rest : Bytes)
    → join dv (fields dv cur (c ∷ rest)) ≡ cur ++ (c ∷ rest)
unfolding fields
join-fields dv cur c [] = unfold join in refl
join-fields dv cur c (d ∷ rest) = elim (Bool-cases (c == dv)) [
  | inl e ↦
      rw (e, fields)
        (join-cons dv cur (fields dv [] (d ∷ rest)) (fields-ne-nil dv [] d rest)
          ∙ ap (λ t. cur ++ (dv ∷ t)) (join-fields dv [] d rest)
          ∙ ap (λ t. cur ++ (t ∷ d ∷ rest)) (ground arith))
  | inr e ↦
      rw (e, fields) (join-fields dv (cur ++ c ∷ []) d rest ∙ append_assoc cur (c ∷ []) (d ∷ rest))
]

-- No byte is lost: the items joined by the separator give the string back.
pub join-splite_str : (str : Bytes) (dv : ℕ) → join dv (splite_str [] str dv) ≡ str
join-splite_str str dv = rw (splite_str-fields [] str dv) (go str)
  where
    go : (s : Bytes) → join dv (fields dv [] s) ≡ s
    go [] = unfold fields join in refl
    go (c ∷ rest) = join-fields dv [] c rest

fields-last :
    (dv : ℕ) (cur item : Bytes) → Free dv item → item ≢ [] → fields dv cur item ≡ (cur ++ item) ∷ []
unfolding fields
fields-last dv cur [] f n = absurd (n refl)
fields-last dv cur (c ∷ []) f n = refl
fields-last dv cur (c ∷ d ∷ item) f n =
    rw (f.0, fields)
      (fields-last dv (cur ++ c ∷ []) (d ∷ item) f.1 (λ e. cc)
        ∙ ap (λ t. t ∷ []) (append_assoc cur (c ∷ []) (d ∷ item)))

fields-item :
    (dv : ℕ) (cur item : Bytes) (d : ℕ) (rest : Bytes)
    → Free dv item
    → fields dv cur (item ++ (dv ∷ d ∷ rest)) ≡ (cur ++ item) ∷ fields dv [] (d ∷ rest)
unfolding fields
fields-item dv cur [] d rest f = rw (append-nil cur) (ground arith)
fields-item dv cur (c ∷ []) d rest f = rw (f.0, fields) (ground arith)
fields-item dv cur (c ∷ b ∷ item) d rest f =
    rw (f.0, fields)
      (fields-item dv (cur ++ c ∷ []) (b ∷ item) d rest f.1
        ∙ ap (λ t. t ∷ fields dv [] (d ∷ rest)) (append_assoc cur (c ∷ []) (b ∷ item)))

fields_end :
    (dv : ℕ) (cur item : Bytes)
    → Free dv item
    → fields dv cur (item ++ dv ∷ []) ≡ (cur ++ (item ++ dv ∷ [])) ∷ []
unfolding fields
fields_end dv cur [] f = refl
fields_end dv cur (c ∷ []) f = rw (f.0, fields) (ap (λ t. t ∷ []) (append_assoc cur (c ∷ []) _))
fields_end dv cur (c ∷ d ∷ item) f =
    rw (f.0, fields)
      (fields_end dv (cur ++ c ∷ []) (d ∷ item) f.1
        ∙ ap (λ t. t ∷ []) (append_assoc cur (c ∷ []) _))

-- A separator at the very end closes no empty item: it stays at the end of the last one.
pub splite_str-trailing :
    (str : Bytes) (dv : ℕ) → Free dv str → splite_str [] (str ++ dv ∷ []) dv ≡ (str ++ dv ∷ []) ∷ []
splite_str-trailing str dv f = splite_str-fields [] (str ++ dv ∷ []) dv ∙ fields_end dv [] str f

join-ne-nil :
    (dv : ℕ) (x : Bytes) (xs : List Bytes)
    → AreFields dv (x ∷ xs)
    → (d : ℕ) × (rest : Bytes) × (join dv (x ∷ xs) ≡ d ∷ rest)
unfolding join
join-ne-nil dv [] [] h = absurd (h.1 refl)
join-ne-nil dv [] (y ∷ ys) h = (dv, join dv (y ∷ ys), refl)
join-ne-nil dv (c ∷ x) [] h = (c, x, refl)
join-ne-nil dv (c ∷ x) (y ∷ ys) h = (c, x ++ (dv ∷ join dv (y ∷ ys)), refl)

fields-join :
    (dv : ℕ) (items : List Bytes) → AreFields dv items → fields dv [] (join dv items) ≡ items
unfolding join
fields-join dv [] h = unfold fields in refl
fields-join dv (x ∷ []) h = fields-last dv [] x h.0 h.1
fields-join dv (x ∷ y ∷ ys) h =
    let (d, rest, e) = join-ne-nil dv y ys h.1 in
    ap (λ t. fields dv [] (x ++ (dv ∷ t))) e
    ∙ fields-item dv [] x d rest h.0
    ∙ ap (λ t. x ∷ fields dv [] t) (sym e)
    ∙ ap (◌∷◌ x) (fields-join dv (y ∷ ys) h.1)

-- Items without separators come back from their join, behind what `data` held, if the last item
-- is not empty.
pub splite_str-join :
    (items more : List Bytes) (dv : ℕ)
    → AreFields dv more
    → splite_str items (join dv more) dv ≡ items ++ more
splite_str-join items more dv h =
    splite_str-fields items (join dv more) dv ∙ ap (◌++◌ items) (fields-join dv more h)
