-- ===== src/StrParse/Split.antt =====
-- `SpliteStr` of comm/strparse.cpp against fields read off byte by byte.
use mathlib.Core.List.{append-nil, append_assoc}
use cnode.Prelude.{
  ℕ, zero, suc, ◌+◌, ◌-◌, ◌≡◌, refl, sym, ap, ◌∙◌, true, false, List, [], ◌∷◌, ◌++◌, Bool-cases,
  inl, inr, ◌==◌, arith, length, length-append,
}
use cnode.Prelude.Bytes.{Bytes, char_at, slice, slice-append, char_at-append}
use cnode.StrParse.{split_loop, splite_str}

-- The fields of `rest` behind a field that began with `cur`. The last byte closes the last field
-- and belongs to it, also if it is the separator.
unfoldable pub fields : (dv : ℕ) (cur rest : Bytes) → List Bytes
fields dv cur [] = []
fields dv cur (c ∷ []) = (cur ++ c ∷ []) ∷ []
fields dv cur (c ∷ d ∷ rest) = elim (c == dv) [
  | true ↦ cur ∷ fields dv [] (d ∷ rest)
  | false ↦ fields dv (cur ++ c ∷ []) (d ∷ rest)
]

-- `str` is `pre`, then the field under way, `cur`, then what is still to be read.
pub record At (str pre cur rest : Bytes) (rounds i begi : ℕ) : Type 0 where
  pub parts : str ≡ pre ++ (cur ++ rest)
  pub begins : begi ≡ length pre
  pub index : i ≡ length pre + length cur
  pub left : rounds ≡ length rest

length-parts :
    (pre cur rest : Bytes) → length (pre ++ (cur ++ rest)) ≡ length pre + length cur + length rest
length-parts pre cur rest = omega (arith, length-append pre (cur ++ rest), length-append cur rest)

pub cur-slice :
    {str pre cur rest : Bytes} {rounds i begi : ℕ}
    → At str pre cur rest rounds i begi
    → slice str begi (i - begi) ≡ cur
cur-slice {pre = pre} {cur = cur} {rest = rest} {i = i} {begi = begi} a =
    let n : i - begi ≡ length cur = omega (arith, a.begins, a.index) in
    rw (n, a.parts, a.begins) (slice-append pre cur rest)

pub char-here :
    {str pre cur rest : Bytes} {rounds i begi : ℕ}
    → At str pre cur rest rounds i begi
    → char_at str i ≡ char_at rest 0
char-here {pre = pre} {cur = cur} {rest = rest} {i = i} a =
    let n : i ≡ length (pre ++ cur) = omega (arith, a.index, length-append pre cur) in
    rw (n, a.parts, ← append_assoc pre cur rest) (char_at-append (pre ++ cur) rest)

pub At-next :
    {str pre cur rest : Bytes} {rounds i begi c : ℕ}
    → At str pre cur (c ∷ rest) (suc rounds) i begi
    → At str pre (cur ++ c ∷ []) rest rounds (i + 1) begi
At-next {pre = pre} {cur = cur} {rest = rest} {c = c} a = record {
  parts = a.parts ∙ ap (◌++◌ pre) (sym (append_assoc cur (c ∷ []) rest));
  begins = a.begins;
  index = omega (arith, a.index, length-append cur (c ∷ []));
  left = omega (arith, a.left);
}

pub At-skip :
    {str pre cur rest : Bytes} {rounds i begi c : ℕ}
    → At str pre cur (c ∷ rest) (suc rounds) i begi
    → At str (pre ++ (cur ++ c ∷ [])) [] rest rounds (i + 1) (i + 1)
At-skip {pre = pre} {cur = cur} {rest = rest} {c = c} a = record {
  parts =
      a.parts
      ∙ ap (◌++◌ pre) (sym (append_assoc cur (c ∷ []) rest))
      ∙ sym (append_assoc pre (cur ++ c ∷ []) rest);
  begins = omega (arith, a.index, length-parts pre cur (c ∷ []));
  index = omega (arith, a.index, length-parts pre cur (c ∷ []));
  left = omega (arith, a.left);
}

last-slice :
    {str pre cur : Bytes} {rounds i begi c : ℕ}
    → At str pre cur (c ∷ []) rounds i begi
    → slice str begi (length str - begi) ≡ cur ++ c ∷ []
last-slice {str} {pre} {cur} {begi = begi} {c = c} a =
    let n : length str - begi ≡ length (cur ++ c ∷ []) =
      omega (arith, ap length a.parts, a.begins, length-append pre (cur ++ c ∷ [])) in
    rw (n, a.parts, a.begins)
      (ap (λ t. slice t (length pre) (length (cur ++ c ∷ [])))
          (ap (◌++◌ pre) (sym (append-nil (cur ++ c ∷ []))))
        ∙ slice-append pre (cur ++ c ∷ []) [])

==-last :
    {str pre cur : Bytes} {rounds i begi c : ℕ}
    → At str pre cur (c ∷ []) rounds i begi
    → (i + 1 == length str) ≡ true
==-last {pre = pre} {cur = cur} {c = c} a =
    ground (arith, ap length a.parts, a.index, length-parts pre cur (c ∷ []))

==-inner :
    {str pre cur rest : Bytes} {rounds i begi c d : ℕ}
    → At str pre cur (c ∷ d ∷ rest) rounds i begi
    → (i + 1 == length str) ≡ false
==-inner {pre = pre} {cur = cur} {rest = rest} {c = c} {d = d} a =
    ground (arith, ap length a.parts, a.index, length-parts pre cur (c ∷ d ∷ rest))

split_loop-fields :
    (dv : ℕ) (str pre cur rest : Bytes) (rounds i begi : ℕ)
    → At str pre cur rest rounds i begi
    → split_loop dv str rounds i begi ≡ fields dv cur rest
unfolding split_loop fields
split_loop-fields dv str pre cur [] zero i begi a = refl
split_loop-fields dv str pre cur [] (suc rounds) i begi a = absurd (omega (arith, a.left))
split_loop-fields dv str pre cur (c ∷ rest) zero i begi a = absurd (omega (arith, a.left))
split_loop-fields dv str pre cur (c ∷ []) (suc rounds) i begi a =
    rw (==-last a, split_loop) (ap (λ t. t ∷ []) (last-slice a))
split_loop-fields dv str pre cur (c ∷ d ∷ rest) (suc rounds) i begi a =
    elim (Bool-cases (c == dv)) [
      | inl e ↦
          rw (==-inner a, char-here a, e, cur-slice a, split_loop, fields)
            (ap (◌∷◌ cur)
              (split_loop-fields dv str _ [] (d ∷ rest) rounds (i + 1) (i + 1) (At-skip a)))
      | inr e ↦
          rw (==-inner a, char-here a, e, split_loop, fields)
            (split_loop-fields dv str pre (cur ++ c ∷ []) (d ∷ rest) rounds (i + 1) begi
              (At-next a))
    ]

pub splite_str-fields :
    (items : List Bytes) (str : Bytes) (dv : ℕ)
    → splite_str items str dv ≡ items ++ fields dv [] str
unfolding splite_str
splite_str-fields items str dv = ap (◌++◌ items) (
    split_loop-fields dv str [] [] str (length str) 0 0
      (record { parts = refl; begins = refl; index = omega arith; left = refl }))
