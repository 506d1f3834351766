-- ===== src/StrParse/Paths.antt =====
-- `AdjustPath` and `AppendFormat` of comm/strparse.cpp.
use mathlib.Core.List.{append-nil, append_assoc}
use cnode.Prelude.{
  ℕ, zero, suc, ◌+◌, ◌≡◌, ◌≢◌, refl, ap, ◌∙◌, false, [], ◌∷◌, ◌++◌, none, some, arith, length,
  length-append, take, replicate, length-take,
}
use cnode.Prelude.Bytes.{Bytes, take-append, char_at-append}
use cnode.StrParse.{strip_end, adjust_path, append_format}

strip_end_step :
    (s : Bytes) (dv : ℕ)
    → strip_end (length (s ++ dv ∷ [])) dv (s ++ dv ∷ []) ≡ strip_end (length s) dv s
unfolding strip_end
strip_end_step s dv =
    let n : length (s ++ dv ∷ []) ≡ suc (length s) = omega (arith, length-append s (dv ∷ [])) in
    rw (n, char_at-append s (dv ∷ []), take-append s (dv ∷ [])) (ground arith)

strip_end_stop :
    (s : Bytes) (c dv : ℕ)
    → c ≢ dv
    → strip_end (length (s ++ c ∷ [])) dv (s ++ c ∷ []) ≡ some (s ++ c ∷ [])
unfolding strip_end
strip_end_stop s c dv h =
    let n : length (s ++ c ∷ []) ≡ suc (length s) = omega (arith, length-append s (c ∷ [])) in
    rw (n, char_at-append s (c ∷ [])) (ground arith)

replicate-snoc : (k dv : ℕ) → replicate (suc k) dv ≡ replicate k dv ++ dv ∷ []
replicate-snoc zero dv = refl
replicate-snoc (suc k) dv = ap (◌∷◌ dv) (replicate-snoc k dv)

strip_end-replicate :
    (k : ℕ) (s : Bytes) (dv : ℕ)
    → strip_end (length (s ++ replicate k dv)) dv (s ++ replicate k dv) ≡ strip_end (length s) dv s
strip_end-replicate zero s dv = rw append-nil
strip_end-replicate (suc k) s dv =
    rw (replicate-snoc k dv, ← append_assoc s (replicate k dv) (dv ∷ []))
      (strip_end_step (s ++ replicate k dv) dv ∙ strip_end-replicate k s dv)

adjust_path-strip :
    (path : Bytes) (dv : ℕ)
    → path ≢ []
    → adjust_path path false dv ≡ strip_end (length path) dv path
unfolding adjust_path
adjust_path-strip [] dv h = absurd (h refl)
adjust_path-strip (c ∷ s) dv h = refl

snoc-ne-nil : (s : Bytes) (c : ℕ) (r : Bytes) → (s ++ c ∷ []) ++ r ≢ []
snoc-ne-nil [] c r = λ e. cc
snoc-ne-nil (d ∷ s) c r = λ e. cc

-- Without `useend`, `AdjustPath` takes all the separators off the end, and nothing else: a path
-- that ends in another byte comes back from any number of separators behind it.
pub adjust_path-replicate :
    (s : Bytes) (c dv k : ℕ)
    → c ≢ dv
    → adjust_path ((s ++ c ∷ []) ++ replicate k dv) false dv ≡ some (s ++ c ∷ [])
adjust_path-replicate s c dv k h =
    adjust_path-strip _ dv (snoc-ne-nil s c (replicate k dv))
    ∙ strip_end-replicate k (s ++ c ∷ []) dv
    ∙ strip_end_stop s c dv h

-- On a path of separators alone it runs past the beginning: `at` throws.
pub adjust_path-all : (dv k : ℕ) → adjust_path (replicate (suc k) dv) false dv ≡ none
adjust_path-all dv k =
    adjust_path-strip (replicate (suc k) dv) dv (λ e. cc)
    ∙ strip_end-replicate (suc k) [] dv
    ∙ unfold strip_end in refl

-- A formatted text of exactly 511 bytes loses its last byte, and the result still says that all
-- of it was appended.
pub append_format_cut :
    (ostr text : Bytes)
    → length text ≡ 511
    → ((append_format ostr text).1 ≡ 0) × (length (append_format ostr text).0 ≡ length ostr + 510)
unfolding append_format
append_format_cut ostr text h =
    (ground arith, omega (arith, length-append ostr (take 510 text), length-take 510 text))
