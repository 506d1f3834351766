-- ===== src/Config/Lines.antt =====
-- comm/config.cpp: how the `fgets` of `load` cuts a file whose lines fit its buffer.
use mathlib.Core.List.{append_assoc}
use cnode.Prelude.{
  ℕ, ◌-◌, ◌≤◌, ◌<◌, ◌≡◌, ◌≢◌, refl, sym, ap, ◌∙◌, Bool, true, not, List, [], ◌∷◌, ◌++◌, ◌==◌, arith,
  length, Every,
}
use cnode.Prelude.Bytes.{Bytes}
use cnode.StrParse.{all_of}
use cnode.Config.{cut, push_byte, max_line}

abbrev pub is_inside : ℕ → Bool
is_inside c = not (c == b'\n')

cut_line :
    (l s : Bytes) (left : ℕ)
    → all_of is_inside l ≡ true
    → length l < left
    → cut left (l ++ (b'\n' ∷ s)) ≡ (l ++ b'\n' ∷ []) ∷ cut max_line s
unfolding cut push_byte all_of
cut_line [] s left h b = ground arith
cut_line (c ∷ l) s left h b = ground (arith, cut_line l s (left - 1), h, b)

-- A last line without an end.
pub cut_end :
    (l : Bytes) (left : ℕ)
    → l ≢ []
    → all_of is_inside l ≡ true
    → length l ≤ left
    → cut left l ≡ l ∷ []
unfolding cut push_byte all_of
cut_end [] left n h b = absurd (n refl)
cut_end (c ∷ []) left n h b = ground (arith, h)
cut_end (c ∷ d ∷ l) left n h b = ground (arith, cut_end (d ∷ l) (left - 1) (λ e. cc), h, b)

-- A line that ends and fits the buffer.
pub record IsLine (line : Bytes) : Type 0 where
  pub text : Bytes
  pub ended : line ≡ text ++ b'\n' ∷ []
  pub inside : all_of is_inside text ≡ true
  pub fits : length text < max_line

unfoldable pub joined : List Bytes → Bytes
joined [] = []
joined (line ∷ lines) = line ++ joined lines

-- Such lines are cut where they end.
pub cut-joined :
    (lines : List Bytes) (s : Bytes)
    → Every IsLine lines
    → cut max_line (joined lines ++ s) ≡ lines ++ cut max_line s
unfolding joined
cut-joined [] s h = refl
cut-joined (line ∷ lines) s (h, hs) =
    ap (λ t. cut max_line ((t ++ joined lines) ++ s)) h.ended
    ∙ ap (cut max_line) (append_assoc (h.text ++ b'\n' ∷ []) (joined lines) s)
    ∙ ap (cut max_line) (append_assoc h.text (b'\n' ∷ []) (joined lines ++ s))
    ∙ cut_line h.text (joined lines ++ s) max_line h.inside h.fits
    ∙ ap (λ t. t ∷ cut max_line (joined lines ++ s)) (sym h.ended)
    ∙ ap (◌∷◌ line) (cut-joined lines s hs)
