-- ===== src/Base64/Tests.antt =====
-- Runs of comm/base64.cpp on small inputs, and its theorems at such inputs.
use cnode.Prelude.{ℕ, ◌≡◌, refl, Bool, true, [], ◌∷◌, ◌++◌, none, some, arith}
use cnode.Prelude.Int.{pos}
use cnode.Prelude.Bytes.{codes}
use cnode.Base64.{
  encode, encode_string, decode_string, decode, decode_group, prepare_loop, emit_group, fault, done,
}
use cnode.Base64.RoundTrip.{decode_string-encode_string}

-- A `calloc` that always gives a block.
abbrev always : ℕ → Bool
always n = true

encode_texts :
    (encode always (codes "Man") ≡ some (codes "TWFu"))
    × (encode always (codes "Ma") ≡ some (codes "TWE="))
    × (encode always (codes "M") ≡ some (codes "TQ=="))
    × (encode always (codes "light work.") ≡ some (codes "bGlnaHQgd29yay4="))
unfolding encode
encode_texts = (refl, refl, refl, refl)

decode_texts :
    (decode_string (codes "bGlnaHQgd29yay4=") ≡ some (codes "light work."))
    × (decode (codes "ab") ≡ fault)
    × (decode_string (codes "a?cd") ≡ none)
unfolding decode_string decode decode_group prepare_loop emit_group
decode_texts = (refl, refl, refl)

decode_string-encode_string_example :
    decode_string (encode_string always (codes "hi")) ≡ some (codes "hi")
decode_string-encode_string_example =
    decode_string-encode_string always (codes "hi") (λ e. cc) (omega arith) (omega arith) refl

eight : decode (codes "TWFuTQ==") ≡ done 5 (codes "Man" ++ b'M' ∷ 0 ∷ []) (pos 4)
unfolding decode decode_group prepare_loop emit_group
eight = refl

six : decode (codes "TWFuTQ") ≡ done 4 (codes "Man" ++ b'M' ∷ 0 ∷ []) (pos 3)
unfolding decode decode_group prepare_loop emit_group
six = refl
