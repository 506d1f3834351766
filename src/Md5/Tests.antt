-- ===== src/Md5/Tests.antt =====
-- Digests of comm/md5.cpp from RFC 1321, and its theorems at small inputs.
use cnode.Prelude.{◌≡◌, arith, refl, [], ◌∷◌, ◌++◌, replicate, false}
use cnode.Prelude.Bytes.{codes}
use cnode.Md5.{
  Md5, reset, update, to_string, get_digest, final, update_buffer, put, transform_blocks,
  new_count0, new_count1, bytes_to_hex_string, hex_digit, init_state,
}
use cnode.Md5.Update.{Represents, reset-Represents, update-Represents}
use cnode.Md5.Digest.{get_digest-md5_of, md5_of}
use cnode.Md5.Transform.{
  transform, rounds, mix, rotate_left, add_words, decode, encode, f, g, h, i, complement,
}

abbrev fresh : Md5
fresh = record {
  state = init_state;
  count0 = 0;
  count1 = 0;
  buffer = replicate 64 0;
  digest = replicate 16 0;
  finished = false;
}

digest_abc : to_string (update (codes "abc") fresh) ≡ codes "900150983cd24fb0d6963f7d28e17f72"
unfolding to_string get_digest final update update_buffer put transform_blocks new_count0 new_count1
    bytes_to_hex_string hex_digit transform rounds mix rotate_left add_words decode encode f g h i
    complement
digest_abc = refl

fresh-Represents : Represents fresh []
unfolding reset
fresh-Represents = reset-Represents fresh refl

abc-Represents : Represents (update (codes "abc") fresh) (codes "abc")
abc-Represents = update-Represents fresh [] (codes "abc") fresh-Represents (omega arith)

update-Represents_example :
    Represents (update (codes "d") (update (codes "abc") fresh)) (codes "abc" ++ codes "d")
update-Represents_example =
    update-Represents (update (codes "abc") fresh) (codes "abc") (codes "d") abc-Represents
      (omega arith)

abc-finished : (update (codes "abc") fresh).finished ≡ false
unfolding update
abc-finished = refl

get_digest-md5_of_example :
    ((get_digest (update (codes "abc") fresh)).digest ≡ md5_of (codes "abc"))
    × (md5_of (codes "")
        ≡ 212 ∷ 29 ∷ 140 ∷ 217 ∷ 143 ∷ 0 ∷ 178 ∷ 4 ∷ 233 ∷ 128 ∷ 9 ∷ 152 ∷ 236 ∷ 248 ∷ 66 ∷ 126
          ∷ [])
    × (md5_of (codes "abc")
        ≡ 144 ∷ 1 ∷ 80 ∷ 152 ∷ 60 ∷ 210 ∷ 79 ∷ 176 ∷ 214 ∷ 150 ∷ 63 ∷ 125 ∷ 40 ∷ 225 ∷ 127 ∷ 114
          ∷ [])
    × (md5_of
          (codes "12345678901234567890123456789012345678901234567890123456789012345678901234567890")
        ≡ 87 ∷ 237 ∷ 244 ∷ 162 ∷ 43 ∷ 227 ∷ 201 ∷ 85 ∷ 172 ∷ 73 ∷ 218 ∷ 46 ∷ 33 ∷ 7 ∷ 182 ∷ 122
          ∷ [])
get_digest-md5_of_example =
    get_digest-md5_of (update (codes "abc") fresh) (codes "abc") abc-Represents abc-finished
