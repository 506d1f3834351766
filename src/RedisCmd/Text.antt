-- ===== src/RedisCmd/Text.antt =====
-- redis/redis.cpp: the texts of commands, as hiredis splits them into words at the blanks.
use cnode.Prelude.{
  ◌≡◌, ◌≢◌, refl, sym, ap, ◌∙◌, List, [], ◌∷◌, ◌++◌, some, ◌==◌, if◌then◌else◌, Every, arith,
  Bool-cases, inl, inr,
}
use mathlib.Core.List.{append_assoc, append-nil}
use cnode.Prelude.Bytes.{Bytes, codes}
use cnode.RedisCmd.{Hiredis, Redis}
use cnode.RedisCmd.Wrappers.{blank, with_reply, ok_status, print_hash, hmset, hmset_map}

-- A word that ends, unless it is empty.
abbrev end_word : Bytes → List Bytes → List Bytes
end_word [] ws = ws
end_word (c ∷ w) ws = (c ∷ w) ∷ ws

-- The words of a text without `%`, behind the letters of the one that has begun.
abbrev pub words_from : Bytes → Bytes → List Bytes
words_from w [] = end_word w []
words_from w (c ∷ s) =
    let more = words_from (w ++ c ∷ []) s in
    let next = words_from [] s in if c == b' ' then end_word w next else more

abbrev pub words : Bytes → List Bytes
words s = words_from [] s

abbrev pub IsWord : Bytes → Type 0
IsWord w = (w ≢ []) × Every (λ c. c ≢ b' ') w

words_from-append :
    (u w s : Bytes) → Every (λ c. c ≢ b' ') w → words_from u (w ++ s) ≡ words_from (u ++ w) s
words_from-append u [] s h = ap (λ k. words_from k s) (sym (append-nil u))
words_from-append u (c ∷ w) s (n, h) = elim (Bool-cases (c == b' ')) [
  | inl e ↦ absurd (ground (arith, e, n))
  | inr e ↦
      rw (words_from, e)
        (words_from-append (u ++ c ∷ []) w s h
          ∙ ap (λ k. words_from k s) (append_assoc u (c ∷ []) w))
]

end_word-IsWord : (w : Bytes) (ws : List Bytes) → w ≢ [] → end_word w ws ≡ w ∷ ws
end_word-IsWord [] ws n = absurd (n refl)
end_word-IsWord (c ∷ w) ws n = refl

words-IsWord : (w s : Bytes) → IsWord w → words (w ++ b' ' ∷ s) ≡ w ∷ words s
words-IsWord w s (n, h) = words_from-append [] w (b' ' ∷ s) h ∙ end_word-IsWord w (words s) n

words_last : (w : Bytes) → IsWord w → words w ≡ w ∷ []
words_last w (n, h) =
    ap words (sym (append-nil w)) ∙ words_from-append [] w [] h ∙ end_word-IsWord w [] n

abbrev pub fields : List (Bytes × Bytes) → List Bytes
fields [] = []
fields ((name, value) ∷ m) = name ∷ value ∷ fields m

abbrev pub IsPair : Bytes × Bytes → Type 0
IsPair (name, value) = IsWord name × IsWord value

-- An entry behind its first blank.
words_entry :
    (name value rest : Bytes)
    → IsWord name
    → words (name ++ blank ++ value ++ rest) ≡ name ∷ words (value ++ rest)
words_entry name value rest h =
    ap words (append_assoc (name ++ blank) value rest ∙ append_assoc name blank (value ++ rest))
    ∙ words-IsWord name (value ++ rest) h

words-print_hash :
    (w : Bytes) (m : List (Bytes × Bytes))
    → IsWord w
    → Every IsPair m
    → words (w ++ print_hash m) ≡ w ∷ fields m
unfolding print_hash
words-print_hash w [] h t = ap words (append-nil w) ∙ words_last w h
words-print_hash w ((name, value) ∷ m) h ((a, b), t) =
    words-IsWord w (name ++ blank ++ value ++ print_hash m) h
    ∙ ap (λ k. w ∷ k) (words_entry name value (print_hash m) a)
    ∙ ap (λ k. w ∷ name ∷ k) (words-print_hash value m b t)

-- `hmset` of a map sends one text, whose words are the command, the key, and each name before its
-- value, when none of these is empty or has a blank; without an entry it has the first two only.
pub hmset_map-words :
    {W : Type 0} (h : Hiredis W) (key : Bytes) (m : List (Bytes × Bytes)) (rds : Redis W)
    → IsWord key
    → Every IsPair m
    → (text : Bytes) × (hmset_map h (some key) m rds ≡ with_reply h text tt ok_status rds)
      × (words text ≡ codes "hmset" ∷ key ∷ fields m)
unfolding hmset_map hmset print_hash
hmset_map-words h key m rds k t =
    let text = codes "hmset " ++ key ++ blank ++ print_hash m in
    let behind : words (key ++ blank ++ print_hash m) ≡ key ∷ fields m =
      ap words (append_assoc key blank (print_hash m))
      ∙ words-IsWord key (print_hash m) k
      ∙ ap (λ i. key ∷ i) (entries m t) in
    (text, refl, ap (λ i. codes "hmset" ∷ i) behind)
  where
    entries : (m : List (Bytes × Bytes)) → Every IsPair m → words (print_hash m) ≡ fields m
    entries [] t = refl
    entries ((name, value) ∷ m) ((a, b), t) =
        words_entry name value (print_hash m) a ∙ ap (λ k. name ∷ k) (words-print_hash value m b t)
