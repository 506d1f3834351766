-- ===== src/Config/Clean.antt =====
-- One printed line, read by the `load` of comm/config.cpp.
use cnode.Prelude.{
  ℕ, ◌≡◌, ◌≢◌, refl, ap, ◌∙◌, Bool, true, false, not, ◌&&◌, [], ◌∷◌, ◌++◌, none, some, ◌==◌, arith,
}
use cnode.Prelude.Bytes.{Bytes}
use cnode.StrParse.{all_of}
use cnode.Config.{
  is_blank, is_space, ends_value, split_first, before_last, erase_front, erase_back, erase_from,
  Loading, next, thrown, section_line, trim_key, key_line, load_line,
}

-- A byte of a value: no space, no `#` and no `[`. A byte of a key is no `=` either.
abbrev pub is_plain_value : ℕ → Bool
is_plain_value c = not (ends_value c) && not (c == b'[')

abbrev pub is_plain_key : ℕ → Bool
is_plain_key c = is_plain_value c && not (c == b'=')

-- A pair of a key and a value, and the head of a section, as lines.
abbrev pub pair_line : Bytes × Bytes → Bytes
pair_line (k, v) = k ++ (b'=' ∷ (v ++ b'\n' ∷ []))

abbrev pub section_head : Bytes → Bytes
section_head item = b'[' ∷ (item ++ b']' ∷ b'\n' ∷ [])

-- Keys of key bytes and values of value bytes, the values and the keys not empty.
abbrev pub IsCleanPair : Bytes × Bytes → Type 0
IsCleanPair (k, v) =
    (k ≢ []) × (v ≢ []) × (all_of is_plain_key k ≡ true) × (all_of is_plain_value v ≡ true)

split_first-append :
    (p : ℕ → Bool) (a : Bytes) (c : ℕ) (b : Bytes)
    → all_of (λ x. not (p x)) a ≡ true
    → p c ≡ true
    → split_first p (a ++ (c ∷ b)) ≡ some (a, b)
unfolding split_first all_of
split_first-append p [] c b h e = ground arith
split_first-append p (x ∷ a) c b h e = ground (arith, split_first-append p a c b)

split_first-none :
    (p : ℕ → Bool) (a : Bytes) → all_of (λ x. not (p x)) a ≡ true → split_first p a ≡ none
unfolding split_first all_of
split_first-none p [] h = refl
split_first-none p (x ∷ a) h = ground (arith, split_first-none p a)

pub all_of-append : (p : ℕ → Bool) (a b : Bytes) → all_of p (a ++ b) ≡ (all_of p a && all_of p b)
unfolding all_of
all_of-append p [] b = refl
all_of-append p (x ∷ a) b = ground (arith, all_of-append p a b)

pub all_of-weaken :
    (p q : ℕ → Bool) (a : Bytes)
    → ((c : ℕ) → p c ≡ true → q c ≡ true)
    → all_of p a ≡ true
    → all_of q a ≡ true
unfolding all_of
all_of-weaken p q [] h e = refl
all_of-weaken p q (x ∷ a) h e = ground (arith, all_of-weaken p q a h, h x)

before_last-head :
    (item : Bytes) → before_last (λ c. c == b']') (item ++ b']' ∷ b'\n' ∷ []) ≡ some item
unfolding before_last
before_last-head [] = refl
before_last-head (c ∷ item) = ground (arith, before_last-head item)

erase_front-clean : (c : ℕ) (s : Bytes) → is_space c ≡ false → erase_front is_space (c ∷ s) ≡ c ∷ s
unfolding erase_front
erase_front-clean c s h = ground arith

erase_back-clean : (s : Bytes) → all_of (λ c. not (is_blank c)) s ≡ true → erase_back is_blank s ≡ s
unfolding erase_back all_of
erase_back-clean [] h = refl
erase_back-clean (c ∷ []) h = ground arith
erase_back-clean (c ∷ d ∷ s) h = ground (arith, erase_back-clean (d ∷ s))

key_chars :
    (c : ℕ)
    → is_plain_key c ≡ true
    → (not (c == b'[') ≡ true)
      × (not (c == b'=') ≡ true)
      × (not (c == b'#') ≡ true)
      × (not (is_blank c) ≡ true)
      × (is_space c ≡ false)
key_chars c h = (ground arith, ground arith, ground arith, ground arith, ground arith)

value_chars :
    (c : ℕ)
    → is_plain_value c ≡ true
    → (not (c == b'[') ≡ true) × (not (ends_value c) ≡ true) × (is_space c ≡ false)
value_chars c h = (ground arith, ground arith, ground arith)

trim_key-clean : (k : Bytes) → all_of is_plain_key k ≡ true → trim_key k ≡ k
unfolding trim_key erase_front all_of
trim_key-clean [] h = unfold erase_back in refl
trim_key-clean (c ∷ k) h =
    ap (erase_back is_blank) (erase_front-clean c k (key_chars c (ground arith)).4)
    ∙ erase_back-clean (c ∷ k)
        (all_of-weaken is_plain_key (λ d. not (is_blank d)) (c ∷ k) (λ d x. (key_chars d x).3) h)

erase_from-value :
    (v : Bytes)
    → v ≢ []
    → all_of is_plain_value v ≡ true
    → erase_from ends_value (erase_front is_space (v ++ b'\n' ∷ [])) ≡ some v
unfolding erase_from all_of
erase_from-value [] n h = absurd (n refl)
erase_from-value (c ∷ v) n h =
    let a = erase_front-clean c (v ++ b'\n' ∷ []) (value_chars c (ground arith)).2 in
    let b =
      split_first-append ends_value (c ∷ v) b'\n' []
        (all_of-weaken is_plain_value (λ d. not (ends_value d)) (c ∷ v) (λ d x. (value_chars d x).1)
          h)
        refl in
    ap (erase_from ends_value) a ∙ ground (arith, b)

key_line-clean :
    (k v : Bytes) (l : Loading)
    → IsCleanPair (k, v)
    → key_line k (v ++ b'\n' ∷ []) l
      ≡ next (record l {
        entries = l.entries ++ record { item = l.str_item; key = k; value = v } ∷ [];
      })
unfolding key_line
key_line-clean k v l h =
    let a =
      split_first-none (λ c. c == b'#') k
        (all_of-weaken is_plain_key (λ d. not (d == b'#')) k (λ d x. (key_chars d x).2) h.2) in
    ground (arith, a, erase_from-value v h.1 h.3, trim_key-clean k h.2)

load_line-key :
    (k t : Bytes) (l : Loading)
    → k ≢ []
    → all_of is_plain_key k ≡ true
    → all_of (λ d. not (d == b'[')) t ≡ true
    → load_line (k ++ (b'=' ∷ t)) l ≡ key_line k t l
unfolding load_line all_of
load_line-key [] t l n h tb = absurd (n refl)
load_line-key (c ∷ k) t l n h tb =
    let s = c ∷ k in
    let nb = all_of-weaken is_plain_key (λ d. not (d == b'[')) s (λ d x. (key_chars d x).0) h in
    let whole : all_of (λ d. not (d == b'[')) (s ++ (b'=' ∷ t)) ≡ true =
      rw (all_of-append (λ d. not (d == b'[')) s (b'=' ∷ t), nb, tb) refl in
    let a = split_first-none (λ d. d == b'[') (s ++ (b'=' ∷ t)) whole in
    let b =
      split_first-append (λ d. d == b'=') s b'=' t
        (all_of-weaken is_plain_key (λ d. not (d == b'=')) s (λ d x. (key_chars d x).1) h) refl in
    let f : (c == b'#') ≡ false = ground (arith, key_chars c) in rw (f, a, b) refl

no_bracket : (v : Bytes) → all_of is_plain_value v ≡ true → all_of (λ d. not (d == b'[')) v ≡ true
no_bracket v h =
    all_of-weaken is_plain_value (λ d. not (d == b'[')) v (λ d x. (value_chars d x).0) h

load_line-pair :
    (k v : Bytes) (l : Loading)
    → IsCleanPair (k, v)
    → load_line (pair_line (k, v)) l ≡ key_line k (v ++ b'\n' ∷ []) l
unfolding all_of
load_line-pair k v l h =
    load_line-key k (v ++ b'\n' ∷ []) l h.0 h.2
      (rw (all_of-append (λ d. not (d == b'[')) v (b'\n' ∷ []), no_bracket v h.3) refl)

split_first-head :
    (p : ℕ → Bool) (c : ℕ) (s : Bytes) → p c ≡ true → split_first p (c ∷ s) ≡ some ([], s)
unfolding split_first
split_first-head p c s h = ground arith

pub load_line-head :
    (item : Bytes) (l : Loading)
    → load_line (section_head item) l ≡ next (record l { str_item = item })
unfolding load_line section_line
load_line-head item l =
    let s = item ++ b']' ∷ b'\n' ∷ [] in
    let a = split_first-head (λ d. d == b'[') b'[' s refl in
    rw (load_line, a) (rw (section_line, before_last-head item) refl)

pub load_line-clean :
    (k v : Bytes) (l : Loading)
    → IsCleanPair (k, v)
    → load_line (pair_line (k, v)) l
      ≡ next (record l {
        entries = l.entries ++ record { item = l.str_item; key = k; value = v } ∷ [];
      })
load_line-clean k v l h = load_line-pair k v l h ∙ key_line-clean k v l h

erase_from-none :
    (v : Bytes)
    → v ≢ []
    → all_of is_plain_value v ≡ true
    → erase_from ends_value (erase_front is_space v) ≡ none
unfolding erase_from all_of
erase_from-none [] n h = absurd (n refl)
erase_from-none (c ∷ v) n h =
    let a = erase_front-clean c v (value_chars c (ground arith)).2 in
    let b = split_first-none ends_value (c ∷ v) (
      all_of-weaken is_plain_value (λ d. not (ends_value d)) (c ∷ v) (λ d x. (value_chars d x).1)
        h) in
    ap (erase_from ends_value) a ∙ ground (arith, b)

pub load_line-unended :
    (k v : Bytes) (l : Loading) → IsCleanPair (k, v) → load_line (k ++ (b'=' ∷ v)) l ≡ thrown
load_line-unended k v l h =
    let a =
      split_first-none (λ c. c == b'#') k
        (all_of-weaken is_plain_key (λ d. not (d == b'#')) k (λ d x. (key_chars d x).2) h.2) in
    load_line-key k v l h.0 h.2 (no_bracket v h.3)
    ∙ (unfold key_line in ground (arith, a, erase_from-none v h.1 h.3))
