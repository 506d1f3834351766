-- ===== src/StrParse/QueryString.antt =====
-- `SpliteQueryString` of comm/strparse.cpp and the query strings that it reads back.
use mathlib.Core.List.{append-nil, append_assoc}
use cnode.Prelude.{
  ℕ, zero, suc, ◌+◌, ◌≡◌, refl, ap, ◌∙◌, Bool, true, false, List, [], ◌∷◌, ◌++◌, Bool-cases, inl,
  inr, ◌==◌, if◌then◌else◌, arith, length,
}
use cnode.Prelude.Bytes.{Bytes, char_at, assign}
use cnode.StrParse.{Query, query_char, query_end, query_loop, splite_query_string}
use cnode.StrParse.Split.{At, cur-slice, char-here, At-next, At-skip}

-- The same machine with the bytes since `begidx` in a buffer.
pub record Reader : Type 0 where
  pub findkey : Bool
  pub key : Bytes
  pub cur : Bytes
  pub out_par : List (Bytes × Bytes)

pub read : Reader → ℕ → Reader
read r c =
    if r.findkey
    then if b'=' == c
      then record r { key = r.cur; cur = []; findkey = false }
      else record r { cur = r.cur ++ c ∷ [] }
    else if b'&' == c
    then record r { cur = []; findkey = true; out_par = assign r.key r.cur r.out_par }
    else record r { cur = r.cur ++ c ∷ [] }

pub close : Reader → List (Bytes × Bytes)
close r = if r.findkey then r.out_par else assign r.key r.cur r.out_par

pub read_all : Reader → Bytes → List (Bytes × Bytes)
read_all r [] = r.out_par
read_all r (c ∷ rest) = elim (0 == char_at rest 0) [
  | true ↦ close (read r c)
  | false ↦ read_all (read r c) rest
]

-- The machine at position `i` with the field `cur` under way.
record Agrees (str pre rest : Bytes) (rounds i : ℕ) (q : Query) (r : Reader) : Type 0 where
  place : At str pre r.cur rest rounds i q.begidx
  findkey : q.findkey ≡ r.findkey
  key : q.key ≡ r.key
  out_par : q.out_par ≡ r.out_par

-- Where the bytes of the field under way begin after byte `c`.
abbrev moved : Bytes → Reader → ℕ → Bytes
moved pre r c =
    if r.findkey
    then if b'=' == c then pre ++ (r.cur ++ c ∷ []) else pre
    else if b'&' == c
    then pre ++ (r.cur ++ c ∷ [])
    else pre

read-Agrees :
    (str pre rest : Bytes) (c rounds i : ℕ) (q : Query) (r : Reader)
    → Agrees str pre (c ∷ rest) (suc rounds) i q r
    → Agrees str (moved pre r c) rest rounds (i + 1) (query_char str i q) (read r c)
unfolding query_char read
read-Agrees str pre rest c rounds i q r a =
    ground (arith, At-next a.place, At-skip a.place, cur-slice a.place, char-here a.place)

query_end-close :
    (str pre rest : Bytes) (rounds i : ℕ) (q : Query) (r : Reader)
    → Agrees str pre rest rounds i q r
    → (query_end str i q).out_par ≡ close r
unfolding query_end close
query_end-close str pre rest rounds i q r a = ground (arith, cur-slice a.place)

query_loop-read_all :
    (str pre rest : Bytes) (rounds i : ℕ) (q : Query) (r : Reader)
    → Agrees str pre rest rounds i q r
    → (query_loop str rounds i q).out_par ≡ read_all r rest
unfolding query_loop read_all
query_loop-read_all str pre [] zero i q r a = a.out_par
query_loop-read_all str pre [] (suc rounds) i q r a = absurd (omega (arith, a.place.left))
query_loop-read_all str pre (c ∷ rest) zero i q r a = absurd (omega (arith, a.place.left))
query_loop-read_all str pre (c ∷ rest) (suc rounds) i q r a =
    let b = read-Agrees str pre rest c rounds i q r a in
    elim (Bool-cases (0 == char_at rest 0)) [
      | inl e ↦
          rw (char-here b.place, e, query_loop, read_all)
            (query_end-close str _ rest rounds (i + 1) _ _ b)
      | inr e ↦
          rw (char-here b.place, e, query_loop, read_all)
            (query_loop-read_all str (moved pre r c) rest rounds (i + 1) _ _ b)
    ]

abbrev start : List (Bytes × Bytes) → Reader
start m = record { findkey = true; key = []; cur = []; out_par = m }

splite_query_string-read_all :
    (m : List (Bytes × Bytes)) (str : Bytes) → splite_query_string m str ≡ read_all (start m) str
unfolding splite_query_string
splite_query_string-read_all m str =
    query_loop-read_all str [] str (length str) 0 _ (start m) (record {
      place = record { parts = refl; begins = refl; index = omega arith; left = refl };
      findkey = refl;
      key = refl;
      out_par = refl;
    })

-- The query string of these pairs.
pub print : List (Bytes × Bytes) → Bytes
print [] = []
print ((k, v) ∷ []) = k ++ (b'=' ∷ v)
print ((k, v) ∷ p ∷ rest) = k ++ (b'=' ∷ (v ++ (b'&' ∷ print (p ∷ rest))))

-- The map after one write for each pair, in order.
pub assign_all : List (Bytes × Bytes) → List (Bytes × Bytes) → List (Bytes × Bytes)
assign_all m [] = m
assign_all m ((k, v) ∷ rest) = assign_all (assign k v m) rest

-- Neither the byte `stop` nor a zero byte stands in the string.
abbrev pub Clean : ℕ → Bytes → Type 0
Clean stop [] = Unit {0}
Clean stop (c ∷ s) = ((0 == c) ≡ false) × ((stop == c) ≡ false) × Clean stop s

-- Keys without `=`, values without `&`.
abbrev pub AreClean : List (Bytes × Bytes) → Type 0
AreClean [] = Unit {0}
AreClean ((k, v) ∷ rest) = Clean b'=' k × Clean b'&' v × AreClean rest

abbrev after_key : Reader → Bytes → List (Bytes × Bytes)
after_key r rest = elim (0 == char_at rest 0) [ true ↦ close r | false ↦ read_all r rest ]

read_all_step :
    (r : Reader) (c : ℕ) (rest : Bytes)
    → (0 == char_at rest 0) ≡ false
    → read_all r (c ∷ rest) ≡ read_all (read r c) rest
unfolding read_all
read_all_step r c rest h = rw (h, read_all)

after_key_step :
    (r : Reader) (c : ℕ) (rest : Bytes)
    → (0 == c) ≡ false
    → after_key r (c ∷ rest) ≡ after_key (read r c) rest
unfolding read_all
after_key_step r c rest h = rw (h, after_key)

read_key_byte :
    (k0 cur : Bytes) (c : ℕ) (m : List (Bytes × Bytes))
    → (b'=' == c) ≡ false
    → read (record { findkey = true; key = k0; cur = cur; out_par = m }) c
      ≡ record { findkey = true; key = k0; cur = cur ++ c ∷ []; out_par = m }
unfolding read
read_key_byte k0 cur c m h = ground arith

read_value_byte :
    (key cur : Bytes) (c : ℕ) (m : List (Bytes × Bytes))
    → (b'&' == c) ≡ false
    → read (record { findkey = false; key = key; cur = cur; out_par = m }) c
      ≡ record { findkey = false; key = key; cur = cur ++ c ∷ []; out_par = m }
unfolding read
read_value_byte key cur c m h = ground arith

Clean-next :
    (stop : ℕ) (s rest : Bytes)
    → (0 == stop) ≡ false
    → Clean stop s
    → (0 == char_at (s ++ (stop ∷ rest)) 0) ≡ false
Clean-next stop [] rest h k = h
Clean-next stop (c ∷ s) rest h k = k.0

read_all_key :
    (k0 cur k rest : Bytes) (m : List (Bytes × Bytes))
    → Clean b'=' k
    → read_all (record { findkey = true; key = k0; cur = cur; out_par = m }) (k ++ (b'=' ∷ rest))
      ≡ after_key (record { findkey = false; key = cur ++ k; cur = []; out_par = m }) rest
read_all_key k0 cur [] rest m h = rw append-nil (unfold read_all read in refl)
read_all_key k0 cur (c ∷ k) rest m h =
    read_all_step _ c (k ++ (b'=' ∷ rest)) (Clean-next b'=' k rest refl h.2)
    ∙ ap (λ t. read_all t (k ++ (b'=' ∷ rest))) (read_key_byte k0 cur c m h.1)
    ∙ read_all_key k0 (cur ++ c ∷ []) k rest m h.2
    ∙ ap (λ t. after_key (record { findkey = false; key = t; cur = []; out_par = m }) rest)
        (append_assoc cur (c ∷ []) k)

read_all_value :
    (key cur v rest : Bytes) (m : List (Bytes × Bytes))
    → Clean b'&' v
    → (0 == char_at rest 0) ≡ false
    → read_all (record { findkey = false; key = key; cur = cur; out_par = m }) (v ++ (b'&' ∷ rest))
      ≡ read_all
          (record { findkey = true; key = key; cur = []; out_par = assign key (cur ++ v) m })
          rest
read_all_value key cur [] rest m h n =
    rw append-nil (read_all_step _ b'&' rest n ∙ unfold read in refl)
read_all_value key cur (c ∷ v) rest m h n =
    read_all_step _ c (v ++ (b'&' ∷ rest)) (Clean-next b'&' v rest refl h.2)
    ∙ ap (λ t. read_all t (v ++ (b'&' ∷ rest))) (read_value_byte key cur c m h.1)
    ∙ read_all_value key (cur ++ c ∷ []) v rest m h.2 n
    ∙ ap
        (λ t.
          read_all (record { findkey = true; key = key; cur = []; out_par = assign key t m }) rest)
        (append_assoc cur (c ∷ []) v)

read_all_last :
    (key cur v : Bytes) (m : List (Bytes × Bytes))
    → Clean b'&' v
    → after_key (record { findkey = false; key = key; cur = cur; out_par = m }) v
      ≡ assign key (cur ++ v) m
read_all_last key cur [] m h = rw append-nil (unfold close in refl)
read_all_last key cur (c ∷ v) m h =
    after_key_step _ c v h.0
    ∙ ap (λ t. after_key t v) (read_value_byte key cur c m h.1)
    ∙ read_all_last key (cur ++ c ∷ []) v m h.2
    ∙ ap (λ t. assign key t m) (append_assoc cur (c ∷ []) v)

print_head :
    (k v : Bytes) (rest : List (Bytes × Bytes))
    → Clean b'=' k
    → (0 == char_at (print ((k, v) ∷ rest)) 0) ≡ false
unfolding print
print_head k v [] h = Clean-next b'=' k v refl h
print_head k v (p ∷ rest) h = Clean-next b'=' k _ refl h

Clean-after_key :
    (r : Reader) (v rest : Bytes)
    → Clean b'&' v
    → after_key r (v ++ (b'&' ∷ rest)) ≡ read_all r (v ++ (b'&' ∷ rest))
Clean-after_key r v rest h = rw (Clean-next b'&' v rest refl h, after_key)

read_all-print :
    (k0 : Bytes) (kvs : List (Bytes × Bytes)) (m : List (Bytes × Bytes))
    → AreClean kvs
    → read_all (record { findkey = true; key = k0; cur = []; out_par = m }) (print kvs)
      ≡ assign_all m kvs
unfolding print assign_all
read_all-print k0 [] m h = unfold read_all in refl
read_all-print k0 ((k, v) ∷ []) m h = read_all_key k0 [] k v m h.0 ∙ read_all_last k [] v m h.1
read_all-print k0 ((k, v) ∷ (j, w) ∷ rest) m h =
    read_all_key k0 [] k _ m h.0
    ∙ Clean-after_key _ v (print ((j, w) ∷ rest)) h.1
    ∙ read_all_value k [] v (print ((j, w) ∷ rest)) m h.1 (print_head j w rest h.2.0)
    ∙ read_all-print k ((j, w) ∷ rest) (assign k v m) h.2

-- A query string is read back as the writes of its pairs, in order, so that the last value of a
-- key stands. Keys hold no `=`, values no `&`, and neither a zero byte; either may be empty.
pub splite_query_string-print :
    (m kvs : List (Bytes × Bytes))
    → AreClean kvs
    → splite_query_string m (print kvs) ≡ assign_all m kvs
splite_query_string-print m kvs h =
    splite_query_string-read_all m (print kvs) ∙ read_all-print [] kvs m h
