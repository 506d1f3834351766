-- ===== src/PoolAdmin/Entries.antt =====
-- redis/redispooladmin.cpp: the map of pools, whose pools have addresses of their own.
use cnode.Prelude.{
  ℕ, ◌+◌, ◌≤◌, ◌≡◌, refl, sym, ap, subst, ◌∙◌, false, List, [], ◌∷◌, none, some, ◌==◌,
  if◌then◌else◌, Every, count, Bool-cases, Option-cases, inl, inr, arith, ==_iff,
}
use cnode.Prelude.Bytes.{
  Bytes, eq_bytes, eq_bytes_iff, lookup, assign, erase, Every-assign, Every-erase,
}
use cnode.Redis.{Conn, Env}
use cnode.RedisPool.{Pool, rel_connect}
use cnode.RedisPool.Parent.{HomeAt, rel_connect-HomeAt}
use cnode.PoolAdmin.{release_at}

abbrev pub selfs : List (Bytes × Pool) → List ℕ
selfs [] = []
selfs ((k, p) ∷ m) = p.self ∷ selfs m

-- How many pools are at an address.
abbrev pub at : ℕ → List (Bytes × Pool) → ℕ
at s m = count (λ i. i == s) (selfs m)

abbrev pub IsPool : Bytes × Pool → Type 0
IsPool (k, p) = HomeAt p.self p

-- Pools that are set up, at addresses below `n`, each its own.
pub record IsPools (n : ℕ) (m : List (Bytes × Pool)) : Type 0 where
  pub homes : Every IsPool m
  pub fresh : (s : ℕ) → n ≤ s → at s m ≡ 0
  pub once : (s : ℕ) → at s m ≤ 1

pub at-assign_new :
    (s : ℕ) (k : Bytes) (p : Pool) (m : List (Bytes × Pool))
    → lookup k m ≡ none
    → at s (assign k p m) ≡ at s m + (if p.self == s then 1 else 0)
unfolding lookup assign
at-assign_new s k p [] h = omega arith
at-assign_new s k p ((j, q) ∷ m) h = elim (Bool-cases (eq_bytes j k)) [
  | inl e ↦ (let g : some q ≡ none = rw (e, lookup) at h in absurd cc)
  | inr e ↦ rw (e, assign) (omega (arith, at-assign_new s k p m (rw (e, lookup) at h)))
]

pub at-assign_same :
    (s : ℕ) (k : Bytes) (p q : Pool) (m : List (Bytes × Pool))
    → lookup k m ≡ some q
    → p.self ≡ q.self
    → at s (assign k p m) ≡ at s m
unfolding lookup assign
at-assign_same s k p q [] h f = absurd cc
at-assign_same s k p q ((j, r) ∷ m) h f = elim (Bool-cases (eq_bytes j k)) [
  | inl e ↦
      (let g : some r ≡ some q = rw (e, lookup) at h in
        let i : r ≡ q = cc in
        rw (e, assign)
          (ap (λ x. (if x == s then 1 else 0) + at s m) (f ∙ sym (ap (λ x. x.self) i))))
  | inr e ↦ rw (e, assign) (omega (arith, at-assign_same s k p q m (rw (e, lookup) at h) f))
]

at-erase : (s : ℕ) (k : Bytes) (m : List (Bytes × Pool)) → at s (erase k m) ≤ at s m
unfolding erase
at-erase s k [] = omega arith
at-erase s k ((j, q) ∷ m) = elim (Bool-cases (eq_bytes j k)) [
  | inl e ↦ rw (e, erase) (omega arith)
  | inr e ↦ rw (e, erase) (omega (arith, at-erase s k m))
]

pub assign_new-IsPools :
    (n : ℕ) (k : Bytes) (p : Pool) (m : List (Bytes × Pool))
    → lookup k m ≡ none
    → HomeAt n p
    → IsPools n m
    → IsPools (n + 1) (assign k p m)
assign_new-IsPools n k p m f h v = record {
  homes = Every-assign IsPool k p m (subst (λ i. HomeAt i p) (sym h.address) h) v.homes;
  fresh = λ s l. ground (arith, at-assign_new s k p m f, v.fresh s (omega arith), h.address);
  once = λ s. ground (arith, at-assign_new s k p m f, v.fresh s, v.once s, h.address);
}

pub assign_same-IsPools :
    (n : ℕ) (k : Bytes) (p q : Pool) (m : List (Bytes × Pool))
    → lookup k m ≡ some q
    → HomeAt q.self p
    → IsPools n m
    → IsPools n (assign k p m)
assign_same-IsPools n k p q m f h v = record {
  homes = Every-assign IsPool k p m (subst (λ i. HomeAt i p) (sym h.address) h) v.homes;
  fresh = λ s l. at-assign_same s k p q m f h.address ∙ v.fresh s l;
  once = λ s. omega (arith, at-assign_same s k p q m f h.address, v.once s);
}

pub erase-IsPools :
    (n : ℕ) (k : Bytes) (m : List (Bytes × Pool)) → IsPools n m → IsPools n (erase k m)
erase-IsPools n k m v = record {
  homes = Every-erase IsPool k m v.homes;
  fresh = λ s l. omega (arith, at-erase s k m, v.fresh s l);
  once = λ s. omega (arith, at-erase s k m, v.once s);
}

-- A release finds the pool at its address, and keeps all addresses.
pub release_at-some :
    (s : ℕ) (c : Conn) (e : Env) (m : List (Bytes × Pool))
    → 1 ≤ at s m
    → c.parent ≡ some s
    → Every IsPool m
    → (o : List (Bytes × Pool)) × (release_at s c e m ≡ some o)
      × Every IsPool o
      × ((t : ℕ) → at t o ≡ at t m)
unfolding release_at
release_at-some s c e [] l f h = absurd (omega arith)
release_at-some s c e ((k, p) ∷ m) l f h = elim (Bool-cases (p.self == s)) [
  | inl g ↦
      (let o : c.parent ≡ some p.self = f ∙ ap (λ i. some i) (sym ((==_iff p.self s).0 g)) in
        let q = rel_connect-HomeAt p.self c false e p o h.0 in
        (
          (k, rel_connect (some c) false e p) ∷ m,
          rw (g, release_at) refl,
          (subst (λ i. HomeAt i (rel_connect (some c) false e p)) (sym q.address) q, h.1),
          λ t. ap (λ i. (if i == t then 1 else 0) + at t m) q.address,
        ))
  | inr g ↦
      (let (o, i, v, w) = release_at-some s c e m (ground (arith, l, g)) f h.1 in
        ((k, p) ∷ o, rw (g, i, release_at) refl, (h.0, v), λ t. omega (arith, w t)))
]

pub lookup-at :
    (k : Bytes) (p : Pool) (m : List (Bytes × Pool)) → lookup k m ≡ some p → 1 ≤ at p.self m
unfolding lookup
lookup-at k p [] f = absurd cc
lookup-at k p ((j, q) ∷ m) f = elim (Bool-cases (eq_bytes j k)) [
  | inl e ↦
      (let g : some q ≡ some p = rw (e, lookup) at f in
        let i : q ≡ p = cc in subst (λ r. 1 ≤ at r.self ((j, q) ∷ m)) i (ground arith))
  | inr e ↦ omega (arith, lookup-at k p m (rw (e, lookup) at f))
]

-- It is the first pool of its name, and no other name's pool changes.
pub release_at-lookup :
    (s : ℕ) (c : Conn) (e : Env) (k : Bytes) (p : Pool) (m o : List (Bytes × Pool))
    → at s m ≤ 1
    → p.self ≡ s
    → lookup k m ≡ some p
    → release_at s c e m ≡ some o
    → (i : Bytes)
    → lookup i o ≡ (if eq_bytes k i then some (rel_connect (some c) false e p) else lookup i m)
unfolding release_at lookup
release_at-lookup s c e k p [] o l a f g i = absurd cc
release_at-lookup s c e k p ((j, q) ∷ m) o l a f g i = elim (Bool-cases (q.self == s)) [
  | inl b ↦ elim (Bool-cases (eq_bytes j k)) [
    | inl d ↦
        (let x : some ((j, rel_connect (some c) false e q) ∷ m) ≡ some o =
            rw (b, release_at) at g in
          let y : (j, rel_connect (some c) false e q) ∷ m ≡ o = cc in
          let z : some q ≡ some p = rw (d, lookup) at f in
          let w : q ≡ p = cc in
          let v = ap (λ r. some (rel_connect (some c) false e r)) w in
          let u : eq_bytes j i ≡ eq_bytes k i = ap (λ r. eq_bytes r i) ((eq_bytes_iff j k).0 d) in
          sym (ap (λ r. lookup i r) y) ∙ ground (arith, u, v))
    | inr d ↦ absurd (ground (arith, l, b, lookup-at k p m (rw (d, lookup) at f), a))
  ]
  | inr b ↦ elim (Bool-cases (eq_bytes j k)) [
    | inl d ↦
        (let z : some q ≡ some p = rw (d, lookup) at f in
          let w : q ≡ p = cc in absurd (ground (arith, b, a, ap (λ r. r.self) w)))
    | inr d ↦ elim (Option-cases (release_at s c e m)) [
      | inl n ↦ (let x : none ≡ some o = rw (b, n, release_at) at g in absurd cc)
      | inr (r, n) ↦
          (let x : some ((j, q) ∷ r) ≡ some o = rw (b, n, release_at) at g in
            let y : (j, q) ∷ r ≡ o = cc in
            let ih =
              release_at-lookup s c e k p m r (ground (arith, l, b)) a (rw (d, lookup) at f) n i in
            sym (ap (λ r. lookup i r) y)
            ∙ ground (arith, ih, d, eq_bytes_iff j k, eq_bytes_iff j i, eq_bytes_iff k i))
    ]
  ]
]

-- No pool is at the address of one that was taken out of the map.
pub erase-at :
    (k : Bytes) (p : Pool) (m : List (Bytes × Pool))
    → at p.self m ≤ 1
    → lookup k m ≡ some p
    → at p.self (erase k m) ≡ 0
unfolding lookup erase
erase-at k p [] l f = absurd cc
erase-at k p ((j, q) ∷ m) l f = elim (Bool-cases (eq_bytes j k)) [
  | inl e ↦
      (let g : some q ≡ some p = rw (e, lookup) at f in
        let i : q ≡ p = cc in rw (e, erase) (ground (arith, l, ap (λ r. r.self) i)))
  | inr e ↦
      (let g = rw (e, lookup) at f in
        rw (e, erase) (ground (arith, l, lookup-at k p m g, erase-at k p m (ground (arith, l)) g)))
]

pub release_at-none :
    (s : ℕ) (c : Conn) (e : Env) (m : List (Bytes × Pool)) → at s m ≡ 0 → release_at s c e m ≡ none
unfolding release_at
release_at-none s c e [] l = refl
release_at-none s c e ((k, p) ∷ m) l = elim (Bool-cases (p.self == s)) [
  | inl g ↦ absurd (ground (arith, l, g))
  | inr g ↦ rw (g, release_at-none s c e m (ground (arith, l)), release_at) refl
]
