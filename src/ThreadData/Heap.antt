-- ===== src/ThreadData/Heap.antt =====
-- threaddata.cpp, dealbase.cpp: the lists and the heap of `ThreadData`, counted at one address.
use cnode.Prelude.{
  ℕ, ◌+◌, ◌≤◌, ◌≡◌, refl, ap, Bool, true, false, List, [], ◌∷◌, ◌++◌, none, some, ◌==◌,
  if◌then◌else◌, arith, Bool-cases, Option-cases, inl, inr,
}
use cnode.ThreadData.{put_key, erase_key, keys, erase_heap, tdata_of, clear_tdata}

abbrev pub times : ℕ → List ℕ → ℕ
times x [] = 0
times x (p ∷ ps) = (if p == x then 1 else 0) + times x ps

-- The handlers at an address whose `m_tdata` is set, and those whose is not.
abbrev pub attached : ℕ → List (ℕ × Bool) → ℕ
attached x [] = 0
attached x ((p, b) ∷ h) = (if p == x then if b then 1 else 0 else 0) + attached x h

abbrev pub detached : ℕ → List (ℕ × Bool) → ℕ
detached x [] = 0
detached x ((p, b) ∷ h) = (if p == x then if b then 0 else 1 else 0) + detached x h

abbrev pub live : ℕ → List (ℕ × Bool) → ℕ
live x h = attached x h + detached x h

pub times-snoc :
    (x p : ℕ) (ps : List ℕ) → times x (ps ++ p ∷ []) ≡ (if p == x then 1 else 0) + times x ps
times-snoc x p [] = refl
times-snoc x p (q ∷ ps) = omega (arith, times-snoc x p ps)

pub times-put_key :
    (x p t : ℕ) (d : List (ℕ × ℕ))
    → times p (keys d) ≡ 0
    → times x (keys (put_key p t d)) ≡ (if p == x then 1 else 0) + times x (keys d)
unfolding put_key
times-put_key x p t [] h = refl
times-put_key x p t ((q, u) ∷ d) h = ground (arith, h, times-put_key x p t d)

pub times-erase_key :
    (x p : ℕ) (d : List (ℕ × ℕ))
    → times p (keys d) ≤ 1
    → times x (keys (erase_key p d)) ≡ (if p == x then 0 else times x (keys d))
unfolding erase_key
times-erase_key x p [] h = ground arith
times-erase_key x p ((q, u) ∷ d) h = ground (arith, h, times-erase_key x p d)

pub attached-clear_tdata :
    (x p : ℕ) (h : List (ℕ × Bool))
    → live p h ≤ 1
    → attached x (clear_tdata p h) ≡ (if p == x then 0 else attached x h)
unfolding clear_tdata
attached-clear_tdata x p [] l = ground arith
attached-clear_tdata x p ((q, b) ∷ h) l = ground (arith, l, attached-clear_tdata x p h)

pub live-clear_tdata : (x p : ℕ) (h : List (ℕ × Bool)) → live x (clear_tdata p h) ≡ live x h
unfolding clear_tdata
live-clear_tdata x p [] = refl
live-clear_tdata x p ((q, b) ∷ h) = ground (arith, live-clear_tdata x p h)

-- What `tdata_of` says of a heap with one handler at most at its address.
pub tdata_of-attached :
    (p : ℕ) (h : List (ℕ × Bool))
    → live p h ≤ 1
    → tdata_of p h ≡ some true
    → (attached p h ≡ 1) × (detached p h ≡ 0)
unfolding tdata_of
tdata_of-attached p [] l e = cc
tdata_of-attached p ((q, b) ∷ h) l e = ground (arith, l, e, tdata_of-attached p h)

pub attached-tdata_of :
    (p : ℕ) (h : List (ℕ × Bool)) → live p h ≤ 1 → attached p h ≡ 1 → tdata_of p h ≡ some true
unfolding tdata_of
attached-tdata_of p [] l e = absurd (omega arith)
attached-tdata_of p ((q, b) ∷ h) l e = ground (arith, l, e, attached-tdata_of p h)

-- `delete` of the only handler at an address.
pub erase_heap-attached :
    (p x : ℕ) (h o : List (ℕ × Bool))
    → live p h ≤ 1
    → erase_heap p h ≡ some o
    → (attached x o ≡ (if p == x then 0 else attached x h))
      × (detached x o ≡ (if p == x then 0 else detached x h))
unfolding erase_heap
erase_heap-attached p x [] o l e = cc
erase_heap-attached p x ((q, b) ∷ h) o l e = elim (Bool-cases (q == p)) [
  | inl f ↦
      (let e1 : some h ≡ some o = rw (f, erase_heap) at e in
        let e2 : h ≡ o = cc in
        ground (arith, l, f, e2, ap (λ k. attached x k) e2, ap (λ k. detached x k) e2))
  | inr f ↦ elim (Option-cases (erase_heap p h)) [
    | inl n ↦ (let e1 : none ≡ some o = rw (f, erase_heap, n) at e in cc)
    | inr (r, s) ↦
        (let e1 : some ((q, b) ∷ r) ≡ some o = rw (f, erase_heap, s) at e in
          let ih = erase_heap-attached p x h r (ground (arith, l, f)) s in
          let e2 : (q, b) ∷ r ≡ o = cc in
          ground (arith, l, f, ih, ap (λ k. attached x k) e2, ap (λ k. detached x k) e2))
  ]
]

pub erase_heap-live :
    (p : ℕ) (h : List (ℕ × Bool)) → 1 ≤ live p h → (o : List (ℕ × Bool)) × (erase_heap p h ≡ some o)
unfolding erase_heap
erase_heap-live p [] l = absurd (omega arith)
erase_heap-live p ((q, b) ∷ h) l = elim (Bool-cases (q == p)) [
  | inl f ↦ (h, rw (f, erase_heap) refl)
  | inr f ↦
      (let (o, e) = erase_heap-live p h (ground (arith, l, f)) in
        ((q, b) ∷ o, rw (f, erase_heap, e) refl))
]

-- A heap with no handler at any address.
pub live-empty : (h : List (ℕ × Bool)) → ((x : ℕ) → live x h ≡ 0) → h ≡ []
live-empty [] l = refl
live-empty ((p, b) ∷ h) l = absurd (ground (arith, l p))

pub tdata_of-clear_tdata :
    (p : ℕ) (b : Bool) (h : List (ℕ × Bool))
    → tdata_of p h ≡ some b
    → tdata_of p (clear_tdata p h) ≡ some false
unfolding tdata_of clear_tdata
tdata_of-clear_tdata p b [] e = cc
tdata_of-clear_tdata p b ((q, c) ∷ h) e = ground (arith, e, tdata_of-clear_tdata p b h)
