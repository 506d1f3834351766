-- ===== src/MongoPool/Race.antt =====
-- `getConnect` of mongo/mongopool.cpp under its read lock: several threads may be between `front()`
-- and `pop_front()` at a time.
use cnode.Prelude.{ℕ, ◌≡◌, ◌≢◌, refl, List, [], ◌∷◌, Option, none, some, ◌==◌, if◌then◌else◌, arith}
use cnode.MongoPool.{Conn}

-- The free list, and the `p` of each thread.
pub record Readers : Type 0 where
  pub free : List Conn
  pub p : ℕ → Option Conn

-- `p = front()` and `pop_front()` of a thread that found the list not empty.
pub data Op : Type 0 where
  front : ℕ → Op
  pop_front : ℕ → Op

unfoldable pub take_front : ℕ → List Conn → Readers → Option Readers
take_front i [] r = none
take_front i (c ∷ rest) r = some (record r { p = λ j. if j == i then some c else r.p j })

unfoldable pub drop_front : List Conn → Readers → Option Readers
drop_front [] r = none
drop_front (c ∷ rest) r = some (record r { free = rest })

-- `none` is the undefined behaviour of `front` and `pop_front` on an empty list.
unfoldable pub apply : Op → Readers → Option Readers
unfolding take_front drop_front
apply (front i) r = take_front i r.free r
apply (pop_front i) r = drop_front r.free r

unfoldable pub run : List Op → Readers → Option Readers
unfolding apply
run [] r = some r
run (o ∷ os) r = elim (apply o r) [ none ↦ none | some q ↦ run os q ]

abbrev pub idle : List Conn → Readers
idle cs = record { free = cs; p = λ j. none }

-- Two threads that find the list with two connections or more: if both look before either pops,
-- both are lent the first connection and the second is lost; in turn, each has its own. With one
-- connection left, the second `pop_front` is on an empty list.
pub front-pop_front :
    (i j : ℕ) (c d : Conn) (rest : List Conn)
    → i ≢ j
    → ((r : Readers) × (run
            (front i ∷ front j ∷ pop_front i ∷ pop_front j ∷ [])
            (idle (c ∷ d ∷ rest))
          ≡ some r)
        × (r.p i ≡ some c)
        × (r.p j ≡ some c)
        × (r.free ≡ rest))
      × ((r : Readers) × (run
              (front i ∷ pop_front i ∷ front j ∷ pop_front j ∷ [])
              (idle (c ∷ d ∷ rest))
            ≡ some r)
          × (r.p i ≡ some c)
          × (r.p j ≡ some d)
          × (r.free ≡ rest))
      × (run (front i ∷ front j ∷ pop_front i ∷ pop_front j ∷ []) (idle (c ∷ [])) ≡ none)
unfolding run apply
front-pop_front i j c d rest ne =
    ((_, refl, ground arith, ground arith, refl), (_, refl, ground arith, ground arith, refl), refl)
