-- ===== src/MongoPool/Sound.antt =====
-- The connections of mongo/mongopool.cpp: each is in one place, and the counters agree with them.
use cnode.Prelude.{
  ℕ, zero, suc, ◌+◌, ◌≤◌, ◌≡◌, refl, Bool, true, false, List, [], ◌∷◌, ◌++◌, Option, none, some,
  get_elem?, if◌then◌else◌, arith, ◌==◌, length, length-append, Bool-cases, inl, inr,
}
use cnode.Prelude.Int.{pos, inc, dec, ◌≤ℤ◌}
use cnode.RedisPool.Client.{remove_at}
use cnode.RedisPool.Ownership.{count, count-erase_id}
use cnode.MongoPool.{
  Conf, Conn, Answers, Pool, max_of, raise_peek, new_pooled, new_short, short_connect,
  create_connect, get_connect, rel_connect, started, init, first_connect, bad_conf, System, Call,
  gets, releases, step, run,
}

-- How often an address stands in a list of connections, and how many of them belong to the pool.
abbrev pub held : ℕ → List Conn → ℕ
held a [] = 0
held a (c ∷ cs) = (if c.id == a then 1 else 0) + held a cs

abbrev pub pooled : List Conn → ℕ
pooled [] = 0
pooled (c ∷ cs) = (if c.inpool then 1 else 0) + pooled cs

-- The address `a`, and the counters.
pub record SoundAt (a : ℕ) (s : System) : Type 0 where
  pub inited : s.pool.inited ≡ true
  pub exact : count a s.pool.live ≡ held a s.pool.freeconn_list + held a s.leased
  pub single : count a s.pool.live ≤ 1
  pub unused : s.pool.next_id ≤ a → count a s.pool.live ≡ 0
  pub free_pooled : pooled s.pool.freeconn_list ≡ length s.pool.freeconn_list
  pub total : s.pool.totalconn_count ≡ pos (length s.pool.freeconn_list + length s.leased)
  pub counted : s.pool.conn_count_process ≡ pos (length s.pool.freeconn_list + pooled s.leased)
  pub bounded : s.pool.conn_count_process ≤ℤ max_of s.pool.conf

held-append : (a : ℕ) (cs ds : List Conn) → held a (cs ++ ds) ≡ held a cs + held a ds
held-append a [] ds = omega arith
held-append a (c ∷ cs) ds = omega (arith, held-append a cs ds)

pooled-append : (cs ds : List Conn) → pooled (cs ++ ds) ≡ pooled cs + pooled ds
pooled-append [] ds = omega arith
pooled-append (c ∷ cs) ds = omega (arith, pooled-append cs ds)

pooled-le-length : (cs : List Conn) → pooled cs ≤ length cs
pooled-le-length [] = omega arith
pooled-le-length (c ∷ cs) = ground (arith, pooled-le-length cs)

remove_at-counts :
    (a : ℕ) (cs : List Conn) (i : ℕ) {c : Conn}
    → get_elem? cs i ≡ some c
    → ((if c.id == a then 1 else 0) + held a (remove_at cs i) ≡ held a cs)
      × ((if c.inpool then 1 else 0) + pooled (remove_at cs i) ≡ pooled cs)
      × (suc (length (remove_at cs i)) ≡ length cs)
remove_at-counts a [] i e = ground arith
remove_at-counts a (x ∷ cs) zero e = ground arith
remove_at-counts a (x ∷ cs) (suc i) e = ground (arith, remove_at-counts a cs i e)

module _ (a : ℕ) where
  get_connect-SoundAt :
      (s : System) (only_pool : Bool) (n : Answers) (free : List Conn)
      → s.pool.freeconn_list ≡ free
      → SoundAt a s
      → SoundAt a (step s (gets only_pool n))
  unfolding step get_connect create_connect short_connect new_pooled new_short raise_peek inc
  get_connect-SoundAt s only_pool n [] h v = ground arith
  get_connect-SoundAt s only_pool n (c ∷ rest) h v = ground (arith, pooled-le-length rest)

  rel_connect-SoundAt :
      (s : System) (i : ℕ) (o : Option Conn)
      → get_elem? s.leased i ≡ o
      → SoundAt a s
      → SoundAt a (step s (releases i))
  unfolding step rel_connect dec
  rel_connect-SoundAt s i none h v = ground arith
  rel_connect-SoundAt s i (some c) h v = ground (
    arith,
    remove_at-counts a s.leased i h,
    count-erase_id a c.id s.pool.live,
    held-append a s.pool.freeconn_list (c ∷ []),
    pooled-append s.pool.freeconn_list (c ∷ []),
    length-append s.pool.freeconn_list (c ∷ []),
  )

  step-SoundAt : (s : System) (c : Call) → SoundAt a s → SoundAt a (step s c)
  step-SoundAt s (gets only_pool n) v =
      get_connect-SoundAt s only_pool n s.pool.freeconn_list refl v
  step-SoundAt s (releases i) v = rel_connect-SoundAt s i (get_elem? s.leased i) refl v

  pub run-SoundAt : (s : System) (cs : List Call) → SoundAt a s → SoundAt a (run s cs)
  unfolding run
  run-SoundAt s [] v = v
  run-SoundAt s (c ∷ cs) v = run-SoundAt (step s c) cs (step-SoundAt s c v)

  abbrev alone : Pool → System
  alone p = record { pool = p; leased = [] }

  started-SoundAt :
      (conf : Conf) (p : Pool)
      → bad_conf conf ≡ false
      → p.live ≡ []
      → SoundAt a (alone (started conf p))
  unfolding started bad_conf max_of
  started-SoundAt conf p good empty = record {
    inited = refl;
    exact = ground arith;
    single = ground arith;
    unused = ground arith;
    free_pooled = refl;
    total = refl;
    counted = refl;
    bounded = ground arith;
  }

  init-SoundAt :
      (conf : Conf) (n : Answers) (p : Pool)
      → p.live ≡ []
      → (init (some conf) n p).1 ≡ 0
      → SoundAt a (alone (init (some conf) n p).0)
  unfolding init first_connect get_connect create_connect short_connect new_pooled new_short
      raise_peek inc rel_connect dec
  init-SoundAt conf n p empty ok = elim (Bool-cases (bad_conf conf)) [
    | inl bad ↦ absurd (ground arith)
    | inr good ↦ (let v = started-SoundAt conf p good empty in ground arith)
  ]

-- From a pool that `init` set up with success in an empty heap, and at any moment of any calls of
-- clients that give back only what they hold, whatever mongoc gives: each `Mongo` object that was
-- made and not deleted is free or with one client, once, and all that stand there are live; the
-- counters are the numbers of all connections and of those of the pool, which are within the
-- limit; and the free ones all belong to the pool.
pub run-init-SoundAt :
    (a : ℕ) (conf : Conf) (n : Answers) (p : Pool) (cs : List Call)
    → p.live ≡ []
    → (init (some conf) n p).1 ≡ 0
    → SoundAt a (run (record { pool = (init (some conf) n p).0; leased = [] }) cs)
run-init-SoundAt a conf n p cs empty ok = run-SoundAt a _ cs (init-SoundAt a conf n p empty ok)

-- `init` leaves at most one connection, whatever number of first connections is configured.
pub init-free_le_one :
    (conf : Conf) (n : Answers) (p : Pool)
    → (init (some conf) n p).1 ≡ 0
    → length (init (some conf) n p).0.freeconn_list ≤ 1
unfolding init first_connect get_connect create_connect short_connect new_pooled new_short
    raise_peek started rel_connect bad_conf
init-free_le_one conf n p ok = elim (Bool-cases (bad_conf conf)) [
  | inl bad ↦ absurd (ground arith)
  | inr good ↦ ground arith
]
