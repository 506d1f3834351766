-- ===== src/RedisPool/Ownership.antt =====
-- Who owns the `Redis` objects of redis/redispool.cpp: each one that was not deleted is free in
-- the pool or held by one client, once.
use cnode.Prelude.{
  ℕ, zero, suc, ◌+◌, ◌-◌, ◌≤◌, ◌≡◌, refl, Bool, true, List, [], ◌∷◌, ◌++◌, ◌≢◌, inl, inr, Option,
  none, some, get_elem?, Bool-cases, Option-cases, if◌then◌else◌, arith, ◌==◌,
}
use cnode.Prelude.Int.{pos, to_u32, ◌≤ℤ◌}
use cnode.Redis.{Conf, Conn, Env}
use cnode.RedisPool.{
  Pool, erase_id, can_create_poolconn, create_connect, add_pooled, init_loop, init, get_connect,
  rel_connect, uninit, destroy_all, destroy_connect,
}
use cnode.RedisPool.Client.{System, Call, gets, releases, remove_at, step, run}
use cnode.RedisPool.Invariant.{Inv, step-Inv, init-Inv, started, init-started}

abbrev pub count : ℕ → List ℕ → ℕ
count a [] = 0
count a (x ∷ xs) = (if x == a then 1 else 0) + count a xs

-- How often the address `a` stands in a list of connections.
abbrev pub held : ℕ → List Conn → ℕ
held a [] = 0
held a (c ∷ cs) = (if c.id == a then 1 else 0) + held a cs

-- The address `a`: live objects are free or leased, in one place, and `new` gives an unused one.
pub record OwnedAt (a : ℕ) (s : System) : Type 0 where
  pub exact : count a s.pool.live ≡ held a s.pool.freeconn_list + held a s.leased
  pub single : count a s.pool.live ≤ 1
  pub unused : s.pool.next_id ≤ a → count a s.pool.live ≡ 0

pub count-erase_id :
    (a b : ℕ) (xs : List ℕ)
    → count a (erase_id b xs) ≡ (if b == a then count a xs - 1 else count a xs)
count-erase_id a b [] = ground arith
count-erase_id a b (x ∷ xs) = ground (arith, count-erase_id a b xs)

held-append : (a : ℕ) (cs ds : List Conn) → held a (cs ++ ds) ≡ held a cs + held a ds
held-append a [] ds = omega arith
held-append a (c ∷ cs) ds = omega (arith, held-append a cs ds)

held-remove_at :
    (a : ℕ) (cs : List Conn) (i : ℕ) {c : Conn}
    → get_elem? cs i ≡ some c
    → (if c.id == a then 1 else 0) + held a (remove_at cs i) ≡ held a cs
held-remove_at a [] i e = ground arith
held-remove_at a (x ∷ cs) zero e = ground arith
held-remove_at a (x ∷ cs) (suc i) e = ground (arith, held-remove_at a cs i e)

module _ (a : ℕ) where
  get_connect-OwnedAt :
      (s : System) (only_pool : Bool) (e : Env) (free : List Conn)
      → s.pool.freeconn_list ≡ free
      → OwnedAt a s
      → OwnedAt a (step s (gets only_pool e))
  unfolding step get_connect
  get_connect-OwnedAt s only_pool e [] h v = ground arith
  get_connect-OwnedAt s only_pool e (c ∷ rest) h v =
      ground (arith, count-erase_id a c.id s.pool.live)

  rel_connect-OwnedAt :
      (s : System) (i : ℕ) (check : Bool) (e : Env) (o : Option Conn)
      → s.pool.inited ≡ true
      → get_elem? s.leased i ≡ o
      → OwnedAt a s
      → OwnedAt a (step s (releases i check e))
  unfolding step rel_connect
  rel_connect-OwnedAt s i check e none up h v = ground arith
  rel_connect-OwnedAt s i check e (some c) up h v = ground (
    arith,
    held-remove_at a s.leased i h,
    count-erase_id a c.id s.pool.live,
    held-append a s.pool.freeconn_list (record c { last_user_time = e.now } ∷ []),
  )

  step-OwnedAt : (s : System) (c : Call) → Inv s → OwnedAt a s → OwnedAt a (step s c)
  step-OwnedAt s (gets only_pool e) i v =
      get_connect-OwnedAt s only_pool e s.pool.freeconn_list refl v
  step-OwnedAt s (releases n check e) i v =
      rel_connect-OwnedAt s n check e (get_elem? s.leased n) i.inited refl v

  run-OwnedAt : (s : System) (cs : List Call) → Inv s → OwnedAt a s → OwnedAt a (run s cs)
  unfolding run
  run-OwnedAt s [] i v = v
  run-OwnedAt s (c ∷ cs) i v = run-OwnedAt (step s c) cs (step-Inv s c i) (step-OwnedAt s c i v)

  abbrev alone : Pool → System
  alone p = record { pool = p; leased = [] }

  create_connect-OwnedAt :
      (p : Pool) (e : Env) {c : Conn}
      → (create_connect p e).1 ≡ some c
      → OwnedAt a (alone p)
      → OwnedAt a (alone (add_pooled (create_connect p e).0 c))
  unfolding create_connect add_pooled
  create_connect-OwnedAt p e {c} h v =
      ground (arith, held-append a p.freeconn_list (record c { inpool = true } ∷ []))

  init_loop-OwnedAt :
      (rounds num : ℕ) (env : ℕ → Env) (p : Pool)
      → OwnedAt a (alone p)
      → OwnedAt a (alone (init_loop rounds num env p).0)
  unfolding init_loop
  init_loop-OwnedAt zero num env p v = v
  init_loop-OwnedAt (suc rounds) num env p v = elim (Bool-cases (can_create_poolconn p)) [
    | inl room ↦ elim (Option-cases (create_connect p (env num)).1) [
      | inl e ↦ rw (room, e, init_loop) (unfold create_connect in ground arith)
      | inr (c, e) ↦
          rw (room, e, init_loop)
            (init_loop-OwnedAt rounds (num + 1) env _ (create_connect-OwnedAt p (env num) e v))
    ]
    | inr full ↦ rw (full, init_loop) v
  ]

  -- Nothing leaks and nothing is lent twice: at any moment of any sequence of calls, an object
  -- that was made and not deleted stands once in the free list or with one client, and all that
  -- stand there are live. The pool was set up by `init` in an empty heap, with a limit that is
  -- not negative, and is not torn down.
  pub run-init-OwnedAt :
      (conf : Conf) (env : ℕ → Env) (p : Pool) (cs : List Call)
      → conf.redisname ≢ none
      → pos 0 ≤ℤ conf.process_max_conn_num
      → p.live ≡ []
      → OwnedAt a (run (record { pool = (init (some conf) env p).0; leased = [] }) cs)
  run-init-OwnedAt conf env p cs named limit empty =
      let v : OwnedAt a (alone (started conf p)) = record {
        exact = ground arith;
        single = ground arith;
        unused = ground arith;
      } in
      let w = init_loop-OwnedAt (to_u32 conf.init_conn_num) 0 env (started conf p) v in
      run-OwnedAt _ cs (init-Inv conf env p named limit)
        (rw (init-started conf env p named) (ground (arith, w)))

  destroy_all-count :
      (cs : List Conn) (p : Pool) → count a (destroy_all cs p).live ≡ count a p.live - held a cs
  unfolding destroy_all destroy_connect
  destroy_all-count [] p = omega arith
  destroy_all-count (c ∷ cs) p =
      ground (arith, destroy_all-count cs (destroy_connect p c), count-erase_id a c.id p.live)

  -- `uninit` deletes exactly the free connections: what is live afterwards is what clients hold.
  pub uninit-live :
      (s : System)
      → s.pool.inited ≡ true
      → OwnedAt a s
      → count a (uninit s.pool).live ≡ held a s.leased
  unfolding uninit
  uninit-live s up v =
      ground (arith, destroy_all-count s.pool.freeconn_list (record s.pool { conf = none }))

-- A connection that is given back after `uninit` stays allocated for good: `relConnect` returns
-- without deleting it or taking it.
pub rel_connect-uninit :
    (p : Pool) (rds : Option Conn) (check : Bool) (e : Env)
    → p.inited ≡ true
    → rel_connect rds check e (uninit p) ≡ uninit p
unfolding rel_connect uninit
rel_connect-uninit p rds check e up = ground arith
