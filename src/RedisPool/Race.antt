-- ===== src/RedisPool/Race.antt =====
-- `getConnect` of redis/redispool.cpp in several threads. It takes the lock twice: to look for a
-- free connection or ask `can_create_poolconn`, and, after connecting, to count the new one.
use cnode.Prelude.{
  ℕ, zero, suc, ◌+◌, ◌≤◌, ◌<◌, ◌≡◌, refl, Bool, true, false, not, ◌&&◌, List, [], ◌∷◌, Option, some,
  get_elem?, if◌then◌else◌, arith, length,
}
use cnode.Prelude.Int.{ℤ, pos_part, neg_part, inc, dec, ◌<ℤ◌}
use cnode.Redis.{Conn, Env}
use cnode.RedisPool.{
  Pool, reuse, fresh, can_create_poolconn, create_connect, destroy_connect, take_free, register,
  discard, rel_connect,
}
use cnode.RedisPool.Client.{remove_at}

-- The pool, and for each thread between the two sections what it was told by
-- `can_create_poolconn`.
pub record Threads : Type 0 where
  pub pool : Pool
  pub opening : List Bool

-- One locked section of one thread; at most `n` threads are in `getConnect` at a time.
pub data Step (n : ℕ) (s t : Threads) : Type 0 where
  takes :
      (c : Conn)
      → (take_free s.pool).1 ≡ reuse c
      → t ≡ record s { pool = (take_free s.pool).0 }
      → Step n s t
  enters :
      (only_pool b : Bool)
      → length s.opening < n
      → (take_free s.pool).1 ≡ fresh b
      → (only_pool && not b) ≡ false
      → t ≡ record { pool = (take_free s.pool).0; opening = b ∷ s.opening }
      → Step n s t
  connects :
      (i : ℕ) (b : Bool) (e : Env)
      → get_elem? s.opening i ≡ some b
      → e.connects ≡ true
      → t
        ≡ record { pool = register (create_connect s.pool e).0 b; opening = remove_at s.opening i }
      → Step n s t
  fails :
      (i : ℕ) (b : Bool) (e : Env)
      → get_elem? s.opening i ≡ some b
      → e.connects ≡ false
      → t ≡ record { pool = (create_connect s.pool e).0; opening = remove_at s.opening i }
      → Step n s t
  discards : (c : Conn) → t ≡ record s { pool = discard (destroy_connect s.pool c) } → Step n s t
  releases :
      (rds : Option Conn) (check : Bool) (e : Env)
      → t ≡ record s { pool = rel_connect rds check e s.pool }
      → Step n s t

pub data Reach (n : ℕ) (s : Threads) : Threads → Type 0 where
  here : Reach n s s
  next : {t u : Threads} → Reach n s t → Step n t u → Reach n s u

-- How many threads were told that they may add to the pool.
abbrev pub adding : List Bool → ℕ
adding [] = 0
adding (b ∷ bs) = (if b then 1 else 0) + adding bs

-- The limit is missed by less than the number of threads, those under way included.
abbrev pub Within : ℕ → Threads → Type 0
Within n s =
    pos_part s.pool.conn_count_process + neg_part s.pool.conn_max_process + adding s.opening
    < pos_part s.pool.conn_max_process + neg_part s.pool.conn_count_process + n

inc_parts : (c : ℤ) → pos_part (inc c) + neg_part c ≡ pos_part c + neg_part (inc c) + 1
unfolding inc
inc_parts c = ground arith

dec_parts : (c : ℤ) → pos_part (dec c) + neg_part c + 1 ≡ pos_part c + neg_part (dec c)
unfolding dec
dec_parts c = ground arith

adding-le-length : (bs : List Bool) → adding bs ≤ length bs
adding-le-length [] = omega arith
adding-le-length (b ∷ bs) = ground (arith, adding-le-length bs)

adding-remove_at :
    (bs : List Bool) (i : ℕ) {b : Bool}
    → get_elem? bs i ≡ some b
    → (if b then 1 else 0) + adding (remove_at bs i) ≡ adding bs
adding-remove_at [] i e = ground arith
adding-remove_at (x ∷ bs) zero e = ground arith
adding-remove_at (x ∷ bs) (suc i) e = ground (arith, adding-remove_at bs i e)

take_free_counts :
    (p : Pool)
    → ((take_free p).0.conn_count_process ≡ p.conn_count_process)
      × ((take_free p).0.conn_max_process ≡ p.conn_max_process)
unfolding take_free
take_free_counts p = ground arith

take_free-fresh : (p : Pool) {b : Bool} → (take_free p).1 ≡ fresh b → can_create_poolconn p ≡ b
unfolding take_free
take_free-fresh p e = ground arith

Step-Within : {n : ℕ} {s t : Threads} → Step n s t → Within n s → Within n t
unfolding register discard destroy_connect create_connect rel_connect can_create_poolconn
Step-Within {n} {s} (takes c h e) w = ground (arith, take_free_counts s.pool)
Step-Within {n} {s} (enters only_pool b l h g e) w =
    ground (arith, take_free_counts s.pool, take_free-fresh s.pool h, adding-le-length s.opening)
Step-Within {n} {s} (connects i b e h c eq) w =
    ground (arith, adding-remove_at s.opening i h, inc_parts s.pool.conn_count_process)
Step-Within {n} {s} (fails i b e h c eq) w = ground (arith, adding-remove_at s.opening i h)
Step-Within {n} {s} (discards c eq) w = ground (arith, dec_parts s.pool.conn_count_process)
Step-Within {n} {s} (releases rds check e eq) w =
    ground (arith, dec_parts s.pool.conn_count_process)

-- With at most `n` threads in `getConnect`, the count of pooled connections stays below the
-- limit plus `n`, in any interleaving of their locked sections with releases.
pub Reach-Within : {n : ℕ} {s t : Threads} → Within n s → Reach n s t → Within n t
Reach-Within w here = w
Reach-Within w (next r st) = Step-Within st (Reach-Within w r)

entered : Threads → Threads
entered s = record { pool = (take_free s.pool).0; opening = true ∷ s.opening }

connected : Env → Threads → Threads
connected e s = record {
  pool = register (create_connect s.pool e).0 true;
  opening = remove_at s.opening 0;
}

-- Two threads that enter in turn and then connect in turn.
both : Env → Threads → Threads
unfolding entered connected
both e s = connected e (connected e (entered (entered s)))

Reach-both :
    (p : Pool) (e : Env)
    → (take_free p).1 ≡ fresh true
    → (take_free (take_free p).0).1 ≡ fresh true
    → e.connects ≡ true
    → Reach 2 (record { pool = p; opening = [] }) (both e (record { pool = p; opening = [] }))
unfolding both entered connected
Reach-both p e first second up =
    next
      (next
        (next (next here (enters false true (omega arith) first refl refl))
          (enters false true (omega arith) second refl refl))
        (connects 0 true e refl up refl))
      (connects 0 true e refl up refl)

-- The limit itself is not kept: wherever one more connection is allowed and none is free, two
-- threads that both pass the test before either counts its connection take the pool past it.
pub two-threads-exceed :
    (p : Pool) (e : Env)
    → p.freeconn_list ≡ []
    → inc p.conn_count_process ≡ p.conn_max_process
    → e.connects ≡ true
    → (t : Threads) × Reach 2 (record { pool = p; opening = [] }) t
      × (t.pool.conn_max_process <ℤ t.pool.conn_count_process)
unfolding take_free can_create_poolconn
two-threads-exceed p e empty room up = (
  both e (record { pool = p; opening = [] }),
  Reach-both p e (ground (arith, inc_parts p.conn_count_process))
      (ground (arith, inc_parts p.conn_count_process)) up,
  unfold both register create_connect in
      ground (arith, inc_parts p.conn_count_process, inc_parts (inc p.conn_count_process)),
)
