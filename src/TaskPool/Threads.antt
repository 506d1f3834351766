-- ===== src/TaskPool/Threads.antt =====
-- comm/taskpool.cpp: the threads of a `TaskPool`, the calls of `addTask` and `unInit`, in any
-- interleaving: a step is a locked section of a queue or what lies between two.
use cnode.Prelude.{
  ℕ, ◌<◌, ◌≡◌, Bool, List, [], ◌∷◌, ◌++◌, Option, some, if◌then◌else◌, ◌==◌, get_elem?, set,
}
use cnode.Prelude.Int.{pos}
use cnode.Queue.{
  Timeval, Queue, Popped, got, not_got, append_delay, append_round, size, pop, pop_section,
  pop_delay_begin,
}
use cnode.TaskPool.{
  TaskPool, Create, Caller, testing, appending, counting, counted, creating, storing, returned,
  after_test, after_append, after_sizes, after_create, Worker, looping, popping, holding, set_exit,
  cls_tasks, clear_tasks, loop_head, after_pop, loop_rest,
}

-- `unInit`: not called, in its loop, or before its last `each`.
pub data Ender : Type 0 where
  idle : Ender
  joining : Ender
  clearing : Ender

-- The pool with its threads and the calls of `addTask`, where `unInit` is, the tasks that
-- were queued, those that ran, with the flag of `run_task`, and those that a thread popped and left.
pub record System {ℓ} (T : Type ℓ) : Type ℓ where
  pub pool : TaskPool T
  pub workers : List (Worker T)
  pub calls : List (Caller T)
  pub ender : Ender
  pub accepted : List T
  pub ran : List (T × ℕ)
  pub dropped : List T

module _ {ℓ} {T : Type ℓ} where
  abbrev pub move_to : ℕ → Caller T → System T → System T
  move_to i c s = record s { calls = set s.calls i c }

  unfoldable pub append_at : ℕ → T → Queue T × Bool → System T → System T
  unfolding after_append
  append_at i t r s = record s {
    pool = record s.pool { tasks = r.0 };
    calls = set s.calls i (after_append r.1);
    accepted = if r.1 then t ∷ s.accepted else s.accepted;
  }

  unfoldable pub create_at : ℕ → Create → System T → System T
  unfolding after_create
  create_at i create s = record s {
    workers = if create.result == 0 then looping ∷ s.workers else s.workers;
    calls = set s.calls i (after_create create);
  }

  unfoldable pub store_at : ℕ → (tid result : ℕ) → System T → System T
  store_at i tid result s = record s {
    pool = record s.pool { tid = (append_round tid s.pool.tid).0 };
    calls = set s.calls i (returned (pos result));
  }

  unfoldable pub after_section : ℕ → Queue T × Popped T → System T → System T
  after_section i r s = record s {
    pool = record s.pool { tasks = r.0 };
    workers = set s.workers i (after_pop r.1);
  }

  unfoldable pub after_rest : ℕ → T → System T → System T
  after_rest i t s = record s {
    workers = set s.workers i (loop_rest s.pool.exit t).0;
    ran = (loop_rest s.pool.exit t).1 ++ s.ran;
    dropped = if s.pool.exit then t ∷ s.dropped else s.dropped;
  }

  unfoldable pub after_clear : System T → System T
  after_clear s = record s {
    pool = clear_tasks s.pool;
    ender = idle;
    ran = cls_tasks s.pool ++ s.ran;
  }

pub data Step {ℓ} {T : Type ℓ} (s u : System T) : Type ℓ where
  begins :
      (task : Option T) (ms : ℕ) → u ≡ record s { calls = testing task ms ∷ s.calls } → Step s u
  tests :
      (i : ℕ) (task : Option T) (ms : ℕ)
      → get_elem? s.calls i ≡ some (testing task ms)
      → u ≡ move_to i (after_test s.pool.exit task ms) s
      → Step s u
  appends :
      (i : ℕ) (t : T) (ms : ℕ) (now : Timeval)
      → get_elem? s.calls i ≡ some (appending t ms)
      → u ≡ append_at i t (append_delay (some t) ms now s.pool.tasks) s
      → Step s u
  counts :
      (i : ℕ)
      → get_elem? s.calls i ≡ some counting
      → u ≡ move_to i (counted (size s.pool.tasks)) s
      → Step s u
  compares :
      (i n : ℕ)
      → get_elem? s.calls i ≡ some (counted n)
      → u ≡ move_to i (after_sizes n (size s.pool.tid) s.pool.threadcount) s
      → Step s u
  creates :
      (i : ℕ) (create : Create)
      → get_elem? s.calls i ≡ some creating
      → u ≡ create_at i create s
      → Step s u
  stores :
      (i tid result : ℕ)
      → get_elem? s.calls i ≡ some (storing tid result)
      → u ≡ store_at i tid result s
      → Step s u
  heads :
      (i : ℕ)
      → get_elem? s.workers i ≡ some looping
      → u ≡ record s { workers = set s.workers i (loop_head s.pool.exit) }
      → Step s u
  waits :
      (i : ℕ) (now ntime later : Timeval)
      → get_elem? s.workers i ≡ some popping
      → (pop_delay_begin now ntime s.pool.tasks).1 ≡ not_got later
      → u ≡ record s { pool = record s.pool { tasks = (pop_delay_begin now ntime s.pool.tasks).0 } }
      → Step s u
  pops :
      (i : ℕ) (now ntime : Timeval) (t : T)
      → get_elem? s.workers i ≡ some popping
      → (pop_delay_begin now ntime s.pool.tasks).1 ≡ got t
      → u ≡ after_section i (pop_delay_begin now ntime s.pool.tasks) s
      → Step s u
  pops_woken :
      (i : ℕ) (now ntime : Timeval)
      → get_elem? s.workers i ≡ some popping
      → u ≡ after_section i (pop_section now ntime s.pool.tasks) s
      → Step s u
  rests :
      (i : ℕ) (t : T) → get_elem? s.workers i ≡ some (holding t) → u ≡ after_rest i t s → Step s u
  exits : u ≡ record s { pool = set_exit s.pool } → Step s u
  -- `unInit`: its first part, a round of its loop, where `pthread_join` comes back when it does, the
  -- end of the loop, and the last `each`.
  uninit_begins : u ≡ record s { pool = set_exit s.pool; ender = joining } → Step s u
  uninit_joins :
      s.ender ≡ joining
      → 0 < size s.pool.tid
      → u ≡ record s { pool = record s.pool { tid = (pop s.pool.tid).0 } }
      → Step s u
  uninit_leaves :
      s.ender ≡ joining → size s.pool.tid ≡ 0 → u ≡ record s { ender = clearing } → Step s u
  uninit_clears : s.ender ≡ clearing → u ≡ after_clear s → Step s u

pub data Reach {ℓ} {T : Type ℓ} (s : System T) : System T → Type ℓ where
  here : Reach s s
  next : {t u : System T} → Reach s t → Step t u → Reach s u

abbrev pub start {ℓ} : {T : Type ℓ} → TaskPool T → System T
start pool = record {
  pool = pool;
  workers = [];
  calls = [];
  ender = idle;
  accepted = [];
  ran = [];
  dropped = [];
}
