-- ===== src/TaskPool.antt =====
-- comm/taskpool.h and comm/taskpool.cpp: `TaskPool`, which runs the tasks of a queue in threads.
-- A task is a value of `T`; what it does when it runs is recorded with the flag of `run_task`.
pub mod Threads
pub mod Served
mod Tests
use cnode.Prelude.{
  ℕ, zero, suc, ◌+◌, ◌≡◌, Bool, true, false, not, ◌&&◌, List, [], ◌∷◌, ◌++◌, Option, none, some,
  ltb, ◌==◌, if◌then◌else◌, length, map,
}
use cnode.Prelude.Int.{ℤ, pos, negsuc}
use cnode.Queue.{Timeval, Queue, Popped, got, not_got, each, after_each}

-- The tids stand for the threads that were started.
pub record TaskPool {ℓ} (T : Type ℓ) : Type ℓ where
  pub tasks : Queue T
  pub tid : Queue ℕ
  pub threadcount : ℕ
  pub exit : Bool

-- What `pthread_create` answers: its result and the thread.
pub record Create : Type 0 where
  pub result : ℕ
  pub new_tid : ℕ

-- A call of `addTask`: at its tests, before each of its calls in turn, or at its end with its code.
pub data Caller {ℓ} (T : Type ℓ) : Type ℓ where
  testing : Option T → (delay_ms : ℕ) → Caller T
  appending : T → (delay_ms : ℕ) → Caller T
  counting : Caller T
  counted : (taskcount : ℕ) → Caller T
  creating : Caller T
  storing : (tid result : ℕ) → Caller T
  returned : ℤ → Caller T

module _ {ℓ} {T : Type ℓ} where
  unfoldable pub init : ℕ → TaskPool T → TaskPool T
  init threadcount pool = record pool { threadcount = threadcount; exit = false }

  unfoldable pub set_exit : TaskPool T → TaskPool T
  set_exit pool = record pool { exit = true }

  -- `addTask` at its test of `m_exit` and of the task, which may be null.
  unfoldable pub after_test : Bool → Option T → (delay_ms : ℕ) → Caller T
  after_test true task delay_ms = returned (negsuc 0)
  after_test false none delay_ms = returned (negsuc 1)
  after_test false (some t) delay_ms = appending t delay_ms

  -- Behind `append_delay`, and behind the two sizes.
  unfoldable pub after_append : Bool → Caller T
  after_append ok = if ok then counting else returned (negsuc 2)

  unfoldable pub after_sizes : (taskcount thread_count limit : ℕ) → Caller T
  after_sizes taskcount thread_count limit =
      if ltb thread_count taskcount && ltb thread_count limit then creating else returned (pos 0)

  -- The tid is stored whatever `pthread_create` answered, and its result is the code.
  unfoldable pub after_create : Create → Caller T
  after_create create = storing create.new_tid create.result

  -- `ClsTask`, for each task that is left: `run_task(1)`.
  unfoldable pub cls_tasks : TaskPool T → List (T × ℕ)
  cls_tasks pool = map (λ t. (t, 1)) (each pool.tasks)

  -- The last `each` of `unInit`.
  unfoldable pub clear_tasks : TaskPool T → TaskPool T
  clear_tasks pool = record pool { tasks = after_each true pool.tasks }

-- A thread in `_ThreadFun`: at the test of its loop, in `pop_delay`, with a task that it popped,
-- or at its end.
pub data Worker {ℓ} (T : Type ℓ) : Type ℓ where
  looping : Worker T
  popping : Worker T
  holding : T → Worker T
  ended : Worker T

module _ {ℓ} {T : Type ℓ} where
  unfoldable pub loop_head : Bool → Worker T
  loop_head exit = if exit then ended else popping

  -- After `pop_delay`, which may have got nothing.
  unfoldable pub after_pop : Popped T → Worker T
  after_pop (got t) = holding t
  after_pop (not_got _) = looping

  -- The rest of a round: a task is run only if `m_exit` is not set. The second part is what is
  -- run.
  unfoldable pub loop_rest : Bool → T → Worker T × List (T × ℕ)
  loop_rest exit t = if exit then (looping, []) else (looping, (t, 0) ∷ [])
