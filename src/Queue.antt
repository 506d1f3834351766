-- ===== src/Queue.antt =====
-- comm/queue.h: `Queue`, the queue of tasks that several threads share, with delayed tasks.
-- Each operation is one section under `m_mutex`; `pop_delay` and `pop` are two, since waiting on
-- the condition variable gives the mutex up. A clock reading is an argument.
pub mod Items
pub mod Delay
pub mod Due
mod Tests
use cnode.Prelude.{
  ℕ, zero, suc, ◌+◌, ◌-◌, ◌*◌, ◌/◌, ◌%◌, Bool, true, false, not, ◌&&◌, ◌||◌, List, [], ◌∷◌, ◌++◌,
  Option, none, some, leb, ltb, ◌==◌, if◌then◌else◌, length, take, drop, map,
}

pub record Timeval : Type 0 where
  pub tv_sec : ℕ
  pub tv_usec : ℕ

-- `operator<`.
unfoldable pub before : Timeval → Timeval → Bool
before l r = if l.tv_sec == r.tv_sec then ltb l.tv_usec r.tv_usec else ltb l.tv_sec r.tv_sec

-- `now_dtime`, where the clock reads `now`.
unfoldable pub now_dtime : Timeval → ℕ → Timeval
now_dtime now delta_ms =
    let sec = now.tv_sec + delta_ms / 1000 in
    let usec = now.tv_usec + delta_ms % 1000 * 1000 in
    if ltb 1000000 usec
    then record { tv_sec = sec + 1; tv_usec = usec % 1000000 }
    else record { tv_sec = sec; tv_usec = usec }

-- `maketime`: seconds and nanoseconds.
unfoldable pub maketime : Timeval → ℕ → ℕ × ℕ
maketime now timeout =
    (now.tv_sec + timeout / 1000000, now.tv_usec * 1000 + timeout % 1000000 * 1000)

abbrev pub defwait_time_ms : ℕ
defwait_time_ms = 100000000

module _ {ℓ} {T : Type ℓ} where
  -- `m_dely_task[destime].push_back(node)`, on the map as a list that its keys order.
  unfoldable pub push_delay : Timeval → T → List (Timeval × List T) → List (Timeval × List T)
  push_delay destime node [] = (destime, node ∷ []) ∷ []
  push_delay destime node ((key, nodes) ∷ rest) =
      let later = push_delay destime node rest in
      if before destime key
      then (destime, node ∷ []) ∷ (key, nodes) ∷ rest
      else if before key destime
      then (key, nodes) ∷ later
      else (key, nodes ++ node ∷ []) ∷ rest

pub record Queue {ℓ} (T : Type ℓ) : Type ℓ where
  pub list : List T
  pub dely_task : List (Timeval × List T)
  pub near_time : Timeval
  pub list_max_size : ℕ

-- What a locked section of a reader ends with: an item, nothing, or a wait until a time.
pub data Popped {ℓ} (T : Type ℓ) : Type ℓ where
  got : T → Popped T
  not_got : Timeval → Popped T

module _ {ℓ} {T : Type ℓ} where
  unfoldable pub set_max_size : ℕ → Queue T → Queue T
  set_max_size max_size q =
      if ltb max_size 100 || ltb 1000000 max_size then q else record q { list_max_size = max_size }

  -- One round of `append`, under the lock.
  unfoldable pub append_round : T → Queue T → Queue T × Bool
  append_round node q =
      if ltb (length q.list) q.list_max_size
      then (record q { list = q.list ++ node ∷ [] }, true)
      else (q, false)

  -- `append_delay`, where a null node is `none` and a delay below 0 counts as 0.
  unfoldable pub append_delay : Option T → ℕ → Timeval → Queue T → Queue T × Bool
  unfolding append_round push_delay
  append_delay none delay_ms now q = (q, false)
  append_delay (some node) delay_ms now q =
      if delay_ms == 0
      then append_round node q
      else (record q { dely_task = push_delay (now_dtime now delay_ms) node q.dely_task }, true)

  -- The new head is earlier: the readers are woken.
  unfoldable pub notifies : Timeval → Queue T → Bool
  notifies destime q = elim q.dely_task [ [] ↦ true | (key, nodes) ∷ rest ↦ before destime key ]

  -- The loop over the tasks that are due.
  unfoldable pub take_due : List T → List T → Option T × List T
  take_due [] list = (none, list)
  take_due (t ∷ ts) list = (some t, list ++ ts)

  unfoldable pub delay_result : Timeval → Option T → Popped T
  delay_result ntime none = not_got ntime
  delay_result ntime (some t) = got t

  -- `_pop_delay_top`, with the time `ntime` that it leaves to wait for.
  unfoldable pub pop_delay_top : (now ntime : Timeval) → Queue T → Queue T × Popped T
  unfolding take_due delay_result
  pop_delay_top now ntime q = elim q.dely_task [
    | [] ↦ (q, not_got (now_dtime now defwait_time_ms))
    | (key, nodes) ∷ rest ↦
        if before key now
        then (
          record q { list = (take_due nodes q.list).1; dely_task = rest },
          delay_result ntime (take_due nodes q.list).0,
        )
        else (q, not_got key)
  ]

  -- The list first, then what is due: the sections of `pop_delay` before and after the wait.
  unfoldable pub pop_section : (now ntime : Timeval) → Queue T → Queue T × Popped T
  unfolding pop_delay_top
  pop_section now ntime q = elim q.list [
    | [] ↦ pop_delay_top now ntime q
    | t ∷ rest ↦ (record q { list = rest }, got t)
  ]

  unfoldable pub set_near : Queue T × Popped T → Queue T × Popped T
  set_near (q, got t) = (q, got t)
  set_near (q, not_got nexttime) = (record q { near_time = nexttime }, not_got nexttime)

  -- The first section of `pop_delay`: an item, or the time to wait until.
  unfoldable pub pop_delay_begin : (now ntime : Timeval) → Queue T → Queue T × Popped T
  unfolding pop_section set_near
  pop_delay_begin now ntime q = set_near (pop_section now ntime q)

  -- `pop`, once it has waited where the list was empty.
  unfoldable pub pop : Queue T → Queue T × Option T
  pop q = elim q.list [ [] ↦ (q, none) | t ∷ rest ↦ (record q { list = rest }, some t) ]

  unfoldable pub size : Queue T → ℕ
  size q = length q.list + (elim q.dely_task [ [] ↦ 0 | d ∷ ds ↦ 1 ])

  -- `insert`; an index past the end has no meaning in the source.
  unfoldable pub insert : ℕ → T → Queue T → Queue T
  insert index node q = record q { list = take index q.list ++ node ∷ drop index q.list }

  unfoldable pub delayed : List (Timeval × List T) → List T
  delayed [] = []
  delayed ((key, nodes) ∷ rest) = nodes ++ delayed rest

  -- What `each` visits, in this order.
  unfoldable pub each : Queue T → List T
  unfolding delayed
  each q = q.list ++ delayed q.dely_task

  -- The queue after `each` with the flag `rmall`.
  unfoldable pub after_each : Bool → Queue T → Queue T
  after_each rmall q = if rmall then record q { list = []; dely_task = [] } else q
