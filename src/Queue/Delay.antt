-- ===== src/Queue/Delay.antt =====
-- comm/queue.h: when the delayed tasks of a `Queue` are handed out.
use cnode.Prelude.{ℕ, ◌+◌, ◌*◌, ◌≤◌, ◌<◌, ◌≡◌, List, [], ◌∷◌, some, Every, Every-append}
use cnode.Queue.{
  Timeval, Queue, Popped, got, not_got, append_round, append_delay, pop_section, take_due,
}

-- Microseconds.
abbrev pub micros : Timeval → ℕ
micros t = t.tv_sec * 1000000 + t.tv_usec

-- The queue at a moment of its life, with what was handed out and when.
pub record Moment {ℓ} (T : Type ℓ) : Type ℓ where
  pub queue : Queue T
  pub clock : ℕ
  pub delivered : List (T × ℕ)

module _ {ℓ} {T : Type ℓ} (deadline : T → ℕ) where
  -- A locked section, with the time at which it has the lock, which is not before that of the last
  -- section; `deadline` is the time from which a task may run. `append_delay` reads the clock before
  -- it asks for the lock, and so at any earlier time; the others read it while they have it.
  pub data Step (m n : Moment T) : Type ℓ where
    appends :
        (t : T) (now : Timeval)
        → m.clock ≤ micros now
        → deadline t ≤ micros now
        → n ≡ record m { queue = (append_round t m.queue).0; clock = micros now }
        → Step m n
    delays :
        (t : T) (ms : ℕ) (now : Timeval) (at_lock : ℕ)
        → m.clock ≤ at_lock
        → micros now ≤ at_lock
        → now.tv_usec < 1000000
        → deadline t ≡ micros now + ms * 1000
        → n ≡ record m { queue = (append_delay (some t) ms now m.queue).0; clock = at_lock }
        → Step m n
    pops :
        (t : T) (now ntime : Timeval)
        → m.clock ≤ micros now
        → (pop_section now ntime m.queue).1 ≡ got t
        → n ≡ record {
          queue = (pop_section now ntime m.queue).0;
          clock = micros now;
          delivered = (t, micros now) ∷ m.delivered;
        }
        → Step m n
    waits :
        (now ntime later : Timeval)
        → m.clock ≤ micros now
        → (pop_section now ntime m.queue).1 ≡ not_got later
        → n ≡ record m { queue = (pop_section now ntime m.queue).0; clock = micros now }
        → Step m n

  pub data Reach (m : Moment T) : Moment T → Type ℓ where
    here : Reach m m
    next : {n o : Moment T} → Reach m n → Step n o → Reach m o

  abbrev Ready : ℕ → T → Type 0
  Ready clock t = deadline t ≤ clock

  abbrev AtKey : Timeval × List T → Type 0
  AtKey (key, nodes) = (key.tv_usec ≤ 1000000) × Every (λ t. deadline t ≤ micros key) nodes

  -- A task handed out had reached its deadline.
  abbrev pub OnTime : T × ℕ → Type 0
  OnTime (t, time) = deadline t ≤ time

  record Inv (m : Moment T) : Type ℓ where
    ready : Every (Ready m.clock) m.queue.list
    keyed : Every AtKey m.queue.dely_task
    on_time : Every OnTime m.delivered

  take_due-Ready :
      (clock : ℕ) (nodes list : List T)
      → Every (Ready clock) nodes
      → Every (Ready clock) list
      → Every (Ready clock) (take_due nodes list).1
  unfolding take_due
  take_due-Ready clock [] list e f = f
  take_due-Ready clock (t ∷ ts) list e f = Every-append (Ready clock) list ts f e.1

  abbrev due_of : Popped T → ℕ
  due_of (got t) = deadline t
  due_of (not_got _) = 0

  -- What a section leaves and hands out, at a clock of `now`.
  record Popping (now : ℕ) (r : Queue T × Popped T) : Type ℓ where
    ready : Every (Ready now) r.0.list
    keyed : Every AtKey r.0.dely_task
    handed : due_of r.1 ≤ now
