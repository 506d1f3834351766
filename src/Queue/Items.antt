-- ===== src/Queue/Items.antt =====
-- comm/queue.h: no task of a `Queue` is lost or doubled.
use cnode.Prelude.{
  ℕ, ◌+◌, ◌≡◌, refl, ◌∙◌, Bool, true, false, List, [], ◌∷◌, ◌++◌, Option, none, some, if◌then◌else◌,
  arith, count, count-append, count-take-drop, take, drop,
}
use cnode.Queue.{
  Timeval, Queue, Popped, got, not_got, append_round, append_delay, push_delay, pop_section,
  pop_delay_begin, pop_delay_top, pop, insert, set_max_size, set_near, delay_result, take_due,
  delayed, each, after_each, now_dtime,
}

-- A locked section of a thread, with the readings of the clock.
pub data Op {ℓ} (T : Type ℓ) : Type ℓ where
  append_op : T → Op T
  append_delay_op : Option T → ℕ → Timeval → Op T
  pop_begin_op : (now ntime : Timeval) → Op T
  pop_end_op : (now ntime : Timeval) → Op T
  pop_op : Op T
  insert_op : ℕ → T → Op T
  set_max_size_op : ℕ → Op T
  each_op : (rmall : Bool) → Op T

-- A queue with what it was given and has handed out.
pub record Log {ℓ} (T : Type ℓ) : Type ℓ where
  pub queue : Queue T
  pub accepted : List T
  pub delivered : List T

module _ {ℓ} {T : Type ℓ} where
  unfoldable pub log_append : Option T → Queue T × Bool → Log T → Log T
  log_append (some t) (q, true) l = record l { queue = q; accepted = t ∷ l.accepted }
  log_append _ (q, _) l = record l { queue = q }

  unfoldable pub log_popped : Queue T × Popped T → Log T → Log T
  log_popped (q, got t) l = record l { queue = q; delivered = t ∷ l.delivered }
  log_popped (q, not_got _) l = record l { queue = q }

  unfoldable pub log_pop : Queue T × Option T → Log T → Log T
  log_pop (q, some t) l = record l { queue = q; delivered = t ∷ l.delivered }
  log_pop (q, none) l = record l { queue = q }

  -- `each`: with `rmall` its function gets every task, and none stays.
  unfoldable pub log_each : Bool → Log T → Log T
  unfolding each after_each
  log_each rmall l = record l {
    queue = after_each rmall l.queue;
    delivered = if rmall then each l.queue ++ l.delivered else l.delivered;
  }

  unfoldable pub do_op : Op T → Log T → Log T
  unfolding log_append log_popped log_pop log_each
  do_op (append_op t) l = log_append (some t) (append_round t l.queue) l
  do_op (append_delay_op t ms now) l = log_append t (append_delay t ms now l.queue) l
  do_op (pop_begin_op now ntime) l = log_popped (pop_delay_begin now ntime l.queue) l
  do_op (pop_end_op now ntime) l = log_popped (pop_section now ntime l.queue) l
  do_op pop_op l = log_pop (pop l.queue) l
  do_op (insert_op i t) l = log_append (some t) (insert i t l.queue, true) l
  do_op (set_max_size_op n) l = record l { queue = set_max_size n l.queue }
  do_op (each_op rmall) l = log_each rmall l

  unfoldable pub run : List (Op T) → Log T → Log T
  unfolding do_op
  run [] l = l
  run (op ∷ ops) l = run ops (do_op op l)

  abbrev pub start_log : Timeval → ℕ → Log T
  start_log near max_size = record {
    queue = record { list = []; dely_task = []; near_time = near; list_max_size = max_size };
    accepted = [];
    delivered = [];
  }

  -- How often a task is stored, with what was handed out.
  abbrev pub held : (T → Bool) → Queue T → ℕ
  held p q = count p q.list + count p (delayed q.dely_task)

  delayed-push_delay :
      (p : T → Bool) (k : Timeval) (t : T) (d : List (Timeval × List T))
      → count p (delayed (push_delay k t d)) ≡ (if p t then 1 else 0) + count p (delayed d)
  unfolding delayed push_delay
  delayed-push_delay p k t [] = omega arith
  delayed-push_delay p k t ((key, nodes) ∷ rest) = ground (
    arith,
    delayed-push_delay p k t rest,
    count-append p nodes (t ∷ []),
    count-append p (nodes ++ t ∷ []) (delayed rest),
    count-append p nodes (delayed rest),
    count-append p nodes (delayed (push_delay k t rest)),
  )

  abbrev pub handed : Popped T → List T
  handed (got t) = t ∷ []
  handed (not_got _) = []

  held-take_due :
      (p : T → Bool) (ntime : Timeval) (nodes list : List T)
      → count p (take_due nodes list).1
          + count p (handed (delay_result ntime (take_due nodes list).0))
        ≡ count p list + count p nodes
  unfolding take_due delay_result
  held-take_due p ntime [] list = omega arith
  held-take_due p ntime (t ∷ ts) list = omega (arith, count-append p list ts)

  abbrev queue_of : List T → List (Timeval × List T) → Timeval → ℕ → Queue T
  queue_of list dely near max_size = record {
    list = list;
    dely_task = dely;
    near_time = near;
    list_max_size = max_size;
  }

  held-section :
      (p : T → Bool) (now ntime : Timeval) (list : List T) (dely : List (Timeval × List T))
      (near : Timeval) (n : ℕ)
      → let r = pop_section now ntime (queue_of list dely near n) in
        held p r.0 + count p (handed r.1) ≡ count p list + count p (delayed dely)
  unfolding pop_section pop_delay_top delayed
  held-section p now ntime (t ∷ ts) dely near n = omega arith
  held-section p now ntime [] [] near n = omega arith
  held-section p now ntime [] ((key, nodes) ∷ rest) near n =
      ground (arith, held-take_due p ntime nodes [], count-append p nodes (delayed rest))

  pub held-pop_section :
      (p : T → Bool) (now ntime : Timeval) (q : Queue T)
      → held p (pop_section now ntime q).0 + count p (handed (pop_section now ntime q).1) ≡ held p q
  held-pop_section p now ntime q =
      held-section p now ntime q.list q.dely_task q.near_time q.list_max_size

  held-set_near :
      (p : T → Bool) (r : Queue T × Popped T)
      → held p (set_near r).0 + count p (handed (set_near r).1) ≡ held p r.0 + count p (handed r.1)
  unfolding set_near
  held-set_near p (q, got t) = refl
  held-set_near p (q, not_got t) = refl

  log_popped-held :
      (p : T → Bool) (r : Queue T × Popped T) (l : Log T)
      → held p r.0 + count p (handed r.1) ≡ held p l.queue
      → count p (log_popped r l).delivered + held p (log_popped r l).queue + count p l.accepted
        ≡ count p l.delivered + held p l.queue + count p (log_popped r l).accepted
  unfolding log_popped
  log_popped-held p (q, got t) l h = omega arith
  log_popped-held p (q, not_got t) l h = omega arith

  given : Option T → List T
  given none = []
  given (some t) = t ∷ []

  held-pop :
      (p : T → Bool) (list : List T) (dely : List (Timeval × List T)) (near : Timeval) (n : ℕ)
      → let r = pop (queue_of list dely near n) in
        held p r.0 + count p (given r.1) ≡ count p list + count p (delayed dely)
  unfolding pop given
  held-pop p [] dely near n = omega arith
  held-pop p (t ∷ ts) dely near n = omega arith

  log_pop-held :
      (p : T → Bool) (r : Queue T × Option T) (l : Log T)
      → held p r.0 + count p (given r.1) ≡ held p l.queue
      → count p (log_pop r l).delivered + held p (log_pop r l).queue + count p l.accepted
        ≡ count p l.delivered + held p l.queue + count p (log_pop r l).accepted
  unfolding log_pop given
  log_pop-held p (q, none) l h = omega arith
  log_pop-held p (q, some t) l h = omega arith

  -- A call that returns true stores its task, and one that returns false changes nothing.
  pub held-append_delay :
      (p : T → Bool) (t : T) (ms : ℕ) (now : Timeval) (q : Queue T)
      → let r = append_delay (some t) ms now q in
        held p r.0 ≡ (if r.1 then if p t then 1 else 0 else 0) + held p q
  unfolding append_delay append_round
  held-append_delay p t ms now q =
      ground (
        arith,
        count-append p q.list (t ∷ []),
        delayed-push_delay p (now_dtime now ms) t q.dely_task,
      )

  pub held-pop_delay_begin :
      (p : T → Bool) (now ntime : Timeval) (q : Queue T)
      → held p (pop_delay_begin now ntime q).0 + count p (handed (pop_delay_begin now ntime q).1)
        ≡ held p q
  unfolding pop_delay_begin
  held-pop_delay_begin p now ntime q =
      held-set_near p (pop_section now ntime q) ∙ held-pop_section p now ntime q

  log_each-held :
      (p : T → Bool) (rmall : Bool) (l : Log T)
      → count p (log_each rmall l).delivered + held p (log_each rmall l).queue + count p l.accepted
        ≡ count p l.delivered + held p l.queue + count p (log_each rmall l).accepted
  unfolding log_each each after_each delayed
  log_each-held p false l = refl
  log_each-held p true l = omega (
    arith,
    count-append p (l.queue.list ++ delayed l.queue.dely_task) l.delivered,
    count-append p l.queue.list (delayed l.queue.dely_task),
  )

  do_op-held :
      (p : T → Bool) (op : Op T) (l : Log T)
      → count p (do_op op l).delivered + held p (do_op op l).queue + count p l.accepted
        ≡ count p l.delivered + held p l.queue + count p (do_op op l).accepted
  unfolding do_op log_append append_round append_delay insert set_max_size
  do_op-held p (append_op t) l = ground (arith, count-append p l.queue.list (t ∷ []))
  do_op-held p (append_delay_op none ms now) l = omega arith
  do_op-held p (append_delay_op (some t) ms now) l = ground (
    arith,
    count-append p l.queue.list (t ∷ []),
    delayed-push_delay p (now_dtime now ms) t l.queue.dely_task,
  )
  do_op-held p (pop_begin_op now ntime) l =
      log_popped-held p (pop_delay_begin now ntime l.queue) l
        (held-pop_delay_begin p now ntime l.queue)
  do_op-held p (pop_end_op now ntime) l =
      log_popped-held p (pop_section now ntime l.queue) l (held-pop_section p now ntime l.queue)
  do_op-held p pop_op l =
      let q = l.queue in
      log_pop-held p (pop q) l (held-pop p q.list q.dely_task q.near_time q.list_max_size)
  do_op-held p (insert_op i t) l = omega (
    arith,
    count-append p (take i l.queue.list) (t ∷ drop i l.queue.list),
    count-take-drop p i l.queue.list,
  )
  do_op-held p (set_max_size_op n) l = ground arith
  do_op-held p (each_op rmall) l = log_each-held p rmall l

  run-held :
      (p : T → Bool) (ops : List (Op T)) (l : Log T)
      → count p (run ops l).delivered + held p (run ops l).queue + count p l.accepted
        ≡ count p l.delivered + held p l.queue + count p (run ops l).accepted
  unfolding run
  run-held p [] l = refl
  run-held p (op ∷ ops) l = omega (arith, do_op-held p op l, run-held p ops (do_op op l))

  -- No task is lost or doubled: after any sequence of locked sections of any threads, those of
  -- `each` included, each kind of task was handed out, was removed by an `each` that visited it, or
  -- is visited by the next `each`, as often as it was accepted. The queue is empty at the start.
  pub run-each :
      (p : T → Bool) (ops : List (Op T)) (near : Timeval) (max_size : ℕ)
      → let l = run ops (start_log near max_size) in
        count p l.delivered + count p (each l.queue) ≡ count p l.accepted
  unfolding each delayed
  run-each p ops near max_size =
      let l0 : Log T = start_log near max_size in
      let l = run ops l0 in
      omega (arith, run-held p ops l0, count-append p l.queue.list (delayed l.queue.dely_task))
