-- ===== src/Queue/Due.antt =====
-- comm/queue.h: the order of the delayed tasks of a `Queue`, and that those due are handed out.
use cnode.Prelude.{
  ℕ, ◌≡◌, ◌≢◌, refl, Bool, true, false, List, [], ◌∷◌, ◌++◌, Option, none, some, inl, inr,
  Bool-cases, ◌||◌, ◌==◌, ltb, arith, length, Every, subst, sym,
}
use cnode.Queue.{
  Timeval, Queue, Popped, got, not_got, before, append_round, append_delay, push_delay, pop_section,
  pop_delay_top, delay_result, take_due, now_dtime, pop, insert, set_max_size, pop_delay_begin,
  set_near,
}
use cnode.Queue.Items.{
  Op, append_op, append_delay_op, pop_begin_op, pop_end_op, pop_op, insert_op, set_max_size_op,
  each_op, Log, do_op, run, start_log, log_append, log_popped, log_pop,
}

before_trans : (a b c : Timeval) → before a b ≡ true → before b c ≡ true → before a c ≡ true
unfolding before
before_trans a b c h g = ground arith

module _ {ℓ} {T : Type ℓ} where
  -- Strictly by time, and no list of tasks is empty.
  abbrev pub Sorted : List (Timeval × List T) → Type ℓ
  Sorted [] = Unit {ℓ}
  Sorted ((key, nodes) ∷ rest) =
      (nodes ≢ []) × Every (λ e. before key e.0 ≡ true) rest × Sorted rest

  before_all :
      (a b : Timeval) (d : List (Timeval × List T))
      → before a b ≡ true
      → Every (λ e. before b e.0 ≡ true) d
      → Every (λ e. before a e.0 ≡ true) d
  before_all a b [] h e = tt
  before_all a b ((key, nodes) ∷ rest) h e = (before_trans a b key h e.0, before_all a b rest h e.1)

  push_delay_after :
      (a k : Timeval) (t : T) (d : List (Timeval × List T))
      → before a k ≡ true
      → Every (λ e. before a e.0 ≡ true) d
      → Every (λ e. before a e.0 ≡ true) (push_delay k t d)
  unfolding push_delay
  push_delay_after a k t [] h e = (h, tt)
  push_delay_after a k t ((key, nodes) ∷ rest) h e = elim (Bool-cases (before k key)) [
    | inl f ↦ rw (f, push_delay) (h, e)
    | inr f ↦ elim (Bool-cases (before key k)) [
      | inl g ↦ rw (f, g, push_delay) (e.0, push_delay_after a k t rest h e.1)
      | inr g ↦ rw (f, g, push_delay) e
    ]
  ]

  snoc-ne-nil : (ts : List T) (t : T) → ts ++ t ∷ [] ≢ []
  snoc-ne-nil [] t = λ e. cc
  snoc-ne-nil (u ∷ ts) t = λ e. cc

  push_delay-Sorted :
      (k : Timeval) (t : T) (d : List (Timeval × List T)) → Sorted d → Sorted (push_delay k t d)
  unfolding push_delay
  push_delay-Sorted k t [] s = (λ e. cc, tt, tt)
  push_delay-Sorted k t ((key, nodes) ∷ rest) s = elim (Bool-cases (before k key)) [
    | inl f ↦ rw (f, push_delay) ((λ e. cc), (f, before_all k key rest f s.1), s)
    | inr f ↦ elim (Bool-cases (before key k)) [
      | inl g ↦
          rw (f, g, push_delay)
            (s.0, push_delay_after key k t rest g s.1, push_delay-Sorted k t rest s.2)
      | inr g ↦ rw (f, g, push_delay) (snoc-ne-nil nodes t, s.1, s.2)
    ]
  ]

  section-Sorted :
      (now ntime : Timeval) (list : List T) (dely : List (Timeval × List T)) (near : Timeval)
      (n : ℕ)
      → Sorted dely
      → Sorted
          (pop_section now ntime (record {
            list = list;
            dely_task = dely;
            near_time = near;
            list_max_size = n;
          })).0.dely_task
  unfolding pop_section pop_delay_top
  section-Sorted now ntime (t ∷ ts) dely near n s = s
  section-Sorted now ntime [] [] near n s = tt
  section-Sorted now ntime [] ((key, nodes) ∷ rest) near n s = elim (Bool-cases (before key now)) [
    | inl b ↦ rw (b, pop_section, pop_delay_top) s.2
    | inr b ↦ rw (b, pop_section, pop_delay_top) s
  ]

  log_popped-queue : (r : Queue T × Popped T) (l : Log T) → (log_popped r l).queue ≡ r.0
  unfolding log_popped
  log_popped-queue (q, got t) l = refl
  log_popped-queue (q, not_got t) l = refl

  log_pop-queue : (r : Queue T × Option T) (l : Log T) → (log_pop r l).queue ≡ r.0
  unfolding log_pop
  log_pop-queue (q, some t) l = refl
  log_pop-queue (q, none) l = refl

  log_append-queue :
      (t : Option T) (r : Queue T × Bool) (l : Log T) → (log_append t r l).queue ≡ r.0
  unfolding log_append
  log_append-queue (some t) (q, true) l = refl
  log_append-queue (some t) (q, false) l = refl
  log_append-queue none (q, b) l = refl

  set_near-dely : (r : Queue T × Popped T) → (set_near r).0.dely_task ≡ r.0.dely_task
  unfolding set_near
  set_near-dely (q, got t) = refl
  set_near-dely (q, not_got t) = refl

  append_round-dely : (t : T) (q : Queue T) → (append_round t q).0.dely_task ≡ q.dely_task
  unfolding append_round
  append_round-dely t q = ground arith

  pop-dely : (q : Queue T) → (pop q).0.dely_task ≡ q.dely_task
  unfolding pop
  pop-dely q = go q.list
    where
      go : (list : List T) → (pop (record q { list = list })).0.dely_task ≡ q.dely_task
      go [] = refl
      go (t ∷ ts) = refl

  set_max_size-dely : (n : ℕ) (q : Queue T) → (set_max_size n q).dely_task ≡ q.dely_task
  unfolding set_max_size
  set_max_size-dely n q = ground arith

  append_delay-Sorted :
      (t : Option T) (ms : ℕ) (now : Timeval) (q : Queue T)
      → Sorted q.dely_task
      → Sorted (append_delay t ms now q).0.dely_task
  unfolding append_delay
  append_delay-Sorted none ms now q s = s
  append_delay-Sorted (some t) ms now q s = elim (Bool-cases (ms == 0)) [
    | inl b ↦ rw (b, append_delay) (subst Sorted (sym (append_round-dely t q)) s)
    | inr b ↦ rw (b, append_delay) (push_delay-Sorted (now_dtime now ms) t q.dely_task s)
  ]

  do_op-Sorted :
      (op : Op T) (l : Log T) → Sorted l.queue.dely_task → Sorted (do_op op l).queue.dely_task
  unfolding do_op insert pop_delay_begin
  do_op-Sorted (append_op t) l s =
      rw (log_append-queue (some t) (append_round t l.queue) l, append_round-dely t l.queue) s
  do_op-Sorted (append_delay_op t ms now) l s =
      rw (log_append-queue t (append_delay t ms now l.queue) l)
        (append_delay-Sorted t ms now l.queue s)
  do_op-Sorted (pop_begin_op now ntime) l s =
      let q = l.queue in
      rw
        (
          log_popped-queue (set_near (pop_section now ntime q)) l,
          set_near-dely (pop_section now ntime q),
        )
        (section-Sorted now ntime q.list q.dely_task q.near_time q.list_max_size s)
  do_op-Sorted (pop_end_op now ntime) l s =
      let q = l.queue in
      rw (log_popped-queue (pop_section now ntime q) l)
        (section-Sorted now ntime q.list q.dely_task q.near_time q.list_max_size s)
  do_op-Sorted pop_op l s = rw (log_pop-queue (pop l.queue) l, pop-dely l.queue) s
  do_op-Sorted (insert_op i t) l s = s
  do_op-Sorted (set_max_size_op n) l s = rw (set_max_size-dely n l.queue) s
  do_op-Sorted (each_op false) l s = s
  do_op-Sorted (each_op true) l s = tt

  run-Sorted :
      (ops : List (Op T)) (l : Log T)
      → Sorted l.queue.dely_task
      → Sorted (run ops l).queue.dely_task
  unfolding run
  run-Sorted [] l s = s
  run-Sorted (op ∷ ops) l s = run-Sorted ops (do_op op l) (do_op-Sorted op l s)

  -- Some task is due.
  abbrev pub due : Timeval → List (Timeval × List T) → Bool
  due now [] = false
  due now ((key, nodes) ∷ rest) = before key now || due now rest

  abbrev pub is_got : Popped T → Bool
  is_got (got t) = true
  is_got (not_got next) = false

  due_head :
      (now key : Timeval) (d : List (Timeval × List T))
      → Every (λ e. before key e.0 ≡ true) d
      → before key now ≡ false
      → due now d ≡ false
  due_head now key [] e h = refl
  due_head now key ((k, ns) ∷ rest) e h =
      ground (arith, before_trans key k now, due_head now key rest e.1 h, e.0)

  due-first :
      (now key : Timeval) (nodes : List T) (rest : List (Timeval × List T))
      → Sorted ((key, nodes) ∷ rest)
      → due now ((key, nodes) ∷ rest) ≡ before key now
  due-first now key nodes rest s = ground (arith, due_head now key rest s.1)

  section-due :
      (now ntime : Timeval) (list : List T) (dely : List (Timeval × List T)) (near : Timeval)
      (n : ℕ)
      → Sorted dely
      → is_got
          (pop_section now ntime
            (record { list = list; dely_task = dely; near_time = near; list_max_size = n })).1
        ≡ (ltb 0 (length list) || due now dely)
  unfolding pop_section pop_delay_top take_due delay_result
  section-due now ntime (t ∷ ts) dely near n s = ground arith
  section-due now ntime [] [] near n s = refl
  section-due now ntime [] ((key, []) ∷ rest) near n s = absurd (s.0 refl)
  section-due now ntime [] ((key, t ∷ ts) ∷ rest) near n s =
      ground (arith, due-first now key (t ∷ ts) rest s)

  -- On a queue that any sequence of locked sections left, which was empty at the start, a reader
  -- gets a task exactly if the list holds one or some delayed task is due, wherever it stands
  -- among the delayed ones.
  pub run-due :
      (ops : List (Op T)) (near : Timeval) (max_size : ℕ) (now ntime : Timeval)
      → let q = (run ops (start_log near max_size)).queue in
        is_got (pop_section now ntime q).1 ≡ (ltb 0 (length q.list) || due now q.dely_task)
  run-due ops near max_size now ntime =
      let q : Queue T = (run ops (start_log near max_size)).queue in
      section-due now ntime q.list q.dely_task q.near_time q.list_max_size
        (run-Sorted ops (start_log near max_size) tt)
