-- ===== src/Queue/Tests.antt =====
-- Runs of `Queue` of comm/queue.h, and its theorems at such runs.
use cnode.Prelude.{ℕ, ◌+◌, ◌≡◌, refl, ◌||◌, List, [], ◌∷◌, some, ◌==◌, ltb, length, count}
use cnode.Queue.{
  Timeval, Queue, now_dtime, before, maketime, append_round, append_delay, push_delay, pop_section,
  pop_delay_top, take_due, delay_result, each, delayed, pop_delay_begin, set_near,
}
use cnode.Queue.Items.{
  Op, append_delay_op, pop_begin_op, pop_end_op, run, do_op, log_append, log_popped, start_log,
  run-each,
}
use cnode.Queue.Delay.{Moment}
use cnode.Queue.Due.{due, is_got, run-due}

abbrev at_time : ℕ → ℕ → Timeval
at_time sec usec = record { tv_sec = sec; tv_usec = usec }

-- A carry into the seconds; and none at exactly one second, which `maketime` does not carry at all.
carries :
    (now_dtime (at_time 5 999000) 2 ≡ at_time 6 1000)
    × (now_dtime (at_time 5 999000) 1 ≡ at_time 5 1000000)
    × (maketime (at_time 5 999999) 500000 ≡ (5, 1499999000))
unfolding now_dtime maketime
carries = (refl, refl, refl)

-- Task 7 is delayed by a second, task 8 by half of one, task 9 not at all.
abbrev ops : List (Op ℕ)
ops =
    append_delay_op (some 7) 1000 (at_time 5 0)
    ∷ append_delay_op (some 8) 500 (at_time 5 0)
    ∷ append_delay_op (some 9) 0 (at_time 5 0)
    ∷ pop_begin_op (at_time 5 100) (at_time 0 0)
    ∷ pop_begin_op (at_time 5 200) (at_time 0 0)
    ∷ pop_end_op (at_time 5 500001) (at_time 0 0)
    ∷ []

ops_delivered :
    ((run ops (start_log (at_time 10000 0) 10000)).delivered ≡ 8 ∷ 9 ∷ [])
    × (each (run ops (start_log (at_time 10000 0) 10000)).queue ≡ 7 ∷ [])
unfolding run do_op log_append log_popped append_delay append_round push_delay pop_delay_begin
    set_near pop_section pop_delay_top take_due delay_result now_dtime before each delayed
ops_delivered = (refl, refl)

run-each_example :
    count (λ t. t == 8) (run ops (start_log (at_time 10000 0) 10000)).delivered
      + count (λ t. t == 8) (each (run ops (start_log (at_time 10000 0) 10000)).queue)
    ≡ count (λ t. t == 8) (run ops (start_log (at_time 10000 0) 10000)).accepted
run-each_example = run-each (λ t. t == 8) ops (at_time 10000 0) 10000

run-due_example :
    is_got
      (pop_section
        (at_time 6 1)
        (at_time 0 0)
        (run ops (start_log (at_time 10000 0) 10000)).queue).1
    ≡ (ltb 0 (length (run ops (start_log (at_time 10000 0) 10000)).queue.list)
        || due (at_time 6 1) (run ops (start_log (at_time 10000 0) 10000)).queue.dely_task)
run-due_example = run-due ops (at_time 10000 0) 10000 (at_time 6 1) (at_time 0 0)

abbrev empty : Queue ℕ
empty = record { list = []; dely_task = []; near_time = at_time 10000 0; list_max_size = 10000 }

-- A task that may run from 5.5 seconds on, appended at 5 seconds.
abbrev waiting : Moment ℕ
waiting = record {
  queue = (append_delay (some 5500000) 500 (at_time 5 0) empty).0;
  clock = 5000000;
  delivered = [];
}

abbrev served : Moment ℕ
served = record {
  queue = (pop_section (at_time 5 500001) (at_time 0 0) waiting.queue).0;
  clock = 5500001;
  delivered = (5500000, 5500001) ∷ [];
}
