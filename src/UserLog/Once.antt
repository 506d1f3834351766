-- ===== src/UserLog/Once.antt =====
-- deal_userlog.cpp: `Run`, the end of `run_task`, and `respAndExit`: what becomes of a request.
use cnode.Prelude.{
  ℕ, zero, suc, ◌≡◌, ◌≢◌, ◌↔◌, refl, ap, Bool, true, not, ◌&&◌, List, [], ◌∷◌, Option, none, some,
  if◌then◌else◌, arith,
}
use cnode.Prelude.Bytes.{Bytes, char_at}
use cnode.Auth.{Answer, respond, respond_fail}
use cnode.Prelude.Int.{ℤ, pos, negsuc, ltb_ℤ, gives_zero}
use cnode.UserLog.{is_empty, append_json_object, resp_body, type_text}
use cnode.UserLog.Request.{Userlog, Parsed, refuse, accept, is_accept}

-- `Init`, with the configured host id and name of the pool of MongoDB, and the code of the `init`
-- of `IdMgr`.
unfoldable pub init : (hostid : ℤ) → (mongopool : Bytes) → (code : ℤ) → ℤ
init hostid mongopool code =
    if ltb_ℤ (pos 0) hostid then if is_empty mongopool then negsuc 0 else code else negsuc 0

-- What a request has led to: the answers, the objects deleted by `ForceDelete` or given to
-- `postDeleteMe`, the tasks, and the connections closed for want of an answer.
pub record Trace : Type 0 where
  pub answers : List Answer
  pub deleted : ℕ
  pub tasks : ℕ
  pub closed : ℕ

abbrev pub no_trace : Trace
no_trace = record { answers = []; deleted = 0; tasks = 0; closed = 0 }

-- `Run` of what `parseRequest` made of the request, with the code of `addTask`. A negative code is a
-- task that was refused; a positive one is that of `pthread_create`, with the task in the queue.
unfoldable pub run : Parsed → (added : ℤ) → Trace → Trace × Option Userlog
run (refuse code reason) added t = (
  record t { answers = respond_fail reason (pos code) ∷ t.answers; deleted = suc t.deleted },
  none,
)
run (accept d) (pos zero) t = (record t { tasks = suc t.tasks }, some d)
run (accept d) (pos (suc code)) t = (
  record t {
    answers = respond_fail [] (pos (suc code)) ∷ t.answers;
    deleted = suc t.deleted;
    tasks = suc t.tasks;
  },
  none,
)
run (accept d) (negsuc code) t = (
  record t { answers = respond_fail [] (negsuc code) ∷ t.answers; deleted = suc t.deleted },
  none,
)

-- The end of `run_task`, for the code that the databases gave.
unfoldable pub answered : ℕ → Userlog → Userlog
unfolding resp_body type_text
answered code d = record d {
  respbody = resp_body code;
  udata = record d.udata { req_type = type_text d.udata };
}

-- `resume`, which calls `respAndExit`: `sent` tells whether `SendRespond` gives more than 0.
unfoldable pub resume : (sent : Bool) → Userlog → Trace → Trace × Userlog
resume sent d t = (
  record t {
    answers = respond d.respbody ∷ t.answers;
    deleted = suc t.deleted;
    closed = if sent then t.closed else suc t.closed;
  },
  record d { step = 10; finish = true },
)

unfoldable pub finish : (code : ℕ) → (sent : Bool) → Trace × Option Userlog → Trace
unfolding answered resume
finish code sent (t, none) = t
finish code sent (t, some d) = (resume sent (answered code d) t).0

-- A request from `Run` to `respAndExit`, `code` being what `run_task` got of the databases: a task
-- that `addTask` gave 0 for is run. What a task does whose object was deleted is left out.
unfoldable pub handle : Parsed → (added : ℤ) → (code : ℕ) → (sent : Bool) → Trace
unfolding run finish
handle p added code sent = finish code sent (run p added no_trace)

resp_body-ne : (n : ℕ) → resp_body (suc n) ≢ resp_body 0
unfolding resp_body append_json_object
resp_body-ne n e = absurd (omega (arith, ap (λ t. char_at t 11) e))

-- A request has one answer from `Run` and `resume` together and its object is given up once,
-- whatever is asked, the pools answer and libevent sends, if a task that `addTask` gave 0 for is
-- run. The answer is SUCCESS exactly if the request was accepted, `addTask` gave 0 and the databases
-- gave 0. A task is queued for an accepted request unless `addTask` gave a negative code: for a
-- positive one it stays in the queue with its object deleted. A connection is closed for a task that
-- was run and could not send, and for nothing else.
pub handle-once :
    (p : Parsed) (added : ℤ) (code : ℕ) (sent : Bool)
    → (a : Answer) × ((handle p added code sent).answers ≡ a ∷ [])
      × ((handle p added code sent).deleted ≡ 1)
      × ((a ≡ respond (resp_body 0)) ↔ ((is_accept p ≡ true) × (added ≡ pos 0) × (code ≡ 0)))
      × ((handle p added code sent).tasks
          ≡ (if is_accept p && not (ltb_ℤ added (pos 0)) then 1 else 0))
      × ((handle p added code sent).closed
          ≡ (if not sent && is_accept p && gives_zero added then 1 else 0))
unfolding handle run finish resume answered is_accept
handle-once (refuse n reason) added code sent =
    (respond_fail reason (pos n), refl, refl, ground arith, ground arith, ground arith)
handle-once (accept d) (pos (suc added)) code sent =
    (respond_fail [] (pos (suc added)), refl, refl, ground arith, ground arith, ground arith)
handle-once (accept d) (negsuc added) code sent =
    (respond_fail [] (negsuc added), refl, refl, ground arith, ground arith, ground arith)
handle-once (accept d) (pos zero) zero sent =
    (respond (resp_body 0), refl, refl, ground arith, ground arith, ground arith)
handle-once (accept d) (pos zero) (suc code) sent = (
  respond (resp_body (suc code)),
  refl,
  refl,
  ground (arith, resp_body-ne code),
  ground arith,
  ground arith,
)
