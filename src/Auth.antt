-- ===== src/Auth.antt =====
-- deal_auth.cpp: `DealAuth`, a device's login from its request to its answer. The parameters of the
-- request, the task pool, the clock, `rand_r`, the Redis pool and the command `hmset` answer through
-- arguments.
pub mod Session
pub mod Once
mod Tests
use cnode.Prelude.{
  ℕ, zero, suc, ◌+◌, ◌/◌, ◌%◌, Bool, true, false, List, [], ◌∷◌, ◌++◌, Option, none, some, ◌==◌,
  if◌then◌else◌,
}
use cnode.Prelude.Int.{ℤ, pos, negsuc}
use cnode.Prelude.Bytes.{Bytes, codes, lookup, assign}
use cnode.RedisCmd.{print_nat}
use cnode.StrParse.{append_format}

abbrev pub err_parameter : ℕ
err_parameter = 501

-- `SendRespond` of a body, or `SendRespondFail` with its reason and code.
pub data Answer : Type 0 where
  respond : Bytes → Answer
  respond_fail : Bytes → ℤ → Answer

-- The fields of a `DealAuth`.
pub record Device : Type 0 where
  pub device_id : Bytes
  pub device_mac : Bytes
  pub device_model : Bytes
  pub firmware_version : Bytes
  pub begtime : ℕ
  pub respbody : Bytes

-- What a request has asked for: the answers that were sent, the objects made and deleted or given
-- to `postDeleteMe`, the tasks, the calls of `postResume`, the connections taken and given back,
-- and the hashes that were written, each with its key.
pub record Trace : Type 0 where
  pub answers : List Answer
  pub made : ℕ
  pub deleted : ℕ
  pub tasks : ℕ
  pub resumes : ℕ
  pub taken : ℕ
  pub released : ℕ
  pub hashes : List (Bytes × List (Bytes × Bytes))

-- `PickStrFromMap` of a parameter that may be missing.
unfoldable pub pick_or : Bytes → Bytes → List (Bytes × Bytes) → Bytes
unfolding lookup
pick_or name old querykv = elim (lookup name querykv) [ none ↦ old | some v ↦ v ]

-- The parameters: what they make of an object, or the reason for which one is missing.
pub data Picked : Type 0 where
  leak : Bytes → Picked
  picked : Device → Picked

unfoldable pub pick : ℕ → List (Bytes × Bytes) → Picked
unfolding lookup pick_or
pick now querykv = elim (lookup (codes "device_id") querykv) [
  | none ↦ leak (codes "leak of device_id")
  | some id ↦ elim (lookup (codes "device_mac") querykv) [
    | none ↦ leak (codes "leak of device_mac")
    | some mac ↦ elim (lookup (codes "md5") querykv) [
      | none ↦ leak (codes "leak of md5")
      | some md5 ↦ picked (record {
        device_id = id;
        device_mac = mac;
        device_model = pick_or (codes "device_model") (codes "H351") querykv;
        firmware_version = pick_or (codes "firmware_version") (codes "Unknown") querykv;
        begtime = now;
        respbody = [];
      })
    ]
  ]
]

abbrev pub answer : Answer → Trace → Trace
answer a t = record t { answers = t.answers ++ a ∷ [] }

-- The call of `addTask` with its code. A negative code is a task that was refused; a positive one is
-- that of `pthread_create`, with the task in the queue, whose object is deleted all the same.
unfoldable pub add : ℤ → Device → Trace → Trace × Option Device
add (pos zero) d t = (record t { made = t.made + 1; tasks = t.tasks + 1 }, some d)
add (pos (suc code)) d t = (
  answer (respond_fail (codes "system error") (pos (suc code)))
      (record t { made = t.made + 1; deleted = t.deleted + 1; tasks = t.tasks + 1 }),
  none,
)
add (negsuc code) d t = (
  answer (respond_fail (codes "system error") (negsuc code))
      (record t { made = t.made + 1; deleted = t.deleted + 1 }),
  none,
)

-- `Run`, with the parsed query, the time and the code of `addTask`.
unfoldable pub run : List (Bytes × Bytes) → (now : ℕ) → (code : ℤ) → Trace → Trace × Option Device
unfolding pick add
run querykv now code t = elim (pick now querykv) [
  | leak reason ↦ (answer (respond_fail reason (pos err_parameter)) t, none)
  | picked d ↦ add code d t
]

-- `%0<width>d` of a number of so many digits at most.
unfoldable pub pad : ℕ → ℕ → Bytes
pad zero n = []
pad (suc width) n = pad width (n / 10) ++ (b'0' + n % 10) ∷ []

-- `MakeSession`: what `rand_r` gave, the number of the thread, and the count of sessions.
unfoldable pub make_session : ℕ → ℕ → ℕ → Bytes
unfolding pad print_nat
make_session rand idx count = pad 5 (rand % 100000) ++ print_nat 10 idx ++ pad 3 (count % 1000)

abbrev pub token : Bytes
token = codes "3103353c70da0ca679704eaa5633b346"

unfoldable pub fields_of : Device → Bytes → List (Bytes × Bytes)
unfolding assign print_nat
fields_of d session = assign (codes "session") session (
    assign (codes "model") d.device_model (
      assign (codes "version") d.firmware_version
        (assign (codes "keepalive") (print_nat 10 d.begtime) (assign (codes "id") d.device_id []))))

-- The text of the answer when all went well; `json` is `s_icomet_jsonstr`.
unfoldable pub success_text : Bytes → Bytes → Bytes
success_text session json =
    codes "{\"status\": \"SUCCESS\", \"token\": \""
    ++ token
    ++ codes "\", \"session\": \""
    ++ session
    ++ codes "\", "
    ++ json
    ++ codes " }"

unfoldable pub fail_text : Bytes → Bytes
fail_text reason = codes "{\"status\": \"FAIL\", \"reason\": \"" ++ reason ++ codes "\" }"

-- `postResume` behind an answer's text.
unfoldable pub resumed : Bytes → Device → Trace → Trace × Device
unfolding append_format
resumed text d t = (
  record t { resumes = t.resumes + 1 },
  record d { respbody = (append_format d.respbody text).0 },
)

-- `run_task`, with the codes of `GetConnect`, which stores a connection exactly if it gives 0, and
-- of `hmset`.
unfoldable pub run_task : Bytes → Bytes → ℕ → ℕ → Device → Trace → Trace × Device
unfolding fields_of success_text fail_text resumed
run_task session json (suc code) hmset d t = resumed (fail_text (codes "redis connect fail")) d t
run_task session json zero (suc code) d t =
    resumed (fail_text (codes "hmset fail")) d
      (record t { taken = t.taken + 1; released = t.released + 1 })
run_task session json zero zero d t = resumed (success_text session json) d (record t {
  taken = t.taken + 1;
  released = t.released + 1;
  hashes = t.hashes ++ (codes "device:" ++ d.device_mac, fields_of d session) ∷ [];
})

-- `resume`, in the event thread.
unfoldable pub resume : Device → Trace → Trace
resume d t = record (answer (respond d.respbody) t) { deleted = t.deleted + 1 }

-- What follows `Run`: nothing, or the task and `resume` of the object. What a task does whose object
-- was deleted is left out.
unfoldable pub finish : (session json : Bytes) → (connect hmset : ℕ) → Trace × Option Device → Trace
unfolding run_task resume
finish session json connect hmset (t, none) = t
finish session json connect hmset (t, some d) =
    let (v, e) = run_task session json connect hmset d t in resume e v

-- A request from `Run` to `resume`.
unfoldable pub login :
    List (Bytes × Bytes)
    → (now : ℕ) → (code : ℤ) → (session json : Bytes) → (connect hmset : ℕ) → Trace
    → Trace
unfolding run finish
login querykv now code session json connect hmset t =
    finish session json connect hmset (run querykv now code t)
