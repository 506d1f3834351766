-- ===== src/Server.antt =====
-- server.h and server.cpp: `Server`, its start, its threads and its end, and main.cpp around it. The
-- codes of the calls, the sizes of the task pool and the arguments of the program are arguments;
-- a random seed is the bits of an `int`.
pub mod Exit
pub mod Port
mod Tests
use cnode.Prelude.{
  ℕ, zero, suc, ◌+◌, ◌*◌, ◌%◌, ◌^◌, ◌-◌, Bool, true, false, not, ◌&&◌, ◌||◌, List, [], ◌∷◌, ◌++◌,
  Option, none, some, ltb, ◌==◌, if◌then◌else◌, map,
}
use cnode.Prelude.Int.{ℤ, pos, negsuc, ltb_ℤ}
use cnode.Prelude.Bytes.{Bytes, codes}
use cnode.StrParse.{atoi}
use cnode.Config.{Config, load, int_conf, str_conf}

-- `ThreadData`, as far as the server sets it; `threadid` is none until the thread runs.
pub record Thread : Type 0 where
  pub thidx : ℕ
  pub processidx : ℕ
  pub randseed : ℕ
  pub threadid : Option ℕ
  pub exitfg : Bool

-- `listenfd` is none for INVALIDFD, `threads` is what `arrThreaData` points to.
pub record Server : Type 0 where
  pub s_exit : Bool
  pub threadcount : ℤ
  pub listenfd : Option ℕ
  pub threads : Option (List Thread)

abbrev pub new_server : Server
new_server = record { s_exit = false; threadcount = pos 0; listenfd = none; threads = none }

abbrev pub err_server_listen : ℕ
err_server_listen = 101

abbrev pub err_server_evnew : ℕ
err_server_evnew = 102

abbrev pub err_server_accept : ℕ
err_server_accept = 103

abbrev pub err_server_pipe : ℕ
err_server_pipe = 104

listened : Option ℕ → Option ℕ → Option ℕ
listened (some fd) made = some fd
listened none made = made

listen_code : Option ℕ → ℕ
listen_code none = err_server_listen
listen_code (some fd) = 0

-- `Init`, with what `create_listen` gives for the port; the threads of the task pool, which it starts
-- too, are in the model of `TaskPool`.
unfoldable pub init : (create_listen : ℤ → Option ℕ) → (nthread port : ℤ) → Server → Server × ℕ
unfolding listened listen_code
init create_listen nthread port s =
    let fd = listened s.listenfd (create_listen port) in
    (record s { listenfd = fd; threadcount = nthread }, listen_code fd)

-- What `Run` of a process does, in order.
pub data Event : Type 0 where
  load_redis : Event
  load_mongo : Event
  get_mongo : Event
  release_mongo : Event
  init_base : Event
  init_userlog : Event
  start : ℕ → Event
  start_failed : ℕ → Event
  wait_exit : Event
  join : ℕ → Event
  destroy_mongo : Event
  destroy_redis : Event
  close_listen : Event

-- The codes of the five calls that come before the threads.
pub record Codes : Type 0 where
  pub redis : ℤ
  pub mongo : ℤ
  pub connect : ℤ
  pub base : ℤ
  pub userlog : ℤ

unfoldable pub succeeded : ℤ → Bool
succeeded (pos zero) = true
succeeded (pos (suc n)) = false
succeeded (negsuc n) = false

unfoldable pub prepare : Codes → List Event × ℤ
unfolding succeeded
prepare c =
    if not (succeeded c.redis)
    then (load_redis ∷ [], c.redis)
    else if not (succeeded c.mongo)
    then (load_redis ∷ load_mongo ∷ [], c.mongo)
    else if not (succeeded c.connect)
    then (load_redis ∷ load_mongo ∷ get_mongo ∷ [], c.connect)
    else if not (succeeded c.base)
    then (load_redis ∷ load_mongo ∷ get_mongo ∷ release_mongo ∷ init_base ∷ [], c.base)
    else (
      load_redis ∷ load_mongo ∷ get_mongo ∷ release_mongo ∷ init_base ∷ init_userlog ∷ [],
      c.userlog,
    )

-- The threads from `i` on.
unfoldable pub make_threads : (count i : ℕ) → (pidx seed : ℕ) → List Thread
make_threads zero i pidx seed = []
make_threads (suc count) i pidx seed =
    record {
      thidx = i;
      processidx = pidx;
      randseed = (seed + i) % 2 ^ 32;
      threadid = none;
      exitfg = false;
    }
    ∷ make_threads count (suc i) pidx seed

-- The number of threads that is asked for, and of those that are made, if an array of them is.
unfoldable pub total_of : ℤ → ℕ
total_of (pos zero) = 1
total_of (pos (suc n)) = suc n
total_of (negsuc n) = 1

unfoldable pub made_of : ℕ → Option ℕ
made_of n = if ltb n 1024 then some n else none

-- The loop that starts the threads from `i` on: `create` tells whether `pthread_create` of a thread
-- succeeds, which is not looked at.
unfoldable pub start_loop : (create : ℕ → Bool) → (count i : ℕ) → List Event
start_loop create zero i = []
start_loop create (suc count) i =
    let rest = start_loop create count (suc i) in
    if create i then start i ∷ rest else start_failed i ∷ rest

-- The loop that joins them, over `arrThreaData`, which is null where none was made.
unfoldable pub join_loop : (count i : ℕ) → List Event
join_loop zero i = []
join_loop (suc count) i = join i ∷ join_loop count (suc i)

unfoldable pub threads_of : (create : ℕ → Bool) → Option ℕ → List Event
unfolding start_loop join_loop
threads_of create none = wait_exit ∷ []
threads_of create (some count) = start_loop create count 0 ++ wait_exit ∷ join_loop count 0

abbrev pub ending : List Event
ending = destroy_mongo ∷ destroy_redis ∷ close_listen ∷ []

-- `Run` of a process: the events, the server and the code; that of `WaitExit` is 0.
unfoldable pub run : Codes → (create : ℕ → Bool) → Server → List Event × Server × ℤ
unfolding prepare total_of made_of threads_of succeeded
run c create s =
    let (events, ret) = prepare c in
    let s1 = record s { listenfd = none; threads = none } in
    if succeeded ret
    then (
      events ++ threads_of create (made_of (total_of s.threadcount)) ++ ending,
      record s1 { threadcount = pos (total_of s.threadcount); s_exit = true },
      pos 0,
    )
    else (events ++ ending, s1, ret)

-- `Run` of a thread: whether `event_base_new` and `evhttp_new` give something, the code of
-- `evhttp_accept_socket`, whether `mkpipe` succeeds, and the code of `event_base_dispatch`.
unfoldable pub run_thread : (base http : Bool) → (accept : ℤ) → (piped : Bool) → (dispatch : ℤ) → ℤ
unfolding succeeded
run_thread base http accept piped dispatch =
    if not base || not http
    then pos err_server_evnew
    else if not (succeeded accept)
    then pos err_server_accept
    else if piped
    then dispatch
    else pos err_server_pipe

abbrev pub wait_sleep_step_ms : ℕ
wait_sleep_step_ms = 300

-- The loop of `WaitExit`: `size i` is the size of the task pool before round `i`, `tms` what is
-- counted. The result is the number of rounds, each of which sleeps for `usleep(300)`, and the last
-- size; `none` where the fuel runs out.
unfoldable pub wait_loop : (fuel : ℕ) → (size : ℕ → ℕ) → (wait_task_ms i tms : ℕ) → Option (ℕ × ℕ)
wait_loop zero size wait i tms = none
wait_loop (suc fuel) size wait i tms =
    let rest = wait_loop fuel size wait (suc i) (tms + wait_sleep_step_ms) in
    if ltb 0 (size i) && ltb tms wait then rest else some (i, size i)

-- `Stop` in the thread `ctid`: which threads were told to leave their loop.
unfoldable pub is_thread : ℕ → Option ℕ → Bool
is_thread ctid none = false
is_thread ctid (some id) = id == ctid

unfoldable pub stop_threads : ℕ → List Thread → List Thread
unfolding is_thread
stop_threads ctid [] = []
stop_threads ctid (t ∷ ts) =
    (if is_thread ctid t.threadid then record t { exitfg = true } else t) ∷ stop_threads ctid ts

unfoldable pub stop : ℕ → Server → Server
unfolding stop_threads
stop ctid s = elim s.threads [
  | none ↦ s
  | some ts ↦ record s { threads = some (stop_threads ctid ts) }
]

-- The options that `getopt` gives, one after the other.
pub data Opt : Type 0 where
  conf_file : Bytes → Opt
  port_arg : Bytes → Opt
  as_daemon : Opt
  version : Opt
  unknown : Opt

pub record Params : Type 0 where
  pub inifile : Bytes
  pub port : ℤ
  pub daemon : Bool

-- The loop of `parse_cmdline`; `none` is the `exit` of `-v`.
unfoldable pub parse_opts : List Opt → Params → ℕ → Option (Params × ℕ)
unfolding atoi
parse_opts [] p ret = some (p, ret)
parse_opts (conf_file f ∷ os) p ret = parse_opts os (record p { inifile = f }) ret
parse_opts (port_arg s ∷ os) p ret = parse_opts os (record p { port = atoi s }) ret
parse_opts (as_daemon ∷ os) p ret = parse_opts os (record p { daemon = true }) ret
parse_opts (version ∷ os) p ret = none
parse_opts (unknown ∷ os) p ret = parse_opts os p 4

-- `ListenPort` where the configuration has no number that `sscanf` reads: what `outi` held.
unfoldable pub port_of : (unset : ℤ) → Option ℤ → ℤ
port_of unset none = unset
port_of unset (some n) = n

abbrev pub listen_port : Config → Option ℤ
listen_port conf = int_conf conf (codes "common") (codes "port") (pos 6001)

unfoldable pub parse_cmdline : Config → (unset : ℤ) → List Opt → Option (Params × ℕ)
unfolding int_conf port_of parse_opts
parse_cmdline conf unset opts =
    parse_opts opts
      (record {
        inifile = codes "connect.conf";
        port = port_of unset (listen_port conf);
        daemon = false;
      })
      0

-- `BmshConf::Init` of a name that is not null.
unfoldable pub conf_init : (file : Bytes → Option Bytes) → Bytes → Config → Config × Option ℤ
unfolding load
conf_init file [] conf = load (some (codes "connect.conf")) (file (codes "connect.conf")) conf
conf_init file (c ∷ name) conf = load (some (c ∷ name)) (file (c ∷ name)) conf

-- `main` up to the port that it hands to `Server::Init`: none where it ends before. Logging and
-- signals are set up.
unfoldable pub main_port :
    (file : Bytes → Option Bytes) → (unset : ℤ) → List Opt → Config → Option ℤ
unfolding parse_cmdline conf_init succeeded
main_port file unset opts conf = elim (parse_cmdline conf unset opts) [
  | none ↦ none
  | some (p, ret) ↦ elim ret [
    | suc n ↦ none
    | zero ↦ elim (conf_init file p.inifile conf).1 [
      | none ↦ none
      | some code ↦ if succeeded code then some p.port else none
    ]
  ]
]
