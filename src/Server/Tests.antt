-- ===== src/Server/Tests.antt =====
-- Runs of server.cpp and main.cpp, and the theorems at such inputs.
use cnode.Prelude.{
  ℕ, ◌*◌, ◌<◌, ◌≤◌, ◌≡◌, ◌⊎◌, refl, true, false, not, ◌==◌, [], ◌∷◌, Option, none, some,
}
use cnode.Prelude.Int.{pos}
use cnode.Prelude.Bytes.{Bytes, codes, eq_bytes}
use cnode.Config.{Config, load, find_entry, int_conf, scan_digits}
use cnode.Server.{
  Server, new_server, Codes, run, load_redis, load_mongo, get_mongo, release_mongo, init_base,
  init_userlog, start, start_failed, wait_exit, join, destroy_mongo, destroy_redis, close_listen,
  wait_loop, main_port, as_daemon, run_thread, err_server_pipe, init, err_server_listen,
}
use cnode.Server.Exit.{wait_loop_ends}
use cnode.Server.Port.{main_port-default}

abbrev fine : Codes
fine = record { redis = pos 0; mongo = pos 0; connect = pos 0; base = pos 0; userlog = pos 0 }

abbrev three : Server
three = record new_server { threadcount = pos 3; listenfd = some 5 }

-- The creation of thread 1 fails, and it is joined like the others.
joins_all :
    (run fine (λ i. not (i == 1)) three).0
    ≡ load_redis
      ∷ load_mongo
      ∷ get_mongo
      ∷ release_mongo
      ∷ init_base
      ∷ init_userlog
      ∷ start 0
      ∷ start_failed 1
      ∷ start 2
      ∷ wait_exit
      ∷ join 0
      ∷ join 1
      ∷ join 2
      ∷ destroy_mongo
      ∷ destroy_redis
      ∷ close_listen
      ∷ []
unfolding run
joins_all = refl

wait_loop_ends_example :
    (rounds : ℕ) × (last : ℕ) × (wait_loop 8 (λ i. 3) 2000 0 0 ≡ some (rounds, last))
    × (last ≡ 3)
    × ((last ≡ 0) ⊎ (2000 ≤ rounds * 300))
    × ((j : ℕ) → j < rounds → (0 < 3) × (j * 300 < 2000))
wait_loop_ends_example = wait_loop_ends (λ i. 3) 2000

seven_rounds : wait_loop 8 (λ i. 3) 2000 0 0 ≡ some (7, 3)
unfolding wait_loop
seven_rounds = refl

-- A file that names the port 7000.
abbrev port_file : Bytes → Option Bytes
port_file name = some (codes "[common]\nport=7000\n")

abbrev unloaded : Config
unloaded = record { path = none; lst_config = [] }

named_7000 :
    int_conf
      (load (some (codes "a")) (port_file (codes "a")) unloaded).0
      (codes "common")
      (codes "port")
      (pos 1)
    ≡ some (pos 7000)
unfolding load int_conf find_entry eq_bytes scan_digits
named_7000 = refl

listens_6001 : main_port port_file (pos 9) (as_daemon ∷ []) unloaded ≡ some (pos 6001)
unfolding main_port load int_conf find_entry
listens_6001 = refl

main_port-default_example : pos 6001 ≡ pos 6001
main_port-default_example =
    main_port-default port_file (pos 9) (as_daemon ∷ []) unloaded (pos 6001) refl refl listens_6001

no_pipe : run_thread true true (pos 0) false (pos 0) ≡ pos err_server_pipe
unfolding run_thread
no_pipe = refl

no_socket : (init (λ port. none) (pos 2) (pos 6001) new_server).1 ≡ err_server_listen
unfolding init
no_socket = refl
