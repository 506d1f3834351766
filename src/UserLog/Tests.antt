-- ===== src/UserLog/Tests.antt =====
-- Runs of deal_userlog.cpp against small databases, and the theorems at such inputs.
use cnode.Prelude.{
  ℕ, ◌≡◌, ◌≢◌, ◌↔◌, refl, true, false, not, ◌&&◌, [], ◌∷◌, none, some, Mem, map, ◌==◌,
  if◌then◌else◌, arith,
}
use cnode.Prelude.Int.{pos, ltb_ℤ, gives_zero}
use cnode.Prelude.Bytes.{Bytes, codes, eq_bytes, eq_bytes_iff, to_lower}
use cnode.Auth.{Answer, respond}
use cnode.RedisCmd.{print_nat}
use cnode.StrParse.{all_of, pick_one_json, pick_lower, pick_from, find_key, value_after}
use cnode.UserLog.{
  UserData, mongo_inserted, mongo_updated, Services, St, online_text, offline_text, id_text,
  err_mongo_insert, resp_body, judge, err_mongo_nologin,
}
use cnode.UserLog.Tasks.{user_online, user_offline, user_auth, run_user}
use cnode.UserLog.Lent.{redis_lent, mongo_lent, run_user-lent}
use cnode.UserLog.Uses.{in_use, run_user-in_use}
use cnode.UserLog.Session.{IsStore, user_offline-user_online}
use cnode.UserLog.Body.{pick_one_json-online_text}
use cnode.UserLog.Once.{handle, handle-once}
use cnode.UserLog.Request.{
  Fields, parsed, accept, new_userlog, parse_request_body, is_accept, parse_request_body-accepts,
  fill_map, fail_json,
}

-- Databases that can always be reached; the world is the cache. An insertion gives the code `n`.
abbrev services : ℕ → Services (Bytes → Bytes)
services n = record {
  redis_connect = λ w. (w, 0);
  redis_release = λ w. w;
  redis_get = λ k w. (w, 0, w k);
  redis_set = λ k v w. (λ x. if eq_bytes k x then v else w x, 0);
  redis_del = λ k w. (w, 0);
  mongo_connect = λ w. (w, 0);
  mongo_release = λ w. w;
  mongo_insert = λ text w. (w, n);
  mongo_update = λ field set w. (w, 0);
  mongo_find = λ query field w. (w, 0, []);
  get_object_id = λ w. (w, 0, codes "3e901");
  time_and_rand = λ w. (w, 7, 7);
}

cached : (Bytes → Bytes) → Bytes → Bytes
cached w k = w k

services-IsStore : IsStore (services 0) cached
unfolding cached all_of
services-IsStore = record {
  redis_connects = λ w. refl;
  mongo_connects = λ w. refl;
  gets = λ k w h. refl;
  ids = λ w. refl;
  sets = λ k v w h i. rw ((eq_bytes_iff k k).1 refl) refl;
  connect_keeps = λ k w. refl;
  release_keeps = λ k w. refl;
}

abbrev start : St (Bytes → Bytes)
start = record { world = λ k. []; calls = [] }

abbrev user : UserData
user = record {
  time = codes "1476600000";
  mac = codes "aa:bb";
  signal = codes "-60";
  auth = [];
  ip = [];
  req_type = codes "unknow";
  status = pos 0;
}

run_user-lent_example :
    (redis_lent (run_user (services 1) user (codes "m1") 0 start).0.calls ≡ 0)
    × (mongo_lent (run_user (services 1) user (codes "m1") 0 start).0.calls ≡ 0)
unfolding redis_lent mongo_lent
run_user-lent_example = run_user-lent (services 1) user (codes "m1") 0 start

run_user-in_use_example :
    (in_use (user_offline (services 1) user (codes "m1") start).0.calls ≡ true)
    × (in_use (user_auth (services 1) user (codes "m1") start).0.calls ≡ true)
    × (in_use (user_online (services 1) user (codes "m1") 0 start).0.calls
        ≡ not ((user_online (services 1) user (codes "m1") 0 start).1 == err_mongo_insert))
unfolding mongo_lent in_use
run_user-in_use_example = run_user-in_use (services 1) user (codes "m1") 0 start refl refl

insertion_fails : (user_online (services 1) user (codes "m1") 0 start).1 ≡ err_mongo_insert
unfolding user_online
insertion_fails = refl

online_done : (user_online (services 0) user (codes "m1") 0 start).1 ≡ 0
unfolding user_online
online_done = refl

user_offline-user_online_example :
    (devid : Bytes) × (objid : Bytes) × Mem
      (mongo_inserted (online_text user (codes "m1") devid objid))
      (user_online (services 0) user (codes "m1") 0 start).0.calls
    × Mem
        (mongo_updated (id_text objid) (offline_text user))
        (user_offline
          (services 0)
          user
          (codes "m2")
          (user_online (services 0) user (codes "m1") 0 start).0).0.calls
unfolding all_of
user_offline-user_online_example =
    user_offline-user_online (services 0) cached services-IsStore user user (codes "m1")
      (codes "m2") 0 start (user_online (services 0) user (codes "m1") 0 start).0 refl
      (λ e. cc, refl) online_done refl

pick_one_json-online_text_example :
    pick_one_json (online_text user (codes "m1") (codes "d1") (codes "3E901")) (codes "_id")
    ≡ some (map to_lower (codes "3E901"))
pick_one_json-online_text_example =
    pick_one_json-online_text user (codes "m1") (codes "d1") (codes "3E901") (ground arith)

found_open : judge (codes "[ { \"_id\" : \"3e901\" } ]") ≡ (0, codes "3e901")
unfolding judge pick_lower pick_from find_key to_lower value_after
found_open = refl

found_closed :
    judge (codes "[ { \"_id\" : \"3e901\", \"downtime\" : 5 } ]") ≡ (err_mongo_nologin, [])
unfolding judge pick_lower pick_from find_key to_lower value_after
found_closed = refl

abbrev fields : Fields
fields = record { get_str = λ k. some (codes "x"); get_int = λ k. some (pos 77) }

parse_request_body-accepts_example :
    (is_accept (parse_request_body (parsed (some []) (some fields)) new_userlog) ≡ true) ↔ (
      (m : Bytes) × (f : Fields) × (parsed (some []) (some fields) ≡ parsed (some m) (some f))
      × (f.get_str (codes "mac") ≢ none)
      × (f.get_str (codes "time_sec") ≢ none)
      × (f.get_int (codes "status") ≢ none))
parse_request_body-accepts_example =
    parse_request_body-accepts (parsed (some []) (some fields)) new_userlog

handle-once_example :
    (a : Answer) × ((handle (accept new_userlog) (pos 0) 9 false).answers ≡ a ∷ [])
    × ((handle (accept new_userlog) (pos 0) 9 false).deleted ≡ 1)
    × ((a ≡ respond (resp_body 0))
        ↔ ((is_accept (accept new_userlog) ≡ true) × (pos 0 ≡ pos 0) × (◌≡◌ {A = ℕ} 9 0)))
    × ((handle (accept new_userlog) (pos 0) 9 false).tasks
        ≡ (if is_accept (accept new_userlog) && not (ltb_ℤ (pos 0) (pos 0)) then 1 else 0))
    × ((handle (accept new_userlog) (pos 0) 9 false).closed
        ≡ (if not false && is_accept (accept new_userlog) && gives_zero (pos 0) then 1 else 0))
handle-once_example = handle-once (accept new_userlog) (pos 0) 9 false

last_value_wins :
    fill_map ((some (codes "a"), some (codes "1")) ∷ (some (codes "a"), some (codes "2")) ∷ []) []
    ≡ (codes "a", codes "2") ∷ []
unfolding fill_map eq_bytes
last_value_wins = refl

failure_text :
    fail_json (codes "x") (pos 501)
    ≡ codes "{\"status\": \"FAIL\", \"code\": 501, \"reason\": \"x\"}"
unfolding fail_json print_nat
failure_text = refl
