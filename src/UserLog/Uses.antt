-- ===== src/UserLog/Uses.antt =====
-- When `DealUserlog` uses a connection to MongoDB, and whether it has one then.
use cnode.Prelude.{ℕ, ◌≡◌, Bool, true, ◌&&◌, ltb, not, ◌==◌, ◌++◌, [], ◌∷◌, List, arith}
use cnode.Prelude.Bytes.{Bytes, codes}
use cnode.UserLog.{
  redis_got, UserData, Call, mongo_inserted, mongo_updated, mongo_found, mongo_geterr, Services, St,
  offline_text, auth_text, err_mongo_insert,
}
use cnode.UserLog.Tasks.{
  ask, ask_text, take_redis, take_mongo, release_redis, release_mongo, cached_id, search_id,
  find_object_id, new_object_id, insert_log, log_online, user_online, update_log, drop_key,
  user_offline, user_auth,
}
use cnode.UserLog.Lent.{mongo_lent}

-- Every command to MongoDB, and every `geterr`, has a connection that is lent.
unfoldable pub in_use : List Call → Bool
unfolding mongo_lent
in_use [] = true
in_use (mongo_inserted text ∷ cs) = ltb 0 (mongo_lent cs) && in_use cs
in_use (mongo_updated a b ∷ cs) = ltb 0 (mongo_lent cs) && in_use cs
in_use (mongo_found a b ∷ cs) = ltb 0 (mongo_lent cs) && in_use cs
in_use (mongo_geterr ∷ cs) = ltb 0 (mongo_lent cs) && in_use cs
in_use (_ ∷ cs) = in_use cs

-- Nothing is lent, and nothing was used that was not.
Clean : {W : Type 0} → St W → Type 0
Clean st = (mongo_lent st.calls ≡ 0) × (in_use st.calls ≡ true)

module _ {W : Type 0} (s : Services W) where
  cached_id-Clean : (mac : Bytes) (st : St W) → Clean st → Clean (cached_id s mac st).0
  unfolding cached_id take_redis ask_text release_redis Clean mongo_lent in_use
  cached_id-Clean mac st h = ground arith

  search_id-Clean :
      (mac devmac : Bytes) (st : St W) → Clean st → Clean (search_id s mac devmac st).0
  unfolding search_id take_mongo ask_text release_mongo Clean mongo_lent in_use
  search_id-Clean mac devmac st h = ground arith

  find_object_id-Clean :
      (mac devmac : Bytes) (st : St W) → Clean st → Clean (find_object_id s mac devmac st).0
  unfolding find_object_id Clean
  find_object_id-Clean [] devmac st h = h
  find_object_id-Clean (m ∷ mac) devmac st h =
      let a = cached_id-Clean (m ∷ mac) st h in
      let b = search_id-Clean (m ∷ mac) devmac (cached_id s (m ∷ mac) st).0 a in ground arith

  update_log-Clean :
      (objid set : Bytes) (st : St W) → Clean st → Clean (update_log s objid set st).0
  unfolding update_log take_mongo ask release_mongo Clean mongo_lent in_use
  update_log-Clean objid set st h = ground arith

  drop_key-Clean : (mac : Bytes) (st : St W) → Clean st → Clean (drop_key s mac st).0
  unfolding drop_key take_redis ask release_redis Clean mongo_lent in_use
  drop_key-Clean mac st h = ground arith

  user_offline-Clean :
      (u : UserData) (devmac : Bytes) (st : St W) → Clean st → Clean (user_offline s u devmac st).0
  unfolding user_offline Clean
  user_offline-Clean u devmac st h =
      let f = find_object_id s u.mac devmac st in
      let a = find_object_id-Clean u.mac devmac st h in
      let b = update_log-Clean f.2 (offline_text u) f.0 a in
      let c = drop_key-Clean u.mac (update_log s f.2 (offline_text u) f.0).0 b in ground arith

  user_auth-Clean :
      (u : UserData) (devmac : Bytes) (st : St W) → Clean st → Clean (user_auth s u devmac st).0
  unfolding user_auth Clean
  user_auth-Clean u devmac st h =
      let f = find_object_id s u.mac devmac st in
      let a = find_object_id-Clean u.mac devmac st h in
      let b = update_log-Clean f.2 (auth_text u) f.0 a in ground arith

  insert_log-in_use :
      (u : UserData) (devmac devid objid : Bytes) (st : St W)
      → Clean st
      → in_use (insert_log s u devmac devid objid st).0.calls
        ≡ not ((insert_log s u devmac devid objid st).1 == err_mongo_insert)
  unfolding insert_log take_mongo ask release_mongo Clean mongo_lent in_use
  insert_log-in_use u devmac devid objid st h = ground arith

  new_object_id-Clean : (thidx : ℕ) (st : St W) → Clean st → Clean (new_object_id s thidx st).0
  unfolding new_object_id Clean
  new_object_id-Clean thidx st h = ground arith

  log_online-in_use :
      (u : UserData) (devmac : Bytes) (thidx : ℕ) (st : St W)
      → Clean st
      → in_use (log_online s u devmac thidx st).0.calls
        ≡ not ((log_online s u devmac thidx st).1 == err_mongo_insert)
  unfolding log_online ask_text Clean mongo_lent in_use
  log_online-in_use u devmac thidx st h =
      let key = codes "device_id_mac:" ++ devmac in
      let a = ask_text (redis_got key) (s.redis_get key) st in
      let b = new_object_id s thidx a.0 in
      let c = new_object_id-Clean thidx a.0 h in
      let d = insert_log-in_use u devmac a.2 b.1 b.0 c in ground arith

  user_online-in_use :
      (u : UserData) (devmac : Bytes) (thidx : ℕ) (st : St W)
      → Clean st
      → in_use (user_online s u devmac thidx st).0.calls
        ≡ not ((user_online s u devmac thidx st).1 == err_mongo_insert)
  unfolding user_online take_redis release_redis Clean mongo_lent in_use
  user_online-in_use u devmac thidx st h =
      ground (arith, log_online-in_use u devmac thidx (take_redis s st).0)

-- From a state in which no connection to MongoDB is lent and none was used that was not,
-- `userOffline` and `userAuth` use a connection only while it is lent, whatever the services
-- answer. `userOnline` does so exactly if it does not fail with ERR_MONGO_INSERT: then it asks
-- for the error of a connection that it has given back.
pub run_user-in_use :
    {W : Type 0} (s : Services W) (u : UserData) (devmac : Bytes) (thidx : ℕ) (st : St W)
    → mongo_lent st.calls ≡ 0
    → in_use st.calls ≡ true
    → (in_use (user_offline s u devmac st).0.calls ≡ true)
      × (in_use (user_auth s u devmac st).0.calls ≡ true)
      × (in_use (user_online s u devmac thidx st).0.calls
          ≡ not ((user_online s u devmac thidx st).1 == err_mongo_insert))
unfolding Clean
run_user-in_use s u devmac thidx st lent used = (
  (user_offline-Clean s u devmac st (lent, used)).1,
  (user_auth-Clean s u devmac st (lent, used)).1,
  user_online-in_use s u devmac thidx st (lent, used),
)
