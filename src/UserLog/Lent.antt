-- ===== src/UserLog/Lent.antt =====
-- Connections of both pools that `DealUserlog` takes and gives back.
use cnode.Prelude.{ℕ, zero, suc, ◌-◌, ◌≡◌, refl, [], ◌∷◌, List, arith}
use cnode.Prelude.Bytes.{Bytes}
use cnode.UserLog.{
  UserData, Call, redis_taken, redis_released, mongo_taken, mongo_released, Services, St,
  offline_text, auth_text,
}
use cnode.UserLog.Tasks.{
  ask, ask_text, take_redis, take_mongo, release_redis, release_mongo, cached_id, search_id,
  find_object_id, new_object_id, insert_log, log_online, user_online, update_log, drop_key,
  user_offline, user_auth, run_user,
}

-- The connections to Redis, and to MongoDB, that are lent after some calls.
unfoldable pub redis_lent : List Call → ℕ
redis_lent [] = 0
redis_lent (redis_taken zero ∷ cs) = suc (redis_lent cs)
redis_lent (redis_released ∷ cs) = redis_lent cs - 1
redis_lent (_ ∷ cs) = redis_lent cs

unfoldable pub mongo_lent : List Call → ℕ
mongo_lent [] = 0
mongo_lent (mongo_taken zero ∷ cs) = suc (mongo_lent cs)
mongo_lent (mongo_released ∷ cs) = mongo_lent cs - 1
mongo_lent (_ ∷ cs) = mongo_lent cs

-- The connections that two states have lent are as many.
Even : {W : Type 0} → St W → St W → Type 0
Even st u = (redis_lent u.calls ≡ redis_lent st.calls) × (mongo_lent u.calls ≡ mongo_lent st.calls)

module _ {W : Type 0} (s : Services W) where
  cached_id-Even : (mac : Bytes) (st : St W) → Even st (cached_id s mac st).0
  unfolding cached_id take_redis ask_text release_redis Even redis_lent mongo_lent
  cached_id-Even mac st = ground arith

  search_id-Even : (mac devmac : Bytes) (st : St W) → Even st (search_id s mac devmac st).0
  unfolding search_id take_mongo ask_text release_mongo Even redis_lent mongo_lent
  search_id-Even mac devmac st = ground arith

  find_object_id-Even :
      (mac devmac : Bytes) (st : St W) → Even st (find_object_id s mac devmac st).0
  unfolding find_object_id Even
  find_object_id-Even [] devmac st = (refl, refl)
  find_object_id-Even (m ∷ mac) devmac st =
      let a = cached_id-Even (m ∷ mac) st in
      let b = search_id-Even (m ∷ mac) devmac (cached_id s (m ∷ mac) st).0 in ground arith

  insert_log-Even :
      (u : UserData) (devmac devid objid : Bytes) (st : St W)
      → Even st (insert_log s u devmac devid objid st).0
  unfolding insert_log take_mongo ask release_mongo Even redis_lent mongo_lent
  insert_log-Even u devmac devid objid st = ground arith

  new_object_id-calls : (thidx : ℕ) (st : St W) → (new_object_id s thidx st).0.calls ≡ st.calls
  unfolding new_object_id
  new_object_id-calls thidx st = ground arith

  log_online-Even :
      (u : UserData) (devmac : Bytes) (thidx : ℕ) (st : St W)
      → Even st (log_online s u devmac thidx st).0
  unfolding log_online ask_text Even redis_lent mongo_lent
  log_online-Even u devmac thidx st =
      ground (arith, insert_log-Even u devmac, new_object_id-calls thidx)

  user_online-Even :
      (u : UserData) (devmac : Bytes) (thidx : ℕ) (st : St W)
      → Even st (user_online s u devmac thidx st).0
  unfolding user_online take_redis release_redis Even redis_lent mongo_lent
  user_online-Even u devmac thidx st =
      ground (arith, log_online-Even u devmac thidx (take_redis s st).0)

  update_log-Even : (objid set : Bytes) (st : St W) → Even st (update_log s objid set st).0
  unfolding update_log take_mongo ask release_mongo Even redis_lent mongo_lent
  update_log-Even objid set st = ground arith

  drop_key-Even : (mac : Bytes) (st : St W) → Even st (drop_key s mac st).0
  unfolding drop_key take_redis ask release_redis Even redis_lent mongo_lent
  drop_key-Even mac st = ground arith

  user_offline-Even :
      (u : UserData) (devmac : Bytes) (st : St W) → Even st (user_offline s u devmac st).0
  unfolding user_offline Even
  user_offline-Even u devmac st =
      let a = find_object_id-Even u.mac devmac st in
      let f = find_object_id s u.mac devmac st in
      let b = update_log-Even f.2 (offline_text u) f.0 in
      let c = drop_key-Even u.mac (update_log s f.2 (offline_text u) f.0).0 in ground arith

  user_auth-Even : (u : UserData) (devmac : Bytes) (st : St W) → Even st (user_auth s u devmac st).0
  unfolding user_auth Even
  user_auth-Even u devmac st =
      let a = find_object_id-Even u.mac devmac st in
      let f = find_object_id s u.mac devmac st in
      let b = update_log-Even f.2 (auth_text u) f.0 in ground arith

  -- Whatever the pools, the commands and `IdMgr` answer, a task leaves as many connections to
  -- Redis and to MongoDB lent as before it: each one that it takes goes back on every branch.
  pub run_user-lent :
      (u : UserData) (devmac : Bytes) (thidx : ℕ) (st : St W)
      → (redis_lent (run_user s u devmac thidx st).0.calls ≡ redis_lent st.calls)
        × (mongo_lent (run_user s u devmac thidx st).0.calls ≡ mongo_lent st.calls)
  unfolding run_user Even
  run_user-lent u devmac thidx st = ground (
    arith,
    user_online-Even u devmac thidx st,
    user_offline-Even u devmac st,
    user_auth-Even u devmac st,
  )
