-- ===== src/UserLog/Tasks.antt =====
-- deal_userlog.cpp: the tasks `userOnline`, `userOffline` and `userAuth`, with every call of Redis and
-- MongoDB in its order.
use cnode.Prelude.{ℕ, zero, suc, ◌%◌, [], ◌∷◌, ◌++◌}
use cnode.Prelude.Int.{pos, negsuc}
use cnode.Prelude.Bytes.{Bytes, codes}
use cnode.IdManage.{print_hex}
use cnode.UserLog.{
  Services, St, UserData, Call, redis_taken, redis_released, redis_got, redis_stored, redis_deleted,
  mongo_taken, mongo_released, mongo_inserted, mongo_updated, mongo_found, mongo_geterr, err_redis,
  err_mongo, err_mongo_insert, err_mongo_update, err_mongo_find, err_sysbug, err_system,
  online_text, id_text, offline_text, auth_text, query_text, id_key, judge,
}

module _ {W : Type 0} where
  abbrev pub note : Call → St W → St W
  note c st = record st { calls = c ∷ st.calls }

  -- A call that gives a code, one that gives a code and a text, and `ReleaseConnect`.
  unfoldable pub ask : Call → (W → W × ℕ) → St W → St W × ℕ
  ask c f st = (record { world = (f st.world).0; calls = c ∷ st.calls }, (f st.world).1)

  unfoldable pub ask_text : Call → (W → W × ℕ × Bytes) → St W → St W × ℕ × Bytes
  ask_text c f st =
      (record { world = (f st.world).0; calls = c ∷ st.calls }, (f st.world).1, (f st.world).2)

  unfoldable pub take_redis : Services W → St W → St W × ℕ
  take_redis s st = (
    record {
      world = (s.redis_connect st.world).0;
      calls = redis_taken (s.redis_connect st.world).1 ∷ st.calls;
    },
    (s.redis_connect st.world).1,
  )

  unfoldable pub take_mongo : Services W → St W → St W × ℕ
  take_mongo s st = (
    record {
      world = (s.mongo_connect st.world).0;
      calls = mongo_taken (s.mongo_connect st.world).1 ∷ st.calls;
    },
    (s.mongo_connect st.world).1,
  )

  unfoldable pub release_redis : Services W → St W → St W
  release_redis s st = record {
    world = s.redis_release st.world;
    calls = redis_released ∷ st.calls;
  }

  unfoldable pub release_mongo : Services W → St W → St W
  release_mongo s st = record {
    world = s.mongo_release st.world;
    calls = mongo_released ∷ st.calls;
  }

  -- The first half of `findObjectId`: what the cache holds.
  unfoldable pub cached_id : Services W → Bytes → St W → St W × Bytes
  unfolding take_redis ask_text release_redis
  cached_id s mac st =
      let (st1, code) = take_redis s st in
      elim code [
        | zero ↦
            (let (st2, ret, id) =
                ask_text (redis_got (id_key mac)) (s.redis_get (id_key mac)) st1 in
              (release_redis s st2, id))
        | suc n ↦ (st1, [])
      ]

  -- The second half, with a connection to MongoDB.
  unfoldable pub search_id : Services W → (mac devmac : Bytes) → St W → St W × ℕ × Bytes
  unfolding take_mongo ask_text release_mongo judge query_text
  search_id s mac devmac st =
      let (st1, code) = take_mongo s st in
      let query = query_text mac devmac in
      let field = codes "{ \"downtime\":1 }" in
      elim code [
        | zero ↦
            (let (st2, ret, result) =
                ask_text (mongo_found query field) (s.mongo_find query field) st1 in
              elim ret [
                | zero ↦ (release_mongo s st2, (judge result).0, (judge result).1)
                | suc n ↦ (release_mongo s (note mongo_geterr st2), err_mongo_find, [])
              ])
        | suc n ↦ (st1, err_mongo, [])
      ]

  unfoldable pub find_object_id : Services W → (mac devmac : Bytes) → St W → St W × ℕ × Bytes
  unfolding cached_id search_id
  find_object_id s [] devmac st = (st, err_sysbug, [])
  find_object_id s (m ∷ mac) devmac st =
      let (st1, id) = cached_id s (m ∷ mac) st in
      elim id [ [] ↦ search_id s (m ∷ mac) devmac st1 | c ∷ t ↦ (st1, 0, c ∷ t) ]

  -- The id of a new record: of `IdMgr`, or of the time, the thread and `rand`.
  unfoldable pub new_object_id : Services W → ℕ → St W → St W × Bytes
  unfolding print_hex
  new_object_id s thidx st =
      let (w, ret, id) = s.get_object_id st.world in
      let (v, now, rand) = s.time_and_rand w in
      elim id [
        | [] ↦ (
          record st { world = v },
          print_hex 8 now ++ print_hex 8 thidx ++ print_hex 8 (rand % 10000),
        )
        | c ∷ t ↦ (record st { world = w }, c ∷ t)
      ]

  -- `userOnline` once the id is known: the insertion, and the key in Redis.
  unfoldable pub insert_log : Services W → UserData → (devmac devid objid : Bytes) → St W → St W × ℕ
  unfolding take_mongo ask release_mongo online_text
  insert_log s u devmac devid objid st =
      let (st1, code) = take_mongo s st in
      let text = online_text u devmac devid objid in
      elim code [
        | zero ↦
            (let (st2, ret) = ask (mongo_inserted text) (s.mongo_insert text) st1 in
              let st3 = release_mongo s st2 in
              elim ret [
                | zero ↦ (
                  (ask (redis_stored (id_key u.mac) objid) (s.redis_set (id_key u.mac) objid)
                      st3).0,
                  0,
                )
                | suc n ↦ (note mongo_geterr st3, err_mongo_insert)
              ])
        | suc n ↦ (st1, err_mongo)
      ]

  -- `userOnline` with a connection to Redis.
  unfoldable pub log_online : Services W → UserData → Bytes → ℕ → St W → St W × ℕ
  unfolding ask_text new_object_id insert_log
  log_online s u devmac thidx st =
      let key = codes "device_id_mac:" ++ devmac in
      let (st1, ret, devid) = ask_text (redis_got key) (s.redis_get key) st in
      elim ret [
        | zero ↦
            (let (st2, objid) = new_object_id s thidx st1 in insert_log s u devmac devid objid st2)
        | suc n ↦ (st1, err_system)
      ]

  unfoldable pub user_online : Services W → UserData → Bytes → ℕ → St W → St W × ℕ
  unfolding take_redis log_online release_redis
  user_online s u devmac thidx st =
      let (st1, code) = take_redis s st in
      elim code [
        | zero ↦ (let (st2, ret) = log_online s u devmac thidx st1 in (release_redis s st2, ret))
        | suc n ↦ (st1, err_redis)
      ]

  -- The update that `userOffline` and `userAuth` send for an id.
  unfoldable pub update_log : Services W → (objid set : Bytes) → St W → St W × ℕ
  unfolding take_mongo ask release_mongo id_text
  update_log s objid set st =
      let (st1, code) = take_mongo s st in
      elim code [
        | zero ↦
            (let (st2, ret) =
                ask (mongo_updated (id_text objid) set) (s.mongo_update (id_text objid) set) st1 in
              elim ret [
                | zero ↦ (release_mongo s st2, 0)
                | suc n ↦ (release_mongo s (note mongo_geterr st2), err_mongo_update)
              ])
        | suc n ↦ (st1, err_mongo)
      ]

  -- The end of `userOffline`: the key in Redis goes.
  unfoldable pub drop_key : Services W → Bytes → St W → St W × ℕ
  unfolding take_redis ask release_redis
  drop_key s mac st =
      let (st1, code) = take_redis s st in
      elim code [
        | zero ↦
            (let (st2, ret) = ask (redis_deleted (id_key mac)) (s.redis_del (id_key mac)) st1 in
              (release_redis s st2, ret))
        | suc n ↦ (st1, 0)
      ]

  unfoldable pub user_offline : Services W → UserData → Bytes → St W → St W × ℕ
  unfolding find_object_id update_log drop_key offline_text
  user_offline s u devmac st =
      let (st1, ret, objid) = find_object_id s u.mac devmac st in
      elim ret [
        | zero ↦
            (let (st2, code) = update_log s objid (offline_text u) st1 in
              elim code [ zero ↦ drop_key s u.mac st2 | suc n ↦ (st2, suc n) ])
        | suc n ↦ (st1, suc n)
      ]

  unfoldable pub user_auth : Services W → UserData → Bytes → St W → St W × ℕ
  unfolding find_object_id update_log auth_text
  user_auth s u devmac st =
      let (st1, ret, objid) = find_object_id s u.mac devmac st in
      elim ret [ zero ↦ update_log s objid (auth_text u) st1 | suc n ↦ (st1, suc n) ]

  -- `run_task` up to its response: which of the three, with the code.
  unfoldable pub run_user : Services W → UserData → Bytes → ℕ → St W → St W × ℕ
  unfolding user_online user_offline user_auth
  run_user s u devmac thidx st = elim u.auth [
    | [] ↦ elim u.status [
      | pos n ↦ elim n [
        | zero ↦ user_online s u devmac thidx st
        | suc m ↦ user_offline s u devmac st
      ]
      | negsuc n ↦ user_offline s u devmac st
    ]
    | c ∷ t ↦ user_auth s u devmac st
  ]
