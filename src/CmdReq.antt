-- ===== src/CmdReq.antt =====
-- deal_cmdreq.h and deal_cmdreq.cpp: `DealCmdReq`, a command for routers from its request to its
-- response. A `RouteMsg` is an index into the messages made so far, as a pointer to it would be.
pub mod Parse
pub mod Replies
pub mod Callbacks
mod Tests
use cnode.Prelude.{
  ℕ, zero, suc, ◌+◌, ◌-◌, Bool, true, false, not, ◌&&◌, ◌||◌, List, [], ◌∷◌, ◌++◌, Option, none,
  some, ltb, leb, ◌==◌, if◌then◌else◌, length, get_elem?, set, get_or,
}
use cnode.Prelude.Int.{ℤ, pos, negsuc, gives_zero}
use cnode.Prelude.Bytes.{Bytes, codes, eq_bytes}

-- `RouteMsgStatus`.
pub data Status : Type 0 where
  rms_sucess : Status
  rms_init : Status
  rms_send : Status
  rms_resp : Status
  rms_offline : Status
  rms_pushfail : Status
  rms_fail : Status

pub record RouteMsg : Type 0 where
  pub mac : Bytes
  pub req : Bytes
  pub status : Status

-- What was sent to the client: `SendRespond` of a body, or `SendRespondFail`.
pub data Reply : Type 0 where
  respond : Bytes → Reply
  respond_fail : Bytes → ℤ → Reply

-- `mainreq` tells whether `m_mainreq` and `m_tdata` are set, `crashed` whether one was used as null.
-- `replies`, `deletes`, `tasks` and `resumes` count or list what was asked for: `SendRespond`,
-- `postDeleteMe`, `addTask` of this object, as far as it was queued, and `postResume`.
pub record Deal : Type 0 where
  pub cmdid : Bytes
  pub cmdtype : ℤ
  pub step : ℤ
  pub online_count : ℕ
  pub begtime : ℕ
  pub waitcmd_sec : ℕ
  pub msgs : List RouteMsg
  pub routemsg_lst : List ℕ
  pub mainreq : Bool
  pub crashed : Bool
  pub replies : List Reply
  pub deletes : ℕ
  pub tasks : ℕ
  pub resumes : ℕ

abbrev pub err_redis : ℤ
err_redis = pos 508

abbrev pub err_system : ℤ
err_system = pos 505

unfoldable pub found_status : Option RouteMsg → Status
found_status none = rms_init
found_status (some m) = m.status

-- The status of a message, by its index.
unfoldable pub status_of : Deal → ℕ → Status
unfolding found_status
status_of d i = found_status (get_elem? d.msgs i)

unfoldable pub set_found : Option RouteMsg → ℕ → Status → Deal → Deal
set_found none i s d = d
set_found (some m) i s d = record d { msgs = set d.msgs i (record m { status = s }) }

unfoldable pub set_status : ℕ → Status → Deal → Deal
unfolding set_found
set_status i s d = set_found (get_elem? d.msgs i) i s d

unfoldable pub send : Reply → Deal → Deal
send r d = if d.mainreq then record d { replies = r ∷ d.replies } else record d { crashed = true }

unfoldable pub post_delete_me : Deal → Deal
post_delete_me d =
    if d.mainreq
    then record d { deletes = suc d.deletes; mainreq = false }
    else record d { crashed = true }

-- `addTask` of the object, by its code: it is queued unless that is negative.
unfoldable pub add_task : ℤ → Deal → Deal
add_task (pos n) d = record d { tasks = suc d.tasks }
add_task (negsuc n) d = d

-- `tmpmp.find(mac)`.
unfoldable pub known : Bytes → List (Bytes × Status) → Option Status
known mac [] = none
known mac ((m, s) ∷ rest) = let later = known mac rest in if eq_bytes m mac then some s else later

mac_of : Option RouteMsg → Bytes
mac_of none = []
mac_of (some m) = m.mac

-- The loop of `checkOnline`; `online` tells whether `hget` of a device's status gives "1".
unfoldable pub check_loop : (Bytes → Bool) → List ℕ → List (Bytes × Status) → Deal → Deal
unfolding set_status known mac_of
check_loop online [] tmpmp d = d
check_loop online (i ∷ rest) tmpmp d =
    let mac = mac_of (get_elem? d.msgs i) in
    let fresh : Status = if online mac then rms_send else rms_offline in
    elim (known mac tmpmp) [
      | some s ↦ check_loop online rest tmpmp (set_status i s d)
      | none ↦ check_loop online rest ((mac, fresh) ∷ tmpmp) (set_status i fresh d)
    ]

-- `checkOnline`, where `connected` tells whether a connection to Redis was got.
unfoldable pub check_online : (connected : Bool) (online : Bytes → Bool) → Deal → Deal
unfolding check_loop send
check_online connected online d =
    if connected
    then (let e = check_loop online d.routemsg_lst [] d in
        record e { step = pos 1; resumes = suc e.resumes })
    else send (respond_fail (codes "redis connect fail") err_redis) (record d { step = negsuc 0 })

-- The loop of `waitPushResp`: nothing while a message waits for its push, else how many were
-- answered.
unfoldable pub count_resp : Deal → List ℕ → Option ℕ
unfolding status_of
count_resp d [] = some 0
count_resp d (i ∷ rest) = elim (status_of d i) [
  | rms_send ↦ none
  | rms_resp ↦ elim (count_resp d rest) [ none ↦ none | some n ↦ some (suc n) ]
  | _ ↦ count_resp d rest
]

unfoldable pub is_int : ℕ → ℤ → Bool
is_int n (pos m) = n == m
is_int n (negsuc m) = false

abbrev pub wait_cmdresp_time_sec : ℕ
wait_cmdresp_time_sec = 10

-- What `waitPushResp` does once all pushes are answered; `added` is the code of
-- `addTask`.
unfoldable pub pushes_done : (added : ℤ) → ℕ → Deal → Deal
unfolding send post_delete_me is_int add_task
pushes_done added rspcount d =
    if is_int 1 d.cmdtype
    then post_delete_me (send (respond (codes "{\"status\": \"SUCCESS\"")) d)
    else (let e = record d {
      step = pos 2;
      online_count = rspcount;
      waitcmd_sec = wait_cmdresp_time_sec;
    } in
        if gives_zero added
        then add_task added e
        else post_delete_me (
            send (respond_fail (codes "addtask fail") err_system)
              (record (add_task added e) { step = pos 10 })))

unfoldable pub wait_push_resp : (added : ℤ) → Deal → Deal × Bool
unfolding count_resp pushes_done
wait_push_resp added d =
    if is_int 1 d.step
    then (elim (count_resp d d.routemsg_lst) [
      | none ↦ (d, false)
      | some n ↦ (pushes_done added n d, true)
    ])
    else (d, true)

-- The loop of `resume`; `pushed` tells whether `pushICometReq` returns 0.
unfoldable pub push_loop : (pushed : Bytes → Bytes → Bool) → List ℕ → Deal → Deal
unfolding set_status
push_loop pushed [] d = d
push_loop pushed (i ∷ rest) d =
    let sent : Deal = elim (get_elem? d.msgs i) [
      | none ↦ d
      | some m ↦ elim m.status [
        | rms_send ↦ if pushed m.mac m.req then d else set_status i rms_pushfail d
        | _ ↦ d
      ]
    ] in
    push_loop pushed rest sent

unfoldable pub resume : (pushed : Bytes → Bytes → Bool) (added : ℤ) → Deal → Deal
unfolding push_loop wait_push_resp
resume pushed added d =
    if is_int 1 d.step then (wait_push_resp added (push_loop pushed d.routemsg_lst d)).0 else d

-- `RouteMsg::clireq_callback`; `ok` is whether the push succeeded and its body says "ok".
unfoldable pub clireq_callback : (ok : Bool) → (added : ℤ) → ℕ → Deal → Deal
unfolding set_status wait_push_resp
clireq_callback ok added i d =
    (wait_push_resp added (set_status i (if ok then rms_resp else rms_pushfail) d)).0

-- The elements of the list, put together as an array.
unfoldable pub join_array : List Bytes → Bytes
join_array [] = []
join_array (x ∷ []) = x
join_array (x ∷ y ∷ rest) = x ++ (codes ", " ++ join_array (y ∷ rest))

-- What Redis and `addTask` answer to `waitRedisResult`.
pub record RedisAnswer : Type 0 where
  pub connected : Bool
  pub llen_ret : ℕ
  pub result_len : ℕ
  pub now : ℕ
  pub added : ℤ
  pub result : Option (List Bytes)

unfoldable pub fail_with : ℤ → Deal → Deal
unfolding send post_delete_me
fail_with ret d =
    post_delete_me (send (respond_fail (codes "addtask fail") ret) (record d { step = pos 10 }))

-- The part behind the tests, which fetches the results.
unfoldable pub fetch_result : Option (List Bytes) → Deal → Deal
unfolding fail_with join_array
fetch_result none d = fail_with err_redis d
fetch_result (some items) d =
    post_delete_me (send (respond (codes "[ " ++ (join_array items ++ codes " ]"))) d)

-- Behind the `break` of the branch that waits: `ret` is still what `llen` returned.
unfoldable pub waits_on : ℕ → Deal → Deal
unfolding fail_with
waits_on llen_ret d = if llen_ret == 0 then d else fail_with (pos llen_ret) d

unfoldable pub wait_redis_result : RedisAnswer → Deal → Deal
unfolding fetch_result fail_with waits_on add_task
wait_redis_result a d =
    if a.connected
    then if leb d.online_count a.result_len || ltb d.waitcmd_sec (a.now - d.begtime)
      then fetch_result a.result d
      else if gives_zero a.added
      then waits_on a.llen_ret (add_task a.added d)
      else fail_with err_system (add_task a.added d)
    else fail_with err_redis d

-- `run_task`, in a thread of the task pool.
unfoldable pub run_task : (online : Bytes → Bool) → RedisAnswer → Deal → Deal
unfolding check_online wait_redis_result
run_task online a d =
    if is_int 0 d.step
    then check_online a.connected online d
    else if is_int 2 d.step
    then wait_redis_result a d
    else d
