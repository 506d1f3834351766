-- ===== src/UserLog.antt =====
-- deal_userlog.h and deal_userlog.cpp: `DealUserlog`, the record of a user who comes, leaves or logs
-- in at a router. The pools and commands of Redis and MongoDB, `IdMgr`, the clock, `rand`, libevent
-- and rapidjson answer through arguments. A code of 0 is success; `m_devid` lives in `userOnline`.
pub mod Tasks
pub mod Request
pub mod Once
pub mod Lent
pub mod Uses
pub mod Session
pub mod Body
mod Tests
use cnode.Prelude.{
  ℕ, zero, suc, ◌%◌, Bool, true, false, not, List, [], ◌∷◌, ◌++◌, Option, none, some, if◌then◌else◌,
}
use cnode.Prelude.Int.{ℤ, pos, negsuc}
use cnode.Prelude.Bytes.{Bytes, codes, find_from}
use cnode.RedisCmd.{print_nat, print_int}
use cnode.IdManage.{print_hex}
use cnode.StrParse.{append_format, pick_one_json}

abbrev pub err_redis : ℕ
err_redis = 508

abbrev pub err_mongo : ℕ
err_mongo = 509

abbrev pub err_mongo_insert : ℕ
err_mongo_insert = 510

abbrev pub err_mongo_update : ℕ
err_mongo_update = 511

abbrev pub err_mongo_find : ℕ
err_mongo_find = 512

abbrev pub err_mongo_nologin : ℕ
err_mongo_nologin = 513

abbrev pub err_sysbug : ℕ
err_sysbug = 514

abbrev pub err_system : ℕ
err_system = 505

-- `UserData`.
pub record UserData : Type 0 where
  pub time : Bytes
  pub mac : Bytes
  pub signal : Bytes
  pub auth : Bytes
  pub ip : Bytes
  pub req_type : Bytes
  pub status : ℤ

-- What a `DealUserlog` asks of the two databases: `GetConnect` with its code, `ReleaseConnect`, the
-- commands with their texts, and `geterr`.
pub data Call : Type 0 where
  redis_taken : ℕ → Call
  redis_released : Call
  redis_got : Bytes → Call
  redis_stored : Bytes → Bytes → Call
  redis_deleted : Bytes → Call
  mongo_taken : ℕ → Call
  mongo_released : Call
  mongo_inserted : Bytes → Call
  mongo_updated : Bytes → Bytes → Call
  mongo_found : Bytes → Bytes → Call
  mongo_geterr : Call

-- The answers of all that a `DealUserlog` calls, in a world `W` of their own. `redis_get`,
-- `mongo_find` and `get_object_id` also give what they leave in an empty string.
pub record Services (W : Type 0) : Type 0 where
  pub redis_connect : W → W × ℕ
  pub redis_release : W → W
  pub redis_get : Bytes → W → W × ℕ × Bytes
  pub redis_set : Bytes → Bytes → W → W × ℕ
  pub redis_del : Bytes → W → W × ℕ
  pub mongo_connect : W → W × ℕ
  pub mongo_release : W → W
  pub mongo_insert : Bytes → W → W × ℕ
  pub mongo_update : Bytes → Bytes → W → W × ℕ
  pub mongo_find : Bytes → Bytes → W → W × ℕ × Bytes
  pub get_object_id : W → W × ℕ × Bytes
  pub time_and_rand : W → W × ℕ × ℕ

-- The world, and the calls so far, the last one first.
pub record St (W : Type 0) : Type 0 where
  pub world : W
  pub calls : List Call

unfoldable pub append_json_object : Bytes → (name val : Bytes) → (comma quot : Bool) → Bytes
append_json_object objstr name val comma quot =
    objstr
    ++ codes "\""
    ++ name
    ++ codes "\":"
    ++ (if quot then codes "\"" ++ val ++ codes "\"" else val)
    ++ (if comma then codes ", " else [])

abbrev pub is_empty : Bytes → Bool
is_empty [] = true
is_empty (c ∷ s) = false

-- The document that `userOnline` inserts.
unfoldable pub online_text : UserData → (devmac devid objid : Bytes) → Bytes
unfolding append_json_object
online_text u devmac devid objid =
    let btmp = not (is_empty u.signal) in
    let text = append_json_object (codes "{") (codes "_id") objid true true in
    let text = append_json_object text (codes "devid") devid true true in
    let text = append_json_object text (codes "devmac") devmac true true in
    let text = append_json_object text (codes "mac") u.mac true true in
    let text = append_json_object text (codes "uptime") u.time btmp false in
    (if btmp then append_json_object text (codes "signal") u.signal false true else text)
    ++ codes "}"

-- `mongofield` of an update.
unfoldable pub id_text : Bytes → Bytes
id_text objid = codes "{\"_id\": \"" ++ objid ++ codes "\"}"

unfoldable pub offline_text : UserData → Bytes
offline_text u = codes "{ \"$set\": {\"downtime\":" ++ u.time ++ codes "} }"

unfoldable pub auth_text : UserData → Bytes
unfolding append_json_object print_int
auth_text u =
    let mongoset = codes "{ \"$set\": {" in
    let unverify = append_json_object mongoset (codes "unverify") u.time true false in
    let undone = append_json_object unverify (codes "unverfg") (print_int u.status) false false in
    let ip = append_json_object mongoset (codes "ip") u.ip true true in
    let auth = append_json_object ip (codes "auth") u.auth true false in
    let done = append_json_object auth (codes "verify") u.time false false in
    (elim u.status [ pos n ↦ elim n [ zero ↦ done | suc m ↦ undone ] | negsuc n ↦ undone ])
    ++ codes "} }"

-- The query of `findObjectId`, cut as `AppendFormat` cuts it.
unfoldable pub query_text : (mac devmac : Bytes) → Bytes
unfolding append_format
query_text mac devmac =
    (append_format [] (
      codes "{ \"$query\": { \"mac\": \""
      ++ mac
      ++ codes "\", \"devmac\": \""
      ++ devmac
      ++ codes "\"}, \"$orderby\": {\"uptime\": -1} }")).0

abbrev pub id_key : Bytes → Bytes
id_key mac = codes "objid:" ++ mac

-- What `findObjectId` makes of a result of `find`: the code, and the id.
unfoldable pub judge : Bytes → ℕ × Bytes
unfolding pick_one_json find_from
judge [] = (err_mongo_find, [])
judge (c ∷ s) = elim (pick_one_json (c ∷ s) (codes "_id")) [
  | none ↦ (err_system, [])
  | some id ↦ elim (find_from (c ∷ s) (codes "downtime") 0) [
    | some at ↦ (err_mongo_nologin, [])
    | none ↦ elim id [ [] ↦ (err_mongo_find, []) | d ∷ t ↦ (0, d ∷ t) ]
  ]
]

-- `m_respbody` for a code.
unfoldable pub resp_body : ℕ → Bytes
unfolding append_json_object print_nat
resp_body zero =
    append_json_object (codes "{") (codes "status") (codes "SUCCESS") false true ++ codes "}"
resp_body (suc n) =
    append_json_object (append_json_object (codes "{") (codes "status") (codes "FAIL") true true)
      (codes "reason") (print_nat 10 (suc n)) false true
    ++ codes "}"

-- `m_udata.req_type` after `run_task`.
unfoldable pub type_text : UserData → Bytes
unfolding append_format print_int
type_text u = elim u.auth [
  | [] ↦ elim u.status [
    | pos n ↦ elim n [ zero ↦ codes "online" | suc m ↦ codes "offline" ]
    | negsuc n ↦ codes "offline"
  ]
  | c ∷ t ↦ (append_format u.req_type (codes "auth" ++ print_int u.status)).0
]
