-- ===== src/UserLog/Request.antt =====
-- deal_userlog.cpp: `parseRequest` and `_parseRequestBody`; dealbase.cpp:
-- `ParseQueryMap` and the texts of `SendRespondFail`. A request that is refused is deleted at once,
-- so that what was stored in its object is left out. `malloc` gives memory.
use cnode.Prelude.{
  ℕ, zero, ◌≡◌, ◌≢◌, ◌↔◌, Bool, true, false, not, List, [], ◌∷◌, ◌++◌, Option, none, some, ◌==◌,
  if◌then◌else◌, arith,
}
use cnode.Prelude.Int.{ℤ, pos}
use cnode.Prelude.Bytes.{Bytes, codes, lookup, assign}
use cnode.RedisCmd.{print_nat, print_int}
use cnode.Auth.{err_parameter, pick_or}
use cnode.CmdResp.{Libevent, Request, get_head_str, err_json_format}
use cnode.UserLog.{UserData, is_empty, err_sysbug}

-- The loop of `ParseQueryMap` over the pairs of a query; a missing key or value is `none`.
unfoldable pub fill_map :
    List (Option Bytes × Option Bytes) → List (Bytes × Bytes) → List (Bytes × Bytes)
unfolding assign
fill_map [] kvmap = kvmap
fill_map ((some k, some v) ∷ rest) kvmap = fill_map rest (assign k v kvmap)
fill_map (_ ∷ rest) kvmap = fill_map rest kvmap

-- `ParseQueryMap` of a request: its URI, if it has one, with its query, if it has one; `parse` is
-- `evhttp_parse_query_str`, with `none` for a code other than 0.
unfoldable pub parse_query_map :
    (parse : Bytes → Option (List (Option Bytes × Option Bytes)))
    → Option (Option Bytes)
    → List (Bytes × Bytes)
    → List (Bytes × Bytes) × ℕ
unfolding fill_map
parse_query_map parse none kvmap = (kvmap, 2)
parse_query_map parse (some none) kvmap = (kvmap, 3)
parse_query_map parse (some (some query)) kvmap = elim (parse query) [
  | none ↦ (kvmap, 4)
  | some kvs ↦ (fill_map kvs kvmap, 0)
]

-- What `SendRespondFail` prints.
unfoldable pub fail_json : Bytes → ℤ → Bytes
unfolding print_int
fail_json reason (pos zero) = codes "{\"status\": \"FAIL\", \"reason\": \"" ++ reason ++ codes "\"}"
fail_json reason ecode =
    codes "{\"status\": \"FAIL\", \"code\": "
    ++ print_int ecode
    ++ codes ", \"reason\": \""
    ++ reason
    ++ codes "\"}"

-- What rapidjson reads of an object: `GetStr` and `GetInt` of a member.
pub record Fields : Type 0 where
  pub get_str : Bytes → Option Bytes
  pub get_int : Bytes → Option ℤ

-- A body: the code of a parse error, or its "module" and its "data".
pub data Document : Type 0 where
  parse_error : ℕ → Document
  parsed : Option Bytes → Option Fields → Document

-- The fields of a `DealUserlog` that it was given by its request or that are sent.
pub record Userlog : Type 0 where
  pub name : Bytes
  pub client_addr : Bytes
  pub routeid : Bytes
  pub devmac : Bytes
  pub session : Bytes
  pub module_name : Bytes
  pub step : ℕ
  pub isauth : Bool
  pub finish : Bool
  pub respbody : Bytes
  pub udata : UserData

pub data Parsed : Type 0 where
  refuse : ℕ → Bytes → Parsed
  accept : Userlog → Parsed

unfoldable pub or_old : Bytes → Option Bytes → Bytes
or_old old none = old
or_old old (some s) = s

-- `_parseRequestBody` behind the tests of "module" and "data".
unfoldable pub parse_data : Bytes → Fields → Userlog → Parsed
unfolding or_old
parse_data module_name f d = elim (f.get_str (codes "mac")) [
  | none ↦ refuse err_json_format (codes "no mac param")
  | some mac ↦ elim (f.get_str (codes "time_sec")) [
    | none ↦ refuse err_json_format (codes "no mac time")
    | some time ↦ elim (f.get_int (codes "status")) [
      | none ↦ refuse err_json_format (codes "status param")
      | some status ↦
          (let u = record d.udata {
            mac = mac;
            time = time;
            status = status;
            signal = or_old d.udata.signal (f.get_str (codes "signal"));
            auth = or_old d.udata.auth (f.get_str (codes "auth"));
            ip = or_old d.udata.ip (f.get_str (codes "ip"));
          } in
            accept
              (record d { module_name = module_name; udata = u; isauth = not (is_empty u.auth) }))
    ]
  ]
]

unfoldable pub parse_request_body : Document → Userlog → Parsed
unfolding parse_data print_nat
parse_request_body (parse_error code) d =
    refuse err_json_format (codes "json-doc err " ++ print_nat 10 code)
parse_request_body (parsed none fields) d = refuse err_json_format (codes "module param")
parse_request_body (parsed (some m) none) d = refuse err_json_format (codes "data{} param")
parse_request_body (parsed (some m) (some f)) d = parse_data m f d

-- `parseRequest` behind the readings of the query: `removed` is how many bytes `evbuffer_remove`
-- took, and `json` is what the body is read as.
unfoldable pub parse_rest : Request → (removed : ℕ) → Document → Userlog → Parsed
unfolding parse_request_body
parse_rest req removed json d =
    if req.bodylen == 0
    then refuse err_json_format (codes "body empty")
    else if removed == req.bodylen
    then parse_request_body json d
    else refuse err_sysbug (codes "evbuffer_remove ret unmatch")

unfoldable pub client_address : Libevent → Request → (remote : Option Bytes) → Bytes
unfolding get_head_str or_old
client_address ev req remote =
    let addr = (get_head_str ev [] (some req) (some (codes "X-Forwarded-For"))).1 in
    if is_empty addr then or_old addr remote else addr

-- `parseRequest`, with what `GetRemoteAddr` and `ParseQueryMap` give.
unfoldable pub parse_request :
    Libevent
    → Request
    → (remote : Option Bytes) → (querykv : List (Bytes × Bytes)) → (removed : ℕ) → Document
    → Userlog
    → Parsed
unfolding client_address lookup pick_or parse_rest
parse_request ev req remote querykv removed json d =
    let addr = client_address ev req remote in
    elim (lookup (codes "device_id") querykv) [
      | none ↦ refuse err_parameter (codes "leak of device_id")
      | some id ↦ elim (lookup (codes "device_mac") querykv) [
        | none ↦ refuse err_parameter (codes "leak of device_mac")
        | some mac ↦ parse_rest req removed json (record d {
          client_addr = addr;
          routeid = id;
          devmac = mac;
          session = pick_or (codes "session") d.session querykv;
          name = mac ++ codes "@" ++ addr;
          step = 1;
        })
      ]
    ]

-- The object that `Run` makes.
abbrev pub new_userlog : Userlog
new_userlog = record {
  name = [];
  client_addr = [];
  routeid = [];
  devmac = [];
  session = [];
  module_name = [];
  step = 0;
  isauth = false;
  finish = false;
  respbody = [];
  udata = record {
    time = [];
    mac = [];
    signal = [];
    auth = [];
    ip = [];
    req_type = codes "unknow";
    status = pos 0;
  };
}

unfoldable pub is_accept : Parsed → Bool
is_accept (refuse code reason) = false
is_accept (accept d) = true

-- A body is accepted exactly if it is read, has a module and has an object with a mac, a time and
-- a status, whatever number the status is.
pub parse_request_body-accepts :
    (doc : Document) (d : Userlog)
    → (is_accept (parse_request_body doc d) ≡ true) ↔ (
        (m : Bytes) × (f : Fields) × (doc ≡ parsed (some m) (some f))
        × (f.get_str (codes "mac") ≢ none)
        × (f.get_str (codes "time_sec") ≢ none)
        × (f.get_int (codes "status") ≢ none))
unfolding parse_request_body parse_data is_accept
parse_request_body-accepts (parse_error code) d =
    (λ e. absurd (ground arith), λ (m, f, e, x, y, z). absurd (ground (arith, e)))
parse_request_body-accepts (parsed none fields) d =
    (λ e. absurd (ground arith), λ (m, f, e, x, y, z). absurd (ground (arith, e)))
parse_request_body-accepts (parsed (some m) none) d =
    (λ e. absurd (ground arith), λ (m, f, e, x, y, z). absurd (ground (arith, e)))
parse_request_body-accepts (parsed (some m) (some f)) d = (
  λ e. (
    m,
    f,
    λ i. parsed (some m) (some f),
    ground (arith, e),
    ground (arith, e),
    ground (arith, e),
  ),
  λ (n, g, e, x, y, z). ground (arith, e, x, y, z),
)
