-- ===== src/CmdResp.antt =====
-- deal_cmdresp.cpp: `DealCmdResp::Run`, and dealbase.cpp: the readings of a request's headers and of
-- its query. libevent, `malloc` and rapidjson answer through arguments.
pub mod Fails
mod Tests
use cnode.Prelude.{
  ℕ, Bool, true, false, List, [], ◌∷◌, Option, none, some, ◌==◌, if◌then◌else◌, length,
}
use cnode.Prelude.Bytes.{to_lower, Bytes, codes}
use cnode.Prelude.Int.{pos}
use cnode.Auth.{Answer, respond_fail, err_parameter}

abbrev pub err_header : ℕ
err_header = 502

abbrev pub err_encoding : ℕ
err_encoding = 503

abbrev pub err_json_format : ℕ
err_json_format = 504

-- `ERR_SYSTEM`.
abbrev pub err_malloc : ℕ
err_malloc = 505

abbrev pub Headers : Type 0
Headers = List (Bytes × Bytes)

-- What a request holds: the length of its body, its headers (`none` is a null pointer), its text.
pub record Request : Type 0 where
  pub bodylen : ℕ
  pub headers : Option Headers
  pub uri : Option Bytes

-- `evhttp_find_header`, and `evhttp_parse_query_str`, which gives the pairs or an error.
pub record Libevent : Type 0 where
  pub find_header : Option Headers → Bytes → Option Bytes
  pub parse_query : Bytes → Option Headers

-- `str ? str : strnull`.
abbrev pub or_null : Option Bytes → Bytes
or_null none = []
or_null (some s) = s

-- `GetHeadStr`: the code, and what `val` holds then.
unfoldable pub get_head_str : Libevent → Bytes → Option Request → Option Bytes → ℕ × Bytes
get_head_str ev val (some req) (some key) = elim req.headers [
  | some kv ↦ (3, val)
  | none ↦ (0, or_null (ev.find_header none key))
]
get_head_str ev val _ _ = (1, val)

-- `FindQueryStrValue`.
unfoldable pub find_query_str_value : Libevent → Bytes → Option Request → Option Bytes → ℕ × Bytes
find_query_str_value ev val (some req) (some key) = elim req.uri [
  | none ↦ (2, val)
  | some uri ↦ elim (ev.parse_query uri) [
    | none ↦ (3, val)
    | some kv ↦ (0, or_null (ev.find_header (some kv) key))
  ]
]
find_query_str_value ev val _ _ = (1, val)

unfoldable pub is_gzip : Bytes → Bool
unfolding to_lower
is_gzip (a ∷ b ∷ c ∷ d ∷ []) =
    if to_lower a == b'g'
    then if to_lower b == b'z'
      then if to_lower c == b'i' then to_lower d == b'p' else false
      else false
    else false
is_gzip _ = false

-- The part behind the test of the encoding: whether `malloc` succeeds, and whether rapidjson finds
-- an error in the buffer, which nothing was copied to.
unfoldable pub parse_body : (allocated bad : Bool) → Option Answer
parse_body false bad = some (respond_fail (codes "malloc fail") (pos err_malloc))
parse_body true true = some (respond_fail (codes "parse body fail") (pos err_json_format))
parse_body true false = none

unfoldable pub run_encoding : Bytes → (allocated bad : Bool) → Option Answer
unfolding is_gzip parse_body
run_encoding [] allocated bad = parse_body allocated bad
run_encoding (c ∷ s) allocated bad =
    if is_gzip (c ∷ s)
    then parse_body allocated bad
    else some (respond_fail (codes "unknow content-encoding") (pos err_encoding))

-- `Run`: the answer that is sent, or `none` for none.
unfoldable pub run : Libevent → Request → (allocated bad : Bool) → Option Answer
unfolding get_head_str run_encoding
run ev req allocated bad =
    if req.bodylen == 0
    then some (respond_fail (codes "body no data") (pos err_parameter))
    else (let (ret, encoding) = get_head_str ev [] (some req) (some (codes "Content-Encoding")) in
        if ret == 0
        then run_encoding encoding allocated bad
        else some (respond_fail (codes "body no data") (pos err_header)))
