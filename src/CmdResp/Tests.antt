-- ===== src/CmdResp/Tests.antt =====
-- Runs of deal_cmdresp.cpp and of the readings of a request, and the theorem at such an input.
use cnode.Prelude.{◌≡◌, refl, true, false, ◌==◌, if◌then◌else◌, [], ◌∷◌, none, some}
use cnode.Prelude.Bytes.{codes, eq_bytes, lookup}
use cnode.Prelude.Int.{pos}
use cnode.Auth.{respond_fail, err_parameter}
use cnode.CmdResp.{Libevent, Headers, Request, find_query_str_value, get_head_str, run, err_header}
use cnode.CmdResp.Fails.{run-refuses}

abbrev kv : Headers
kv = (codes "Content-Encoding", codes "gzip") ∷ []

abbrev ev : Libevent
unfolding lookup
ev = record {
  find_header = λ headers key. elim headers [ none ↦ none | some m ↦ lookup key m ];
  parse_query = λ uri. some ((codes "k", uri) ∷ []);
}

abbrev req : Request
req = record { bodylen = 5; headers = some kv; uri = some (codes "v") }

run-refuses_example :
    (get_head_str ev [] (some req) (some (codes "Content-Encoding")) ≡ (3, []))
    × (run ev req true false
        ≡ some (
            respond_fail
              (codes "body no data")
              (pos (if req.bodylen == 0 then err_parameter else err_header))))
run-refuses_example = run-refuses ev req kv [] (codes "Content-Encoding") true false refl

finds_k : find_query_str_value ev [] (some req) (some (codes "k")) ≡ (0, codes "v")
unfolding find_query_str_value ev lookup eq_bytes
finds_k = refl
