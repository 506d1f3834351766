-- ===== src/CmdResp/Fails.antt =====
-- deal_cmdresp.cpp: no response of a router is ever taken.
use cnode.Prelude.{◌≡◌, refl, Bool, some, ◌==◌, if◌then◌else◌, Bool-cases, inl, inr}
use cnode.Prelude.Bytes.{Bytes, codes}
use cnode.Prelude.Int.{pos}
use cnode.Auth.{respond_fail, err_parameter}
use cnode.CmdResp.{Libevent, Headers, Request, get_head_str, run, err_header}

-- Of a request that has headers, which libevent gives to every one, `GetHeadStr` reads none: it
-- gives 3 for every name. So `Run` refuses every request, with the reason of an empty body, as a
-- missing parameter when the body is empty and as a bad header when it is not, whatever the
-- headers say, and whether or not the body can be parsed.
pub run-refuses :
    (ev : Libevent) (req : Request) (kv : Headers) (val key : Bytes) (allocated bad : Bool)
    → req.headers ≡ some kv
    → (get_head_str ev val (some req) (some key) ≡ (3, val))
      × (run ev req allocated bad
          ≡ some (
              respond_fail
                (codes "body no data")
                (pos (if req.bodylen == 0 then err_parameter else err_header))))
unfolding get_head_str run
run-refuses ev req kv val key allocated bad e = (
  rw (get_head_str, e) refl,
  elim (Bool-cases (req.bodylen == 0)) [
    | inl z ↦ rw (run, z) refl
    | inr z ↦ rw (run, get_head_str, z, e) refl
  ],
)
