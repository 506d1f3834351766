-- ===== src/CmdReq/Parse.antt =====
-- `DealCmdReq::parseReqJson` of deal_cmdreq.cpp, on a body as rapidjson presents it.
use cnode.Prelude.{
  ℕ, zero, suc, ◌≢◌, List, [], ◌∷◌, ◌++◌, Option, none, some, length, set, refl, arith, ap,
}
use cnode.Prelude.Int.{ℤ, pos, negsuc, pos_part}
use cnode.Prelude.Bytes.{Bytes}
use cnode.CmdReq.{Deal, rms_init}

-- A member of "CommandList"; the targets in an array are strings. With its target stands the text that `VALUE2STRING` prints for it.
pub data Item : Type 0 where
  not_object : Item
  no_target : Item
  target_string : (mac req : Bytes) → Item
  target_array : List (Bytes × Bytes) → Item
  target_other : Item

-- The body: a parse error, another value than an object, or an object with the members that are
-- there and of the right type.
pub data Body : Type 0 where
  parse_error : ℕ → Body
  not_object_body : Body
  object_body : (type : Option ℤ) (id : Option Bytes) (list : Option (List Item)) → Body

unfoldable pub new_routemsg : Bytes → Bytes → Deal → Deal
new_routemsg mac req d = record d {
  msgs = d.msgs ++ record { mac = mac; req = req; status = rms_init } ∷ [];
}

-- `push_back` of a message.
unfoldable pub push_routemsg : ℕ → Deal → Deal
push_routemsg i d = record d { routemsg_lst = d.routemsg_lst ++ i ∷ [] }

unfoldable pub set_target : ℕ → Bytes → Bytes → Deal → Deal
set_target i mac req d = record d {
  msgs = set d.msgs i (record { mac = mac; req = req; status = rms_init });
}

-- The loop over an array of targets: they all share the one message `i`.
unfoldable pub target_loop : ℕ → List (Bytes × Bytes) → Deal → Deal
unfolding set_target push_routemsg
target_loop i [] d = d
target_loop i ((mac, req) ∷ rest) d = target_loop i rest (push_routemsg i (set_target i mac req d))

-- The loop over "CommandList", with `ret` as it is.
unfoldable pub item_loop : ℤ → List Item → Deal → ℤ × Deal
unfolding new_routemsg push_routemsg target_loop
item_loop ret [] d = (ret, d)
item_loop ret (not_object ∷ rest) d = (negsuc 6, d)
item_loop ret (no_target ∷ rest) d = (negsuc 7, d)
item_loop ret (target_string mac req ∷ rest) d =
    item_loop ret rest (push_routemsg (length d.msgs) (new_routemsg mac req d))
item_loop ret (target_array targets ∷ rest) d =
    item_loop ret rest (target_loop (length d.msgs) targets (new_routemsg [] [] d))
item_loop ret (target_other ∷ rest) d = item_loop ret rest (new_routemsg [] [] d)

-- The end: `IFBREAK(ret)`, and the test for an empty list.
unfoldable pub parse_end : ℤ × Deal → ℤ × Deal
parse_end (pos zero, d) = (elim d.routemsg_lst [ [] ↦ negsuc 9 | i ∷ is ↦ pos 0 ], d)
parse_end (ret, d) = (ret, d)

-- Each test leaves its own truth value in `ret`, 1 where it passes; the last of these is what the
-- loop over the list begins with.
unfoldable pub parse_req_json : Body → Deal → ℤ × Deal
unfolding item_loop parse_end
parse_req_json (parse_error code) d = (pos (suc code), d)
parse_req_json not_object_body d = (negsuc 1, d)
parse_req_json (object_body none id list) d = (negsuc 2, d)
parse_req_json (object_body (some type) none list) d = (negsuc 3, d)
parse_req_json (object_body (some type) (some id) none) d = (negsuc 4, d)
parse_req_json (object_body (some type) (some id) (some [])) d =
    (negsuc 5, record d { cmdid = id; cmdtype = type })
parse_req_json (object_body (some type) (some id) (some (item ∷ items))) d =
    parse_end (item_loop (pos 1) (item ∷ items) (record d { cmdid = id; cmdtype = type }))

item_loop-ne-zero :
    (ret : ℤ) (items : List Item) (d : Deal) → ret ≢ pos 0 → (item_loop ret items d).0 ≢ pos 0
unfolding item_loop
item_loop-ne-zero ret [] d h = h
item_loop-ne-zero ret (not_object ∷ rest) d h = λ e. cc
item_loop-ne-zero ret (no_target ∷ rest) d h = λ e. cc
item_loop-ne-zero ret (target_string mac req ∷ rest) d h = item_loop-ne-zero ret rest _ h
item_loop-ne-zero ret (target_array targets ∷ rest) d h = item_loop-ne-zero ret rest _ h
item_loop-ne-zero ret (target_other ∷ rest) d h = item_loop-ne-zero ret rest _ h

parse_end-ne-zero : (r : ℤ × Deal) → r.0 ≢ pos 0 → (parse_end r).0 ≢ pos 0
unfolding parse_end
parse_end-ne-zero (pos zero, d) h = λ e. h refl
parse_end-ne-zero (pos (suc n), d) h = h
parse_end-ne-zero (negsuc n, d) h = h

-- `parseReqJson` returns 0 for no body at all, whatever its list holds.
pub parse_req_json-ne-zero : (body : Body) (d : Deal) → (parse_req_json body d).0 ≢ pos 0
unfolding parse_req_json
parse_req_json-ne-zero (parse_error code) d = λ e. absurd (omega (arith, ap pos_part e))
parse_req_json-ne-zero not_object_body d = λ e. cc
parse_req_json-ne-zero (object_body none id list) d = λ e. cc
parse_req_json-ne-zero (object_body (some type) none list) d = λ e. cc
parse_req_json-ne-zero (object_body (some type) (some id) none) d = λ e. cc
parse_req_json-ne-zero (object_body (some type) (some id) (some [])) d = λ e. cc
parse_req_json-ne-zero (object_body (some type) (some id) (some (item ∷ items))) d =
    parse_end-ne-zero (item_loop (pos 1) (item ∷ items) _)
      (item_loop-ne-zero (pos 1) (item ∷ items) _ (λ e. absurd (omega (arith, ap pos_part e))))
