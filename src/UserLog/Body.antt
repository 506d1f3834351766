-- ===== src/UserLog/Body.antt =====
-- The texts that `DealUserlog` writes, read back by `PickOneJson`.
use mathlib.Core.List.{append_assoc}
use cnode.Prelude.{
  ◌≡◌, refl, ap, ◌∙◌, Bool, true, false, Bool-cases, inl, inr, some, not, ◌++◌, map, if◌then◌else◌,
  arith,
}
use cnode.Prelude.Bytes.{Bytes, codes, to_lower}
use cnode.StrParse.{pick_one_json}
use cnode.StrParse.Json.{document, Unquoted, pick_one_json-document}
use cnode.UserLog.{UserData, append_json_object, online_text, is_empty}

-- What `online_text` writes behind the id, appended to a text.
online_tail : UserData → (devmac devid text : Bytes) → Bytes
online_tail u devmac devid text =
    let btmp = not (is_empty u.signal) in
    let text = append_json_object text (codes "devid") devid true true in
    let text = append_json_object text (codes "devmac") devmac true true in
    let text = append_json_object text (codes "mac") u.mac true true in
    let text = append_json_object text (codes "uptime") u.time btmp false in
    (if btmp then append_json_object text (codes "signal") u.signal false true else text)
    ++ codes "}"

append_json_object-append :
    (a b name val : Bytes) (comma quot : Bool)
    → append_json_object (a ++ b) name val comma quot
      ≡ a ++ append_json_object b name val comma quot
unfolding append_json_object
append_json_object-append a b name val comma quot = simp append_assoc

online_tail-append :
    (u : UserData) (devmac devid a b : Bytes)
    → online_tail u devmac devid (a ++ b) ≡ a ++ online_tail u devmac devid b
unfolding online_tail
online_tail-append u devmac devid a b = elim (Bool-cases (is_empty u.signal)) [
  | inl e ↦ rw e (simp (append_json_object-append, append_assoc))
  | inr e ↦ rw e (simp (append_json_object-append, append_assoc))
]

online_text-document :
    (u : UserData) (devmac devid objid : Bytes)
    → online_text u devmac devid objid
      ≡ document (codes "_id") objid (online_tail u devmac devid (codes ", "))
unfolding online_text online_tail
online_text-document u devmac devid objid =
    let head = codes "{\"_id\":\"" ++ objid ++ codes "\"" in
    let start : append_json_object (codes "{") (codes "_id") objid true true ≡ head ++ codes ", " =
      unfold append_json_object in simp append_assoc in
    ap (online_tail u devmac devid) start
    ∙ online_tail-append u devmac devid head (codes ", ")
    ∙ append_assoc (codes "{\"_id\":\"" ++ objid) (codes "\"") _
    ∙ append_assoc (codes "{\"_id\":\"") objid _

-- From the document that `userOnline` inserts, `PickOneJson`, which `findObjectId` reads a found
-- document with, picks the id in lower case, if the id holds no quote and no backslash. The other
-- texts may be any.
pub pick_one_json-online_text :
    (u : UserData) (devmac devid objid : Bytes)
    → Unquoted objid
    → pick_one_json (online_text u devmac devid objid) (codes "_id") ≡ some (map to_lower objid)
pick_one_json-online_text u devmac devid objid h =
    ap (λ t. pick_one_json t (codes "_id")) (online_text-document u devmac devid objid)
    ∙ pick_one_json-document (codes "_id") objid (online_tail u devmac devid (codes ", "))
        (ground arith, ground arith) (unfold to_lower in refl) h
