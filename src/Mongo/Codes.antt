-- ===== src/Mongo/Codes.antt =====
-- When the commands of mongo/mongo.cpp succeed, and when they use what they must not.
use cnode.Prelude.{◌≡◌, ◌≢◌, ◌↔◌, ◌⊎◌, Bool, [], ◌∷◌, none, some, arith}
use cnode.Prelude.Bytes.{Bytes}
use cnode.Mongo.{
  Collection, Mongo, json2bson, destroy, result, param_null, insert_bson, destroy_after, insert,
  update_bson, update_set, update_found, update, make_all, modify_bson, destroy_made,
  find_and_modify,
}

-- `update` gives 0 exactly if neither text is empty, both are read, and mongoc makes the update of
-- exactly these two.
pub update-zero :
    (c : Collection) (query set : Bytes) (upsert mutiset : Bool) (m : Mongo)
    → ((update c query set upsert mutiset m).1 ≡ 0) ↔ (
        (query ≢ [])
        × (set ≢ [])
        × (c.parse query ≡ none)
        × (c.parse set ≡ none)
        × (c.update upsert mutiset query (some set) ≡ none))
unfolding update update_found update_set update_bson json2bson param_null destroy result
update-zero c [] set upsert mutiset m = ground arith
update-zero c (q ∷ query) [] upsert mutiset m = ground arith
update-zero c (q ∷ query) (s ∷ set) upsert mutiset m = ground arith

-- `insert` passes mongoc a null document, and never returns, exactly for a text that is empty or
-- not read; `findAndModify` destroys a reply that was never set exactly for such a query, whatever
-- its other texts are.
pub insert-none :
    (c : Collection) (json sort set field rs : Bytes) (save rm upsert bnew : Bool) (m : Mongo)
    → ((insert c json save m ≡ none) ↔ ((json ≡ []) ⊎ (c.parse json ≢ none)))
      × ((find_and_modify c rs json sort set field rm upsert bnew m ≡ none)
          ↔ ((json ≡ []) ⊎ (c.parse json ≢ none)))
unfolding insert insert_bson destroy_after find_and_modify destroy_made modify_bson make_all
    json2bson result
insert-none c [] sort set field rs save rm upsert bnew m = (ground arith, ground arith)
insert-none c (j ∷ json) sort set field rs save rm upsert bnew m = (ground arith, ground arith)
