-- ===== src/Mongo/Tests.antt =====
-- Runs of mongo/mongo.cpp against a small collection, and the theorems at such inputs.
use cnode.Prelude.{
  ◌≡◌, ◌≢◌, ◌↔◌, ◌⊎◌, refl, true, false, [], ◌∷◌, Option, none, some, ◌==◌, if◌then◌else◌,
}
use cnode.Prelude.Bytes.{Bytes, codes}
use cnode.Mongo.{
  Collection, Mongo, insert, update, find, remove, find_and_modify, json2bson, emog_param_input,
}
use cnode.Mongo.Balance.{IsEven, commands-IsEven}
use cnode.Mongo.Codes.{update-zero, insert-none}

-- A text is reads if it begins with a brace; two documents are found.
abbrev reads : Bytes → Option Bytes
reads [] = some (codes "empty")
reads (c ∷ s) = if c == b'{' then none else some (codes "no object")

abbrev coll : Collection
coll = record {
  parse = reads;
  insert = λ save b. none;
  cursor = λ limit skip query field. (some (codes "{a}") ∷ none ∷ some (codes "{b}") ∷ [], none);
  update = λ upsert mutiset query set. none;
  remove = λ onlyone query. none;
  modify = λ rm upsert bnew query sort update field. (none, some (codes "{}"));
}

abbrev fresh : Mongo
fresh = record { operror = []; made = 0; destroyed = 0 }

found : (find coll [] (codes "{}") [] 0 0 fresh).2 ≡ codes "[ {a}, {b} ]"
unfolding find json2bson
found = refl

unread : (update coll (codes "{}") (codes "x") false false fresh).1 ≡ emog_param_input
unfolding update json2bson
unread = refl

commands-IsEven_example :
    IsEven fresh (find coll [] (codes "{}") (codes "{}") 1 0 fresh).0
    × IsEven fresh (update coll (codes "{}") (codes "{}") true false fresh).0
    × IsEven fresh (remove coll (codes "{}") true fresh).0
commands-IsEven_example = commands-IsEven coll [] (codes "{}") (codes "{}") true false 1 0 fresh

update-zero_example : ((update coll (codes "{}") (codes "{}") false false fresh).1 ≡ 0) ↔ (
    (codes "{}" ≢ [])
    × (codes "{}" ≢ [])
    × (coll.parse (codes "{}") ≡ none)
    × (coll.parse (codes "{}") ≡ none)
    × (coll.update false false (codes "{}") (some (codes "{}")) ≡ none))
update-zero_example = update-zero coll (codes "{}") (codes "{}") false false fresh

insert-none_example :
    ((insert coll [] false fresh ≡ none) ↔ ((codes "" ≡ []) ⊎ (coll.parse [] ≢ none)))
    × ((find_and_modify coll [] [] [] [] [] false false false fresh ≡ none)
        ↔ ((codes "" ≡ []) ⊎ (coll.parse [] ≢ none)))
insert-none_example = insert-none coll [] [] [] [] [] false false false false fresh
