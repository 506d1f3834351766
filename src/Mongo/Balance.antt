-- ===== src/Mongo/Balance.antt =====
-- Each command of mongo/mongo.cpp destroys every `bson_t` that it made.
use cnode.Prelude.{
  ℕ, ◌+◌, ◌≡◌, ◌⊎◌, Bool, List, [], ◌∷◌, Option, none, some, arith, Option-cases, inl, inr,
}
use cnode.Prelude.Bytes.{Bytes}
use cnode.Mongo.{
  Collection, Mongo, json2bson, destroy, result, param_null, insert_bson, destroy_after, insert,
  find_bson, find_field, find_list, find, update_bson, update_set, update_found, update,
  remove_bson, remove, make_all, destroy_all, modify_bson, destroy_made, find_and_modify,
}

-- As many values are alive after as before.
pub IsEven : Mongo → Mongo → Type 0
IsEven m n = n.made + m.destroyed ≡ m.made + n.destroyed

alive : Option Bytes → ℕ
alive none = 0
alive (some b) = 1

all_alive : List (Option Bytes) → ℕ
unfolding alive
all_alive [] = 0
all_alive (b ∷ bs) = alive b + all_alive bs

module _ (c : Collection) where
  json2bson-alive :
      (s : Bytes) (m : Mongo)
      → ((json2bson c s m).0.made ≡ m.made + alive (json2bson c s m).2)
        × ((json2bson c s m).0.destroyed ≡ m.destroyed)
  unfolding json2bson alive
  json2bson-alive [] m = ground arith
  json2bson-alive (x ∷ s) m = ground arith

  json2bson-failed :
      (s : Bytes) (m : Mongo) → ((json2bson c s m).1 ≡ 0) ⊎ ((json2bson c s m).2 ≡ none)
  unfolding json2bson
  json2bson-failed [] m = ground arith
  json2bson-failed (x ∷ s) m = ground arith

  -- So does `insert`, if it returns.
  insert-IsEven :
      (json : Bytes) (save : Bool) (m : Mongo) {n : Mongo} {ret : ℕ}
      → insert c json save m ≡ some (n, ret)
      → IsEven m n
  unfolding insert insert_bson destroy_after destroy result alive IsEven
  insert-IsEven json save m e = let a = json2bson-alive json m in ground arith

  find_field-IsEven :
      (vrs : List Bytes) (q : Option Bytes) (field : Bytes) (limit skip : ℕ) (m : Mongo)
      → (find_field c vrs q field limit skip m).0.made + m.destroyed + alive q
        ≡ m.made + (find_field c vrs q field limit skip m).0.destroyed
  unfolding find_field find_bson param_null destroy result alive
  find_field-IsEven vrs none field limit skip m = ground arith
  find_field-IsEven vrs (some q) field limit skip m =
      let a = json2bson-alive field m in ground arith

  find-IsEven :
      (rs query field : Bytes) (limit skip : ℕ) (m : Mongo)
      → IsEven m (find c rs query field limit skip m).0
  unfolding find find_list IsEven
  find-IsEven rs query field limit skip m =
      let j = json2bson c query m in
      let a = json2bson-alive query m in
      let b = find_field-IsEven [] j.2 field limit skip j.0 in
      ground (arith, json2bson-failed query m)

  update_set-alive :
      (q : Option Bytes) (set : Bytes) (upsert mutiset : Bool) (m : Mongo)
      → (update_set c q set upsert mutiset m).0.made + m.destroyed + alive q
        ≡ m.made + (update_set c q set upsert mutiset m).0.destroyed
  unfolding update_set update_bson param_null destroy result alive
  update_set-alive none set upsert mutiset m = ground arith
  update_set-alive (some q) set upsert mutiset m = let a = json2bson-alive set m in ground arith

  update-IsEven :
      (query set : Bytes) (upsert mutiset : Bool) (m : Mongo)
      → IsEven m (update c query set upsert mutiset m).0
  unfolding update update_found IsEven
  update-IsEven [] set upsert mutiset m = ground arith
  update-IsEven (q ∷ query) [] upsert mutiset m = ground arith
  update-IsEven (q ∷ query) (x ∷ set) upsert mutiset m =
      let j = json2bson c (q ∷ query) m in
      let a = json2bson-alive (q ∷ query) m in
      let b = update_set-alive j.2 (x ∷ set) upsert mutiset j.0 in
      ground (arith, json2bson-failed (q ∷ query) m)

  remove-IsEven :
      (query : Bytes) (onlyone : Bool) (m : Mongo) → IsEven m (remove c query onlyone m).0
  unfolding remove remove_bson destroy result alive IsEven
  remove-IsEven query onlyone m = let a = json2bson-alive query m in ground arith

  make_all-alive :
      (jsons : List Bytes) (m : Mongo)
      → ((make_all c jsons m).0.made ≡ m.made + all_alive (make_all c jsons m).2)
        × ((make_all c jsons m).0.destroyed ≡ m.destroyed)
  unfolding make_all all_alive
  make_all-alive [] m = ground arith
  make_all-alive (json ∷ rest) m =
      let a = json2bson-alive json m in
      let b = make_all-alive rest (json2bson c json m).0 in ground arith

  destroy_all-alive :
      (bs : List (Option Bytes)) (m : Mongo)
      → ((destroy_all bs m).made ≡ m.made)
        × ((destroy_all bs m).destroyed ≡ m.destroyed + all_alive bs)
  unfolding destroy_all all_alive destroy alive
  destroy_all-alive [] m = ground arith
  destroy_all-alive (none ∷ bs) m = ground (arith, destroy_all-alive bs m)
  destroy_all-alive (some b ∷ bs) m = ground (arith, destroy_all-alive bs (destroy (some b) m))

  modify_bson-keeps :
      (rs : Bytes) (rm upsert bnew : Bool) (bs : List (Option Bytes)) (m : Mongo) {n : Mongo}
      {ret : ℕ} {t : Bytes}
      → modify_bson c rs rm upsert bnew bs m ≡ some (n, ret, t)
      → (n.made ≡ m.made) × (n.destroyed ≡ m.destroyed)
  unfolding modify_bson
  modify_bson-keeps rs rm upsert bnew [] m e = ground arith
  modify_bson-keeps rs rm upsert bnew (none ∷ bs) m e = ground arith
  modify_bson-keeps rs rm upsert bnew (some q ∷ []) m e = ground arith
  modify_bson-keeps rs rm upsert bnew (some q ∷ x ∷ []) m e = ground arith
  modify_bson-keeps rs rm upsert bnew (some q ∷ x ∷ y ∷ []) m e = ground arith
  modify_bson-keeps rs rm upsert bnew (some q ∷ x ∷ y ∷ z ∷ []) m e = ground arith
  modify_bson-keeps rs rm upsert bnew (some q ∷ x ∷ y ∷ z ∷ w ∷ bs) m e = ground arith

  -- So does `findAndModify`, if it returns.
  pub find_and_modify-IsEven :
      (rs qjson sort update field : Bytes) (rm upsert bnew : Bool) (m : Mongo) {n : Mongo} {ret : ℕ}
      {t : Bytes}
      → find_and_modify c rs qjson sort update field rm upsert bnew m ≡ some (n, ret, t)
      → IsEven m n
  unfolding find_and_modify destroy_made IsEven
  find_and_modify-IsEven rs qjson sort update field rm upsert bnew m e =
      let j = make_all c (qjson ∷ sort ∷ update ∷ field ∷ []) m in
      let a = make_all-alive (qjson ∷ sort ∷ update ∷ field ∷ []) m in
      elim (Option-cases (modify_bson c rs rm upsert bnew j.2 j.0)) [
        | inl f ↦ ground (arith, f, destroy_all-alive j.2 j.0)
        | inr (k, f) ↦ ground (
          arith,
          f,
          destroy_all-alive j.2 j.0,
          destroy_all-alive j.2 k.0,
          modify_bson-keeps rs rm upsert bnew j.2 j.0 f,
        )
      ]

  -- Every `bson_t` that `find`, `update` or `remove` makes is destroyed by it, on every branch and
  -- whatever mongoc answers.
  pub commands-IsEven :
      (rs a b : Bytes) (x y : Bool) (limit skip : ℕ) (m : Mongo)
      → IsEven m (find c rs a b limit skip m).0
        × IsEven m (update c a b x y m).0
        × IsEven m (remove c a x m).0
  commands-IsEven rs a b x y limit skip m =
      (find-IsEven rs a b limit skip m, update-IsEven a b x y m, remove-IsEven a x m)
