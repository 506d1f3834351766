-- ===== src/Mongo.antt =====
-- mongo/mongo.h and mongo/mongo.cpp: `Mongo`, the commands of a connection. A `bson_t` that is made
-- of a text stands as that text, a null pointer as `none`; `made` and `destroyed` count them. What
-- mongoc answers is an argument, `Collection`. `none` for a whole result is the use of a null pointer
-- or of a `bson_t` that was never set.
pub mod Balance
pub mod Codes
mod Tests
use cnode.Prelude.{
  ℕ, zero, suc, Bool, true, false, List, [], ◌∷◌, ◌++◌, Option, none, some, if◌then◌else◌,
}
use cnode.Prelude.Bytes.{Bytes, codes}

abbrev pub emog_param_input : ℕ
emog_param_input = 301

abbrev pub emog_op_fail : ℕ
emog_op_fail = 306

-- The answers of mongoc; `some` of a text is its error message. A cursor gives its documents as
-- texts, `none` where there is none, and its error. An update is told `upsert` and `mutiset`, a
-- removal `onlyone`, `find_and_modify` its `rm`, `upsert` and `bnew`.
pub record Collection : Type 0 where
  pub parse : Bytes → Option Bytes
  pub insert : (save : Bool) → Bytes → Option Bytes
  pub cursor : (limit skip : ℕ) → Bytes → Option Bytes → List (Option Bytes) × Option Bytes
  pub update : (upsert mutiset : Bool) → Bytes → Option Bytes → Option Bytes
  pub remove : (onlyone : Bool) → Bytes → Option Bytes
  pub modify :
      (rm upsert bnew : Bool)
      → (query : Bytes) → (sort update field : Option Bytes) → Option Bytes × Option Bytes

pub record Mongo : Type 0 where
  pub operror : Bytes
  pub made : ℕ
  pub destroyed : ℕ

-- `json2bson`: the code and what `*bson`, null before, holds. It tests `bson` and not `*bson`, so a
-- text that is not read gives 0 as well.
unfoldable pub json2bson : Collection → Bytes → Mongo → Mongo × ℕ × Option Bytes
json2bson c [] m = (record m { operror = codes "param null" }, 0, none)
json2bson c (x ∷ s) m = elim (c.parse (x ∷ s)) [
  | none ↦ (record m { made = suc m.made }, 0, some (x ∷ s))
  | some err ↦ (m, 0, none)
]

-- `DESTROY_BSON_PTR`.
unfoldable pub destroy : Option Bytes → Mongo → Mongo
destroy none m = m
destroy (some b) m = record m { destroyed = suc m.destroyed }

-- The code of a call that gives an error message or none.
unfoldable pub result : Option Bytes → Mongo → Mongo × ℕ
result none m = (m, 0)
result (some err) m = (record m { operror = err }, emog_op_fail)

unfoldable pub param_null : Bytes → Mongo → Mongo × ℕ
param_null text m = (record m { operror = text }, emog_param_input)

-- `insert` of a `bson_t`, which mongoc reads.
unfoldable pub insert_bson : Collection → Bool → Option Bytes → Mongo → Option (Mongo × ℕ)
unfolding result
insert_bson c save none m = none
insert_bson c save (some b) m = some (result (c.insert save b) m)

unfoldable pub destroy_after : Option Bytes → Option (Mongo × ℕ) → Option (Mongo × ℕ)
unfolding destroy
destroy_after b none = none
destroy_after b (some (m, ret)) = some (destroy b m, ret)

unfoldable pub insert : Collection → Bytes → Bool → Mongo → Option (Mongo × ℕ)
unfolding json2bson insert_bson destroy_after
insert c json save m =
    let (m1, ret, bson) = json2bson c json m in
    elim ret [
      | zero ↦ destroy_after bson (insert_bson c save bson m1)
      | suc n ↦ some (destroy bson m1, suc n)
    ]

-- The loop of `find` over its cursor.
unfoldable pub read_docs : List (Option Bytes) → List Bytes → List Bytes
read_docs [] vrs = vrs
read_docs (none ∷ docs) vrs = read_docs docs vrs
read_docs (some str ∷ docs) vrs = read_docs docs (vrs ++ str ∷ [])

-- `find` of `bson_t` values; the result is what `vrs` holds afterwards.
unfoldable pub find_bson :
    Collection
    → List Bytes
    → (query field : Option Bytes) → (limit skip : ℕ) → Mongo
    → Mongo × ℕ × List Bytes
unfolding read_docs result
find_bson c vrs none field limit skip m = (m, emog_param_input, vrs)
find_bson c vrs (some query) field limit skip m =
    let (docs, err) = c.cursor limit skip query field in
    let (m1, ret) = result err m in (m1, ret, read_docs docs vrs)

-- `find` into a list, behind the query.
unfoldable pub find_field :
    Collection
    → List Bytes
    → Option Bytes
    → Bytes
    → (limit skip : ℕ) → Mongo
    → Mongo × ℕ × List Bytes
unfolding json2bson find_bson destroy param_null
find_field c vrs none fieldjson limit skip m =
    let (m1, ret) = param_null (codes "query null") m in (m1, ret, vrs)
find_field c vrs (some query) fieldjson limit skip m =
    let (m1, ret, field) = json2bson c fieldjson m in
    elim ret [
      | zero ↦
          (let (m2, code, found) = find_bson c vrs (some query) field limit skip m1 in
            (destroy field (destroy (some query) m2), code, found))
      | suc n ↦ (destroy field (destroy (some query) m1), suc n, vrs)
    ]

unfoldable pub find_list :
    Collection
    → List Bytes
    → (queryjson fieldjson : Bytes) → (limit skip : ℕ) → Mongo
    → Mongo × ℕ × List Bytes
unfolding json2bson find_field
find_list c vrs queryjson fieldjson limit skip m =
    let (m1, ret, query) = json2bson c queryjson m in
    elim ret [ zero ↦ find_field c vrs query fieldjson limit skip m1 | suc n ↦ (m1, suc n, vrs) ]

-- What the loop of `find` appends behind the first document.
unfoldable pub more_docs : List Bytes → Bytes
more_docs [] = []
more_docs (doc ∷ docs) = codes ", " ++ doc ++ more_docs docs

unfoldable pub docs_text : Bytes → List Bytes → Bytes
unfolding more_docs
docs_text rs [] = rs
docs_text rs (doc ∷ docs) = codes "[ " ++ doc ++ more_docs docs ++ codes " ]"

-- `find` into a string that holds `rs`.
unfoldable pub find :
    Collection
    → Bytes
    → (queryjson fieldjson : Bytes) → (limit skip : ℕ) → Mongo
    → Mongo × ℕ × Bytes
unfolding find_list docs_text
find c rs queryjson fieldjson limit skip m =
    let (m1, ret, docs) = find_list c [] queryjson fieldjson limit skip m in
    elim ret [ zero ↦ (m1, 0, docs_text rs docs) | suc n ↦ (m1, suc n, rs) ]

unfoldable pub update_bson :
    Collection → (bquery bset : Option Bytes) → (upsert mutiset : Bool) → Mongo → Mongo × ℕ
unfolding result param_null
update_bson c none bset upsert mutiset m = param_null (codes "query param null") m
update_bson c (some query) bset upsert mutiset m = result (c.update upsert mutiset query bset) m

-- `update` behind its first `bson_t`.
unfoldable pub update_set :
    Collection → Option Bytes → Bytes → (upsert mutiset : Bool) → Mongo → Mongo × ℕ
unfolding json2bson update_bson destroy param_null
update_set c none setjson upsert mutiset m = param_null (codes "query param null") m
update_set c (some query) setjson upsert mutiset m =
    let (m1, ret, bset) = json2bson c setjson m in
    elim ret [
      | zero ↦ elim bset [
        | none ↦
            (let (m2, code) = param_null (codes "set param null") m1 in
              (destroy (some query) m2, code))
        | some b ↦
            (let (m2, code) = update_bson c (some query) (some b) upsert mutiset m1 in
              (destroy (some b) (destroy (some query) m2), code))
      ]
      | suc n ↦ (destroy bset (destroy (some query) m1), suc n)
    ]

unfoldable pub update_found :
    Collection → (queryjson setjson : Bytes) → (upsert mutiset : Bool) → Mongo → Mongo × ℕ
unfolding json2bson update_set
update_found c queryjson setjson upsert mutiset m =
    let (m1, ret, bquery) = json2bson c queryjson m in
    elim ret [ zero ↦ update_set c bquery setjson upsert mutiset m1 | suc n ↦ (m1, suc n) ]

unfoldable pub update :
    Collection → (queryjson setjson : Bytes) → (upsert mutiset : Bool) → Mongo → Mongo × ℕ
unfolding update_found
update c [] setjson upsert mutiset m = (m, emog_param_input)
update c (q ∷ query) [] upsert mutiset m = (m, emog_param_input)
update c (q ∷ query) (s ∷ set) upsert mutiset m =
    update_found c (q ∷ query) (s ∷ set) upsert mutiset m

unfoldable pub remove_bson : Collection → Option Bytes → Bool → Mongo → Mongo × ℕ
unfolding result param_null
remove_bson c none onlyone m = param_null (codes "query param null") m
remove_bson c (some query) onlyone m = result (c.remove onlyone query) m

unfoldable pub remove : Collection → Bytes → Bool → Mongo → Mongo × ℕ
unfolding json2bson remove_bson destroy
remove c queryjson onlyone m =
    let (m1, ret, bquery) = json2bson c queryjson m in
    elim bquery [
      | none ↦ (m1, ret)
      | some b ↦ (let (m2, code) = remove_bson c (some b) onlyone m1 in (destroy (some b) m2, code))
    ]

-- The four texts of `findAndModify`, made into `bson_t` values one after the other up to the first
-- error; each is listed as it was left.
unfoldable pub make_all : Collection → List Bytes → Mongo → Mongo × ℕ × List (Option Bytes)
unfolding json2bson
make_all c [] m = (m, 0, [])
make_all c (json ∷ rest) m =
    let (m1, ret, bson) = json2bson c json m in
    let (m2, code, more) = make_all c rest m1 in
    elim ret [ zero ↦ (m2, code, bson ∷ more) | suc n ↦ (m1, suc n, bson ∷ []) ]

unfoldable pub destroy_all : List (Option Bytes) → Mongo → Mongo
unfolding destroy
destroy_all [] m = m
destroy_all (b ∷ bs) m = destroy_all bs (destroy b m)

unfoldable pub reply_text : Bytes → Option Bytes → Bytes
reply_text rs none = rs
reply_text rs (some str) = str

-- `findAndModify` of `bson_t` values, with what `rs` holds afterwards: it destroys a reply that is
-- never set without a query.
unfoldable pub modify_bson :
    Collection
    → Bytes
    → (rm upsert bnew : Bool) → List (Option Bytes)
    → Mongo
    → Option (Mongo × ℕ × Bytes)
unfolding reply_text
modify_bson c rs rm upsert bnew (some query ∷ sort ∷ set ∷ field ∷ []) m =
    let (err, reply) = c.modify rm upsert bnew query sort set field in
    elim err [
      | none ↦ some (m, 0, reply_text rs reply)
      | some text ↦ some (record m { operror = text }, emog_op_fail, rs)
    ]
modify_bson c rs rm upsert bnew _ m = none

unfoldable pub destroy_made :
    List (Option Bytes) → Option (Mongo × ℕ × Bytes) → Option (Mongo × ℕ × Bytes)
unfolding destroy_all
destroy_made bs none = none
destroy_made bs (some (m, ret, rs)) = some (destroy_all bs m, ret, rs)

unfoldable pub find_and_modify :
    Collection
    → Bytes
    → (qjson sort update field : Bytes) → (rm upsert bnew : Bool) → Mongo
    → Option (Mongo × ℕ × Bytes)
unfolding make_all modify_bson destroy_made
find_and_modify c rs qjson sort update field rm upsert bnew m =
    let (m1, ret, bs) = make_all c (qjson ∷ sort ∷ update ∷ field ∷ []) m in
    elim ret [
      | zero ↦ destroy_made bs (modify_bson c rs rm upsert bnew bs m1)
      | suc n ↦ some (destroy_all bs m1, suc n, rs)
    ]
