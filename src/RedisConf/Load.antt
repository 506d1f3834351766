-- ===== src/RedisConf/Load.antt =====
-- What redis/redispooladmin.cpp `LoadPoolFromFile` keeps of a document.
use cnode.Prelude.{
  ◌≡◌, refl, ap, sym, ◌∙◌, Bool, true, false, List, [], ◌∷◌, Option, none, some, if◌then◌else◌,
  arith, Bool-cases, Option-cases, inl, inr, Every,
}
use cnode.Prelude.Int.{ℤ, ◌≤ℤ◌, ltb_ℤ, to_i16, pos}
use cnode.Prelude.Bytes.{Bytes, codes, eq_bytes, eq_bytes_iff, lookup, lookup-assign, Every-assign}
use cnode.Redis.{Conf}
use cnode.Xml.{Element, attr_strptr, attr_strdup, attr_int}
use cnode.RedisConf.{conf_of, load_element, load_loop, from_redis, load_confs}

abbrev pub name_of : Element → Option Bytes
unfolding lookup
name_of e = lookup (codes "redisname") e.attributes

abbrev pub named : Bytes → Element → Bool
named k e = elim (name_of e) [ none ↦ false | some name ↦ eq_bytes name k ]

-- The first element that has the name.
abbrev pub first_named : Bytes → List Element → Option Element
first_named k [] = none
first_named k (e ∷ es) = if named k e then some e else first_named k es

abbrev pub or_else {ℓ} : {A : Type ℓ} → Option A → Option A → Option A
or_else none b = b
or_else (some a) b = some a

abbrev pub option_map {ℓ κ} : {A : Type ℓ} {B : Type κ} → (A → B) → Option A → Option B
option_map f none = none
option_map f (some a) = some (f a)

or_else-none {ℓ} : {A : Type ℓ} (o : Option A) → or_else o none ≡ o
or_else-none none = refl
or_else-none (some a) = refl

or_else_assoc {ℓ} :
    {A : Type ℓ} (a b c : Option A) → or_else (or_else a b) c ≡ or_else a (or_else b c)
or_else_assoc none b c = refl
or_else_assoc (some a) b c = refl

load_element-lookup :
    (k : Bytes) (sel : ℤ) (e : Element) (confs : List (Bytes × Conf))
    → lookup k (load_element sel e confs)
      ≡ or_else (lookup k confs) (if named k e then some (conf_of sel e) else none)
unfolding load_element attr_strptr
load_element-lookup k sel e confs = elim (Option-cases (name_of e)) [
  | inl n ↦ rw (load_element, attr_strptr, named, n) (sym (or_else-none (lookup k confs)))
  | inr (name, n) ↦ elim (Option-cases (lookup name confs)) [
    | inl m ↦ elim (Bool-cases (eq_bytes name k)) [
      | inl f ↦
          rw (load_element, attr_strptr, named, n, m, lookup-assign name k (conf_of sel e) confs, f)
            (rw (ap (λ j. lookup j confs) (sym ((eq_bytes_iff name k).0 f)) ∙ m) refl)
      | inr f ↦
          rw (load_element, attr_strptr, named, n, m, lookup-assign name k (conf_of sel e) confs, f)
            (sym (or_else-none (lookup k confs)))
    ]
    | inr (c, m) ↦ elim (Bool-cases (eq_bytes name k)) [
      | inl f ↦
          rw (load_element, attr_strptr, named, n, m, f)
            (rw (ap (λ j. lookup j confs) (sym ((eq_bytes_iff name k).0 f)) ∙ m) refl)
      | inr f ↦ rw (load_element, attr_strptr, named, n, m, f) (sym (or_else-none (lookup k confs)))
    ]
  ]
]

load_loop-lookup :
    (k : Bytes) (sel : ℤ) (es : List Element) (confs : List (Bytes × Conf))
    → lookup k (load_loop sel es confs)
      ≡ or_else (lookup k confs) (option_map (conf_of sel) (first_named k es))
unfolding load_loop
load_loop-lookup k sel [] confs = sym (or_else-none (lookup k confs))
load_loop-lookup k sel (e ∷ es) confs =
    load_loop-lookup k sel es (load_element sel e confs)
    ∙ ap (λ o. or_else o (option_map (conf_of sel) (first_named k es)))
        (load_element-lookup k sel e confs)
    ∙ or_else_assoc (lookup k confs) _ _
    ∙ ap (λ o. or_else (lookup k confs) o) (at_head (named k e))
  where
    at_head :
        (b : Bool)
        → or_else
            (if b then some (conf_of sel e) else none)
            (option_map (conf_of sel) (first_named k es))
          ≡ option_map (conf_of sel) (if b then some e else first_named k es)
    at_head true = refl
    at_head false = refl

-- Loading keeps every configuration that is there, and gives each other name that of the first
-- element with that name, from the first one tagged `redis` on: a later one with a name that is
-- taken is passed over.
pub load_confs-lookup :
    (k : Bytes) (root : Element) (children : List Element) (confs : List (Bytes × Conf))
    → lookup k (load_confs root children confs)
      ≡ or_else (lookup k confs) (
          option_map
            (conf_of (to_i16 (attr_int (some root) (codes "selectno") (pos 0))))
            (first_named k (from_redis children)))
unfolding load_confs
load_confs-lookup k root children confs = load_loop-lookup k _ (from_redis children) confs

-- A configuration is kept under its own name, and starts with no more connections than it allows.
abbrev pub IsConf : Bytes × Conf → Type 0
IsConf (k, c) = (c.redisname ≡ some k) × (c.init_conn_num ≤ℤ c.process_max_conn_num)

clamp : (max init : ℤ) → (if ltb_ℤ max init then max else init) ≤ℤ max
clamp max init = ground arith

conf_of-IsConf :
    (sel : ℤ) (e : Element) (name : Bytes) → name_of e ≡ some name → IsConf (name, conf_of sel e)
unfolding conf_of attr_strdup
conf_of-IsConf sel e name n =
    (rw (attr_strdup, n) refl, clamp (attr_int (some e) (codes "processMaxConnNum") (pos 0)) _)

load_element-IsConf :
    (sel : ℤ) (e : Element) (confs : List (Bytes × Conf))
    → Every IsConf confs
    → Every IsConf (load_element sel e confs)
unfolding load_element attr_strptr
load_element-IsConf sel e confs h = elim (Option-cases (name_of e)) [
  | inl n ↦ rw (load_element, attr_strptr, n) h
  | inr (name, n) ↦ elim (Option-cases (lookup name confs)) [
    | inl m ↦
        rw (load_element, attr_strptr, n, m)
          (Every-assign IsConf name (conf_of sel e) confs (conf_of-IsConf sel e name n) h)
    | inr (c, m) ↦ rw (load_element, attr_strptr, n, m) h
  ]
]

load_loop-IsConf :
    (sel : ℤ) (es : List Element) (confs : List (Bytes × Conf))
    → Every IsConf confs
    → Every IsConf (load_loop sel es confs)
unfolding load_loop
load_loop-IsConf sel [] confs h = h
load_loop-IsConf sel (e ∷ es) confs h =
    load_loop-IsConf sel es (load_element sel e confs) (load_element-IsConf sel e confs h)

pub load_confs-IsConf :
    (root : Element) (children : List Element) (confs : List (Bytes × Conf))
    → Every IsConf confs
    → Every IsConf (load_confs root children confs)
unfolding load_confs
load_confs-IsConf root children confs h = load_loop-IsConf _ (from_redis children) confs h
