-- ===== src/MongoAdmin/Once.antt =====
-- `GetConnect` of mongo/mongopooladmin.cpp calls itself once at most.
use cnode.Prelude.{
  ℕ, suc, ◌≡◌, refl, sym, subst, List, [], ◌∷◌, Option, none, some, ◌==◌, arith, Every,
  Option-cases, Bool-cases, inl, inr,
}
use cnode.Prelude.Int.{ℤ, pos}
use cnode.Prelude.Bytes.{Bytes, lookup, lookup-assign, eq_bytes_iff, Every-assign, Every-lookup}
use cnode.MongoPool.{Pool, Conf, Conn, Answers, init}
use cnode.MongoAdmin.{
  Admin, Held, Member, load_loop, new_pool, keep_pool, register_pool, borrow, get_connect,
  emog_invalid_name,
}

-- A configuration is kept under its own name.
abbrev pub IsOwn : Bytes × Conf → Type 0
IsOwn (name, conf) = conf.poolname ≡ name

-- What `LoadPoolFromFile` keeps, it keeps under its own name.
pub load_loop-IsOwn :
    (ms : List (Bytes × Option Member)) (confs : List (Bytes × Conf))
    → Every IsOwn confs
    → Every IsOwn (load_loop ms confs)
unfolding load_loop
load_loop-IsOwn [] confs h = h
load_loop-IsOwn ((name, none) ∷ rest) confs h = load_loop-IsOwn rest confs h
load_loop-IsOwn ((name, some m) ∷ rest) confs h = elim (Option-cases m.mongo_uri) [
  | inl e ↦ rw (load_loop, e) (load_loop-IsOwn rest confs h)
  | inr (uri, e) ↦
      rw (load_loop, e) (load_loop-IsOwn rest _ (Every-assign IsOwn name _ confs refl h))
]

keep_pool-lookup :
    (name : Bytes) (made : Pool × ℕ) (a : Admin)
    → (keep_pool name made a).1 ≡ 0
    → lookup name (keep_pool name made a).0.conn_pools
      ≡ some (record { self = a.next_pool; pool = made.0 })
unfolding keep_pool
keep_pool-lookup name (pool, ret) a e =
    let h : Held = record { self = a.next_pool; pool = pool } in
    ground (arith, lookup-assign name name h a.conn_pools, (eq_bytes_iff name name).1 refl)

-- A pool that was registered under a name is found there.
register_pool-lookup :
    (conf : Conf) (n : Answers) (raw : Pool) (a : Admin)
    → lookup conf.poolname a.conn_pools ≡ none
    → (register_pool (some conf) n raw a).1 ≡ 0
    → lookup conf.poolname (register_pool (some conf) n raw a).0.conn_pools
      ≡ some (record { self = a.next_pool; pool = (init (some conf) n (new_pool raw)).0 })
unfolding register_pool
register_pool-lookup conf n raw a h e =
    ground (arith, h, keep_pool-lookup conf.poolname (init (some conf) n (new_pool raw)) a)

found_next :
    (fuel : ℕ) (name : Bytes) (n : Answers) (mog : Option Conn) (raw : Pool) (b : Admin) (h : Held)
    → lookup name b.conn_pools ≡ some h
    → get_connect (suc fuel) name n mog raw b ≡ some (borrow name n mog h b)
unfolding get_connect
found_next fuel name n mog raw b h e = rw (get_connect, e) refl

-- When every configuration is kept under its own name, as `LoadPoolFromFile` keeps them,
-- `GetConnect` ends after one call of itself at most: two rounds of fuel give its result, and
-- more change nothing.
pub get_connect-ends :
    (fuel : ℕ) (name : Bytes) (n : Answers) (mog : Option Conn) (raw : Pool) (a : Admin)
    → Every IsOwn a.all_conf
    → (r : Admin × ℤ × Option Conn × ℕ) × (get_connect 2 name n mog raw a ≡ some r)
      × (get_connect (suc (suc fuel)) name n mog raw a ≡ some r)
unfolding get_connect
get_connect-ends fuel name n mog raw a own = elim (Option-cases (lookup name a.conn_pools)) [
  | inr (h, f) ↦ (borrow name n mog h a, rw (get_connect, f) refl, rw (get_connect, f) refl)
  | inl f ↦ elim (Option-cases (lookup name a.all_conf)) [
    | inl g ↦ (
      (a, pos emog_invalid_name, mog, 0),
      rw (get_connect, f, g) refl,
      rw (get_connect, f, g) refl,
    )
    | inr (conf, g) ↦
        (let same : conf.poolname ≡ name = Every-lookup IsOwn name conf a.all_conf own g in
          let reg = register_pool (some conf) n raw a in
          elim (Bool-cases (reg.1 == 0)) [
            | inl z ↦
                (let h : Held = record {
                  self = a.next_pool;
                  pool = (init (some conf) n (new_pool raw)).0;
                } in
                  let k : lookup name reg.0.conn_pools ≡ some h =
                    subst (λ x. lookup x reg.0.conn_pools ≡ some h) same
                      (register_pool-lookup conf n raw a
                        (subst (λ x. lookup x a.conn_pools ≡ none) (sym same) f)
                        (ground (arith, z))) in
                  (
                    borrow name n mog h reg.0,
                    rw (get_connect, f, g, z) (found_next 0 name n mog raw reg.0 h k),
                    rw (get_connect, f, g, z) (found_next fuel name n mog raw reg.0 h k),
                  ))
            | inr z ↦ (
              (reg.0, pos reg.1, mog, 0),
              rw (get_connect, f, g, z) refl,
              rw (get_connect, f, g, z) refl,
            )
          ])
  ]
]
