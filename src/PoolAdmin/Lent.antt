-- ===== src/PoolAdmin/Lent.antt =====
-- redis/redispooladmin.cpp: clients that take connections by name and give them back.
use cnode.Prelude.{
  ℕ, suc, ◌≡◌, refl, sym, ap, subst, ◌∙◌, Bool, true, false, List, Option, none, some, ◌==◌,
  if◌then◌else◌, Bool-cases, Option-cases, inl, inr, arith,
}
use cnode.Prelude.Bytes.{Bytes, eq_bytes, eq_bytes_iff, lookup, erase, lookup-assign, Every-lookup}
use cnode.Redis.{Conn, Env}
use cnode.RedisPool
use cnode.RedisPool.{Pool}
use cnode.RedisPool.Parent.{HomeAt, get_connect-Handed}
use cnode.RedisConf.Load.{IsConf}
use cnode.PoolAdmin.{
  Admin, new_pool, keep_pool, destroy_pool, borrow, get_connect, release_at, release_connect,
}
use cnode.PoolAdmin.Entries.{
  IsPool, at-assign_same, assign_same-IsPools, lookup-at, release_at-some, release_at-lookup,
  release_at-none, erase-at,
}
use cnode.PoolAdmin.Register.{IsAdmin, Keeps, new_pool-HomeAt, keep_pool-IsAdmin}
use cnode.PoolAdmin.Get.{get_or_register, get_connect-once, keep_pool-code}

-- What `GetConnect` leaves: a well-formed map with every pool that was there, the pool of the
-- connection that was handed out under the name, and the other names as they were.
pub record Got (name : Bytes) (a : Admin) (r : Admin × ℕ × Option Conn) : Type 0 where
  pub admin : IsAdmin r.0
  pub keeps : Keeps a r.0
  pub home :
      (c : Conn)
      → r.2 ≡ some c
      → (p : Pool) × (lookup name r.0.conn_pools ≡ some p) × (c.parent ≡ some p.self)
  pub others :
      (i : Bytes) → eq_bytes name i ≡ false → lookup i r.0.conn_pools ≡ lookup i a.conn_pools

borrow-Got :
    (name : Bytes) (e : Env) (pool : Pool) (a : Admin)
    → lookup name a.conn_pools ≡ some pool
    → IsAdmin a
    → Got name a (borrow name e pool a)
unfolding borrow
borrow-Got name e pool a f v =
    let h = Every-lookup IsPool name pool a.conn_pools v.pools.homes f in
    let (q, o) = get_connect-Handed pool.self false e pool h in
    let p = (RedisPool.get_connect false e pool).0 in
    record {
      admin = record {
        pools = assign_same-IsPools a.next_pool name p pool a.conn_pools f q v.pools;
        confs = v.confs;
      };
      keeps = λ s. omega (arith, at-assign_same s name p pool a.conn_pools f q.address);
      home = λ c g. (
        p,
        lookup-assign name name p a.conn_pools ∙ ground (arith, eq_bytes_iff name name),
        o c g ∙ ap (λ i. some i) (sym q.address),
      );
      others = λ i n. lookup-assign name i p a.conn_pools ∙ rw n refl;
    }

fresh-Got :
    (name : Bytes) (e : Env) (made : Pool × ℕ) (a : Admin)
    → lookup name a.conn_pools ≡ none
    → HomeAt a.next_pool made.0
    → IsAdmin a
    → Got name a (
        let kept = keep_pool name made a in
        if made.1 == 0 then borrow name e made.0 kept.0 else (kept.0, kept.1, none))
fresh-Got name e made a f h v =
    let (w, k) = keep_pool-IsAdmin name made.0 made.1 a f h v in
    let (c, l, o) = keep_pool-code name made a in
    elim (Bool-cases (made.1 == 0)) [
      | inl z ↦
          let g = borrow-Got name e made.0 (keep_pool name made a).0 (l (ground (arith, z)) f) w in
          rw z (record {
            admin = g.admin;
            keeps = λ s. omega (arith, k s, g.keeps s);
            home = g.home;
            others = λ i n. g.others i n ∙ o i n;
          })
      | inr z ↦ rw z (record { admin = w; keeps = k; home = λ c n. absurd cc; others = o })
    ]

get_or_register-Got :
    (name : Bytes) (e : Env) (env : ℕ → Env) (raw : Pool) (a : Admin)
    → IsAdmin a
    → Got name a (get_or_register name e env raw a)
get_or_register-Got name e env raw a v = elim (Option-cases (lookup name a.conn_pools)) [
  | inr (p, f) ↦ rw (get_or_register, f) (borrow-Got name e p a f v)
  | inl f ↦ elim (Option-cases (lookup name a.all_conf)) [
    | inl g ↦
        rw (get_or_register, f, g)
          (record {
            admin = v;
            keeps = λ s. omega arith;
            home = λ c n. absurd cc;
            others = λ i n. refl;
          })
    | inr (conf, g) ↦
        rw (get_or_register, f, g)
          (fresh-Got name e (RedisPool.init (some conf) env (new_pool a.next_pool raw)) a f
            (new_pool-HomeAt conf name env a.next_pool raw
              (Every-lookup IsConf name conf a.all_conf v.confs g).0)
            v)
  ]
]

pub get_connect-Got :
    (fuel : ℕ) (name : Bytes) (e : Env) (env : ℕ → Env) (raw : Pool) (a : Admin)
    → IsAdmin a
    → (r : Admin × ℕ × Option Conn) × (get_connect (suc (suc fuel)) name e env raw a ≡ some r)
      × Got name a r
get_connect-Got fuel name e env raw a v = (
  get_or_register name e env raw a,
  get_connect-once fuel name e env raw a v.confs,
  get_or_register-Got name e env raw a v,
)

pub release_connect-at :
    (s : ℕ) (c : Conn) (e : Env) (a : Admin) (m : List (Bytes × Pool))
    → c.parent ≡ some s
    → release_at s c e a.conn_pools ≡ some m
    → release_connect (some c) e a ≡ some (record a { conn_pools = m })
unfolding release_connect
release_connect-at s c e a m o r = rw (release_connect, o, r) refl

choose_other :
    (x y z : Option Pool) (q : Bool)
    → (q ≡ false → y ≡ z)
    → (if q then x else y) ≡ (if q then x else z)
choose_other x y z true h = refl
choose_other x y z false h = h refl

-- The release of a connection whose parent is the pool of a name.
returned :
    (name : Bytes) (f : Env) (a b : Admin) (code : ℕ) (c : Conn)
    → Got name a (b, code, some c)
    → (p : Pool) × (d : Admin) × (lookup name b.conn_pools ≡ some p)
      × (release_connect (some c) f b ≡ some d)
      × ((i : Bytes)
          → lookup i d.conn_pools ≡ (
              if eq_bytes name i
              then some (RedisPool.rel_connect (some c) false f p)
              else lookup i a.conn_pools))
returned name f a b code c w =
    let (p, l, o) = w.home c refl in
    let (m, r, _, _) =
      release_at-some p.self c f b.conn_pools (lookup-at name p b.conn_pools l) o
        w.admin.pools.homes in
    (
      p,
      record b { conn_pools = m },
      l,
      release_connect-at p.self c f b m o r,
      λ i.
          release_at-lookup p.self c f name p b.conn_pools m (w.admin.pools.once p.self) refl l r i
          ∙ choose_other _ _ _ (eq_bytes name i) (w.others i),
    )

-- A connection that `GetConnect` handed out goes back to the pool of that name: `ReleaseConnect`
-- finds the pool by the connection's parent, gives it the connection, and leaves the pools of all
-- other names as they were before both calls.
pub release_connect-get_connect :
    (name : Bytes) (e f : Env) (env : ℕ → Env) (raw : Pool) (a b : Admin) (code : ℕ) (c : Conn)
    → IsAdmin a
    → get_connect 2 name e env raw a ≡ some (b, code, some c)
    → (p : Pool) × (d : Admin) × (lookup name b.conn_pools ≡ some p)
      × (release_connect (some c) f b ≡ some d)
      × ((i : Bytes)
          → lookup i d.conn_pools ≡ (
              if eq_bytes name i
              then some (RedisPool.rel_connect (some c) false f p)
              else lookup i a.conn_pools))
release_connect-get_connect name e f env raw a b code c v g =
    let (r, h, w) = get_connect-Got 0 name e env raw a v in
    let t : some r ≡ some (b, code, some c) = sym h ∙ g in
    let u : r ≡ (b, code, some c) = cc in returned name f a b code c (subst (Got name a) u w)

-- `DestroyPool` of a name leaves every connection of its pool that is lent with a parent that is
-- deleted: `ReleaseConnect` of it uses the deleted pool.
pub destroy_pool-dangles :
    (name : Bytes) (p : Pool) (c : Conn) (e : Env) (a : Admin)
    → IsAdmin a
    → lookup name a.conn_pools ≡ some p
    → c.parent ≡ some p.self
    → release_connect (some c) e (destroy_pool (some name) a) ≡ none
unfolding release_connect destroy_pool
destroy_pool-dangles name p c e a v f o =
    rw
      (
        release_connect,
        o,
        release_at-none p.self c e (erase name a.conn_pools)
            (erase-at name p a.conn_pools (v.pools.once p.self) f),
      )
      refl
