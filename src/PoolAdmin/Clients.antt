-- ===== src/PoolAdmin/Clients.antt =====
-- redis/redispooladmin.cpp: any sequence of calls by clients that give back what they hold.
use cnode.Prelude.{
  ℕ, zero, suc, ◌≤◌, ◌≡◌, refl, ap, subst, ◌∙◌, List, [], ◌∷◌, Option, none, some, Every,
  Option-cases, inl, inr, arith, get_elem?,
}
use cnode.Prelude.Bytes.{Bytes}
use cnode.Redis.{Conf, Conn, Env}
use cnode.RedisPool.{Pool}
use cnode.RedisPool.Client.{remove_at}
use cnode.RedisConf.{Document}
use cnode.PoolAdmin.{
  Admin, new_admin, load_pool_from_file, register_pool, register_all, get_connect, release_connect,
}
use cnode.PoolAdmin.Entries.{at, lookup-at, release_at-some}
use cnode.PoolAdmin.Register.{
  IsAdmin, Keeps, register_pool-IsAdmin, register_pool-none-IsAdmin, register_pool-unnamed-IsAdmin,
  register_all-IsAdmin, load_pool_from_file-IsAdmin,
}
use cnode.PoolAdmin.Lent.{Got, get_connect-Got, release_connect-at}

pub record System : Type 0 where
  pub admin : Admin
  pub lent : List Conn

abbrev pub nothing_lent : System
nothing_lent = record { admin = new_admin; lent = [] }

-- All calls but `DestroyPool`; `releases i` is of the i-th connection that is held.
pub data Call : Type 0 where
  loads : Document → Call
  registers : Option Conf → (ℕ → Env) → Pool → Call
  registers_all : (Bytes → ℕ → Env) → Pool → Call
  gets : Bytes → Env → (ℕ → Env) → Pool → Call
  releases : ℕ → Env → Call

unfoldable pub after_get : List Conn → Option (Admin × ℕ × Option Conn) → Option System
after_get lent none = none
after_get lent (some (a, code, none)) = some (record { admin = a; lent = lent })
after_get lent (some (a, code, some c)) = some (record { admin = a; lent = c ∷ lent })

unfoldable pub after_release : ℕ → List Conn → Option Admin → Option System
after_release i lent none = none
after_release i lent (some a) = some (record { admin = a; lent = remove_at lent i })

-- `none` is the use of a deleted pool, or a `GetConnect` that calls itself more than once.
unfoldable pub step : System → Call → Option System
unfolding after_get after_release load_pool_from_file register_pool register_all get_connect
    release_connect
step s (loads d) = some (record s { admin = (load_pool_from_file d s.admin).0 })
step s (registers conf env raw) = some (record s { admin = (register_pool conf env raw s.admin).0 })
step s (registers_all env raw) = some (record s { admin = (register_all env raw s.admin).0 })
step s (gets name e env raw) = after_get s.lent (get_connect 2 name e env raw s.admin)
step s (releases i e) = elim (get_elem? s.lent i) [
  | none ↦ some s
  | some c ↦ after_release i s.lent (release_connect (some c) e s.admin)
]

unfoldable pub run : System → List Call → Option System
unfolding step
run s [] = some s
run s (c ∷ cs) = elim (step s c) [ none ↦ none | some t ↦ run t cs ]

-- Every connection that is lent has a parent that is there.
abbrev pub Rooted : Admin → Conn → Type 0
Rooted a c = (s : ℕ) × (c.parent ≡ some s) × (1 ≤ at s a.conn_pools)

pub record IsSystem (s : System) : Type 0 where
  pub admin : IsAdmin s.admin
  pub lent : Every (Rooted s.admin) s.lent

Keeps-Rooted :
    (a b : Admin) (cs : List Conn) → Keeps a b → Every (Rooted a) cs → Every (Rooted b) cs
Keeps-Rooted a b [] k h = tt
Keeps-Rooted a b (c ∷ cs) k ((s, p, l), h) = ((s, p, omega (arith, k s)), Keeps-Rooted a b cs k h)

Every-remove_at :
    (a : Admin) (cs : List Conn) (i : ℕ) → Every (Rooted a) cs → Every (Rooted a) (remove_at cs i)
Every-remove_at a [] i h = tt
Every-remove_at a (c ∷ cs) zero h = h.1
Every-remove_at a (c ∷ cs) (suc i) h = (h.0, Every-remove_at a cs i h.1)

Every-get_elem? :
    (a : Admin) (cs : List Conn) (i : ℕ) (c : Conn)
    → Every (Rooted a) cs
    → get_elem? cs i ≡ some c
    → Rooted a c
Every-get_elem? a [] i c h e = absurd cc
Every-get_elem? a (d ∷ cs) zero c h e = (let f : d ≡ c = cc in subst (Rooted a) f h.0)
Every-get_elem? a (d ∷ cs) (suc i) c h e = Every-get_elem? a cs i c h.1 e

-- A call that keeps what is well formed and all pools.
kept :
    (s : System) (b : Admin)
    → IsSystem s
    → IsAdmin b × Keeps s.admin b
    → IsSystem (record s { admin = b })
kept s b v (w, k) = record { admin = w; lent = Keeps-Rooted s.admin b s.lent k v.lent }

after_get-IsSystem :
    (name : Bytes) (s : System) (r : Admin × ℕ × Option Conn)
    → IsSystem s
    → Got name s.admin r
    → (t : System) × (after_get s.lent (some r) ≡ some t) × IsSystem t
unfolding after_get
after_get-IsSystem name s (a, code, none) v g = (
  record { admin = a; lent = s.lent },
  refl,
  record { admin = g.admin; lent = Keeps-Rooted s.admin a s.lent g.keeps v.lent },
)
after_get-IsSystem name s (a, code, some c) v g =
    let (p, l, o) = g.home c refl in
    (
      record { admin = a; lent = c ∷ s.lent },
      refl,
      record {
        admin = g.admin;
        lent = (
          (p.self, o, lookup-at name p a.conn_pools l),
          Keeps-Rooted s.admin a s.lent g.keeps v.lent,
        );
      },
    )

release_connect-IsSystem :
    (s : System) (i : ℕ) (c : Conn) (e : Env)
    → IsSystem s
    → Rooted s.admin c
    → (t : System) × (after_release i s.lent (release_connect (some c) e s.admin) ≡ some t)
      × IsSystem t
unfolding after_release
release_connect-IsSystem s i c e v (q, o, l) =
    let (m, r, h, k) = release_at-some q c e s.admin.conn_pools l o v.admin.pools.homes in
    let b : Admin = record s.admin { conn_pools = m } in
    (
      record { admin = b; lent = remove_at s.lent i },
      ap (after_release i s.lent) (release_connect-at q c e s.admin m o r),
      record {
        admin = record {
          pools = record {
            homes = h;
            fresh = λ x y. k x ∙ v.admin.pools.fresh x y;
            once = λ x. omega (arith, k x, v.admin.pools.once x);
          };
          confs = v.admin.confs;
        };
        lent =
            Every-remove_at b s.lent i
              (Keeps-Rooted s.admin b s.lent (λ x. omega (arith, k x)) v.lent);
      },
    )

step-IsSystem :
    (s : System) (c : Call) → IsSystem s → (t : System) × (step s c ≡ some t) × IsSystem t
unfolding step
step-IsSystem s (loads d) v = (_, refl, kept s _ v (load_pool_from_file-IsAdmin d s.admin v.admin))
step-IsSystem s (registers none env raw) v =
    (_, refl, kept s _ v (register_pool-none-IsAdmin env raw s.admin v.admin))
step-IsSystem s (registers (some conf) env raw) v = elim (Option-cases conf.redisname) [
  | inl n ↦ (_, refl, kept s _ v (register_pool-unnamed-IsAdmin conf env raw s.admin n v.admin))
  | inr (name, n) ↦
      (_, refl, kept s _ v (register_pool-IsAdmin name conf env raw s.admin n v.admin))
]
step-IsSystem s (registers_all env raw) v =
    (_, refl, kept s _ v (register_all-IsAdmin env raw s.admin v.admin))
step-IsSystem s (gets name e env raw) v =
    let (r, f, g) = get_connect-Got 0 name e env raw s.admin v.admin in
    let (t, h, w) = after_get-IsSystem name s r v g in (t, ap (after_get s.lent) f ∙ h, w)
step-IsSystem s (releases i e) v = elim (Option-cases (get_elem? s.lent i)) [
  | inl n ↦ (s, rw (n, step) refl, v)
  | inr (c, n) ↦
      let (t, h, w) =
        release_connect-IsSystem s i c e v (Every-get_elem? s.admin s.lent i c v.lent n) in
      (t, rw (n, step) h, w)
]

pub run-IsSystem :
    (s : System) (cs : List Call) → IsSystem s → (t : System) × (run s cs ≡ some t) × IsSystem t
unfolding run
run-IsSystem s [] v = (s, refl, v)
run-IsSystem s (c ∷ cs) v =
    let (t, f, w) = step-IsSystem s c v in
    let (u, g, x) = run-IsSystem t cs w in (u, rw (run, f) g, x)

-- Any sequence of loads, registrations, `GetConnect` and `ReleaseConnect` of what is held comes to
-- its end: no call uses a pool that was deleted, no `GetConnect` calls itself more than once, and
-- in the end every configuration is under its own name and starts with no more connections than it
-- allows, the pools are set up at addresses of their own, and every connection that is lent has a
-- parent that is there.
pub run-nothing_lent : (cs : List Call) → (t : System) × (run nothing_lent cs ≡ some t) × IsSystem t
run-nothing_lent cs = run-IsSystem nothing_lent cs (record {
  admin = record {
    pools = record { homes = tt; fresh = λ s l. refl; once = λ s. omega arith };
    confs = tt;
  };
  lent = tt;
})
