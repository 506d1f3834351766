-- ===== src/PoolAdmin/Get.antt =====
-- redis/redispooladmin.cpp: `GetConnect`, which calls itself, and `ReleaseConnect` of what it gave.
use cnode.Prelude.{
  ℕ, suc, ◌≡◌, refl, ap, ◌∙◌, true, false, Option, none, some, ◌==◌, if◌then◌else◌, Every,
  Bool-cases, Option-cases, inl, inr, arith,
}
use cnode.Prelude.Bytes.{Bytes, eq_bytes, eq_bytes_iff, lookup, lookup-assign, Every-lookup}
use cnode.Redis.{Conf, Conn, Env, err_invalid_name, err_param_input}
use cnode.RedisPool
use cnode.RedisPool.{Pool}
use cnode.RedisConf.Load.{IsConf}
use cnode.PoolAdmin.{Admin, new_pool, keep_pool, register_named, register_pool, borrow, get_connect}

-- `GetConnect` told without a call of itself: a name without a pool gets one first, if it has a
-- configuration and its pool can be set up.
abbrev pub get_or_register : Bytes → Env → (ℕ → Env) → Pool → Admin → Admin × ℕ × Option Conn
get_or_register name e env raw a = elim (lookup name a.conn_pools) [
  | some pool ↦ borrow name e pool a
  | none ↦ elim (lookup name a.all_conf) [
    | none ↦ (a, err_invalid_name, none)
    | some conf ↦
        let made = RedisPool.init (some conf) env (new_pool a.next_pool raw) in
        let kept = keep_pool name made a in
        if made.1 == 0 then borrow name e made.0 kept.0 else (kept.0, kept.1, none)
  ]
]

-- The code that a new pool's `init` gives is passed on, with the pool under its name if it is 0.
pub keep_pool-code :
    (name : Bytes) (made : Pool × ℕ) (a : Admin)
    → ((keep_pool name made a).1 ≡ made.1)
      × (made.1 ≡ 0
          → lookup name a.conn_pools ≡ none
          → lookup name (keep_pool name made a).0.conn_pools ≡ some made.0)
      × ((i : Bytes)
          → eq_bytes name i ≡ false
          → lookup i (keep_pool name made a).0.conn_pools ≡ lookup i a.conn_pools)
unfolding keep_pool
keep_pool-code name made a = elim (Bool-cases (made.1 == 0)) [
  | inl e ↦
      rw (e, keep_pool)
        (
          ground (arith, e),
          λ f g.
              lookup-assign name name made.0 a.conn_pools ∙ ground (arith, eq_bytes_iff name name),
          λ i n. lookup-assign name i made.0 a.conn_pools ∙ rw n refl,
        )
  | inr e ↦ rw (e, keep_pool) (refl, λ f g. absurd (ground (arith, e, f)), λ i n. refl)
]

abbrev again : ℕ → Bytes → Env → (ℕ → Env) → Pool → Admin × ℕ → Option (Admin × ℕ × Option Conn)
unfolding get_connect
again fuel name e env raw r = elim (r.1 == 0) [
  | true ↦ get_connect fuel name e env raw r.0
  | false ↦ some (r.0, r.1, none)
]

get_connect_registered :
    (fuel : ℕ) (name : Bytes) (e : Env) (env : ℕ → Env) (raw pool : Pool) (a : Admin)
    → lookup name a.conn_pools ≡ some pool
    → get_connect (suc fuel) name e env raw a ≡ some (borrow name e pool a)
unfolding get_connect
get_connect_registered fuel name e env raw pool a f = rw (get_connect, f) refl

get_connect_first :
    (fuel : ℕ) (name : Bytes) (e : Env) (env : ℕ → Env) (raw : Pool) (conf : Conf) (a : Admin)
    → conf.redisname ≡ some name
    → lookup name a.conn_pools ≡ none
    → lookup name a.all_conf ≡ some conf
    → get_connect (suc fuel) name e env raw a
      ≡ again fuel name e env raw
          (keep_pool name (RedisPool.init (some conf) env (new_pool a.next_pool raw)) a)
unfolding get_connect register_pool register_named
get_connect_first fuel name e env raw conf a n f g =
    let at_new_name : register_named name conf env raw a
        ≡ keep_pool name (RedisPool.init (some conf) env (new_pool a.next_pool raw)) a =
      rw (register_named, f) refl in
    let r : register_pool (some conf) env raw a
        ≡ keep_pool name (RedisPool.init (some conf) env (new_pool a.next_pool raw)) a =
      ap
        (λ (o : Option Bytes). (elim o [
          | none ↦ (a, err_param_input)
          | some k ↦ register_named k conf env raw a
        ]))
        n
      ∙ at_new_name in
    let t : get_connect (suc fuel) name e env raw a
        ≡ again fuel name e env raw (register_pool (some conf) env raw a) =
      rw (get_connect, f, g) refl in
    t ∙ ap (again fuel name e env raw) r

again_kept :
    (fuel code : ℕ) (name : Bytes) (e : Env) (env : ℕ → Env) (raw pool : Pool) (r : Admin × ℕ)
    → r.1 ≡ code
    → (code ≡ 0 → lookup name r.0.conn_pools ≡ some pool)
    → again (suc fuel) name e env raw r
      ≡ some (if code == 0 then borrow name e pool r.0 else (r.0, r.1, none))
unfolding again get_connect
again_kept fuel code name e env raw pool r k l = elim (Bool-cases (code == 0)) [
  | inl z ↦
      rw (again, k, z) (get_connect_registered fuel name e env raw pool r.0 (l (ground (arith, z))))
  | inr z ↦ rw (again, k, z) (ap (λ c. some (r.0, c, none)) k)
]

-- When the configurations are kept under their own names, `GetConnect` calls itself once at most:
-- it ends, and it does what the description without that call says.
pub get_connect-once :
    (fuel : ℕ) (name : Bytes) (e : Env) (env : ℕ → Env) (raw : Pool) (a : Admin)
    → Every IsConf a.all_conf
    → get_connect (suc (suc fuel)) name e env raw a ≡ some (get_or_register name e env raw a)
unfolding get_connect
get_connect-once fuel name e env raw a h = elim (Option-cases (lookup name a.conn_pools)) [
  | inr (p, f) ↦ rw (get_connect, get_or_register, f) refl
  | inl f ↦ elim (Option-cases (lookup name a.all_conf)) [
    | inl g ↦ rw (get_connect, get_or_register, f, g) refl
    | inr (conf, g) ↦
        get_connect_first (suc fuel) name e env raw conf a
          ((Every-lookup IsConf name conf a.all_conf h g).0) f g
        ∙ (let made = RedisPool.init (some conf) env (new_pool a.next_pool raw) in
            let (k, l, _) = keep_pool-code name made a in
            rw (get_or_register, f, g)
              (again_kept fuel made.1 name e env raw made.0 (keep_pool name made a) k (λ z. l z f)))
  ]
]
