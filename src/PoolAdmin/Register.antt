-- ===== src/PoolAdmin/Register.antt =====
-- redis/redispooladmin.cpp: loading, registering and destroying keep the map of pools well formed.
use cnode.Prelude.{
  ℕ, ◌≤◌, ◌≡◌, refl, sym, ◌∙◌, List, [], ◌∷◌, Option, none, some, ◌==◌, Every, Bool-cases,
  Option-cases, inl, inr, arith, ◌||◌,
}
use cnode.Prelude.Bytes.{Bytes, lookup, Every-erase}
use cnode.Redis.{Conf, Env}
use cnode.RedisPool.{Pool, init, construct}
use cnode.RedisPool.Parent.{HomeAt, init-HomeAt}
use cnode.RedisConf.{Document, unreadable, rootless, rooted}
use cnode.RedisConf.Load.{IsConf, load_confs-IsConf}
use cnode.PoolAdmin.{
  Admin, load_pool_from_file, new_pool, keep_pool, register_named, register_pool, register_loop,
  register_all, destroy_pool, is_zero,
}
use cnode.PoolAdmin.Entries.{IsPools, at, at-assign_new, assign_new-IsPools, erase-IsPools}

pub record IsAdmin (a : Admin) : Type 0 where
  pub pools : IsPools a.next_pool a.conn_pools
  pub confs : Every IsConf a.all_conf

-- No pool of the first is gone in the second.
abbrev pub Keeps : Admin → Admin → Type 0
Keeps a b = (s : ℕ) → at s a.conn_pools ≤ at s b.conn_pools

pub new_pool-HomeAt :
    (conf : Conf) (name : Bytes) (env : ℕ → Env) (self : ℕ) (raw : Pool)
    → conf.redisname ≡ some name
    → HomeAt self (init (some conf) env (new_pool self raw)).0
unfolding new_pool construct
new_pool-HomeAt conf name env self raw n =
    init-HomeAt conf env (new_pool self raw)
      (λ m. (let e : some name ≡ none = sym n ∙ m in absurd cc))

-- The pool that was set up under a new name.
pub keep_pool-IsAdmin :
    (name : Bytes) (pool : Pool) (ret : ℕ) (a : Admin)
    → lookup name a.conn_pools ≡ none
    → HomeAt a.next_pool pool
    → IsAdmin a
    → IsAdmin (keep_pool name (pool, ret) a).0 × Keeps a (keep_pool name (pool, ret) a).0
unfolding keep_pool
keep_pool-IsAdmin name pool ret a n h v = elim (Bool-cases (ret == 0)) [
  | inl e ↦
      rw (e, keep_pool)
        (
          record {
            pools = assign_new-IsPools a.next_pool name pool a.conn_pools n h v.pools;
            confs = v.confs;
          },
          λ s. omega (arith, at-assign_new s name pool a.conn_pools n),
        )
  | inr e ↦
      rw (e, keep_pool)
        (
          record {
            pools = record {
              homes = v.pools.homes;
              fresh = λ s l. v.pools.fresh s (omega arith);
              once = v.pools.once;
            };
            confs = v.confs;
          },
          λ s. omega arith,
        )
]

pub register_pool-IsAdmin :
    (name : Bytes) (conf : Conf) (env : ℕ → Env) (raw : Pool) (a : Admin)
    → conf.redisname ≡ some name
    → IsAdmin a
    → IsAdmin (register_pool (some conf) env raw a).0
      × Keeps a (register_pool (some conf) env raw a).0
unfolding register_pool
register_pool-IsAdmin name conf env raw a n v = elim (Option-cases (lookup name a.conn_pools)) [
  | inr (p, e) ↦ rw (n, register_pool, register_named, e) (v, λ s. omega arith)
  | inl e ↦
      rw (n, register_pool, register_named, e)
        (keep_pool-IsAdmin name _ _ a e (new_pool-HomeAt conf name env a.next_pool raw n) v)
]

pub register_pool-none-IsAdmin :
    (env : ℕ → Env) (raw : Pool) (a : Admin)
    → IsAdmin a
    → IsAdmin (register_pool none env raw a).0 × Keeps a (register_pool none env raw a).0
unfolding register_pool
register_pool-none-IsAdmin env raw a v = (v, λ s. omega arith)

pub register_pool-unnamed-IsAdmin :
    (conf : Conf) (env : ℕ → Env) (raw : Pool) (a : Admin)
    → conf.redisname ≡ none
    → IsAdmin a
    → IsAdmin (register_pool (some conf) env raw a).0
      × Keeps a (register_pool (some conf) env raw a).0
unfolding register_pool
register_pool-unnamed-IsAdmin conf env raw a n v = rw (n, register_pool) (v, λ s. omega arith)

pub register_loop-IsAdmin :
    (confs : List (Bytes × Conf)) (env : Bytes → ℕ → Env) (raw : Pool) (a : Admin)
    → Every IsConf confs
    → IsAdmin a
    → IsAdmin (register_loop confs env raw a) × Keeps a (register_loop confs env raw a)
unfolding register_loop
register_loop-IsAdmin [] env raw a h v = (v, λ s. omega arith)
register_loop-IsAdmin ((name, conf) ∷ confs) env raw a h v =
    elim (Bool-cases (is_zero conf.process_max_conn_num || is_zero conf.init_conn_num)) [
      | inl e ↦ rw (e, register_loop) (register_loop-IsAdmin confs env raw a h.1 v)
      | inr e ↦
          let (w, k) = register_pool-IsAdmin name conf (env name) raw a h.0.0 v in
          let (x, l) =
            register_loop-IsAdmin confs env raw (register_pool (some conf) (env name) raw a).0 h.1
              w in
          rw (e, register_loop) (x, λ s. omega (arith, k s, l s))
    ]

pub register_all-IsAdmin :
    (env : Bytes → ℕ → Env) (raw : Pool) (a : Admin)
    → IsAdmin a
    → IsAdmin (register_all env raw a).0 × Keeps a (register_all env raw a).0
unfolding register_all
register_all-IsAdmin env raw a v = register_loop-IsAdmin a.all_conf env raw a v.confs v

pub load_pool_from_file-IsAdmin :
    (d : Document) (a : Admin)
    → IsAdmin a
    → IsAdmin (load_pool_from_file d a).0 × Keeps a (load_pool_from_file d a).0
unfolding load_pool_from_file
load_pool_from_file-IsAdmin unreadable a v = (v, λ s. omega arith)
load_pool_from_file-IsAdmin rootless a v = (v, λ s. omega arith)
load_pool_from_file-IsAdmin (rooted root children) a v = (
  record { pools = v.pools; confs = load_confs-IsConf root children a.all_conf v.confs },
  λ s. omega arith,
)

pub destroy_pool-IsAdmin :
    (name : Option Bytes) (a : Admin) → IsAdmin a → IsAdmin (destroy_pool name a)
unfolding destroy_pool
destroy_pool-IsAdmin none a v = record {
  pools = record { homes = tt; fresh = λ s l. refl; once = λ s. omega arith };
  confs = tt;
}
destroy_pool-IsAdmin (some name) a v = record {
  pools = erase-IsPools a.next_pool name a.conn_pools v.pools;
  confs = Every-erase IsConf name a.all_conf v.confs;
}
