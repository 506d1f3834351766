-- ===== src/RedisPool/Parent.antt =====
-- redis/redispool.cpp: a connection's `parent` is the pool that made it, in the pool and outside.
use cnode.Prelude.{
  ℕ, zero, suc, ◌+◌, ◌≡◌, ◌≢◌, refl, sym, ap, subst, ◌∙◌, Bool, true, not, ◌&&◌, List, [], ◌∷◌,
  Option, none, some, Every, Every-append, Bool-cases, Option-cases, inl, inr, arith, ltb,
  if◌then◌else◌,
}
use cnode.Prelude.Int.{to_u32}
use cnode.Redis.{Conf, Conn, Env, err_param_input}
use cnode.RedisPool.{
  Pool, create_connect, add_pooled, init_loop, init, get_connect, rel_connect, open_new, register,
  check_idle, finish_get, take_from, discard, destroy_connect, can_create_poolconn,
}
use cnode.RedisPool.Invariant.{started, init-started}

abbrev pub IsHome : ℕ → List Conn → Type 0
IsHome self free = Every (λ c. c.parent ≡ some self) free

-- A pool at an address, set up, whose free connections are its own.
pub record HomeAt (self : ℕ) (p : Pool) : Type 0 where
  pub address : p.self ≡ self
  pub inited : p.inited ≡ true
  pub free : IsHome self p.freeconn_list

create_connect-parent :
    (p : Pool) (e : Env)
    → ((create_connect p e).0.self ≡ p.self)
      × ((create_connect p e).0.freeconn_list ≡ p.freeconn_list)
      × ((create_connect p e).0.inited ≡ p.inited)
      × ((c : Conn) → (create_connect p e).1 ≡ some c → c.parent ≡ some p.self)
unfolding create_connect
create_connect-parent p e = elim (Bool-cases e.connects) [
  | inl f ↦ rw (f, create_connect) (refl, refl, refl, λ c g. ground (arith, g))
  | inr f ↦ rw (f, create_connect) (refl, refl, refl, λ c g. absurd (ground (arith, g)))
]

-- What `init_pool` keeps: the address, and that the free connections are the pool's own.
record Filled (self : ℕ) (p : Pool) : Type 0 where
  address : p.self ≡ self
  free : IsHome self p.freeconn_list

add_pooled-Filled :
    (self : ℕ) (p : Pool) (e : Env) (c : Conn)
    → (create_connect p e).1 ≡ some c
    → Filled self p
    → Filled self (add_pooled (create_connect p e).0 c)
unfolding add_pooled
add_pooled-Filled self p e c m v =
    let (s, f, t, g) = create_connect-parent p e in
    record {
      address = s ∙ v.address;
      free =
          Every-append (λ d. d.parent ≡ some self) (create_connect p e).0.freeconn_list _
            (subst (IsHome self) (sym f) v.free) (g c m ∙ ap (λ k. some k) v.address, tt);
    }

init_loop-Filled :
    (self count num : ℕ) (env : ℕ → Env) (p : Pool)
    → Filled self p
    → Filled self (init_loop count num env p).0
unfolding init_loop
init_loop-Filled self zero num env p v = v
init_loop-Filled self (suc count) num env p v =
    let q = (create_connect p (env num)).0 in
    elim (Bool-cases (can_create_poolconn p)) [
      | inr f ↦ rw (f, init_loop) v
      | inl f ↦ elim (Option-cases (create_connect p (env num)).1) [
        | inl e ↦
            let (s, g, t, o) = create_connect-parent p (env num) in
            rw (f, e, init_loop)
              (record { address = s ∙ v.address; free = subst (IsHome self) (sym g) v.free })
        | inr (c, e) ↦
            rw (f, e, init_loop)
              (init_loop-Filled self count (num + 1) env (add_pooled q c)
                (add_pooled-Filled self p (env num) c e v))
      ]
    ]

-- The pool that `init` set up.
pub init-HomeAt :
    (conf : Conf) (env : ℕ → Env) (p : Pool)
    → conf.redisname ≢ none
    → HomeAt p.self (init (some conf) env p).0
init-HomeAt conf env p named =
    let v =
      init_loop-Filled p.self (to_u32 conf.init_conn_num) 0 env (started conf p)
        (record { address = refl; free = tt }) in
    rw (init-started conf env p named)
      (record { address = v.address; inited = refl; free = v.free })

-- What a call of `getConnect` leaves behind and hands out.
abbrev pub Handed : ℕ → Pool × ℕ × Option Conn → Type 0
Handed self r = HomeAt self r.0 × ((c : Conn) → r.2 ≡ some c → c.parent ≡ some self)

none_handed : (self : ℕ) (c : Conn) → none ≡ some c → c.parent ≡ some self
none_handed self c f = absurd cc

one_handed :
    (self : ℕ) (d : Conn)
    → d.parent ≡ some self
    → (c : Conn) → some d ≡ some c
    → c.parent ≡ some self
one_handed self d o c f = (let g : d ≡ c = cc in subst (λ k. k.parent ≡ some self) g o)

open_new-Handed :
    (self : ℕ) (only_pool can_create : Bool) (e : Env) (p : Pool)
    → HomeAt self p
    → Handed self (open_new only_pool can_create e p)
unfolding open_new register
open_new-Handed self only_pool can_create e p h = elim (Bool-cases (only_pool && not can_create)) [
  | inl f ↦ rw (f, open_new) (h, none_handed self)
  | inr f ↦
      let (s, g, t, o) = create_connect-parent p e in
      let k : HomeAt self (create_connect p e).0 = record {
        address = s ∙ h.address;
        inited = t ∙ h.inited;
        free = subst (IsHome self) (sym g) h.free;
      } in
      elim (Option-cases (create_connect p e).1) [
        | inl m ↦ rw (f, m, open_new) (k, none_handed self)
        | inr (c, m) ↦
            rw (f, m, open_new)
              (
                record { address = k.address; inited = k.inited; free = k.free },
                one_handed self _ (o c m ∙ ap (λ i. some i) h.address),
              )
      ]
]

check_idle-Handed :
    (self : ℕ) (c : Conn) (e : Env) (p : Pool)
    → c.parent ≡ some self
    → HomeAt self p
    → Handed self (check_idle c e p)
unfolding check_idle discard destroy_connect
check_idle-Handed self c e p o h =
    elim (Bool-cases (ltb (c.last_user_time + p.wait_timeout) e.now)) [
      | inr f ↦ rw (f, check_idle) (h, one_handed self c o)
      | inl f ↦ elim (Bool-cases e.alive) [
        | inl g ↦ rw (f, g, check_idle) (h, one_handed self c o)
        | inr g ↦ elim (Bool-cases e.reconnects) [
          | inl k ↦ rw (f, g, k, check_idle) (h, one_handed self _ o)
          | inr k ↦
              rw (f, g, k, check_idle)
                (record { address = h.address; inited = h.inited; free = h.free }, none_handed self)
        ]
      ]
    ]

taken-Handed :
    (self : ℕ) (only_pool : Bool) (e : Env) (free : List Conn) (p : Pool)
    → p.freeconn_list ≡ free
    → HomeAt self p
    → Handed self (finish_get only_pool e (take_from free p))
unfolding finish_get take_from
taken-Handed self only_pool e [] p f h = open_new-Handed self only_pool _ e p h
taken-Handed self only_pool e (c ∷ rest) p f h =
    let k : IsHome self (c ∷ rest) = subst (IsHome self) f h.free in
    check_idle-Handed self c e (record p { freeconn_list = rest }) k.0
      (record { address = h.address; inited = h.inited; free = k.1 })

pub get_connect-Handed :
    (self : ℕ) (only_pool : Bool) (e : Env) (p : Pool)
    → HomeAt self p
    → Handed self (get_connect only_pool e p)
unfolding get_connect
get_connect-Handed self only_pool e p h =
    subst
      (λ b. Handed self (
        if b
        then finish_get only_pool e (take_from p.freeconn_list p)
        else (p, err_param_input, none)))
      (sym h.inited) (taken-Handed self only_pool e p.freeconn_list p refl h)

pub rel_connect-HomeAt :
    (self : ℕ) (c : Conn) (check : Bool) (e : Env) (p : Pool)
    → c.parent ≡ some self
    → HomeAt self p
    → HomeAt self (rel_connect (some c) check e p)
unfolding rel_connect
rel_connect-HomeAt self c check e p o h = elim (Bool-cases c.inpool) [
  | inr f ↦
      rw (h.inited, f, rel_connect) (record { address = h.address; inited = refl; free = h.free })
  | inl f ↦ elim (Bool-cases (check && not e.alive)) [
    | inl g ↦
        rw (h.inited, f, g, rel_connect)
          (record { address = h.address; inited = refl; free = h.free })
    | inr g ↦
        rw (h.inited, f, g, rel_connect)
          (record {
            address = h.address;
            inited = refl;
            free = Every-append (λ d. d.parent ≡ some self) p.freeconn_list _ h.free (o, tt);
          })
  ]
]
