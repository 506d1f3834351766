-- ===== src/UserLog/Session.antt =====
-- A user's session: what `userOnline` writes is what `userOffline` updates.
use mathlib.Core.List.{mem-cons_of_mem, mem-cons_self}
use cnode.Prelude.{
  ℕ, ◌≡◌, ◌≢◌, refl, List, [], ◌∷◌, ◌++◌, Mem, arith, subst, sym, ◌∙◌, ◌⊎◌, inl, inr, Bool-cases,
  ltb, ◌%◌, ◌/◌, ◌&&◌, not, ◌==◌, Bool, true, zero, suc,
}
use cnode.StrParse.{all_of}
use cnode.Prelude.Bytes.{Bytes, codes}
use cnode.UserLog.{
  UserData, Call, mongo_inserted, mongo_updated, mongo_released, redis_stored, mongo_taken,
  redis_got, redis_taken, redis_deleted, mongo_geterr, redis_released, Services, St, online_text,
  offline_text, id_text, id_key,
}
use cnode.UserLog.Tasks.{
  ask, ask_text, take_redis, take_mongo, release_redis, release_mongo, cached_id, find_object_id,
  new_object_id, insert_log, log_online, user_online, update_log, drop_key, user_offline,
}
use cnode.IdManage.{print_hex, hex_char}

-- A byte above the blank that is no `%`, and a text that the format of `redisCommand` takes as one
-- word.
abbrev pub is_word_byte : ℕ → Bool
is_word_byte c = ltb 32 c && not (c == b'%')

abbrev pub IsWord : Bytes → Type 0
IsWord s = (s ≢ []) × (all_of is_word_byte s ≡ true)

-- Both pools have a connection to lend, Redis keeps a word under a key that is one: `cache` tells what
-- a world holds; and the ids of `IdMgr` are words, unless it gives none.
pub record IsStore {W : Type 0} (s : Services W) (cache : W → Bytes → Bytes) : Type 0 where
  pub redis_connects : (w : W) → (s.redis_connect w).1 ≡ 0
  pub mongo_connects : (w : W) → (s.mongo_connect w).1 ≡ 0
  pub gets : (k : Bytes) (w : W) → IsWord k → (s.redis_get k w).2 ≡ cache w k
  pub sets : (k v : Bytes) (w : W) → IsWord k → IsWord v → cache (s.redis_set k v w).0 k ≡ v
  pub ids : (w : W) → all_of is_word_byte (s.get_object_id w).2 ≡ true
  pub connect_keeps : (k : Bytes) (w : W) → cache (s.redis_connect w).0 k ≡ cache w k
  pub release_keeps : (k : Bytes) (w : W) → cache (s.redis_release w) k ≡ cache w k

snoc-ne-nil : (a : Bytes) (c : ℕ) → a ++ c ∷ [] ≢ []
snoc-ne-nil [] c = ground arith
snoc-ne-nil (d ∷ a) c = ground arith

append-ne-nil : (a b : Bytes) → a ≢ [] → a ++ b ≢ []
append-ne-nil [] b h = absurd (h refl)
append-ne-nil (c ∷ a) b h = ground arith

print_hex-ne-nil : (n : ℕ) → print_hex 8 n ≢ []
unfolding print_hex
print_hex-ne-nil n = elim (Bool-cases (ltb n 16)) [
  | inl e ↦ rw e (ground arith)
  | inr e ↦ rw e (snoc-ne-nil _ _)
]

new_object_id-ne-nil :
    {W : Type 0} (s : Services W) (thidx : ℕ) (st : St W) → (new_object_id s thidx st).1 ≢ []
unfolding new_object_id
new_object_id-ne-nil s thidx st =
    let (w, ret, id) = s.get_object_id st.world in
    let (v, now, rand) = s.time_and_rand w in
    let a = append-ne-nil (print_hex 8 now) (print_hex 8 thidx) (print_hex-ne-nil now) in
    let b = append-ne-nil (print_hex 8 now ++ print_hex 8 thidx) (print_hex 8 (rand % 10000)) a in
    ground arith

all_of-append :
    (p : ℕ → Bool) (a b : Bytes) → all_of p a ≡ true → all_of p b ≡ true → all_of p (a ++ b) ≡ true
unfolding all_of
all_of-append p [] b h k = k
all_of-append p (c ∷ a) b h k = ground (arith, all_of-append p a b, h, k)

print_hex-all_of : (fuel n : ℕ) → all_of is_word_byte (print_hex fuel n) ≡ true
unfolding print_hex hex_char all_of
print_hex-all_of zero n = refl
print_hex-all_of (suc fuel) n = elim (Bool-cases (ltb n 16)) [
  | inl e ↦ rw (e, print_hex) (ground (arith, e))
  | inr e ↦
      rw (e, print_hex)
        (all_of-append is_word_byte (print_hex fuel (n / 16)) _ (print_hex-all_of fuel (n / 16))
          (ground arith))
]

new_object_id-IsWord :
    {W : Type 0} (s : Services W) (cache : W → Bytes → Bytes)
    → IsStore s cache
    → (thidx : ℕ) (st : St W) → IsWord (new_object_id s thidx st).1
unfolding new_object_id
new_object_id-IsWord s cache h thidx st =
    let (w, ret, id) = s.get_object_id st.world in
    let (v, now, rand) = s.time_and_rand w in
    let a =
      all_of-append is_word_byte (print_hex 8 now) (print_hex 8 thidx) (print_hex-all_of 8 now)
        (print_hex-all_of 8 thidx) in
    let b =
      all_of-append is_word_byte (print_hex 8 now ++ print_hex 8 thidx) (print_hex 8 (rand % 10000))
        a (print_hex-all_of 8 (rand % 10000)) in
    (new_object_id-ne-nil s thidx st, ground (arith, b, h.ids st.world))

id_key-IsWord : (mac : Bytes) → all_of is_word_byte mac ≡ true → IsWord (id_key mac)
unfolding all_of
id_key-IsWord mac h = (λ e. cc, ground (arith, h))

module _ {W : Type 0} (s : Services W) (cache : W → Bytes → Bytes) (h : IsStore s cache) where
  insert_log-stores :
      (u : UserData) (devmac devid objid : Bytes) (st : St W)
      → IsWord u.mac
      → IsWord objid
      → (insert_log s u devmac devid objid st).1 ≡ 0
      → (cache (insert_log s u devmac devid objid st).0.world (id_key u.mac) ≡ objid)
        × ((insert_log s u devmac devid objid st).0.calls
            ≡ redis_stored (id_key u.mac) objid
              ∷ mongo_released
              ∷ mongo_inserted (online_text u devmac devid objid)
              ∷ mongo_taken 0
              ∷ st.calls)
  unfolding insert_log take_mongo ask release_mongo
  insert_log-stores u devmac devid objid st m n e =
      let c = h.mongo_connects st.world in
      let d =
        h.sets (id_key u.mac) objid
          (s.mongo_release
            (s.mongo_insert (online_text u devmac devid objid) (s.mongo_connect st.world).0).0)
          (id_key-IsWord u.mac m.1) n in
      ground arith

  -- What `userOnline` has done when it answers 0.
  user_online-stores :
      (u : UserData) (devmac : Bytes) (thidx : ℕ) (st : St W)
      → IsWord u.mac
      → (user_online s u devmac thidx st).1 ≡ 0
      → (devid : Bytes) × (objid : Bytes) × (rest : List Call) × (objid ≢ [])
        × (cache (user_online s u devmac thidx st).0.world (id_key u.mac) ≡ objid)
        × ((user_online s u devmac thidx st).0.calls
            ≡ redis_released
              ∷ redis_stored (id_key u.mac) objid
              ∷ mongo_released
              ∷ mongo_inserted (online_text u devmac devid objid)
              ∷ rest)
  unfolding user_online log_online take_redis release_redis ask_text
  user_online-stores u devmac thidx st m e =
      let key = codes "device_id_mac:" ++ devmac in
      let t = (take_redis s st).0 in
      let a = ask_text (redis_got key) (s.redis_get key) t in
      let b = new_object_id s thidx a.0 in
      let c = insert_log-stores u devmac a.2 b.1 b.0 m (new_object_id-IsWord s cache h thidx a.0) in
      let d = insert_log s u devmac a.2 b.1 b.0 in
      let k = h.redis_connects st.world in
      let r = h.release_keeps (id_key u.mac) d.0.world in
      (
        a.2,
        b.1,
        mongo_taken 0 ∷ b.0.calls,
        new_object_id-ne-nil s thidx a.0,
        ground arith,
        ground arith,
      )

  find_object_id-cached :
      (mac devmac : Bytes) (st : St W)
      → IsWord mac
      → cache st.world (id_key mac) ≢ []
      → ((find_object_id s mac devmac st).1 ≡ 0)
        × ((find_object_id s mac devmac st).2 ≡ cache st.world (id_key mac))
  unfolding find_object_id cached_id take_redis ask_text release_redis
  find_object_id-cached [] devmac st m n = absurd (m.0 refl)
  find_object_id-cached (c ∷ mac) devmac st m n =
      let k = h.redis_connects st.world in
      let g =
        h.gets (id_key (c ∷ mac)) (s.redis_connect st.world).0 (id_key-IsWord (c ∷ mac) m.1) in
      let e = h.connect_keeps (id_key (c ∷ mac)) st.world in ground arith

  update_log-calls :
      (objid set : Bytes) (st : St W)
      → ((update_log s objid set st).0.calls
          ≡ mongo_released ∷ mongo_updated (id_text objid) set ∷ mongo_taken 0 ∷ st.calls)
        ⊎ ((update_log s objid set st).0.calls
            ≡ mongo_released
              ∷ mongo_geterr
              ∷ mongo_updated (id_text objid) set
              ∷ mongo_taken 0
              ∷ st.calls)
  unfolding update_log take_mongo ask release_mongo
  update_log-calls objid set st = let k = h.mongo_connects st.world in ground arith

  update_log-updates :
      (objid set : Bytes) (st : St W)
      → Mem (mongo_updated (id_text objid) set) (update_log s objid set st).0.calls
  update_log-updates objid set st = elim (update_log-calls objid set st) [
    | inl e ↦
        subst (Mem (mongo_updated (id_text objid) set)) (sym e) (mem-cons_of_mem _ mem-cons_self)
    | inr e ↦
        subst (Mem (mongo_updated (id_text objid) set)) (sym e)
          (mem-cons_of_mem _ (mem-cons_of_mem _ mem-cons_self))
  ]

  drop_key-calls :
      (mac : Bytes) (st : St W)
      → (drop_key s mac st).0.calls
        ≡ redis_released ∷ redis_deleted (id_key mac) ∷ redis_taken 0 ∷ st.calls
  unfolding drop_key take_redis ask release_redis
  drop_key-calls mac st = let k = h.redis_connects st.world in ground arith

  drop_key-keeps :
      (c : Call) (mac : Bytes) (st : St W) → Mem c st.calls → Mem c (drop_key s mac st).0.calls
  drop_key-keeps c mac st m =
      subst (Mem c) (sym (drop_key-calls mac st))
        (mem-cons_of_mem _ (mem-cons_of_mem _ (mem-cons_of_mem _ m)))

  user_offline-updates :
      (v : UserData) (devmac objid : Bytes) (st : St W)
      → IsWord v.mac
      → objid ≢ []
      → cache st.world (id_key v.mac) ≡ objid
      → Mem (mongo_updated (id_text objid) (offline_text v)) (user_offline s v devmac st).0.calls
  unfolding user_offline
  user_offline-updates v devmac objid st m n e =
      let f = find_object_id s v.mac devmac st in
      let g = find_object_id-cached v.mac devmac st m (λ x. n (sym e ∙ x)) in
      let i : f.2 ≡ objid = g.1 ∙ e in
      let a = update_log s f.2 (offline_text v) f.0 in
      let b : Mem (mongo_updated (id_text objid) (offline_text v)) a.0.calls =
        subst (λ o. Mem (mongo_updated (id_text o) (offline_text v)) a.0.calls) i
          (update_log-updates f.2 (offline_text v) f.0) in
      let c = drop_key-keeps (mongo_updated (id_text objid) (offline_text v)) v.mac a.0 b in
      ground arith

-- With both pools able to lend, a Redis that keeps a word under a key that is one, and an `IdMgr` whose
-- ids are words: when `userOnline` of a user MAC that is a word answers 0, there are ids such that it
-- has inserted the document with this `_id`, and a `userOffline` for the same user MAC updates the
-- document of this `_id`, whatever the device it is sent for, in any later state in which Redis
-- still holds what it held then under the key of this user MAC.
pub user_offline-user_online :
    {W : Type 0} (s : Services W) (cache : W → Bytes → Bytes)
    → IsStore s cache
    → (u v : UserData) (devmac devmac' : Bytes) (thidx : ℕ) (st later : St W) → v.mac ≡ u.mac
    → IsWord u.mac
    → (user_online s u devmac thidx st).1 ≡ 0
    → cache later.world (id_key u.mac)
      ≡ cache (user_online s u devmac thidx st).0.world (id_key u.mac)
    → (devid : Bytes) × (objid : Bytes) × Mem
        (mongo_inserted (online_text u devmac devid objid))
        (user_online s u devmac thidx st).0.calls
      × Mem
          (mongo_updated (id_text objid) (offline_text v))
          (user_offline s v devmac' later).0.calls
user_offline-user_online s cache h u v devmac devmac' thidx st later same m e kept =
    let (devid, objid, rest, n, c, l) = user_online-stores s cache h u devmac thidx st m e in
    let key : cache later.world (id_key v.mac) ≡ objid =
      subst (λ x. cache later.world (id_key x) ≡ objid) (sym same) (kept ∙ c) in
    let word : IsWord v.mac = subst IsWord (sym same) m in
    (
      devid,
      objid,
      subst (Mem (mongo_inserted (online_text u devmac devid objid))) (sym l)
          (mem-cons_of_mem _ (mem-cons_of_mem _ (mem-cons_of_mem _ mem-cons_self))),
      user_offline-updates s cache h v devmac' objid later word n key,
    )
