-- ===== src/ThreadData/Deleted.antt =====
-- threaddata.cpp, dealbase.cpp: every handler is deleted once, and none is used afterwards.
use cnode.Prelude.{
  ℕ, ◌≡◌, refl, sym, ap, ◌∙◌, subst, Bool, true, false, List, [], ◌∷◌, none, some, arith,
  Option-cases, inl, inr,
}
use cnode.ThreadData.{
  ThreadData, keys, del_dealer, delete_dealing, del_all_dealer, post_delete_me, force_delete,
  force_delete_of, asyn_del_timer, push_resume, pop_resume, erase_heap, tdata_of, clear_tdata,
  remove_deal,
}
use cnode.ThreadData.Heap.{
  times, attached, detached, live, tdata_of-clear_tdata, times-erase_key, attached-tdata_of,
  erase_heap-live, erase_heap-attached,
}
use cnode.ThreadData.Lifetime.{
  Step, made, posted, forced, timed, pushed, popped, Reachable, start, next, IsBalanced,
  rmdeal-deleted, dealing-deleted, made-IsBalanced, posted-IsBalanced, forced-IsBalanced,
}

timed-some :
    (td : ThreadData)
    → IsBalanced td
    → (o : List (ℕ × Bool)) × (asyn_del_timer td
        ≡ some (record td { heap = o; rmdeal = []; asyn_timer = false }))
      × IsBalanced (record td { heap = o; rmdeal = []; asyn_timer = false })
unfolding asyn_del_timer del_dealer
timed-some td b =
    let (o, e, c) = rmdeal-deleted td b in (o, rw (e, asyn_del_timer, del_dealer) refl, c)

post_delete_me-some :
    (p : ℕ) (td u : ThreadData)
    → post_delete_me p td ≡ some u
    → (tdata_of p td.heap ≡ some true)
      × (record (remove_deal p true td) { asyn_timer = true; heap = clear_tdata p td.heap } ≡ u)
unfolding post_delete_me
post_delete_me-some p td u e = elim (Option-cases (tdata_of p td.heap)) [
  | inl n ↦ (let f : none ≡ some u = rw (n, post_delete_me) at e in cc)
  | inr (true, n) ↦
      (let f : some
              (record (remove_deal p true td) { asyn_timer = true; heap = clear_tdata p td.heap })
            ≡ some u =
          rw (n, post_delete_me) at e in
        (n, cc))
  | inr (false, n) ↦ (let f : none ≡ some u = rw (n, post_delete_me) at e in cc)
]

force_delete-some :
    (p : ℕ) (td u : ThreadData)
    → force_delete_of p td ≡ some u
    → (o : List (ℕ × Bool)) × (tdata_of p td.heap ≡ some true)
      × (erase_heap p td.heap ≡ some o)
      × (record (remove_deal p false td) { heap = o } ≡ u)
unfolding force_delete_of
force_delete-some p td u e = elim (Option-cases (tdata_of p td.heap)) [
  | inl n ↦ (let f : none ≡ some u = rw (n, force_delete_of) at e in cc)
  | inr (true, n) ↦ elim (Option-cases (erase_heap p td.heap)) [
    | inl m ↦ (let f : none ≡ some u = rw (n, m, force_delete_of) at e in cc)
    | inr (o, m) ↦
        (let f : some (record (remove_deal p false td) { heap = o }) ≡ some u =
            rw (n, m, force_delete_of) at e in
          (o, n, m, cc))
  ]
  | inr (false, n) ↦ (let f : none ≡ some u = rw (n, force_delete_of) at e in cc)
]

popped-IsBalanced : (td : ThreadData) → IsBalanced td → IsBalanced ((pop_resume td).0)
unfolding pop_resume
popped-IsBalanced td b = go td.resume refl
  where
    go : (r : List ℕ) → td.resume ≡ r → IsBalanced ((pop_resume td).0)
    go [] e = rw (e, pop_resume) b
    go (p ∷ rest) e = rw (e, pop_resume) b

step-IsBalanced : (td u : ThreadData) → Step td u → IsBalanced td → IsBalanced u
unfolding push_resume
step-IsBalanced td u (made _ p t n) b = made-IsBalanced td p t n b
step-IsBalanced td u (posted _ _ p e) b =
    let (n, f) = post_delete_me-some p td u e in subst IsBalanced f (posted-IsBalanced td p n b)
step-IsBalanced td u (forced _ _ p e) b =
    let (o, n, m, f) = force_delete-some p td u e in
    subst IsBalanced f (forced-IsBalanced td p o n m b)
step-IsBalanced td u (timed _ _ t e) b =
    let (o, f, c) = timed-some td b in
    let g : some (record td { heap = o; rmdeal = []; asyn_timer = false }) ≡ some u = sym f ∙ e in
    let h : record td { heap = o; rmdeal = []; asyn_timer = false } ≡ u = cc in subst IsBalanced h c
step-IsBalanced td u (pushed _ p) b = b
step-IsBalanced td u (popped _) b = popped-IsBalanced td b

-- In every state that the thread reaches.
pub Reachable-IsBalanced : (td : ThreadData) → Reachable td → IsBalanced td
Reachable-IsBalanced td start = record {
  attached_dealing = λ x. refl;
  detached_rmdeal = λ x. refl;
  once = λ x. omega arith;
  due = λ x l. absurd (omega arith);
}
Reachable-IsBalanced td (next s _ r t) = step-IsBalanced s td t (Reachable-IsBalanced s r)

-- In every state that a thread reaches, `delAllDealer` deletes every handler that was made and not
-- deleted yet, each of them once: it uses no pointer to a deleted one, and it leaves none.
pub del_all_dealer-frees :
    (td : ThreadData)
    → Reachable td
    → del_all_dealer td ≡ some (record td { heap = []; rmdeal = []; dealing = [] })
unfolding del_all_dealer del_dealer delete_dealing
del_all_dealer-frees td r =
    let (o, e, c) = rmdeal-deleted td (Reachable-IsBalanced td r) in
    let f = dealing-deleted td.dealing o false c in
    rw (e, del_all_dealer, del_dealer, delete_dealing, f) refl

-- In every state that a thread reaches, the timer is set when `rmdeal` is not empty, and what it
-- calls uses no pointer to a deleted handler, empties `rmdeal`, deletes the handlers that were
-- posted and leaves the others.
pub asyn_del_timer-deletes :
    (td : ThreadData)
    → Reachable td
    → ((p : ℕ) (ps : List ℕ) → td.rmdeal ≡ p ∷ ps → td.asyn_timer ≡ true)
      × (o : List (ℕ × Bool)) × (asyn_del_timer td
          ≡ some (record td { heap = o; rmdeal = []; asyn_timer = false }))
      × ((x : ℕ) → (detached x o ≡ 0) × (attached x o ≡ attached x td.heap))
asyn_del_timer-deletes td r =
    let b = Reachable-IsBalanced td r in
    let (o, e, c) = timed-some td b in
    (
      λ p ps f. b.due p (rw (ap (λ k. times p k) f) (ground arith)),
      o,
      e,
      λ x. (c.detached_rmdeal x, c.attached_dealing x ∙ sym (b.attached_dealing x)),
    )

-- In every state that a thread reaches, a handler that is in `dealing` can call `postDeleteMe`,
-- which takes it out of `dealing`, cannot call it again, and is deleted by the timer's call, after
-- which no handler is at its address.
pub post_delete_me-deletes :
    (td : ThreadData) (p : ℕ)
    → Reachable td
    → times p (keys td.dealing) ≡ 1
    → (u v : ThreadData) × (post_delete_me p td ≡ some u)
      × (times p (keys u.dealing) ≡ 0)
      × (post_delete_me p u ≡ none)
      × (asyn_del_timer u ≡ some v)
      × (live p v.heap ≡ 0)
unfolding post_delete_me remove_deal
post_delete_me-deletes td p r n =
    let b = Reachable-IsBalanced td r in
    let e = attached-tdata_of p td.heap (b.once p) (b.attached_dealing p ∙ n) in
    let u : ThreadData = record (remove_deal p true td) {
      asyn_timer = true;
      heap = clear_tdata p td.heap;
    } in
    let c = posted-IsBalanced td p e b in
    let (o, f, d) = timed-some u c in
    let k : times p (keys u.dealing) ≡ 0 =
      ground (arith, times-erase_key p p td.dealing (ground (arith, n))) in
    (
      u,
      record u { heap = o; rmdeal = []; asyn_timer = false },
      rw (e, post_delete_me) refl,
      k,
      rw (tdata_of-clear_tdata p true td.heap e, post_delete_me) refl,
      f,
      ground (arith, d.attached_dealing p, d.detached_rmdeal p, k),
    )

-- In every state that a thread reaches, `ForceDelete` of a handler that is in `dealing` deletes it:
-- it leaves no handler at its address and no pointer to it in `dealing` or `rmdeal`.
pub force_delete-deletes :
    (td : ThreadData) (p : ℕ)
    → Reachable td
    → times p (keys td.dealing) ≡ 1
    → (u : ThreadData) × (force_delete (some p) td ≡ some u)
      × (live p u.heap ≡ 0)
      × (times p (keys u.dealing) ≡ 0)
      × (times p u.rmdeal ≡ 0)
unfolding force_delete force_delete_of remove_deal
force_delete-deletes td p r n =
    let b = Reachable-IsBalanced td r in
    let e = attached-tdata_of p td.heap (b.once p) (b.attached_dealing p ∙ n) in
    let (o, f) = erase_heap-live p td.heap (ground (arith, n, b.attached_dealing p)) in
    let c = forced-IsBalanced td p o e f b in
    let a = erase_heap-attached p p td.heap o (b.once p) f in
    (
      record (remove_deal p false td) { heap = o },
      rw (e, f, force_delete, force_delete_of) refl,
      ground (arith, a),
      ground (arith, a, c.attached_dealing p),
      ground (arith, a, c.detached_rmdeal p),
    )
