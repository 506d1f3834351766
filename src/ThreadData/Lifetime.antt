-- ===== src/ThreadData/Lifetime.antt =====
-- threaddata.cpp, dealbase.cpp: the life of the handlers of a thread, from `new` to `delete`.
use cnode.Prelude.{
  ℕ, ◌≤◌, ◌≡◌, refl, ap, ◌∙◌, Bool, true, false, List, [], ◌∷◌, some, ◌==◌, if◌then◌else◌, arith,
}
use cnode.ThreadData.{
  ThreadData, new_thread, keys, delete_all, deal_base, post_delete_me, force_delete_of,
  asyn_del_timer, push_resume, pop_resume, erase_heap, tdata_of, clear_tdata, remove_deal,
  push_deal,
}
use cnode.ThreadData.Heap.{
  times, attached, detached, live, times-snoc, times-put_key, times-erase_key, attached-clear_tdata,
  live-clear_tdata, tdata_of-attached, erase_heap-attached, erase_heap-live, live-empty,
}

-- What the thread and its handlers do; a new handler's address is not in use.
pub data Step : ThreadData → ThreadData → Type 0 where
  made : (td : ThreadData) (ptr time : ℕ) → live ptr td.heap ≡ 0 → Step td (deal_base ptr time td)
  posted : (td u : ThreadData) (ptr : ℕ) → post_delete_me ptr td ≡ some u → Step td u
  forced : (td u : ThreadData) (ptr : ℕ) → force_delete_of ptr td ≡ some u → Step td u
  timed : (td u : ThreadData) → td.asyn_timer ≡ true → asyn_del_timer td ≡ some u → Step td u
  pushed : (td : ThreadData) (ptr : ℕ) → Step td (push_resume ptr td)
  popped : (td : ThreadData) → Step td ((pop_resume td).0)

pub data Reachable : ThreadData → Type 0 where
  start : Reachable new_thread
  next : (td u : ThreadData) → Reachable td → Step td u → Reachable u

-- Each handler whose `m_tdata` is set is in `dealing` once, each other one in `rmdeal` once, and
-- the timer is set when `rmdeal` has any.
pub record Balanced (dealing : List (ℕ × ℕ)) (rmdeal : List ℕ) (heap : List (ℕ × Bool))
    (timer : Bool) : Type 0 where
  pub attached_dealing : (x : ℕ) → attached x heap ≡ times x (keys dealing)
  pub detached_rmdeal : (x : ℕ) → detached x heap ≡ times x rmdeal
  pub once : (x : ℕ) → live x heap ≤ 1
  pub due : (x : ℕ) → 1 ≤ times x rmdeal → timer ≡ true

abbrev pub IsBalanced : ThreadData → Type 0
IsBalanced td = Balanced td.dealing td.rmdeal td.heap td.asyn_timer

-- Deleting a list of handlers that are there, each once.
pub delete_all-live :
    (ps : List ℕ) (h : List (ℕ × Bool))
    → ((x : ℕ) → live x h ≤ 1)
    → ((x : ℕ) → times x ps ≤ live x h)
    → (o : List (ℕ × Bool)) × (delete_all ps h ≡ some o)
      × ((x : ℕ)
          → (attached x o ≡ (if times x ps == 0 then attached x h else 0))
            × (detached x o ≡ (if times x ps == 0 then detached x h else 0)))
unfolding delete_all
delete_all-live [] h l t = (h, refl, λ x. (refl, refl))
delete_all-live (p ∷ ps) h l t =
    let (o, e) = erase_heap-live p h (ground (arith, t p)) in
    let a : (x : ℕ)
        → (attached x o ≡ (if p == x then 0 else attached x h))
          × (detached x o ≡ (if p == x then 0 else detached x h)) =
      λ x. erase_heap-attached p x h o (l p) e in
    let (r, f, g) =
      delete_all-live ps o (λ x. ground (arith, a x, l x)) (λ x. ground (arith, a x, l x, t x)) in
    (r, rw (e, delete_all) f, λ x. ground (arith, a x, g x, t x, l x))

-- The handlers of `rmdeal` deleted.
pub rmdeal-deleted :
    (td : ThreadData)
    → IsBalanced td
    → (o : List (ℕ × Bool)) × (delete_all td.rmdeal td.heap ≡ some o)
      × Balanced td.dealing [] o false
rmdeal-deleted td b =
    let (o, e, f) =
      delete_all-live td.rmdeal td.heap b.once (λ x. ground (arith, b.detached_rmdeal x)) in
    (
      o,
      e,
      record {
        attached_dealing =
            λ x. ground (arith, f x, b.attached_dealing x, b.detached_rmdeal x, b.once x);
        detached_rmdeal = λ x. ground (arith, f x, b.detached_rmdeal x);
        once = λ x. ground (arith, f x, b.once x);
        due = λ x l. absurd (omega arith);
      },
    )

-- The handlers of `dealing` deleted, when `rmdeal` is empty.
pub dealing-deleted :
    (dealing : List (ℕ × ℕ)) (h : List (ℕ × Bool)) (timer : Bool)
    → Balanced dealing [] h timer
    → delete_all (keys dealing) h ≡ some []
dealing-deleted dealing h timer b =
    let (o, e, f) =
      delete_all-live (keys dealing) h b.once (λ x. ground (arith, b.attached_dealing x)) in
    e
    ∙ ap (λ k. some k)
        (live-empty o (λ x. ground (arith, f x, b.attached_dealing x, b.detached_rmdeal x)))

pub made-IsBalanced :
    (td : ThreadData) (p t : ℕ) → live p td.heap ≡ 0 → IsBalanced td → IsBalanced (deal_base p t td)
unfolding deal_base push_deal
made-IsBalanced td p t n b = record {
  attached_dealing = λ x. ground (
    arith,
    times-put_key x p t td.dealing (ground (arith, b.attached_dealing p, n)),
    b.attached_dealing x,
  );
  detached_rmdeal = λ x. ground (arith, b.detached_rmdeal x);
  once = λ x. ground (arith, n, b.once x);
  due = b.due;
}

pub posted-IsBalanced :
    (td : ThreadData) (p : ℕ)
    → tdata_of p td.heap ≡ some true
    → IsBalanced td
    → IsBalanced
        (record (remove_deal p true td) { asyn_timer = true; heap = clear_tdata p td.heap })
unfolding remove_deal
posted-IsBalanced td p e b =
    let (s, z) = tdata_of-attached p td.heap (b.once p) e in
    record {
      attached_dealing = λ x. ground (
        arith,
        attached-clear_tdata x p td.heap (b.once p),
        times-erase_key x p td.dealing (ground (arith, b.attached_dealing p, s)),
        b.attached_dealing x,
      );
      detached_rmdeal = λ x. ground (
        arith,
        attached-clear_tdata x p td.heap (b.once p),
        live-clear_tdata x p td.heap,
        times-snoc x p td.rmdeal,
        b.detached_rmdeal x,
        s,
        z,
      );
      once = λ x. ground (arith, live-clear_tdata x p td.heap, b.once x);
      due = λ x l. refl;
    }

pub forced-IsBalanced :
    (td : ThreadData) (p : ℕ) (o : List (ℕ × Bool))
    → tdata_of p td.heap ≡ some true
    → erase_heap p td.heap ≡ some o
    → IsBalanced td
    → IsBalanced (record (remove_deal p false td) { heap = o })
unfolding remove_deal
forced-IsBalanced td p o e f b =
    let (s, z) = tdata_of-attached p td.heap (b.once p) e in
    let a : (x : ℕ)
        → (attached x o ≡ (if p == x then 0 else attached x td.heap))
          × (detached x o ≡ (if p == x then 0 else detached x td.heap)) =
      λ x. erase_heap-attached p x td.heap o (b.once p) f in
    record {
      attached_dealing = λ x. ground (
        arith,
        a x,
        times-erase_key x p td.dealing (ground (arith, b.attached_dealing p, s)),
        b.attached_dealing x,
      );
      detached_rmdeal = λ x. ground (arith, a x, b.detached_rmdeal x, z);
      once = λ x. ground (arith, a x, b.once x);
      due = b.due;
    }
