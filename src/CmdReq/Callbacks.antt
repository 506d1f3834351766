-- ===== src/CmdReq/Callbacks.antt =====
-- deal_cmdreq.cpp: the callbacks of the pushes of a request whose client waits for no command
-- response (`m_cmdtype` is 1).
use cnode.Prelude.{
  ltb, ℕ, zero, suc, ◌+◌, ◌≡◌, ◌≢◌, inl, inr, refl, sym, ap, ◌∙◌, subst, Bool, true, false, not,
  ◌&&◌, ◌||◌, List, [], ◌∷◌, Option, none, some, ◌==◌, if◌then◌else◌, length, get_elem?, set, arith,
  Bool-cases, Option-cases, get_elem?-set_ne,
}
use cnode.Prelude.Int.{ℤ, pos}
use cnode.Prelude.Bytes.{codes}
use cnode.CmdReq.{
  Deal, RouteMsg, Status, rms_resp, rms_pushfail, send, post_delete_me, clireq_callback,
  wait_push_resp, pushes_done, count_resp, status_of, set_status, is_int, respond, found_status,
  set_found,
}
use cnode.CmdReq.Replies.{is_send, any_waits, any_waits_lem, is_counted, wait_push_resp_done}

-- A message of the list other than `i` has a push that was not answered.
unfoldable pub others_wait : ℕ → Deal → List ℕ → Bool
unfolding is_send
others_wait i d [] = false
others_wait i d (j ∷ rest) = (not (i == j) && is_send (status_of d j)) || others_wait i d rest

set_found-ne :
    (o : Option RouteMsg) (i j : ℕ) (s : Status) (d : Deal)
    → i ≢ j
    → status_of (set_found o i s d) j ≡ status_of d j
unfolding status_of set_found
set_found-ne none i j s d n = refl
set_found-ne (some m) i j s d n =
    ap found_status (get_elem?-set_ne d.msgs (record m { status = s }) n)

set_status-ne :
    (i j : ℕ) (s : Status) (d : Deal)
    → (i == j) ≡ false
    → status_of (set_status i s d) j ≡ status_of d j
unfolding set_status
set_status-ne i j s d e = set_found-ne (get_elem? d.msgs i) i j s d (λ f. ground (arith, e, f))

get_elem?-set :
    (ms : List RouteMsg) (i : ℕ) (m v : RouteMsg)
    → get_elem? ms i ≡ some m
    → get_elem? (set ms i v) i ≡ some v
get_elem?-set [] i m v e = cc
get_elem?-set (x ∷ xs) zero m v e = refl
get_elem?-set (x ∷ xs) (suc i) m v e = get_elem?-set xs i m v e

set_found-same :
    (o : Option RouteMsg) (i : ℕ) (s : Status) (d : Deal)
    → get_elem? d.msgs i ≡ o
    → is_send s ≡ false
    → is_send (status_of (set_found o i s d) i) ≡ false
unfolding status_of set_found is_send found_status
set_found-same none i s d e h = rw (e, status_of, found_status) refl
set_found-same (some m) i s d e h =
    ap (λ o. is_send (found_status o)) (get_elem?-set d.msgs i m (record m { status = s }) e) ∙ h

others_wait-set_status :
    (i : ℕ) (s : Status) (d : Deal) (lst : List ℕ)
    → others_wait i (set_status i s d) lst ≡ others_wait i d lst
unfolding others_wait
others_wait-set_status i s d [] = refl
others_wait-set_status i s d (j ∷ rest) = elim (Bool-cases (i == j)) [
  | inl e ↦ rw (e, others_wait) (others_wait-set_status i s d rest)
  | inr e ↦ ground (arith, others_wait-set_status i s d rest, set_status-ne i j s d e)
]

set_status-same :
    (i : ℕ) (s : Status) (d : Deal)
    → is_send s ≡ false
    → is_send (status_of (set_status i s d) i) ≡ false
unfolding set_status
set_status-same i s d h = set_found-same (get_elem? d.msgs i) i s d refl h

any_waits-set_status :
    (i : ℕ) (s : Status) (d : Deal) (lst : List ℕ)
    → is_send s ≡ false
    → any_waits (set_status i s d) lst ≡ others_wait i d lst
unfolding others_wait any_waits
any_waits-set_status i s d [] h = refl
any_waits-set_status i s d (j ∷ rest) h = elim (Bool-cases (i == j)) [
  | inl e ↦
      let same : i ≡ j = ground (arith, e) in
      let first : is_send (status_of (set_status i s d) j) ≡ false =
        subst (λ k. is_send (status_of (set_status i s d) k) ≡ false) same
          (set_status-same i s d h) in
      ground (arith, e, first, any_waits-set_status i s d rest h)
  | inr e ↦ ground (arith, e, set_status-ne i j s d e, any_waits-set_status i s d rest h)
]

-- A request of type 1 in step 1 that no message but `i` keeps waiting.
pub record LastPush (i : ℕ) (d : Deal) : Type 0 where
  pub step : d.step ≡ pos 1
  pub kind : d.cmdtype ≡ pos 1
  pub others : others_wait i d d.routemsg_lst ≡ false

-- The fields that `set_status` keeps.
record Kept (e d : Deal) : Type 0 where
  step : e.step ≡ d.step
  kind : e.cmdtype ≡ d.cmdtype
  lst : e.routemsg_lst ≡ d.routemsg_lst
  replies : e.replies ≡ d.replies
  deletes : e.deletes ≡ d.deletes
  mainreq : e.mainreq ≡ d.mainreq
  crashed : e.crashed ≡ d.crashed

set_found-Kept : (o : Option RouteMsg) (i : ℕ) (s : Status) (d : Deal) → Kept (set_found o i s d) d
unfolding set_found
set_found-Kept none i s d = record {
  step = refl;
  kind = refl;
  lst = refl;
  replies = refl;
  deletes = refl;
  mainreq = refl;
  crashed = refl;
}
set_found-Kept (some m) i s d = record {
  step = refl;
  kind = refl;
  lst = refl;
  replies = refl;
  deletes = refl;
  mainreq = refl;
  crashed = refl;
}

set_status-Kept : (i : ℕ) (s : Status) (d : Deal) → Kept (set_status i s d) d
unfolding set_status
set_status-Kept i s d = set_found-Kept (get_elem? d.msgs i) i s d

-- What one more callback leaves: it answers if the object was not given up, and else uses a null
-- pointer.
record Answered (i : ℕ) (e d : Deal) : Type 0 where
  last : LastPush i e
  replies : length e.replies ≡ (if d.mainreq then 1 else 0) + length d.replies
  deletes : e.deletes ≡ (if d.mainreq then 1 else 0) + d.deletes
  mainreq : e.mainreq ≡ false
  crashed : e.crashed ≡ (d.crashed || not d.mainreq)

others_wait_fields :
    (i : ℕ) (e d : Deal) (lst : List ℕ)
    → e.msgs ≡ d.msgs
    → others_wait i e lst ≡ others_wait i d lst
unfolding others_wait status_of
others_wait_fields i e d [] h = refl
others_wait_fields i e d (j ∷ rest) h = rw (h) (ground (arith, others_wait_fields i e d rest h))

-- The object after the answer.
unfoldable answered : Deal → Deal
answered d = post_delete_me (send (respond (codes "{\"status\": \"SUCCESS\"")) d)

answered_fields :
    (d : Deal)
    → ((answered d).step ≡ d.step)
      × ((answered d).cmdtype ≡ d.cmdtype)
      × ((answered d).routemsg_lst ≡ d.routemsg_lst)
      × ((answered d).msgs ≡ d.msgs)
unfolding answered send post_delete_me
answered_fields d = (ground arith, ground arith, ground arith, ground arith)

answered-Answered : (i : ℕ) (d : Deal) → LastPush i d → Answered i (answered d) d
unfolding answered send post_delete_me
answered-Answered i d l =
    let (s, k, r, m) = answered_fields d in
    record {
      last = record {
        step = s ∙ l.step;
        kind = k ∙ l.kind;
        others =
            ap (others_wait i (answered d)) r
            ∙ others_wait_fields i (answered d) d d.routemsg_lst m
            ∙ l.others;
      };
      replies = ground arith;
      deletes = ground arith;
      mainreq = ground arith;
      crashed = ground arith;
    }

done-Answered :
    (added : ℤ) (n i : ℕ) (d : Deal) → LastPush i d → Answered i (pushes_done added n d) d
unfolding pushes_done is_int answered
done-Answered added n i d l =
    let k : is_int 1 d.cmdtype ≡ true = ap (is_int 1) l.kind in
    rw (k, pushes_done) (answered-Answered i d l)

result-is_send : (ok : Bool) → is_send (if ok then rms_resp else rms_pushfail) ≡ false
unfolding is_send
result-is_send true = refl
result-is_send false = refl

waiting-absurd : false ≡ not (is_counted none) → ⊥
unfolding is_counted
waiting-absurd e = cc

set_status-Answered :
    (added : ℤ) (i : ℕ) (s : Status) (d : Deal)
    → LastPush i d
    → is_send s ≡ false
    → Answered i (wait_push_resp added (set_status i s d)).0 d
set_status-Answered added i s d l h =
    let e = set_status i s d in
    let k = set_status-Kept i s d in
    let none_waits : any_waits e e.routemsg_lst ≡ false =
      ap (any_waits e) k.lst ∙ any_waits-set_status i s d d.routemsg_lst h ∙ l.others in
    let last : LastPush i e = record {
      step = k.step ∙ l.step;
      kind = k.kind ∙ l.kind;
      others = ap (others_wait i e) k.lst ∙ others_wait-set_status i s d d.routemsg_lst ∙ l.others;
    } in
    elim (Option-cases (count_resp e e.routemsg_lst)) [
      | inl c ↦ absurd (waiting-absurd (sym none_waits ∙ any_waits_lem e e.routemsg_lst none c))
      | inr (n, c) ↦
          let done = done-Answered added n i e last in
          let f = wait_push_resp_done added e (some n) last.step c in
          subst (λ x. Answered i x d) (sym f)
            (record {
              last = done.last;
              replies = ground (arith, done.replies, k.mainreq, ap length k.replies);
              deletes = ground (arith, done.deletes, k.mainreq, k.deletes);
              mainreq = done.mainreq;
              crashed = ground (arith, done.crashed, k.crashed, k.mainreq);
            })
    ]

callback-Answered :
    (ok : Bool) (added : ℤ) (i : ℕ) (d : Deal)
    → LastPush i d
    → Answered i (clireq_callback ok added i d) d
unfolding clireq_callback
callback-Answered ok added i d l =
    set_status-Answered added i (if ok then rms_resp else rms_pushfail) d l (result-is_send ok)

-- The callbacks of message `i`, one after the other.
unfoldable pub callbacks : List (Bool × ℤ) → ℕ → Deal → Deal
callbacks [] i d = d
callbacks ((ok, added) ∷ rest) i d = callbacks rest i (clireq_callback ok added i d)

callbacks_again :
    (results : List (Bool × ℤ)) (i : ℕ) (d : Deal)
    → LastPush i d
    → d.mainreq ≡ false
    → let e = callbacks results i d in
      (length e.replies ≡ length d.replies)
      × (e.deletes ≡ d.deletes)
      × (e.crashed ≡ (d.crashed || ltb 0 (length results)))
unfolding callbacks
callbacks_again [] i d l m = (refl, refl, ground arith)
callbacks_again ((ok, added) ∷ rest) i d l m =
    let a = callback-Answered ok added i d l in
    let r = callbacks_again rest i (clireq_callback ok added i d) a.last a.mainreq in
    (
      ground (arith, r.0, a.replies, m),
      ground (arith, r.1, a.deletes, m),
      ground (arith, r.2, a.crashed, m),
    )

-- A request of type 1 stays in step 1 when it is answered. Once no other message waits, the first
-- callback of a message answers the client and gives the object up, which sets its pointers to
-- null, and every further callback of that message answers nothing and uses a null pointer. An
-- object is meant that was not given up before.
pub callbacks-replies :
    (results : List (Bool × ℤ)) (i : ℕ) (d : Deal)
    → LastPush i d
    → d.mainreq ≡ true
    → d.crashed ≡ false
    → let e = callbacks results i d in
      (length e.replies ≡ (if ltb 0 (length results) then 1 else 0) + length d.replies)
      × (e.deletes ≡ (if ltb 0 (length results) then 1 else 0) + d.deletes)
      × (e.crashed ≡ ltb 1 (length results))
unfolding callbacks
callbacks-replies [] i d l m c = (omega arith, omega arith, ground (arith, c))
callbacks-replies ((ok, added) ∷ rest) i d l m c =
    let a = callback-Answered ok added i d l in
    let r = callbacks_again rest i (clireq_callback ok added i d) a.last a.mainreq in
    (
      ground (arith, r.0, a.replies, m),
      ground (arith, r.1, a.deletes, m),
      ground (arith, r.2, a.crashed, m, c),
    )
