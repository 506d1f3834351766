-- ===== src/CmdReq/Replies.antt =====
-- deal_cmdreq.cpp: how often a request is answered and its object given up.
use cnode.Prelude.{
  ℕ, suc, ◌+◌, ◌-◌, ◌≡◌, ◌≢◌, inl, inr, refl, sym, ap, ◌∙◌, Bool, true, false, not, ◌||◌, ◌&&◌,
  zero, List, [], ◌∷◌, Option, none, some, ltb, leb, if◌then◌else◌, length, arith, Option-cases,
}
use cnode.Prelude.Int.{ℤ, pos, negsuc, stale_of}
use cnode.Prelude.Bytes.{Bytes}
use cnode.CmdReq.{
  Deal, Status, RedisAnswer, rms_send, rms_resp, rms_sucess, rms_init, rms_offline, rms_pushfail,
  rms_fail, wait_redis_result, fetch_result, fail_with, waits_on, send, post_delete_me,
  wait_push_resp, pushes_done, count_resp, status_of, is_int, add_task,
}

-- Whether a round comes to the call of `addTask`.
abbrev pub waits : RedisAnswer → Deal → Bool
waits a d =
    a.connected && not (leb d.online_count a.result_len || ltb d.waitcmd_sec (a.now - d.begtime))

-- What a round does.
Rounds : RedisAnswer → Deal → Type 0
Rounds a d =
    let e = wait_redis_result a d in
    (e.tasks + length e.replies
      ≡ suc (d.tasks + length d.replies) + (if waits a d then stale_of a.added else 0))
    × (e.deletes + length d.replies ≡ d.deletes + length e.replies)
    × (e.crashed ≡ d.crashed)

fails-Rounds :
    (a : RedisAnswer) (d : Deal) (c : ℤ)
    → a.added ≡ c
    → a.llen_ret ≡ 0
    → d.mainreq ≡ true
    → a.result ≡ none
    → Rounds a d
unfolding Rounds wait_redis_result fetch_result fail_with waits_on send post_delete_me add_task
fails-Rounds a d (pos zero) e h m r =
    (ground (arith, e, r, h, m), ground (arith, e, r, h, m), ground (arith, e, r, h, m))
fails-Rounds a d (pos (suc n)) e h m r =
    (ground (arith, e, r, h, m), ground (arith, e, r, h, m), ground (arith, e, r, h, m))
fails-Rounds a d (negsuc n) e h m r =
    (ground (arith, e, r, h, m), ground (arith, e, r, h, m), ground (arith, e, r, h, m))

fetches-Rounds :
    (a : RedisAnswer) (d : Deal) (c : ℤ) (items : List Bytes)
    → a.added ≡ c
    → a.llen_ret ≡ 0
    → d.mainreq ≡ true
    → a.result ≡ some items
    → Rounds a d
unfolding Rounds wait_redis_result fetch_result fail_with waits_on send post_delete_me add_task
fetches-Rounds a d (pos zero) items e h m r =
    (ground (arith, e, r, h, m), ground (arith, e, r, h, m), ground (arith, e, r, h, m))
fetches-Rounds a d (pos (suc n)) items e h m r =
    (ground (arith, e, r, h, m), ground (arith, e, r, h, m), ground (arith, e, r, h, m))
fetches-Rounds a d (negsuc n) items e h m r =
    (ground (arith, e, r, h, m), ground (arith, e, r, h, m), ground (arith, e, r, h, m))

-- A round of `waitRedisResult` on an object that was not given up either waits, with a task that will
-- call it again, or answers the client and gives the object up, and uses no null pointer, if `llen`
-- succeeds, whatever else Redis and the task pool answer. It does both exactly if it comes to
-- `addTask` and that gives a positive code: the task stays in the queue of an object given up.
pub wait_redis_result-once :
    (a : RedisAnswer) (d : Deal)
    → a.llen_ret ≡ 0
    → d.mainreq ≡ true
    → let e = wait_redis_result a d in
      (e.tasks + length e.replies
        ≡ suc (d.tasks + length d.replies) + (if waits a d then stale_of a.added else 0))
      × (e.deletes + length d.replies ≡ d.deletes + length e.replies)
      × (e.crashed ≡ d.crashed)
unfolding Rounds
wait_redis_result-once a d h m = elim (Option-cases a.result) [
  | inl r ↦ fails-Rounds a d a.added refl h m r
  | inr (items, r) ↦ fetches-Rounds a d a.added items refl h m r
]

-- If `llen` fails and nothing else does while the request waits, the client gets an answer and
-- the object is given up, and the task that was just added will still call it.
pub wait_redis_result_dangling :
    (a : RedisAnswer) (d : Deal)
    → a.connected ≡ true
    → a.added ≡ pos 0
    → d.mainreq ≡ true
    → a.llen_ret ≢ 0
    → leb d.online_count a.result_len ≡ false
    → ltb d.waitcmd_sec (a.now - d.begtime) ≡ false
    → let e = wait_redis_result a d in (e.deletes ≡ suc d.deletes) × (e.tasks ≡ suc d.tasks)
unfolding wait_redis_result fail_with waits_on send post_delete_me add_task
wait_redis_result_dangling a d c t m l o w =
    (ground (arith, c, t, m, l, o, w), ground (arith, c, t, m, l, o, w))

-- Some message of the list has a push that was not answered; `except` is left out.
unfoldable pub is_send : Status → Bool
is_send rms_send = true
is_send rms_resp = false
is_send _ = false

unfoldable pub any_waits : Deal → List ℕ → Bool
unfolding is_send
any_waits d [] = false
any_waits d (i ∷ rest) = is_send (status_of d i) || any_waits d rest

unfoldable pub is_counted : Option ℕ → Bool
is_counted none = false
is_counted (some n) = true

counted_suc :
    (o : Option ℕ) → is_counted (elim o [ none ↦ none | some n ↦ some (suc n) ]) ≡ is_counted o
unfolding is_counted
counted_suc none = refl
counted_suc (some n) = refl

count_resp_head :
    (d : Deal) (i : ℕ) (rest : List ℕ) (s : Status)
    → status_of d i ≡ s
    → is_counted (count_resp d rest) ≡ not (any_waits d rest)
    → is_counted (count_resp d (i ∷ rest)) ≡ not (any_waits d (i ∷ rest))
unfolding count_resp any_waits is_send is_counted status_of
count_resp_head d i rest rms_send e ih = rw (e, count_resp, any_waits) refl
count_resp_head d i rest rms_resp e ih =
    rw (e, count_resp, any_waits) (counted_suc (count_resp d rest) ∙ ih)
count_resp_head d i rest rms_sucess e ih = rw (e, count_resp, any_waits) ih
count_resp_head d i rest rms_init e ih = rw (e, count_resp, any_waits) ih
count_resp_head d i rest rms_offline e ih = rw (e, count_resp, any_waits) ih
count_resp_head d i rest rms_pushfail e ih = rw (e, count_resp, any_waits) ih
count_resp_head d i rest rms_fail e ih = rw (e, count_resp, any_waits) ih

count_resp-any_waits :
    (d : Deal) (lst : List ℕ) → is_counted (count_resp d lst) ≡ not (any_waits d lst)
count_resp-any_waits d [] = unfold count_resp any_waits is_counted in refl
count_resp-any_waits d (i ∷ rest) =
    count_resp_head d i rest (status_of d i) refl (count_resp-any_waits d rest)

pub any_waits_lem :
    (d : Deal) (lst : List ℕ) (o : Option ℕ)
    → count_resp d lst ≡ o
    → any_waits d lst ≡ not (is_counted o)
any_waits_lem d lst o e =
    let k : is_counted o ≡ not (any_waits d lst) =
      ap is_counted (sym e) ∙ count_resp-any_waits d lst in
    ground (arith, k)

pub wait_push_resp_done :
    (added : ℤ) (d : Deal) (o : Option ℕ)
    → d.step ≡ pos 1
    → count_resp d d.routemsg_lst ≡ o
    → (wait_push_resp added d).0 ≡ (elim o [ none ↦ d | some n ↦ pushes_done added n d ])
unfolding wait_push_resp is_int
wait_push_resp_done added d none e c = ground (arith, e, c)
wait_push_resp_done added d (some n) e c = ground (arith, e, c)

pushes_done-once :
    (added : ℤ) (n : ℕ) (d : Deal)
    → stale_of added ≡ 0
    → d.mainreq ≡ true
    → (pushes_done added n d).tasks + length (pushes_done added n d).replies
      ≡ suc (d.tasks + length d.replies)
unfolding pushes_done send post_delete_me add_task
pushes_done-once (pos zero) n d s m = ground (arith, m)
pushes_done-once (pos (suc k)) n d s m = absurd (omega arith)
pushes_done-once (negsuc k) n d s m = ground (arith, m)

-- In step 1 `waitPushResp` does nothing while the push of a message of the list is not answered.
-- Once all are, it answers the client or adds the task that will, and not both, if the object was
-- not given up and `addTask` gives no positive code.
pub wait_push_resp-once :
    (added : ℤ) (d : Deal)
    → stale_of added ≡ 0
    → d.mainreq ≡ true
    → d.step ≡ pos 1
    → let e = (wait_push_resp added d).0 in
      e.tasks + length e.replies
      ≡ (if any_waits d d.routemsg_lst then 0 else 1) + (d.tasks + length d.replies)
wait_push_resp-once added d s m e = elim (Option-cases (count_resp d d.routemsg_lst)) [
  | inl c ↦
      let w : any_waits d d.routemsg_lst ≡ true =
        unfold is_counted in any_waits_lem d d.routemsg_lst none c in
      rw w
        (ap (λ x. x.tasks + length x.replies) (wait_push_resp_done added d none e c) ∙ omega arith)
  | inr (n, c) ↦
      let w : any_waits d d.routemsg_lst ≡ false =
        unfold is_counted in any_waits_lem d d.routemsg_lst (some n) c in
      rw w (
        ap (λ x. x.tasks + length x.replies) (wait_push_resp_done added d (some n) e c)
        ∙ pushes_done-once added n d s m
        ∙ omega arith)
]
