-- ===== src/CmdReq/Tests.antt =====
-- Runs of `DealCmdReq` of deal_cmdreq.cpp, and its theorems at such runs.
use cnode.Prelude.{suc, ◌+◌, ◌≡◌, ◌≢◌, refl, true, false, if◌then◌else◌, [], ◌∷◌, some, length}
use cnode.Prelude.Int.{pos, stale_of}
use cnode.Prelude.Bytes.{codes}
use cnode.CmdReq.{
  Deal, RedisAnswer, rms_init, rms_send, status_of, wait_redis_result, respond, fetch_result,
  join_array, send, post_delete_me,
}
use cnode.CmdReq.Parse.{
  Body, object_body, target_array, parse_req_json, item_loop, target_loop, new_routemsg,
  push_routemsg, set_target, parse_end, parse_req_json-ne-zero,
}
use cnode.CmdReq.Replies.{waits, wait_redis_result-once, is_send}
use cnode.CmdReq.Callbacks.{LastPush, callbacks, callbacks-replies, others_wait}

abbrev deal : Deal
deal = record {
  cmdid = codes "t1";
  cmdtype = pos 1;
  step = pos 0;
  online_count = 0;
  begtime = 100;
  waitcmd_sec = 0;
  msgs = [];
  routemsg_lst = [];
  mainreq = true;
  crashed = false;
  replies = [];
  deletes = 0;
  tasks = 0;
  resumes = 0;
}

abbrev body : Body
body =
    object_body (some (pos 1)) (some (codes "t1"))
      (some (target_array ((codes "m1", codes "r1") ∷ (codes "m2", codes "r2") ∷ []) ∷ []))

-- Two targets, one message: the second device's.
parsed :
    ((parse_req_json body deal).0 ≡ pos 1)
    × ((parse_req_json body deal).1.routemsg_lst ≡ 0 ∷ 0 ∷ [])
    × ((parse_req_json body deal).1.msgs
        ≡ record { mac = codes "m2"; req = codes "r2"; status = rms_init } ∷ [])
unfolding parse_req_json item_loop target_loop new_routemsg push_routemsg set_target parse_end
parsed = (refl, refl, refl)

parse_req_json-ne-zero_example : (parse_req_json body deal).0 ≢ pos 0
parse_req_json-ne-zero_example = parse_req_json-ne-zero body deal

-- The message of an array of two targets, pushed twice.
abbrev pushed : Deal
pushed = record deal {
  step = pos 1;
  routemsg_lst = 0 ∷ 0 ∷ [];
  msgs = record { mac = codes "m2"; req = codes "r2"; status = rms_send } ∷ [];
}

pushed-LastPush : LastPush 0 pushed
unfolding others_wait is_send status_of
pushed-LastPush = record { step = refl; kind = refl; others = refl }

callbacks-replies_example :
    (length (callbacks ((true, pos 0) ∷ (true, pos 0) ∷ []) 0 pushed).replies ≡ 1 + 0)
    × ((callbacks ((true, pos 0) ∷ (true, pos 0) ∷ []) 0 pushed).deletes ≡ 1 + 0)
    × ((callbacks ((true, pos 0) ∷ (true, pos 0) ∷ []) 0 pushed).crashed ≡ true)
callbacks-replies_example =
    callbacks-replies ((true, pos 0) ∷ (true, pos 0) ∷ []) 0 pushed pushed-LastPush refl refl

abbrev waiting : Deal
waiting = record deal { step = pos 2; online_count = 2; waitcmd_sec = 10 }

abbrev answer : RedisAnswer
answer = record {
  connected = true;
  llen_ret = 0;
  result_len = 2;
  now = 105;
  added = pos 0;
  result = some (codes "{}" ∷ codes "[]" ∷ []);
}

array_sent : (wait_redis_result answer waiting).replies ≡ respond (codes "[ {}, [] ]") ∷ []
unfolding wait_redis_result fetch_result join_array send post_delete_me
array_sent = refl

wait_redis_result-once_example :
    ((wait_redis_result answer waiting).tasks + length (wait_redis_result answer waiting).replies
      ≡ suc (0 + 0) + (if waits answer waiting then stale_of (pos 0) else 0))
    × ((wait_redis_result answer waiting).deletes + 0
        ≡ 0 + length (wait_redis_result answer waiting).replies)
    × ((wait_redis_result answer waiting).crashed ≡ false)
wait_redis_result-once_example = wait_redis_result-once answer waiting refl refl

abbrev broken : RedisAnswer
broken = record answer { llen_ret = 7; result_len = 0 }
