-- ===== src/RedisCmd/Tests.antt =====
-- Runs of redis/redis.cpp against a small hiredis, and the theorems at such inputs.
use cnode.Prelude.{
  ℕ, zero, suc, ◌+◌, ◌≤◌, ◌≡◌, ◌≢◌, ◌↔◌, ◌⊎◌, refl, subst, true, false, List, [], ◌∷◌, Option, none,
  some, Every, arith, length,
}
use cnode.Prelude.Int.{pos}
use cnode.Prelude.Bytes.{to_lower, Bytes, codes, eq_bytes}
use cnode.RedisCmd.{
  Hiredis, select_text, Redis, Reply, status, array, err_disconnect, err_reply_null, exec_cmd,
  exec_loop, ready, reconnect, connected, select_no, redis_command, getstate, status_ok, is_ok,
  print_nat,
}
use cnode.StrParse.{all_of}
use cnode.RedisCmd.Wrappers.{with_reply, ok_status, set}
use cnode.RedisCmd.Reconnect.{IsTold, IsHiredis, times_sent}
use cnode.RedisCmd.Exec.{exec_cmd-total}
use cnode.RedisCmd.Outcome.{
  Command, sets, llens, hgetalls, IsCode, IsCall, perform_all, perform_all-total,
}
use cnode.RedisCmd.Hash.{hash_answer}
use cnode.RedisCmd.Text.{IsWord}

-- A server that loses its first command, and answers each later one with the same reply; the world
-- counts the commands.
abbrev answering : Reply → Hiredis ℕ
answering r = record {
  connect = λ w. (w, some 0);
  set_timeout = λ w. (w, true);
  command = λ err text w. elim w [ zero ↦ (1, 3, none) | suc n ↦ (suc (suc n), 0, some r) ];
}

abbrev ok_reply : Reply
ok_reply = record { type = status; str = some (codes "OK"); integer = pos 0; element = [] }

answering-IsHiredis : (r : Reply) → IsTold r → IsHiredis (answering r)
answering-IsHiredis r t = record {
  allocates = λ w e. cc;
  tells = λ err text w s e. told w err text s e;
}
  where
    told :
        (w err : ℕ) (text : Bytes) (s : Reply)
        → ((answering r).command err text w).2 ≡ some s
        → IsTold s
    told zero err text s e = absurd cc
    told (suc n) err text s e = (let f : r ≡ s = cc in subst IsTold f t)

ok_reply-IsTold : IsTold ok_reply
ok_reply-IsTold = record { status_str = λ e f. cc; string_str = λ e f. cc; element_str = tt }

abbrev fresh : Redis ℕ
fresh = record { pserver = some 0; selectno = 2; sent = []; world = 0 }

abbrev set_text : Bytes
set_text = codes "set a b"

-- The command is sent again when the connection is made again, which selects its number first.
sends_again :
    set (answering ok_reply) (some (codes "a")) (some (codes "b")) fresh
    ≡ some (
      record {
        pserver = some 0;
        selectno = 2;
        sent = set_text ∷ codes "select 2" ∷ set_text ∷ [];
        world = 3;
      },
      0,
      tt,
    )
unfolding set with_reply exec_cmd exec_loop ready reconnect connected select_no redis_command
    getstate status_ok is_ok to_lower print_nat select_text ok_status
sends_again = refl

not_select : eq_bytes set_text (select_text fresh) ≡ false
unfolding eq_bytes select_text
not_select = refl

exec_cmd-total_example :
    (q : Redis ℕ) × (code : ℕ) × (o : Option Reply) × (exec_cmd (answering ok_reply) set_text fresh
      ≡ some (q, code, o))
    × ((code ≡ 0) ↔ (o ≢ none))
    × ((code ≡ 0) ⊎ (code ≡ err_disconnect) ⊎ (code ≡ err_reply_null))
    × (times_sent set_text q ≤ times_sent set_text fresh + 2)
    × (q.selectno ≡ 2)
    × ((r : Reply) → o ≡ some r → IsTold r)
exec_cmd-total_example =
    exec_cmd-total (answering ok_reply) set_text fresh
      (answering-IsHiredis ok_reply ok_reply-IsTold) not_select

abbrev commands : List Command
commands =
    sets (some (codes "a")) (some (codes "b")) ∷ llens 7 none ∷ hgetalls (some (codes "h")) [] ∷ []

commands-IsCall : Every IsCall commands
unfolding all_of
commands-IsCall = ((refl, refl), ((refl, refl), ((refl, refl), tt)))

perform_all-total_example :
    (q : Redis ℕ) × (results : List ℕ) × (perform_all (answering ok_reply) commands fresh
      ≡ some (q, results))
    × (length results ≡ 3)
    × Every IsCode results
perform_all-total_example =
    perform_all-total (answering ok_reply) commands fresh
      (answering-IsHiredis ok_reply ok_reply-IsTold) commands-IsCall

abbrev pairs : List (Bytes × Bytes)
pairs = (codes "jack", codes "1") ∷ (codes "gump", codes "2") ∷ []

abbrev hash_reply : Reply
hash_reply = record { type = array; str = none; integer = pos 0; element = hash_answer pairs }

abbrev later : Redis ℕ
later = record { pserver = some 0; selectno = 0; sent = []; world = 1 }

abbrev answered : Redis ℕ
answered = record { pserver = some 0; selectno = 0; sent = codes "hgetall h" ∷ []; world = 2 }

answers :
    exec_cmd (answering hash_reply) (codes "hgetall h") later ≡ some (answered, 0, some hash_reply)
unfolding exec_cmd exec_loop ready redis_command getstate
answers = refl

h-IsWord : IsWord (codes "h")
h-IsWord = (λ e. cc, ((λ e. omega arith), tt))
