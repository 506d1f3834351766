-- ===== src/RedisCmd/Hash.antt =====
-- redis/redis.cpp: what `hgetall` and `lrange` make of an array.
use cnode.Prelude.{◌≡◌, refl, List, [], ◌∷◌, ◌++◌, none, some}
use cnode.Prelude.Bytes.{Bytes, codes, assign}
use cnode.RedisCmd.{Hiredis, Redis, Reply, Child, string, exec_cmd}
use cnode.RedisCmd.Wrappers.{with_reply, hash_loop, hash_of, hgetall}

abbrev pub text_child : Bytes → Child
text_child s = record { type = string; str = some s }

-- The array that a server answers for a hash: each name before its value.
abbrev pub hash_answer : List (Bytes × Bytes) → List Child
hash_answer [] = []
hash_answer ((name, value) ∷ m) = text_child name ∷ text_child value ∷ hash_answer m

abbrev pub assign_all : List (Bytes × Bytes) → List (Bytes × Bytes) → List (Bytes × Bytes)
unfolding assign
assign_all [] m = m
assign_all ((name, value) ∷ pairs) m = assign_all pairs (assign name value m)

hash_loop-answer :
    (pairs m : List (Bytes × Bytes))
    → hash_loop (hash_answer pairs) none m ≡ some (assign_all pairs m)
unfolding hash_loop assign_all
hash_loop-answer [] m = refl
hash_loop-answer ((name, value) ∷ pairs) m = hash_loop-answer pairs (assign name value m)

-- When `_exec_cmd` brings the names and values of a hash in turn, `hgetall` gives 0 and stores each
-- value under its name, a later one over an earlier one, and keeps what the map held besides.
pub hgetall-answer :
    {W : Type 0} (h : Hiredis W) (key : Bytes) (m pairs : List (Bytes × Bytes)) (rds q : Redis W)
    (r : Reply)
    → exec_cmd h (codes "hgetall " ++ key) rds ≡ some (q, 0, some r)
    → r.element ≡ hash_answer pairs
    → hgetall h (some key) m rds ≡ some (q, 0, assign_all pairs m)
unfolding hgetall with_reply hash_of
hgetall-answer h key m pairs rds q r e f =
    let g : hash_of m r ≡ some (0, assign_all pairs m) =
      rw (hash_of, f, hash_loop-answer pairs m) refl in
    rw (hgetall, with_reply, e, g) refl
