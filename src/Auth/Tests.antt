-- ===== src/Auth/Tests.antt =====
-- Runs of deal_auth.cpp, and its theorems at such inputs.
use cnode.Prelude.{◌≡◌, refl, List, [], ◌∷◌}
use cnode.Prelude.Bytes.{Bytes, codes, eq_bytes, lookup}
use cnode.Prelude.Int.{pos}
use cnode.RedisCmd.{print_nat}
use cnode.Auth.{Trace, respond_fail, err_parameter, pad, make_session, pick, run, finish, login}

abbrev quiet : Trace
quiet = record {
  answers = [];
  made = 0;
  deleted = 0;
  tasks = 0;
  resumes = 0;
  taken = 0;
  released = 0;
  hashes = [];
}

abbrev device : List (Bytes × Bytes)
device =
    (codes "device_id", codes "1")
    ∷ (codes "device_mac", codes "aa")
    ∷ (codes "md5", codes "x")
    ∷ []

session_text : make_session 42 3 1007 ≡ codes "000423007"
unfolding make_session pad print_nat
session_text = refl

leaks_mac :
    login ((codes "device_id", codes "1") ∷ []) 100 (pos 0) [] [] 0 0 quiet
    ≡ record quiet { answers = respond_fail (codes "leak of device_mac") (pos err_parameter) ∷ [] }
unfolding login run finish pick lookup eq_bytes
leaks_mac = refl
