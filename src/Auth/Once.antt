-- ===== src/Auth/Once.antt =====
-- deal_auth.cpp: what a login does in all, on every path.
use cnode.Prelude.{ℕ, ◌+◌, ◌≡◌, Bool, true, false, if◌then◌else◌, length}
use cnode.Prelude.Bytes.{Bytes}
use cnode.Auth.{Trace, Picked, leak, picked}

-- One answer more; as many objects deleted as made, connections given back as taken, and calls of
-- `postResume` as tasks but for `stale` tasks; a hash written only if `written`.
pub record Closed (written : Bool) (stale : ℕ) (t u : Trace) : Type 0 where
  pub answers : length u.answers ≡ length t.answers + 1
  pub objects : u.deleted + t.made ≡ t.deleted + u.made
  pub connections : u.released + t.taken ≡ t.released + u.taken
  pub wakes : u.resumes + stale + t.tasks ≡ t.resumes + u.tasks
  pub hashes : length u.hashes ≡ length t.hashes + (if written then 1 else 0)

-- Whether the three parameters are there.
abbrev pub complete : Picked → Bool
complete (leak reason) = false
complete (picked d) = true
