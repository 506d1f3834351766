-- ===== src/RedisPool/Client.antt =====
-- Clients of one pool of redis/redispool.cpp: what they hold, and any sequence of their calls.
use cnode.Prelude.{ℕ, zero, suc, Bool, List, [], ◌∷◌, Option, none, some, get_elem?}
use cnode.Redis.{Conn, Env}
use cnode.RedisPool.{Pool, get_connect, rel_connect}

pub record System : Type 0 where
  pub pool : Pool
  pub leased : List Conn

-- `gets only_pool env`, and `releases i check env` of the i-th connection that is held.
pub data Call : Type 0 where
  gets : Bool → Env → Call
  releases : ℕ → Bool → Env → Call

abbrev pub remove_at {ℓ} : {A : Type ℓ} → List A → ℕ → List A
remove_at [] i = []
remove_at (x ∷ xs) zero = xs
remove_at (x ∷ xs) (suc i) = x ∷ remove_at xs i

unfoldable pub after_get : List Conn → Pool × ℕ × Option Conn → System
after_get held (p, code, none) = record { pool = p; leased = held }
after_get held (p, code, some c) = record { pool = p; leased = c ∷ held }

unfoldable pub release_held : System → ℕ → Bool → Env → Option Conn → System
release_held s i check e none = s
release_held s i check e (some c) = record {
  pool = rel_connect (some c) check e s.pool;
  leased = remove_at s.leased i;
}

-- An index out of range is no call.
unfoldable pub step : System → Call → System
unfolding after_get release_held
step s (gets only_pool e) = after_get s.leased (get_connect only_pool e s.pool)
step s (releases i check e) = release_held s i check e (get_elem? s.leased i)

unfoldable pub run : System → List Call → System
run s [] = s
run s (c ∷ cs) = run (step s c) cs
