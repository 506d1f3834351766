-- ===== src/TaskPool/Served.antt =====
-- comm/taskpool.cpp: what becomes of the tasks of a `TaskPool`.
use cnode.Prelude.{ℕ, ◌+◌, ◌≡◌, Bool, List, [], ◌∷◌, if◌then◌else◌, count}
use cnode.Queue.{Queue}
use cnode.Queue.Items.{held}
use cnode.TaskPool.{TaskPool, Worker, looping, popping, holding, ended}
use cnode.TaskPool.Threads.{System}

module _ {ℓ} {T : Type ℓ} (p : T → Bool) where
  abbrev pub in_hand : Worker T → ℕ
  in_hand (holding t) = if p t then 1 else 0
  in_hand looping = 0
  in_hand popping = 0
  in_hand ended = 0

  abbrev pub in_hands : List (Worker T) → ℕ
  in_hands [] = 0
  in_hands (w ∷ ws) = in_hand w + in_hands ws

  abbrev pub times : List (T × ℕ) → ℕ
  times ts = count (λ e. p e.0) ts

  abbrev placed : System T → ℕ
  placed s = times s.ran + count p s.dropped + (in_hands s.workers + held p s.pool.tasks)

  -- What a step keeps.
  abbrev Keeps : System T → System T → Type 0
  Keeps s u = placed u + count p s.accepted ≡ placed s + count p u.accepted
