-- ===== src/Auth/Session.antt =====
-- deal_auth.cpp `MakeSession`: a session tells what it was made of.
use cnode.Prelude.{ℕ, zero, suc, ◌+◌, ◌-◌, ◌*◌, [], ◌∷◌}
use cnode.Prelude.Bytes.{Bytes}

-- The number that digits stand for, read on from `acc`.
abbrev pub value : ℕ → Bytes → ℕ
value acc [] = acc
value acc (c ∷ s) = value (acc * 10 + (c - b'0')) s

-- What so many digits can hold.
abbrev pub bound : ℕ → ℕ
bound zero = 1
bound (suc width) = bound width * 10
