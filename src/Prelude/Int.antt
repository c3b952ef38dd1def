-- ===== src/Prelude/Int.antt =====
-- Signed integers over the native numbers, for Go's int64 fields that a client may send negative.
use Prim.Native.Nat.{ℕ}
use mathlib.Core.Bool.{Bool, true, false, ◌||◌}
use call_recorder.Prelude.Tests.{ltb, ◌==◌}

pub data ℤ : Type 0 where
  pos negsuc : ℕ → ℤ

-- The strict order.
abbrev pub less_than : ℤ → ℤ → Bool
less_than (pos a) (pos b) = ltb a b
less_than (pos a) (negsuc b) = false
less_than (negsuc a) (pos b) = true
less_than (negsuc a) (negsuc b) = ltb b a

unfoldable pub is_zero : ℤ → Bool
is_zero (pos n) = n == 0
is_zero (negsuc n) = false

-- The number lies outside the two bounds.
unfoldable pub is_outside_range : ℕ → ℕ → ℤ → Bool
is_outside_range low high n = less_than n (pos low) || less_than (pos high) n
