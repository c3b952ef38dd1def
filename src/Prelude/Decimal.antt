-- ===== src/Prelude/Decimal.antt =====
-- Numbers in decimal, as %d and strconv.Itoa print them.
use Prim.Native.Nat.{ℕ, zero, suc, ◌+◌, ◌/◌, ◌%◌}
use mathlib.Core.List.{[], ◌∷◌, ◌++◌}
use call_recorder.Prelude.Tests.{ltb, if◌then◌else◌}
use call_recorder.Prelude.Text.{Text}

-- The digits of a number; the number itself is more fuel than its digits need.
unfoldable pub digits : ℕ → ℕ → Text
digits zero n = []
digits (suc fuel) n =
    let more = digits fuel (n / 10) ++ (b'0' + n % 10) ∷ [] in
    if ltb n 10 then (b'0' + n) ∷ [] else more

unfoldable pub decimal : ℕ → Text
unfolding digits
decimal n = digits (suc n) n
