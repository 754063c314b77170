-- ===== src/Prelude/Range.antt =====
-- Checks of every number below a bound, by evaluation.
use Prim.Native.Nat.{ℕ, zero, suc, ◌<◌}
use mathlib.Core.Path.{◌≡◌}
use mathlib.Core.Bool.{Bool, true, false}
use native.Mathlib.Omega.{arith}
use chats.Prelude.Tests.{if◌then◌else◌}

unfoldable pub holds_below : (test : ℕ → Bool) → (bound : ℕ) → Bool
holds_below test zero = true
holds_below test (suc bound) =
    let rest = holds_below test bound in if test bound then rest else false

pub at_of_holds_below :
    (test : ℕ → Bool) (bound : ℕ) {i : ℕ}
    → holds_below test bound ≡ true
    → i < bound
    → test i ≡ true
unfolding holds_below
at_of_holds_below test zero h below = absurd (omega arith)
at_of_holds_below test (suc bound) {i = i} h below =
    ground (arith, h, at_of_holds_below test bound {i = i}, below)
