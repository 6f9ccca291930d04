-- ===== src/Base/Descent.antt =====
-- Recursion on a number that falls.
use Prim.Native.Nat.{ℕ, zero, suc, ◌<◌}
use mathlib.Core.WellFounded.{Acc, WellFounded}
use native.Mathlib.Omega.{arith}

reaches : (bound n : ℕ) → n < bound → Acc ◌<◌ n
reaches zero n h = elim h [ ]
reaches (suc bound) n h = Acc.intro n (λ m less. reaches bound m (omega arith))

unfoldable pub lt_wf : WellFounded ◌<◌
unfolding reaches
lt_wf = record { apply = λ n. reaches (suc n) n (omega arith) }
