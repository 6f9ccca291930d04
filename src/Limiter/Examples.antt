-- ===== src/Limiter/Examples.antt =====
-- code/rate_limiter/limiter.go: bursts at the boundary of two windows.
use system_design_handbook.Base.{◌*◌, ◌≤◌, ◌≡◌, refl, arith, List, [], ◌∷◌}
use system_design_handbook.Int.{ℤ, pos, ◌+ℤ◌, ◌-ℤ◌}
use system_design_handbook.Limiter.Window.{FixedWindow, new_fixed_window, roll, allow, allow_all}
use system_design_handbook.Limiter.Bursts.{burst_at_most_twice}

program : Unit {0}
unfolding new_fixed_window roll allow allow_all ◌-ℤ◌ ◌+ℤ◌
program = tt

-- Two requests per 100 nanoseconds.
abbrev fresh : FixedWindow
fresh = record { limit = pos 2; window = pos 100; count = 0; window_start = pos 0 }

abbrev boundary : List ℤ
boundary = pos 90 ∷ pos 95 ∷ pos 99 ∷ pos 100 ∷ pos 105 ∷ pos 110 ∷ []

-- Four requests get through within 15 nanoseconds.
four_allowed : (allow_all boundary fresh).1 ≡ 4
unfolding program
four_allowed = refl

burst_at_most_twice_example : (allow_all boundary fresh).1 ≤ 2 * 2
unfolding program
burst_at_most_twice_example = burst_at_most_twice (pos 90) boundary fresh (
    (
      omega arith,
      refl,
      (
        omega arith,
        refl,
        (omega arith, refl, (omega arith, refl, (omega arith, refl, (omega arith, refl, tt)))),
      ),
    ))
