-- ===== src/Limiter/Window.antt =====
-- code/rate_limiter/limiter.go: `FixedWindow`. Readings of the clock are arguments, in nanoseconds.
use system_design_handbook.Base.{ℕ, ◌+◌, Bool, true, false, List, [], ◌∷◌, if◌then◌else◌}
use system_design_handbook.Int.{ℤ, pos, ◌-ℤ◌, ltb_ℤ, leb_ℤ}

pub record FixedWindow : Type 0 where
  pub limit : ℤ
  pub window : ℤ
  pub count : ℕ
  pub window_start : ℤ

unfoldable pub new_fixed_window : ℤ → ℤ → ℤ → FixedWindow
new_fixed_window limit window now = record {
  limit = limit;
  window = window;
  count = 0;
  window_start = now;
}

-- The first part of `Allow`: a new window starts when the old one is over.
unfoldable pub roll : ℤ → FixedWindow → FixedWindow
roll now fw =
    if leb_ℤ fw.window (now -ℤ fw.window_start)
    then record fw { count = 0; window_start = now }
    else fw

unfoldable pub allow : ℤ → FixedWindow → FixedWindow × Bool
unfolding roll
allow now fw =
    let fw' = roll now fw in
    if ltb_ℤ (pos fw'.count) fw'.limit
    then (record fw' { count = fw'.count + 1 }, true)
    else (fw', false)

-- Requests at these readings, and how many of them are allowed.
unfoldable pub allow_all : List ℤ → FixedWindow → FixedWindow × ℕ
allow_all [] fw = (fw, 0)
allow_all (t ∷ ts) fw =
    let (fw', ok) = allow t fw in
    let (fw'', n) = allow_all ts fw' in (fw'', if ok then n + 1 else n)
