-- ===== src/Limiter/Bursts.antt =====
-- code/rate_limiter/limiter.go: how many requests a fixed window lets through.
use Prim.Native.Nat.{min}
use system_design_handbook.Base.{
  ◌+◌, ◌-◌, ◌*◌, ◌≤◌, ◌≡◌, refl, true, false, Bool-cases, inl, inr, List, [], ◌∷◌, length, arith,
}
use system_design_handbook.Int.{ℤ, pos, pos_part, ◌+ℤ◌, ◌-ℤ◌, ltb_ℤ, leb_ℤ, ◌≤ℤ◌}
use system_design_handbook.Limiter.Window.{FixedWindow, roll, allow, allow_all}

-- All the readings lie in the half-open span of one window from `lo` on.
abbrev pub AllWithin : ℤ → ℤ → List ℤ → Type 0
AllWithin lo window [] = Unit
AllWithin lo window (t ∷ ts) = (lo ≤ℤ t) × (ltb_ℤ t (lo +ℤ window) ≡ true) × AllWithin lo window ts

roll-running :
    (lo t : ℤ) (fw : FixedWindow)
    → lo ≤ℤ fw.window_start
    → ltb_ℤ t (lo +ℤ fw.window) ≡ true
    → roll t fw ≡ fw
unfolding roll ◌-ℤ◌ ◌+ℤ◌
roll-running lo t fw h lt = ground arith

-- In a window that has begun at `lo` or later, the limit is exact: of the requests up to the window's
-- length after `lo`, as many are allowed as there is room for, and no more.
pub allow_all-exact :
    (lo : ℤ) (ts : List ℤ) (fw : FixedWindow)
    → lo ≤ℤ fw.window_start
    → AllWithin lo fw.window ts
    → (allow_all ts fw).1 ≡ min (length ts) (pos_part fw.limit - fw.count)
unfolding allow_all allow
allow_all-exact lo [] fw h w = omega arith
allow_all-exact lo (t ∷ ts) fw h w =
    let same = roll-running lo t fw h w.1 in
    elim (Bool-cases (ltb_ℤ (pos fw.count) fw.limit)) [
      | inl room ↦
          let rest = allow_all-exact lo ts (record fw { count = fw.count + 1 }) h w.2 in
          rw (same, room) (ground (arith, rest))
      | inr full ↦
          let rest = allow_all-exact lo ts fw h w.2 in rw (same, full) (ground (arith, rest))
    ]

restarted : ℤ → FixedWindow → FixedWindow
restarted t fw = record fw { count = 0; window_start = t }

-- A new window starts with this request: it goes on as one that has just begun.
allow_all-restarted :
    (lo t : ℤ) (ts : List ℤ) (fw : FixedWindow)
    → leb_ℤ fw.window (t -ℤ fw.window_start) ≡ true
    → lo ≤ℤ t
    → ltb_ℤ t (lo +ℤ fw.window) ≡ true
    → allow_all (t ∷ ts) fw ≡ allow_all (t ∷ ts) (restarted t fw)
unfolding allow_all allow restarted
allow_all-restarted lo t ts fw over le lt =
    let again = roll-running lo t (restarted t fw) le lt in rw (again, roll, over) refl

running_step :
    (lo t : ℤ) (ts : List ℤ) (fw : FixedWindow)
    → leb_ℤ fw.window (t -ℤ fw.window_start) ≡ false
    → AllWithin lo fw.window (t ∷ ts)
    → (allow_all ts fw).1 ≤ (pos_part fw.limit - fw.count) + pos_part fw.limit
    → (allow_all ts (record fw { count = fw.count + 1 })).1
      ≤ (pos_part fw.limit - (fw.count + 1)) + pos_part fw.limit
    → (allow_all (t ∷ ts) fw).1 ≤ (pos_part fw.limit - fw.count) + pos_part fw.limit
unfolding allow_all allow roll
running_step lo t ts fw goes_on w same more = elim (Bool-cases (ltb_ℤ (pos fw.count) fw.limit)) [
  | inl room ↦ rw (goes_on, room) (ground arith)
  | inr full ↦ rw (goes_on, full) same
]

at_most_twice :
    (lo : ℤ) (ts : List ℤ) (fw : FixedWindow)
    → AllWithin lo fw.window ts
    → (allow_all ts fw).1 ≤ (pos_part fw.limit - fw.count) + pos_part fw.limit
unfolding restarted
at_most_twice lo [] fw w = unfold allow_all in omega arith
at_most_twice lo (t ∷ ts) fw w = elim (Bool-cases (leb_ℤ fw.window (t -ℤ fw.window_start))) [
  | inl over ↦
      rw (allow_all-restarted lo t ts fw over w.0 w.1)
        (omega (arith, allow_all-exact lo (t ∷ ts) (restarted t fw) w.0 w))
  | inr goes_on ↦
      running_step lo t ts fw goes_on w (at_most_twice lo ts fw w.2)
        (at_most_twice lo ts (record fw { count = fw.count + 1 }) w.2)
]

-- The flaw that the comment on the type describes has this bound: whatever the state, within any span
-- shorter than a window at most twice the limit is allowed.
pub burst_at_most_twice :
    (lo : ℤ) (ts : List ℤ) (fw : FixedWindow)
    → AllWithin lo fw.window ts
    → (allow_all ts fw).1 ≤ 2 * pos_part fw.limit
burst_at_most_twice lo ts fw w = omega (arith, at_most_twice lo ts fw w)
