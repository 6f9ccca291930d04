-- ===== src/Bloom/Words.antt =====
-- code/bloom_filter/bloom.go: a bit that is set reads as set, and setting one clears none.
use Prim.Native.Nat.{bit_and, bit_or}
use native.Mathlib.Nat.{pow-suc}
use system_design_handbook.Base.{
  ℕ, zero, suc, ◌*◌, ◌/◌, ◌^◌, ◌≤◌, ◌<◌, ◌≡◌, refl, sym, ap, ◌∙◌, arith,
}
use system_design_handbook.Base.Bits.{bit_and-zero, bit_or-zero, bit_and-halves, bit_or-halves}

bit_and-bit_or_mono_within : (bound w c b : ℕ) → b ≤ bound → bit_and w b ≤ bit_and (bit_or w c) b
bit_and-bit_or_mono_within zero w c b h =
    let e : b ≡ 0 = omega arith in rw e (omega (arith, bit_and-zero w))
bit_and-bit_or_mono_within (suc bound) w c b h =
    let both = bit_or-halves w c in
    let half : bit_or w c / 2 ≡ bit_or (w / 2) (c / 2) = omega (arith, both) in
    omega (
      arith,
      both,
      bit_and-halves w b,
      bit_and-halves (bit_or w c) b,
      ap (λ (t : ℕ). bit_and t (b / 2)) half,
      bit_and-bit_or_mono_within bound (w / 2) (c / 2) (b / 2) (omega arith),
    )

pub bit_and-bit_or_mono : (w c b : ℕ) → bit_and w b ≤ bit_and (bit_or w c) b
bit_and-bit_or_mono w c b = bit_and-bit_or_mono_within b w c b (omega arith)

bit_and-bit_or_within : (bound w b : ℕ) → b ≤ bound → b ≤ bit_and (bit_or w b) b
bit_and-bit_or_within zero w b h = omega arith
bit_and-bit_or_within (suc bound) w b h =
    let both = bit_or-halves w b in
    let half : bit_or w b / 2 ≡ bit_or (w / 2) (b / 2) = omega (arith, both) in
    omega (
      arith,
      both,
      bit_and-halves (bit_or w b) b,
      ap (λ (t : ℕ). bit_and t (b / 2)) half,
      bit_and-bit_or_within bound (w / 2) (b / 2) (omega arith),
    )

pub bit_and-bit_or : (w b : ℕ) → b ≤ bit_and (bit_or w b) b
bit_and-bit_or w b = bit_and-bit_or_within b w b (omega arith)

pub pow_pos : (n : ℕ) → 0 < 2 ^ n
pow_pos zero = omega arith
pow_pos (suc n) = omega (arith, pow-suc 2 n, pow_pos n)

zero-bit_and_within : (bound b : ℕ) → b ≤ bound → bit_and 0 b ≡ 0
zero-bit_and_within zero b h = let e : b ≡ 0 = omega arith in rw e (bit_and-zero 0)
zero-bit_and_within (suc bound) b h =
    omega (arith, bit_and-halves 0 b, zero-bit_and_within bound (b / 2) (omega arith))

bit_and-next : (w j : ℕ) → bit_and w (2 ^ suc j) ≡ bit_and (w / 2) (2 ^ j) * 2
bit_and-next w j =
    let smaller : 2 ^ suc j / 2 ≡ 2 ^ j = omega (arith, pow-suc 2 j) in
    omega
      (arith, bit_and-halves w (2 ^ suc j), ap (λ (t : ℕ). bit_and (w / 2) t) smaller, pow-suc 2 j)

pub zero-bit_and : (b : ℕ) → bit_and 0 b ≡ 0
zero-bit_and b = zero-bit_and_within b b (omega arith)

-- Setting a bit leaves the others.
pub bit_and-bit_or_other :
    (w i j : ℕ) → (j ≡ i → ⊥) → bit_and (bit_or w (2 ^ i)) (2 ^ j) ≡ bit_and w (2 ^ j)
bit_and-bit_or_other w zero zero h = absurd (h refl)
bit_and-bit_or_other w zero (suc j) h =
    let both = bit_or-halves w 1 in
    let half : bit_or w 1 / 2 ≡ w / 2 = omega (arith, both, bit_or-zero (w / 2)) in
    bit_and-next (bit_or w 1) j
    ∙ ap (λ (t : ℕ). bit_and t (2 ^ j) * 2) half
    ∙ sym (bit_and-next w j)
bit_and-bit_or_other w (suc i) zero h = omega (
  arith,
  pow-suc 2 i,
  bit_or-halves w (2 ^ suc i),
  bit_and-halves w 1,
  bit_and-halves (bit_or w (2 ^ suc i)) 1,
  bit_and-zero (w / 2),
  bit_and-zero (bit_or w (2 ^ suc i) / 2),
)
bit_and-bit_or_other w (suc i) (suc j) h =
    let both = bit_or-halves w (2 ^ suc i) in
    let smaller : 2 ^ suc i / 2 ≡ 2 ^ i = omega (arith, pow-suc 2 i) in
    let half : bit_or w (2 ^ suc i) / 2 ≡ bit_or (w / 2) (2 ^ i) =
      omega (arith, both, ap (λ (t : ℕ). bit_or (w / 2) t) smaller, pow-suc 2 i) in
    bit_and-next (bit_or w (2 ^ suc i)) j
    ∙ ap (λ (t : ℕ). bit_and t (2 ^ j) * 2) half
    ∙ ap (λ (t : ℕ). t * 2) (bit_and-bit_or_other (w / 2) i j (λ e. h (ap suc e)))
    ∙ sym (bit_and-next w j)
