-- ===== src/Grpc/Sizes.antt =====
-- code/grpc_example/wire.go: `VarintSize` counts the bytes that `AppendVarint` writes.
use native.Mathlib.Nat.{pow-suc}
use system_design_handbook.Base.{
  ℕ, zero, suc, ◌+◌, ◌-◌, ◌*◌, ◌/◌, ◌^◌, ◌≤◌, ◌<◌, ◌≡◌, refl, ◌∙◌, ap, [], length, dec_lt, arith,
}
use system_design_handbook.Grpc.Varint.{u64_mod, append_varint, digits_within, len64, varint_size}
use system_design_handbook.Grpc.Groups.{varint, append_varint-varint, varint_small, varint_large}

digits_next :
    (m n v w : ℕ) → m ≡ suc n → v / 2 ≡ w → 0 < v → digits_within m v ≡ 1 + digits_within n w
unfolding digits_within
digits_next m n v w e f h = rw (e, ← f) (ground arith)

digits_none : (n : ℕ) → digits_within n 0 ≡ 0
unfolding digits_within
digits_none zero = refl
digits_none (suc n) = refl

digits_bound : (n j v : ℕ) → v < 2 ^ j → digits_within n v ≤ j
unfolding digits_within
digits_bound zero j v h = omega arith
digits_bound (suc n) zero v h = let e : v ≡ 0 = omega arith in rw e (omega arith)
digits_bound (suc n) (suc j) v h =
    ground (arith, digits_bound n j (v / 2) (omega (arith, pow-suc 2 j)))

-- More fuel than digits changes nothing.
digits_fuel : (n m v : ℕ) → v < 2 ^ n → v < 2 ^ m → digits_within n v ≡ digits_within m v
unfolding digits_within
digits_fuel zero m v p q = let e : v ≡ 0 = omega arith in rw e (omega (arith, digits_none m))
digits_fuel (suc n) zero v p q = let e : v ≡ 0 = omega arith in rw e refl
digits_fuel (suc n) (suc m) v p q =
    ground
      (arith, digits_fuel n m (v / 2) (omega (arith, pow-suc 2 n)) (omega (arith, pow-suc 2 m)))

-- Seven digits go at a time.
seven_digits : (m n v : ℕ) → m ≡ 7 + n → 128 ≤ v → digits_within m v ≡ 7 + digits_within n (v / 128)
seven_digits m n v e h = omega (
  arith,
  digits_next m (6 + n) v (v / 2) (omega arith) (omega arith) (omega arith),
  digits_next (6 + n) (5 + n) (v / 2) (v / 4) (omega arith) (omega arith) (omega arith),
  digits_next (5 + n) (4 + n) (v / 4) (v / 8) (omega arith) (omega arith) (omega arith),
  digits_next (4 + n) (3 + n) (v / 8) (v / 16) (omega arith) (omega arith) (omega arith),
  digits_next (3 + n) (2 + n) (v / 16) (v / 32) (omega arith) (omega arith) (omega arith),
  digits_next (2 + n) (1 + n) (v / 32) (v / 64) (omega arith) (omega arith) (omega arith),
  digits_next (1 + n) n (v / 64) (v / 128) (omega arith) (omega arith) (omega arith),
)

groups_of_seven :
    (k v : ℕ)
    → 0 < v
    → v < 128 ^ suc k
    → (digits_within (7 * suc k) v ≤ 7 * length (varint v))
      × (7 * length (varint v) ≤ digits_within (7 * suc k) v + 6)
groups_of_seven zero v p h = rw (varint_small v (omega arith)) (
  digits_bound 7 7 v (omega arith),
  omega (arith, digits_next 7 6 v (v / 2) (omega arith) (omega arith) p),
)
groups_of_seven (suc k) v p h = elim (dec_lt v 128) [
  | yes q ↦
      let m = 7 * suc (suc k) in
      rw (varint_small v q) (
        digits_bound m 7 v q,
        omega (arith, digits_next m (m - 1) v (v / 2) (omega arith) (omega arith) p),
      )
  | no q ↦
      let rest = groups_of_seven k (v / 128) (omega arith) (omega (arith, pow-suc 128 (suc k))) in
      let group = seven_digits (7 * suc (suc k)) (7 * suc k) v (omega arith) (omega arith) in
      rw (varint_large v (omega arith)) (omega (arith, rest, group), omega (arith, rest, group))
]

-- VarintSize is the number of bytes that AppendVarint writes, for every uint64.
pub varint_size-length : (v : ℕ) → v < u64_mod → varint_size v ≡ length (append_varint [] v)
unfolding varint_size len64
varint_size-length zero h =
    omega (arith, ap length (append_varint-varint [] 0 ∙ varint_small 0 (omega arith)))
varint_size-length (suc v) h =
    let groups = groups_of_seven 9 (suc v) (omega arith) (omega arith) in
    let fuel = digits_fuel 64 70 (suc v) (omega arith) (omega arith) in
    ground (arith, groups, fuel, ap length (append_varint-varint [] (suc v)))
