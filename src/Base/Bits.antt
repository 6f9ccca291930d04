-- ===== src/Base/Bits.antt =====
-- Masks and disjoint fields of machine words: `bit_and` by a mask of ones is a remainder, and
-- `bit_or` of a shifted number and a number below the shift is their sum.
use Prim.Native.Nat.{
  ℕ, zero, suc, ◌+◌, ◌*◌, ◌/◌, ◌%◌, ◌^◌, ◌≤◌, ◌<◌, min, max, bit_and, bit_or, digits, bitwise,
  compare, Ordering, bit_and-bitwise, bit_or-bitwise, bit_xor, bit_xor-bitwise, differ,
}
use mathlib.Core.Path.{◌≡◌, refl, ◌∙◌, ap, ap₂}
use mathlib.Core.Bool.{Bool, true, false}
use native.Mathlib.Nat.{pow-suc}
use native.Mathlib.Decide.{ℕ_discrete}
use native.Mathlib.Omega.{arith}

module _ (rest : ℕ → ℕ) (op : ℕ → ℕ → ℕ) where
  -- The count of digits to go does not show, as long as it is enough.
  digits_enough : (n m a b : ℕ) → a ≤ n → a ≤ m → digits rest op n a b ≡ digits rest op m a b
  digits_enough zero zero a b p q = refl
  digits_enough zero (suc m) zero b p q = refl
  digits_enough zero (suc m) (suc a) b p q = absurd (omega arith)
  digits_enough (suc n) zero zero b p q = refl
  digits_enough (suc n) zero (suc a) b p q = absurd (omega arith)
  digits_enough (suc n) (suc m) zero b p q = refl
  digits_enough (suc n) (suc m) (suc a) b p q =
      omega (arith, digits_enough n m (suc a / 2) (b / 2) (omega arith) (omega arith))

-- A native operation on words that stands for `op` on digits, and what it does with them one by one.
module _ (rest : ℕ → ℕ) (op : ℕ → ℕ → ℕ) (word : ℕ → ℕ → ℕ) where
  word-halves :
      ((a b : ℕ) → word a b ≡ bitwise rest op a b)
      → ((b : ℕ) → rest b ≡ rest (b / 2) * 2 + op 0 (b % 2))
      → (a b : ℕ) → word a b ≡ word (a / 2) (b / 2) * 2 + op (a % 2) (b % 2)
  word-halves means first zero b = omega (arith, means 0 b, means 0 (b / 2), first b)
  word-halves means first (suc a) b =
      let shorter = digits_enough rest op a (suc a / 2) (suc a / 2) (b / 2) (omega arith) in
      omega (arith, shorter (omega arith), means (suc a / 2) (b / 2), means (suc a) b)

  -- The second word is 0: what it leaves of the first, found from its digits.
  word-zero :
      ((a b : ℕ) → word a b ≡ word (a / 2) (b / 2) * 2 + op (a % 2) (b % 2))
      → (left : ℕ → ℕ) → word 0 0 ≡ left 0
      → ((a : ℕ) → left a ≡ left (a / 2) * 2 + op (a % 2) 0)
      → (bound a : ℕ) → a ≤ bound
      → word a 0 ≡ left a
  word-zero halves left none each zero a h = let e : a ≡ 0 = omega arith in rw e none
  word-zero halves left none each (suc bound) a h = elim (ℕ_discrete a 0) [
    | yes e ↦ rw e none
    | no more ↦
        let below = word-zero halves left none each bound (a / 2) (omega arith) in
        omega (arith, each a, below, halves a 0)
  ]

pub bit_or-halves : (a b : ℕ) → bit_or a b ≡ bit_or (a / 2) (b / 2) * 2 + max (a % 2) (b % 2)
bit_or-halves = word-halves (λ d. d) max bit_or bit_or-bitwise (λ b. omega arith)

pub bit_and-halves : (a b : ℕ) → bit_and a b ≡ bit_and (a / 2) (b / 2) * 2 + min (a % 2) (b % 2)
bit_and-halves = word-halves (λ d. 0) min bit_and bit_and-bitwise (λ b. omega arith)

pub bit_or-zero : (a : ℕ) → bit_or a 0 ≡ a
bit_or-zero a =
    word-zero (λ d. d) max bit_or bit_or-halves (λ d. d) refl (λ d. omega arith) a a (omega arith)

pub bit_and-zero : (a : ℕ) → bit_and a 0 ≡ 0
bit_and-zero a =
    word-zero (λ d. 0) min bit_and bit_and-halves (λ d. 0) refl (λ d. omega arith) a a (omega arith)

-- A number shifted left by k, or a number of at most k digits, is their sum.
pub bit_or_disjoint : (k a b : ℕ) → b < 2 ^ k → bit_or (a * 2 ^ k) b ≡ a * 2 ^ k + b
bit_or_disjoint zero a b h =
    let e : b ≡ 0 = omega arith in rw e (omega (arith, bit_or-zero (a * 1)))
bit_or_disjoint (suc k) a b h =
    let p = ap (λ (t : ℕ). a * t) (pow-suc 2 k) in
    let half : a * 2 ^ suc k / 2 ≡ a * 2 ^ k = omega (arith, p) in
    bit_or-halves (a * 2 ^ suc k) b
    ∙ omega (
      arith,
      p,
      pow-suc 2 k,
      ap (λ (t : ℕ). bit_or t (b / 2)) half,
      bit_or_disjoint k a (b / 2) (omega (arith, pow-suc 2 k)),
    )

-- The mask of k ones, and what it leaves.
unfoldable pub ones : ℕ → ℕ
ones zero = 0
ones (suc k) = ones k * 2 + 1

pub bit_and-ones : (k q r : ℕ) → r < 2 ^ k → bit_and (q * 2 ^ k + r) (ones k) ≡ r
unfolding ones
bit_and-ones zero q r h = omega (arith, bit_and-zero (q * 1 + r))
bit_and-ones (suc k) q r h =
    let p = ap (λ (t : ℕ). q * t) (pow-suc 2 k) in
    let half : (q * 2 ^ suc k + r) / 2 ≡ q * 2 ^ k + r / 2 = omega (arith, p) in
    let mask : (ones k * 2 + 1) / 2 ≡ ones k = omega arith in
    bit_and-halves (q * 2 ^ suc k + r) (ones k * 2 + 1)
    ∙ omega (arith, p, ap₂ bit_and half mask, bit_and-ones k q (r / 2) (omega (arith, pow-suc 2 k)))

bit_or_comm_within : (bound a b : ℕ) → a ≤ bound → b ≤ bound → bit_or a b ≡ bit_or b a
bit_or_comm_within zero a b p q =
    let e : a ≡ 0 = omega arith in let f : b ≡ 0 = omega arith in rw (e, f) refl
bit_or_comm_within (suc bound) a b p q = omega (
  arith,
  bit_or-halves a b,
  bit_or-halves b a,
  bit_or_comm_within bound (a / 2) (b / 2) (omega arith) (omega arith),
)

pub bit_or_comm : (a b : ℕ) → bit_or a b ≡ bit_or b a
bit_or_comm a b = bit_or_comm_within (a + b) a b (omega arith) (omega arith)

differ_zero : (x : ℕ) → x ≡ differ x 0
differ_zero zero = refl
differ_zero (suc x) = refl

differ_one : (x : ℕ) → x < 2 → differ x 1 + x ≡ 1
differ_one zero h = refl
differ_one (suc zero) h = refl
differ_one (suc (suc x)) h = absurd (omega arith)

bit_xor-halves : (a b : ℕ) → bit_xor a b ≡ bit_xor (a / 2) (b / 2) * 2 + differ (a % 2) (b % 2)
bit_xor-halves = word-halves (λ d. d) differ bit_xor bit_xor-bitwise (λ b. omega arith)

pub bit_xor-zero : (a : ℕ) → bit_xor a 0 ≡ a
bit_xor-zero a =
    word-zero (λ d. d) differ bit_xor bit_xor-halves (λ d. d) refl
      (λ d. omega (arith, differ_zero (d % 2))) a a (omega arith)

-- Against a mask of ones every digit is turned over.
pub bit_xor-ones : (k r : ℕ) → r < 2 ^ k → bit_xor r (ones k) + r ≡ ones k
unfolding ones
bit_xor-ones zero r h = omega (arith, bit_xor-zero r)
bit_xor-ones (suc k) r h =
    let half : (ones k * 2 + 1) / 2 ≡ ones k = omega arith in
    let last : (ones k * 2 + 1) % 2 ≡ 1 = omega arith in
    omega (
      arith,
      bit_xor-halves r (ones k * 2 + 1),
      ap₂ bit_xor (λ _. r / 2) half,
      ap₂ differ (λ _. r % 2) last,
      differ_one (r % 2) (omega arith),
      bit_xor-ones k (r / 2) (omega (arith, pow-suc 2 k)),
    )

-- Every value of a small range, by evaluation.
unfoldable pub agree_below : (ℕ → ℕ) → (ℕ → ℕ) → ℕ → Bool
agree_below f g zero = true
agree_below f g (suc n) = elim (compare (f n) (g n)) [ Ordering.eq ↦ agree_below f g n | _ ↦ false ]

pub agree_below_sound :
    (f g : ℕ → ℕ) (n : ℕ) → agree_below f g n ≡ true → (i : ℕ) → i < n → f i ≡ g i
unfolding agree_below
agree_below_sound f g zero e i h = absurd (omega arith)
agree_below_sound f g (suc n) e i h = elim (ℕ_discrete i n) [
  | yes same ↦ rw same (ground arith)
  | no other ↦ agree_below_sound f g n (ground arith) i (omega arith)
]

-- Words stay words.
pub bit_or-lt : (k a b : ℕ) → a < 2 ^ k → b < 2 ^ k → bit_or a b < 2 ^ k
bit_or-lt zero a b p q =
    let e : a ≡ 0 = omega arith in let f : b ≡ 0 = omega arith in rw (e, f) (omega arith)
bit_or-lt (suc k) a b p q = omega (
  arith,
  pow-suc 2 k,
  bit_or-halves a b,
  bit_or-lt k (a / 2) (b / 2) (omega (arith, pow-suc 2 k)) (omega (arith, pow-suc 2 k)),
)
