-- ===== src/Base/Counting.antt =====
-- Counting over the numbers below a bound: majorities of one set intersect.
use Prim.Native.Nat.{ℕ, zero, suc, ◌+◌, ◌≤◌, ◌<◌}
use mathlib.Core.Path.{◌≡◌}
use mathlib.Core.Bool.{Bool, true, false}
use mathlib.Core.Logic.{inl, inr}
use system_design_handbook.Base.Tests.{Bool-cases, ◌==◌, if◌then◌else◌}
use native.Mathlib.Omega.{arith}

abbrev pub bit : Bool → ℕ
bit true = 1
bit false = 0

-- How many numbers below `n` pass the test.
unfoldable pub count_below : ℕ → (ℕ → Bool) → ℕ
count_below zero p = 0
count_below (suc n) p = count_below n p + bit (p n)

-- A loop over the numbers below `n`, in ascending order.
unfoldable pub for_below {ℓ} : {S : Type ℓ} → ℕ → (ℕ → S → S) → S → S
for_below zero body s = s
for_below (suc n) body s = body n (for_below n body s)

pub for_below_inv {ℓ κ} :
    {S : Type ℓ} (P : S → Type κ) (body : ℕ → S → S)
    → ((i : ℕ) (s : S) → P s → P (body i s))
    → (n : ℕ) (s : S) → P s
    → P (for_below n body s)
unfolding for_below
for_below_inv P body keep zero s h = h
for_below_inv P body keep (suc n) s h = keep n _ (for_below_inv P body keep n s h)

pub for_below_ind {ℓ κ} :
    {S : Type ℓ} (P : ℕ → S → Type κ) (body : ℕ → S → S) (n : ℕ)
    → ((i : ℕ) → i < n → (s : S) → P i s → P (suc i) (body i s))
    → (s : S) → P 0 s
    → P n (for_below n body s)
unfolding for_below
for_below_ind P body zero keep s h = h
for_below_ind P body (suc n) keep s h =
    keep n (omega arith) _ (for_below_ind P body n (λ i lt. keep i (omega arith)) s h)

pub count_below-suc : (n : ℕ) (p : ℕ → Bool) → count_below (suc n) p ≡ count_below n p + bit (p n)
unfolding count_below
count_below-suc n p = omega arith

pub count_below-le : (n : ℕ) (p : ℕ → Bool) → count_below n p ≤ n
unfolding count_below
count_below-le zero p = omega arith
count_below-le (suc n) p = ground (arith, count_below-le n p)

pub count_below_mono :
    (n : ℕ) (p q : ℕ → Bool)
    → ((i : ℕ) → i < n → p i ≡ true → q i ≡ true)
    → count_below n p ≤ count_below n q
unfolding count_below
count_below_mono zero p q h = omega arith
count_below_mono (suc n) p q h =
    ground (arith, count_below_mono n p q (λ i lt. h i (omega arith)), h n (omega arith))

abbrev Shared : ℕ → (ℕ → Bool) → (ℕ → Bool) → Type 0
Shared n p q = (i : ℕ) × (i < n) × (p i ≡ true) × (q i ≡ true)

Shared-suc : (n : ℕ) (p q : ℕ → Bool) → Shared n p q → Shared (suc n) p q
Shared-suc n p q (i, lt, a, b) = (i, omega arith, a, b)

-- Two sets that are together larger than the whole have a member in common.
pub pigeonhole :
    (n : ℕ) (p q : ℕ → Bool)
    → n < count_below n p + count_below n q
    → (i : ℕ) × (i < n) × (p i ≡ true) × (q i ≡ true)
unfolding count_below
pigeonhole zero p q h = absurd (omega arith)
pigeonhole (suc n) p q h = elim (Bool-cases (p n)) [
  | inl a ↦ elim (Bool-cases (q n)) [
    | inl b ↦ (n, omega arith, a, b)
    | inr b ↦ Shared-suc n p q (pigeonhole n p q (ground arith))
  ]
  | inr a ↦ Shared-suc n p q (pigeonhole n p q (ground arith))
]

pub count_below-ext :
    (n : ℕ) (p q : ℕ → Bool) → ((i : ℕ) → i < n → p i ≡ q i) → count_below n p ≡ count_below n q
unfolding count_below
count_below-ext zero p q h = omega arith
count_below-ext (suc n) p q h =
    ground (arith, count_below-ext n p q (λ i lt. h i (omega arith)), h n (omega arith))

-- One value of a table changes.
pub count_below-update :
    {A : Type 0} (n k : ℕ) (p : A → Bool) (f : ℕ → A) (x : A)
    → k < n
    → count_below n (λ i. p (if i == k then x else f i)) + bit (p (f k))
      ≡ count_below n (λ i. p (f i)) + bit (p x)
unfolding count_below
count_below-update zero k p f x lt = absurd (omega arith)
count_below-update (suc n) k p f x lt = elim (Bool-cases (n == k)) [
  | inl e ↦
      let rest =
        count_below-ext n (λ i. p (if i == k then x else f i)) (λ i. p (f i))
          (λ i less. ground arith) in
      ground (arith, rest)
  | inr ne ↦ ground (arith, count_below-update n k p f x (ground arith))
]
