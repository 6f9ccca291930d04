-- ===== src/Sketch/Bounds.antt =====
-- code/count_min_sketch/cms.go: an estimate is never below the true count.
use mathlib.Core.Logic.{ite}
use system_design_handbook.Base.{
  ℕ, suc, ◌+◌, ◌-◌, ◌%◌, ◌≤◌, ◌<◌, ◌≡◌, refl, ◌⊎◌, inl, Bool, true, false, ◌&&◌, List, [], ◌∷◌, ltb,
  ◌==◌, if◌then◌else◌, for_below_ind, arith,
}
use system_design_handbook.Bytes.{Bytes}
use system_design_handbook.Sketch.Counters.{
  CountMinSketch, u64_mod, new_sketch, column, add_row, add, min_row, estimate,
}

module _ (fnv : Bytes → ℕ) where
  -- The state of the loop of `Add` after the rows below k.
  record RowsAdded (item : Bytes) (count : ℕ) (c : CountMinSketch) (k : ℕ) (s : CountMinSketch)
      : Type 0 where
    same_w : s.w ≡ c.w
    same_d : s.d ≡ c.d
    same_total : s.total ≡ c.total
    cells :
        (i j : ℕ)
        → s.counts i j ≡ (
            if ltb i k && (j == column fnv item c.w i)
            then (c.counts i j + count) % u64_mod
            else c.counts i j)

  add_row-RowsAdded :
      (item : Bytes) (count : ℕ) (c : CountMinSketch) (k : ℕ) (s : CountMinSketch)
      → RowsAdded item count c k s
      → RowsAdded item count c (suc k) (add_row fnv item count k s)
  unfolding add_row
  add_row-RowsAdded item count c k s h = record {
    same_w = h.same_w;
    same_d = h.same_d;
    same_total = h.same_total;
    cells = λ i j. rw h.same_w (ground (arith, h.cells i j, h.cells k (column fnv item c.w k)));
  }

  -- What `Add` does to the sketch.
  pub record Added (item : Bytes) (count : ℕ) (c s : CountMinSketch) : Type 0 where
    pub same_w : s.w ≡ c.w
    pub same_d : s.d ≡ c.d
    pub new_total : s.total ≡ (c.total + count) % u64_mod
    pub cells :
        (i j : ℕ)
        → i < c.d
        → s.counts i j
          ≡ (if j == column fnv item c.w i then (c.counts i j + count) % u64_mod else c.counts i j)

  add-Added :
      (item : Bytes) (count : ℕ) (c : CountMinSketch) → Added item count c (add fnv item count c)
  unfolding add
  add-Added item count c =
      let h =
        for_below_ind (RowsAdded item count c) (add_row fnv item count) c.d
          (λ k lt s. add_row-RowsAdded item count c k s) c
          (record {
            same_w = refl;
            same_d = refl;
            same_total = refl;
            cells = λ i j. ground arith;
          }) in
      record {
        same_w = h.same_w;
        same_d = h.same_d;
        new_total = rw h.same_total refl;
        cells = λ i j lt. ground (arith, h.cells i j);
      }

  -- The counts of the items that pass the test, added up.
  unfoldable pub weight : (Bytes → Bool) → List (Bytes × ℕ) → ℕ
  weight test [] = 0
  weight test ((x, n) ∷ xs) = (if test x then n else 0) + weight test xs

  abbrev pub anything : Bytes → Bool
  anything x = true

  unfoldable pub add_all : List (Bytes × ℕ) → CountMinSketch → CountMinSketch
  add_all [] c = c
  add_all ((x, n) ∷ xs) c = add_all xs (add fnv x n c)

  -- After these items, from the sketch `c`.
  record Tracks (xs : List (Bytes × ℕ)) (c s : CountMinSketch) : Type 0 where
    same_w : s.w ≡ c.w
    same_d : s.d ≡ c.d
    total_weight : s.total ≡ c.total + weight anything xs
    cells :
        (i j : ℕ) → i < c.d → s.counts i j ≡ c.counts i j + weight (λ x. j == column fnv x c.w i) xs

  CellsBounded : CountMinSketch → Type 0
  CellsBounded c = (i j : ℕ) → i < c.d → c.counts i j ≤ c.total

  add_all-Tracks :
      (xs : List (Bytes × ℕ)) (c : CountMinSketch)
      → CellsBounded c
      → c.total + weight anything xs < u64_mod
      → Tracks xs c (add_all xs c)
  unfolding add_all weight CellsBounded
  add_all-Tracks [] c b h = record {
    same_w = refl;
    same_d = refl;
    total_weight = omega arith;
    cells = λ i j lt. omega arith;
  }
  add_all-Tracks ((x, n) ∷ xs) c b h =
      let s = add fnv x n c in
      let a = add-Added x n c in
      let total : s.total ≡ c.total + n = omega (arith, a.new_total) in
      let b' : (i j : ℕ) → i < s.d → s.counts i j ≤ s.total =
        λ i j lt. ground (arith, a.cells i j, a.same_d, total, b i j) in
      let t = add_all-Tracks xs s b' (omega (arith, total)) in
      record {
        same_w = omega (arith, t.same_w, a.same_w);
        same_d = omega (arith, t.same_d, a.same_d);
        total_weight = omega (arith, t.total_weight, total);
        cells = λ i j lt.
            let later = rw a.same_w at (t.cells i j (omega (arith, a.same_d))) in
            ground (arith, later, a.cells i j lt, b i j lt);
      }

  weight_mono :
      (p q : Bytes → Bool) (xs : List (Bytes × ℕ))
      → ((x : Bytes) → p x ≡ true → q x ≡ true)
      → weight p xs ≤ weight q xs
  unfolding weight
  weight_mono p q [] h = omega arith
  weight_mono p q ((x, n) ∷ xs) h = ground (arith, h x, weight_mono p q xs h)

  -- Bytes number below every counter of the item is below its estimate, and a number above them all is
  -- above it, if there is a row.
  estimate_between :
      (item : Bytes) (c : CountMinSketch) (low high : ℕ)
      → low < u64_mod
      → 0 < c.d
      → ((i : ℕ)
          → i < c.d
          → (low ≤ c.counts i (column fnv item c.w i))
            × (c.counts i (column fnv item c.w i) ≤ high))
      → (low ≤ estimate fnv item c) × (estimate fnv item c ≤ high)
  unfolding estimate min_row
  estimate_between item c low high small rows h =
      let p =
        for_below_ind (λ k m. (low ≤ m) × ((k ≡ 0) ⊎ (m ≤ high))) (min_row fnv item c) c.d
          (λ k lt m p. ground (arith, p, h k lt)) (u64_mod - 1) (omega arith, inl refl) in
      (p.0, ground (arith, p.1))

  new_sketch-CellsBounded : (w d : ℕ) → CellsBounded (new_sketch w d)
  unfolding new_sketch CellsBounded
  new_sketch-CellsBounded w d i j lt = omega arith

  abbrev pub is : Discrete Bytes → Bytes → Bytes → Bool
  is dec item x = ite (dec x item) true false

  is-eq : (dec : Discrete Bytes) (item x : Bytes) → is dec item x ≡ true → x ≡ item
  is-eq dec item x h = ground arith

  -- An estimate is never below what was added for the item, nor above what was added altogether, in a
  -- sketch of any size with at least one row, for any hash function: as long as all that was added
  -- stays in a uint64.
  pub estimate-bounds :
      (dec : Discrete Bytes) (item : Bytes) (w d : ℕ) (xs : List (Bytes × ℕ))
      → 0 < d
      → weight anything xs < u64_mod
      → let c = add_all xs (new_sketch w d) in
        (weight (is dec item) xs ≤ estimate fnv item c) × (estimate fnv item c ≤ weight anything xs)
  unfolding new_sketch
  estimate-bounds dec item w d xs rows small =
      let t = add_all-Tracks xs (new_sketch w d) (new_sketch-CellsBounded w d) (omega arith) in
      let c = add_all xs (new_sketch w d) in
      let own = weight_mono (is dec item) anything xs (λ x h. refl) in
      estimate_between item c (weight (is dec item) xs) (weight anything xs) (omega (arith, own))
        (omega (arith, t.same_d))
        (λ i lt.
          let at = column fnv item w i in
          let cell = t.cells i at (omega (arith, t.same_d)) in
          let mine =
            weight_mono (is dec item) (λ x. at == column fnv x w i) xs
              (λ x h. rw (is-eq dec item x h) (ground arith)) in
          let all = weight_mono (λ x. at == column fnv x w i) anything xs (λ x h. refl) in
          rw t.same_w (omega (arith, cell, mine), omega (arith, cell, all)))
