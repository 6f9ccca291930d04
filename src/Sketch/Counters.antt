-- ===== src/Sketch/Counters.antt =====
-- code/count_min_sketch/cms.go: `CountMinSketch` with `Add`, `Estimate`, `Total`, `SizeBytes` and
-- `HeavyHitters`. The table of uint64 counters is a function read below the two sizes. FNV-1a is the
-- parameter `fnv`, the sum of a list of bytes. The sizes and the threshold that
-- the source computes with float64 are arguments.
use Prim.Native.Nat.{bit_or}
use system_design_handbook.Base.{
  ℕ, ◌+◌, ◌*◌, ◌-◌, ◌%◌, ◌^◌, ◌&&◌, List, [], ◌∷◌, ◌++◌, ltb, leb, ◌==◌, if◌then◌else◌, for_below,
}
use system_design_handbook.Bytes.{Bytes}

abbrev pub u64_mod : ℕ
u64_mod = 2 ^ 64

pub record CountMinSketch : Type 0 where
  pub counts : ℕ → ℕ → ℕ
  pub w : ℕ
  pub d : ℕ
  pub total : ℕ

unfoldable pub new_sketch : ℕ → ℕ → CountMinSketch
new_sketch w d = record { counts = λ _ _. 0; w = w; d = d; total = 0 }

-- `counts[i][j] = v`
unfoldable pub set_cell : ℕ → ℕ → ℕ → CountMinSketch → CountMinSketch
set_cell i j v c = record c { counts = λ a b. if (a == i) && (b == j) then v else c.counts a b }

-- `SizeBytes`
unfoldable pub size_bytes : CountMinSketch → ℕ
size_bytes c = (c.w * c.d * 8) % u64_mod

module _ (fnv : Bytes → ℕ) where
  -- `Sum64` before and after one more byte 0xff is written, the latter made odd.
  unfoldable pub hashes : Bytes → ℕ × ℕ
  hashes item = (fnv item, bit_or (fnv (item ++ (255 ∷ []))) 1)

  -- `(h1+i*h2)%c.w`
  unfoldable pub column : Bytes → ℕ → ℕ → ℕ
  unfolding hashes
  column item w i = let (h1, h2) = hashes item in ((h1 + i * h2) % u64_mod) % w

  -- The body of the loop of `Add`.
  unfoldable pub add_row : Bytes → ℕ → ℕ → CountMinSketch → CountMinSketch
  unfolding set_cell
  add_row item count i c =
      let j = column item c.w i in set_cell i j ((c.counts i j + count) % u64_mod) c

  unfoldable pub add : Bytes → ℕ → CountMinSketch → CountMinSketch
  add item count c =
      let c' = for_below c.d (add_row item count) c in
      record c' { total = (c'.total + count) % u64_mod }

  -- The body of the loop of `Estimate`.
  unfoldable pub min_row : Bytes → CountMinSketch → ℕ → ℕ → ℕ
  min_row item c i min = let v = c.counts i (column item c.w i) in if ltb v min then v else min

  unfoldable pub estimate : Bytes → CountMinSketch → ℕ
  estimate item c = for_below c.d (min_row item c) (u64_mod - 1)

  -- The loop of `HeavyHitters`.
  unfoldable pub above : ℕ → CountMinSketch → List Bytes → List Bytes
  above threshold c [] = []
  above threshold c (k ∷ ks) =
      let rest = above threshold c ks in if leb threshold (estimate k c) then k ∷ rest else rest

  -- `sort.Slice` by falling estimates.
  unfoldable pub insert_by_estimate : CountMinSketch → Bytes → List Bytes → List Bytes
  insert_by_estimate c k [] = k ∷ []
  insert_by_estimate c k (x ∷ xs) =
      let rest = insert_by_estimate c k xs in
      if ltb (estimate k c) (estimate x c) then x ∷ rest else k ∷ x ∷ xs

  unfoldable pub sort_by_estimate : CountMinSketch → List Bytes → List Bytes
  sort_by_estimate c [] = []
  sort_by_estimate c (k ∷ ks) = insert_by_estimate c k (sort_by_estimate c ks)

  unfoldable pub heavy_hitters : List Bytes → ℕ → CountMinSketch → List Bytes
  heavy_hitters candidates threshold c = sort_by_estimate c (above threshold c candidates)
