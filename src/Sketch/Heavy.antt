-- ===== src/Sketch/Heavy.antt =====
-- code/count_min_sketch/cms.go: no heavy hitter is missed.
use system_design_handbook.Base.{
  Holds, ℕ, ◌≤◌, ◌<◌, ◌≡◌, ◌⊎◌, inl, inr, Bool-cases, List, [], ◌∷◌, ltb, leb, arith,
}
use system_design_handbook.Bytes.{Bytes}
use system_design_handbook.Sketch.Counters.{
  CountMinSketch, u64_mod, new_sketch, estimate, above, insert_by_estimate, sort_by_estimate,
  heavy_hitters,
}
use system_design_handbook.Sketch.Bounds.{weight, anything, add_all, is, estimate-bounds}

module _ (fnv : Bytes → ℕ) where
  Holds-above :
      (k : Bytes) (ks : List Bytes) (threshold : ℕ) (c : CountMinSketch)
      → Holds k ks
      → threshold ≤ estimate fnv k c
      → Holds k (above fnv threshold c ks)
  unfolding above
  Holds-above k [] threshold c i h = i
  Holds-above k (x ∷ ks) threshold c i h = elim (Bool-cases (leb threshold (estimate fnv x c))) [
    | inl over ↦ rw over (elim i [ inl e ↦ inl e | inr j ↦ inr (Holds-above k ks threshold c j h) ])
    | inr under ↦ rw under (elim i [
      | inl e ↦ absurd (let less = rw e at under in ground arith)
      | inr j ↦ Holds-above k ks threshold c j h
    ])
  ]

  Holds-insert :
      (k x : Bytes) (xs : List Bytes) (c : CountMinSketch)
      → (x ≡ k) ⊎ Holds k xs
      → Holds k (insert_by_estimate fnv c x xs)
  unfolding insert_by_estimate
  Holds-insert k x [] c h = h
  Holds-insert k x (y ∷ ys) c h = elim (Bool-cases (ltb (estimate fnv x c) (estimate fnv y c))) [
    | inl less ↦ rw less (elim h [
      | inl e ↦ inr (Holds-insert k x ys c (inl e))
      | inr (inl e) ↦ inl e
      | inr (inr i) ↦ inr (Holds-insert k x ys c (inr i))
    ])
    | inr more ↦ rw more h
  ]

  Holds-sort :
      (k : Bytes) (ks : List Bytes) (c : CountMinSketch)
      → Holds k ks
      → Holds k (sort_by_estimate fnv c ks)
  unfolding sort_by_estimate
  Holds-sort k [] c i = i
  Holds-sort k (x ∷ ks) c i =
      Holds-insert k x (sort_by_estimate fnv c ks) c
        (elim i [ inl e ↦ inl e | inr j ↦ inr (Holds-sort k ks c j) ])

  -- No heavy hitter is missed: a candidate of which at least the threshold was added is returned, as
  -- long as all that was added stays in a uint64 and the sketch has a row.
  pub heavy_hitters_complete :
      (dec : Discrete Bytes) (k : Bytes) (candidates : List Bytes) (threshold w d : ℕ)
      (xs : List (Bytes × ℕ))
      → 0 < d
      → weight fnv (anything fnv) xs < u64_mod
      → Holds k candidates
      → threshold ≤ weight fnv (is fnv dec k) xs
      → Holds k (heavy_hitters fnv candidates threshold (add_all fnv xs (new_sketch w d)))
  unfolding heavy_hitters
  heavy_hitters_complete dec k candidates threshold w d xs rows small i heavy =
      let c = add_all fnv xs (new_sketch w d) in
      let low = (estimate-bounds fnv dec k w d xs rows small).0 in
      Holds-sort k (above fnv threshold c candidates) c
        (Holds-above k candidates threshold c i (omega arith))
