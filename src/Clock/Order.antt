-- ===== src/Clock/Order.antt =====
-- code/vector_clock/clock.go: `Compare` decides the pointwise order of clocks, `Merge` is its least
-- upper bound, and `Increment` moves strictly up.
use Prim.Native.Nat.{max}
use mathlib.Core.Logic.{ite, if_pos, if_neg}
use system_design_handbook.Base.{
  ℕ, ◌+◌, ◌%◌, ◌≤◌, ◌<◌, ◌≡◌, refl, ◌∙◌, ◌↔◌, inl, inr, true, false, Bool-cases, List, [], ◌∷◌,
  ◌++◌, ltb, if◌then◌else◌, arith,
}
use system_design_handbook.Clock.Maps.{
  In, In-append_left, In-append_right, keys, IsMap, get, put, get-put, get-cases, IsMap-put,
}
use system_design_handbook.Clock.Vector.{
  Ordering, equal, before, after, concurrent, VectorClock, u64_mod, verdict, increment, merge,
  some_less, compare_clocks,
}

module _ {K : Type 0} (dec : Discrete K) where
  -- Everything that `a` has seen, `b` has seen too.
  abbrev pub Below : VectorClock K → VectorClock K → Type 0
  Below a b = (n : K) → get dec n a ≤ get dec n b

  -- `b` has seen an event that `a` has not.
  abbrev pub Behind : VectorClock K → VectorClock K → Type 0
  Behind a b = (n : K) × (get dec n a < get dec n b)

  some_less-Behind : (ns : List K) (a b : VectorClock K) → some_less dec ns a b ≡ true → Behind a b
  unfolding some_less
  some_less-Behind [] a b h = cc
  some_less-Behind (n ∷ ns) a b h = elim (Bool-cases (ltb (get dec n a) (get dec n b))) [
    | inl lt ↦ (n, ground arith)
    | inr ge ↦ some_less-Behind ns a b (ground arith)
  ]

  some_less_at :
      (ns : List K) (a b : VectorClock K) (n : K)
      → some_less dec ns a b ≡ false
      → In n ns
      → get dec n b ≤ get dec n a
  unfolding some_less
  some_less_at [] a b n h i = absurd i
  some_less_at (m ∷ ns) a b n h i = ground (arith, some_less_at ns a b n)

  none_less-Below :
      (a b c d : VectorClock K)
      → ((n : K) → In n (keys b) → In n (keys c ++ keys d))
      → some_less dec (keys c ++ keys d) a b ≡ false
      → Below b a
  none_less-Below a b c d covers h n = elim (get-cases dec n b) [
    | inl zero ↦ omega arith
    | inr i ↦ some_less_at (keys c ++ keys d) a b n h (covers n i)
  ]

  module _ (a b : VectorClock K) where
    left_covers : (n : K) → In n (keys a) → In n (keys a ++ keys b)
    left_covers n = In-append_left n (keys a) (keys b)

    right_covers : (n : K) → In n (keys b) → In n (keys a ++ keys b)
    right_covers n = In-append_right n (keys a) (keys b)

    -- What each answer of `Compare` means.
    abbrev pub Means : Ordering → Type 0
    Means equal = Below a b × Below b a
    Means before = Below a b × Behind a b
    Means after = Below b a × Behind b a
    Means concurrent = Behind a b × Behind b a

    compare_clocks-Means : Means (compare_clocks dec a b)
    unfolding compare_clocks verdict
    compare_clocks-Means =
        let nodes = keys a ++ keys b in
        elim (Bool-cases (some_less dec nodes a b)) [
          | inl less ↦ elim (Bool-cases (some_less dec nodes b a)) [
            | inl more ↦
                rw (less, more) (some_less-Behind nodes a b less, some_less-Behind nodes b a more)
            | inr more ↦
                rw (less, more)
                  (none_less-Below b a a b left_covers more, some_less-Behind nodes a b less)
          ]
          | inr less ↦ elim (Bool-cases (some_less dec nodes b a)) [
            | inl more ↦
                rw (less, more)
                  (none_less-Below a b a b right_covers less, some_less-Behind nodes b a more)
            | inr more ↦
                rw (less, more)
                  (
                    none_less-Below b a a b left_covers more,
                    none_less-Below a b a b right_covers less,
                  )
          ]
        ]

  clash : (a b : VectorClock K) → Below a b → Behind b a → ⊥
  clash a b h (n, lt) = omega (arith, h n)

  -- No two answers fit one pair of clocks.
  Means-unique : (a b : VectorClock K) (x y : Ordering) → Means a b x → Means a b y → x ≡ y
  Means-unique a b equal equal p q = refl
  Means-unique a b equal before p q = absurd (clash b a p.1 q.1)
  Means-unique a b equal after p q = absurd (clash a b p.0 q.1)
  Means-unique a b equal concurrent p q = absurd (clash b a p.1 q.0)
  Means-unique a b before equal p q = absurd (clash b a q.1 p.1)
  Means-unique a b before before p q = refl
  Means-unique a b before after p q = absurd (clash b a q.0 p.1)
  Means-unique a b before concurrent p q = absurd (clash a b p.0 q.1)
  Means-unique a b after equal p q = absurd (clash a b q.0 p.1)
  Means-unique a b after before p q = absurd (clash a b q.0 p.1)
  Means-unique a b after after p q = refl
  Means-unique a b after concurrent p q = absurd (clash b a p.0 q.0)
  Means-unique a b concurrent equal p q = absurd (clash b a q.1 p.0)
  Means-unique a b concurrent before p q = absurd (clash a b q.0 p.1)
  Means-unique a b concurrent after p q = absurd (clash b a q.0 p.0)
  Means-unique a b concurrent concurrent p q = refl

  -- `Compare` returns each of its four answers exactly when the clocks stand in that relation: equal
  -- if every node reads the same, before (after) if no node reads more (less) in the first clock and
  -- some node reads less (more), concurrent if some node reads less and some node reads more.
  pub compare_clocks_iff :
      (a b : VectorClock K) (x : Ordering) → (compare_clocks dec a b ≡ x) ↔ Means a b x
  compare_clocks_iff a b x = (
    λ e. rw e at (compare_clocks-Means a b),
    Means-unique a b (compare_clocks dec a b) x (compare_clocks-Means a b),
  )

  -- The step of `Merge` for one entry.
  merge_entry :
      (n m : K) (c : ℕ) (a : VectorClock K)
      → get dec n (if ltb (get dec m a) c then put dec m c a else a)
        ≡ ite (dec m n) (max (get dec n a) c) (get dec n a)
  merge_entry n m c a = elim (dec m n) [
    | yes e ↦ rw (if_pos _ e, e) (ground (arith, get-put dec n n c a))
    | no e ↦ rw (if_neg _ e) (ground (arith, get-put dec m n c a))
  ]

  merge_absent :
      (n : K) (a b : VectorClock K) → (In n (keys b) → ⊥) → get dec n (merge dec a b) ≡ get dec n a
  unfolding merge
  merge_absent n a [] h = refl
  merge_absent n a ((m, c) ∷ b) h =
      merge_absent n (if ltb (get dec m a) c then put dec m c a else a) b (λ i. h (inr i))
      ∙ ground (arith, get-put dec m n c a)

  -- `Merge` reads the greater of the two counters at every node: it is the least clock that has seen
  -- everything that either has. It keeps every key once.
  pub get-merge :
      (n : K) (a b : VectorClock K)
      → IsMap b
      → get dec n (merge dec a b) ≡ max (get dec n a) (get dec n b)
  unfolding merge get
  get-merge n a [] h = omega arith
  get-merge n a ((m, c) ∷ b) h =
      let a' = if ltb (get dec m a) c then put dec m c a else a in
      elim (dec m n) [
        | yes e ↦
            let here = merge_absent n a' b (rw e at h.0) ∙ merge_entry n m c a in
            rw (if_pos (dec m n) e c (get dec n b)) (here ∙ if_pos (dec m n) e _ _)
        | no e ↦
            let there = merge_entry n m c a ∙ if_neg (dec m n) e _ _ in
            rw (if_neg (dec m n) e c (get dec n b)) (omega (arith, get-merge n a' b h.1, there))
      ]

  pub IsMap-merge : (a b : VectorClock K) → IsMap a → IsMap (merge dec a b)
  unfolding merge
  IsMap-merge a [] h = h
  IsMap-merge a ((n, c) ∷ b) h = elim (Bool-cases (ltb (get dec n a) c)) [
    | inl e ↦ rw e (IsMap-merge (put dec n c a) b (IsMap-put dec n c a h))
    | inr e ↦ rw e (IsMap-merge a b h)
  ]

  -- A local event moves the clock strictly up, unless its uint64 counter wraps.
  pub increment-before :
      (n : K) (a : VectorClock K)
      → get dec n a + 1 < u64_mod
      → compare_clocks dec a (increment dec n a) ≡ before
  unfolding increment
  increment-before n a room = (compare_clocks_iff a (increment dec n a) before).1 (
    λ m. ground (arith, get-put dec n m ((get dec n a + 1) % u64_mod) a),
    (n, ground (arith, get-put dec n n ((get dec n a + 1) % u64_mod) a)),
  )
