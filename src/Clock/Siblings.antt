-- ===== src/Clock/Siblings.antt =====
-- code/vector_clock/clock.go: a replica keeps exactly the versions that nothing supersedes.
use system_design_handbook.Base.{
  ◌+◌, ◌<◌, ◌≡◌, refl, inl, inr, Option, none, some, List, [], ◌∷◌, ◌++◌, arith,
}
use system_design_handbook.Clock.Maps.{In, IsMap, get}
use system_design_handbook.Clock.Vector.{
  equal, before, VectorClock, u64_mod, increment, merge, compare_clocks,
}
use system_design_handbook.Clock.Order.{Below, compare_clocks_iff, get-merge, increment-before}
use system_design_handbook.Clock.Replica.{
  Version, Replica, merge_all, write, choose, keep_versions, settle, receive,
}
use system_design_handbook.Clock.Kept.{
  Apart, Antichain, Antichain-snoc, Covered, Kept, keep_versions-Kept,
}

compare_self : {K : Type 0} (dec : Discrete K) (v : VectorClock K) → compare_clocks dec v v ≡ equal
compare_self dec v = (compare_clocks_iff dec v v equal).1 (λ n. omega arith, λ n. omega arith)

module _ {K V : Type 0} (dec : Discrete K) where
  Covered-self : (v : Version K V) (vs : List (Version K V)) → Covered dec v (vs ++ (v ∷ []))
  Covered-self v [] = inl (λ n. omega arith)
  Covered-self v (w ∷ vs) = inr (Covered-self v vs)

  Covered-Below :
      (u v : Version K V) (vs : List (Version K V))
      → Below dec u.clock v.clock
      → Covered dec v vs
      → Covered dec u vs
  Covered-Below u v [] p h = h
  Covered-Below u v (w ∷ ws) p (inl q) = inl (λ n. omega (arith, p n, q n))
  Covered-Below u v (w ∷ ws) p (inr h) = inr (Covered-Below u v ws p h)

  -- No update is lost: the versions stay pairwise concurrent, and each stays covered.
  abbrev Lossless : Version K V → List (Version K V) → List (Version K V) → Type 0
  Lossless incoming before_vs after_vs =
      Antichain dec after_vs
      × Covered dec incoming after_vs
      × ((u : Version K V) → Covered dec u before_vs → Covered dec u after_vs)

  settle-Lossless :
      (incoming : Version K V) (r : Replica K V) (o : Option (List (Version K V)))
      → Antichain dec r.versions
      → Kept dec incoming [] r.versions o
      → Lossless incoming r.versions (settle incoming r o).versions
  unfolding settle Kept
  settle-Lossless incoming r none anti k = (anti, k, λ u h. h)
  settle-Lossless incoming r (some out) anti k =
      (Antichain-snoc dec out incoming k.0 k.1, Covered-self incoming out, k.2)

  -- Receiving a version keeps any two versions of the replica concurrent, so no version stands beside
  -- one that supersedes it; and it loses nothing: an update u that the incoming version or some
  -- version held before has seen is seen by some version that the replica holds afterwards.
  pub receive-lossless :
      (incoming u : Version K V) (r : Replica K V)
      → Antichain dec r.versions
      → Covered dec u (incoming ∷ r.versions)
      → Antichain dec (receive dec incoming r).versions
        × Covered dec u (receive dec incoming r).versions
  unfolding receive
  receive-lossless incoming u r anti c =
      let k =
        settle-Lossless incoming r (keep_versions dec incoming [] r.versions) anti
          (keep_versions-Kept dec incoming [] r.versions anti tt) in
      elim c [ inl p ↦ (k.0, Covered-Below u incoming _ p k.1) | inr q ↦ (k.0, k.2 u q) ]

  keep_versions-held :
      (incoming : Version K V) (kept out : List (Version K V))
      → Apart dec incoming out
      → keep_versions dec incoming kept (out ++ (incoming ∷ [])) ≡ none
  unfolding keep_versions choose
  keep_versions-held incoming kept [] a = rw (compare_self dec incoming.clock)
  keep_versions-held incoming kept (v ∷ out) a =
      rw a.0 (keep_versions-held incoming (kept ++ (v ∷ [])) out a.1)

  settle_again :
      (incoming : Version K V) (r : Replica K V) (o : Option (List (Version K V)))
      → keep_versions dec incoming [] r.versions ≡ o
      → Kept dec incoming [] r.versions o
      → receive dec incoming (settle incoming r o) ≡ settle incoming r o
  unfolding receive settle Kept
  settle_again incoming r none e k = rw e
  settle_again incoming r (some out) e k = rw (keep_versions-held incoming [] out k.1)

  -- Receiving a version that was just received changes nothing: redelivery is harmless.
  pub receive_twice :
      (incoming : Version K V) (r : Replica K V)
      → Antichain dec r.versions
      → receive dec incoming (receive dec incoming r) ≡ receive dec incoming r
  unfolding receive
  receive_twice incoming r anti =
      unfold receive in
      settle_again incoming r (keep_versions dec incoming [] r.versions) refl
        (keep_versions-Kept dec incoming [] r.versions anti tt)

  -- The versions' clocks are maps.
  abbrev pub AllMaps : List (Version K V) → Type 0
  AllMaps [] = Unit
  AllMaps (v ∷ vs) = IsMap v.clock × AllMaps vs

  merge_all-upper :
      (acc : VectorClock K) (vs : List (Version K V))
      → AllMaps vs
      → Below dec acc (merge_all dec acc vs)
        × ((v : Version K V) → In v vs → Below dec v.clock (merge_all dec acc vs))
  unfolding merge_all
  merge_all-upper acc [] maps = (λ n. omega arith, λ v i. absurd i)
  merge_all-upper acc (w ∷ vs) maps =
      let (up, each) = merge_all-upper (merge dec acc w.clock) vs maps.1 in
      (
        λ n. omega (arith, up n, get-merge dec n acc w.clock maps.0),
        λ v i n. elim i [
          | inl e ↦ rw (← e) (omega (arith, up n, get-merge dec n acc w.clock maps.0))
          | inr j ↦ each v j n
        ],
      )

  -- A local write supersedes every version that the replica held, so it always resolves a conflict:
  -- afterwards one version is left, and each earlier one happened before it. (The clocks are maps,
  -- and the replica's own uint64 counter does not wrap.)
  pub write-supersedes :
      (value : V) (v : Version K V) (r : Replica K V)
      → AllMaps r.versions
      → get dec r.id (merge_all dec [] r.versions) + 1 < u64_mod
      → In v r.versions
      → (w : Version K V) × ((write dec value r).versions ≡ w ∷ [])
        × (w.value ≡ value)
        × (compare_clocks dec v.clock w.clock ≡ before)
  unfolding write
  write-supersedes value v r maps room i =
      let all = merge_all dec [] r.versions in
      let next = increment dec r.id all in
      let (below, (n, lt)) =
        (compare_clocks_iff dec all next before).0 (increment-before dec r.id all room) in
      let upper = (merge_all-upper [] r.versions maps).1 in
      (
        record { value = value; clock = next },
        refl,
        refl,
        (compare_clocks_iff dec v.clock next before).1
            (λ m. omega (arith, upper v i m, below m), (n, omega (arith, upper v i n))),
      )
