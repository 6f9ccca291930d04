-- ===== src/Clock/Kept.antt =====
-- code/vector_clock/clock.go: what the loop of `Receive` keeps.
use mathlib.Core.List.{append-nil}
use system_design_handbook.Base.{
  ◌≡◌, refl, ap, ◌⊎◌, inl, inr, Option, none, some, List, [], ◌∷◌, ◌++◌, arith,
}
use system_design_handbook.Clock.Vector.{Ordering, equal, before, after, concurrent, compare_clocks}
use system_design_handbook.Clock.Order.{Below, compare_clocks_iff}
use system_design_handbook.Clock.Replica.{Version, choose, keep_versions}

module _ {K V : Type 0} (dec : Discrete K) where
  abbrev pub Concurrent : Version K V → Version K V → Type 0
  Concurrent v w = compare_clocks dec v.clock w.clock ≡ concurrent

  -- The version is concurrent with each one of the list.
  abbrev pub Apart : Version K V → List (Version K V) → Type 0
  Apart v [] = Unit
  Apart v (w ∷ ws) = Concurrent w v × Apart v ws

  -- Any two of the versions are concurrent.
  abbrev pub Antichain : List (Version K V) → Type 0
  Antichain [] = Unit
  Antichain (v ∷ vs) = Apart v vs × Antichain vs

  -- Some version of the list has seen everything that `v` has.
  abbrev pub Covered : Version K V → List (Version K V) → Type 0
  Covered v [] = ⊥
  Covered v (w ∷ ws) = Below dec v.clock w.clock ⊎ Covered v ws

  Concurrent-sym : (v w : Version K V) → Concurrent v w → Concurrent w v
  Concurrent-sym v w h =
      let m = (compare_clocks_iff dec v.clock w.clock concurrent).0 h in
      (compare_clocks_iff dec w.clock v.clock concurrent).1 (m.1, m.0)

  Apart-append :
      (u : Version K V) (vs ws : List (Version K V)) → Apart u vs → Apart u ws → Apart u (vs ++ ws)
  Apart-append u [] ws p q = q
  Apart-append u (v ∷ vs) ws p q = (p.0, Apart-append u vs ws p.1 q)

  Apart-split :
      (u : Version K V) (vs ws : List (Version K V)) → Apart u (vs ++ ws) → Apart u vs × Apart u ws
  Apart-split u [] ws p = (tt, p)
  Apart-split u (v ∷ vs) ws p = let (a, b) = Apart-split u vs ws p.1 in ((p.0, a), b)

  Antichain-drop :
      (vs : List (Version K V)) (w : Version K V) (ws : List (Version K V))
      → Antichain (vs ++ (w ∷ ws))
      → Antichain (vs ++ ws)
  Antichain-drop [] w ws h = h.1
  Antichain-drop (v ∷ vs) w ws h =
      let (a, b) = Apart-split v vs (w ∷ ws) h.0 in
      (Apart-append v vs ws a b.1, Antichain-drop vs w ws h.1)

  pub Antichain-snoc :
      (vs : List (Version K V)) (w : Version K V)
      → Antichain vs
      → Apart w vs
      → Antichain (vs ++ (w ∷ []))
  Antichain-snoc [] w h a = (tt, tt)
  Antichain-snoc (v ∷ vs) w h a =
      (Apart-append v vs (w ∷ []) h.0 (Concurrent-sym v w a.0, tt), Antichain-snoc vs w h.1 a.1)

  -- What the loop of `Receive` returns, from the versions kept and those still to come.
  unfoldable pub Kept :
      Version K V → List (Version K V) → List (Version K V) → Option (List (Version K V)) → Type 0
  Kept incoming kept vs none = Covered incoming vs
  Kept incoming kept vs (some out) =
      Antichain out
      × Apart incoming out
      × ((u : Version K V) → Covered u (kept ++ vs) → Covered u (out ++ (incoming ∷ [])))

  Covered-last :
      (u v w : Version K V) (vs : List (Version K V))
      → Below dec u.clock v.clock
      → Below dec v.clock w.clock
      → Covered u (vs ++ (w ∷ []))
  Covered-last u v w [] p q = inl (λ n. omega (arith, p n, q n))
  Covered-last u v w (x ∷ vs) p q = inr (Covered-last u v w vs p q)

  Covered-append :
      (u : Version K V) (vs ws : List (Version K V)) → Covered u vs → Covered u (vs ++ ws)
  Covered-append u [] ws h = absurd h
  Covered-append u (v ∷ vs) ws (inl h) = inl h
  Covered-append u (v ∷ vs) ws (inr h) = inr (Covered-append u vs ws h)

  Covered-drop :
      (u v : Version K V) (ks vs : List (Version K V))
      → Covered u (ks ++ (v ∷ vs))
      → Below dec u.clock v.clock ⊎ Covered u (ks ++ vs)
  Covered-drop u v [] vs h = h
  Covered-drop u v (k ∷ ks) vs (inl h) = inr (inl h)
  Covered-drop u v (k ∷ ks) vs (inr h) = elim (Covered-drop u v ks vs h) [
    | inl p ↦ inl p
    | inr q ↦ inr (inr q)
  ]

  append-middle :
      (ks : List (Version K V)) (v : Version K V) (vs : List (Version K V))
      → (ks ++ (v ∷ [])) ++ vs ≡ ks ++ (v ∷ vs)
  append-middle [] v vs = refl
  append-middle (k ∷ ks) v vs = ap (◌∷◌ k) (append-middle ks v vs)

  module _ (incoming v : Version K V) (kept vs : List (Version K V)) where
    Kept-choose :
        (o : Ordering) (drop keep : Option (List (Version K V)))
        → compare_clocks dec v.clock incoming.clock ≡ o
        → (o ≡ before → Kept incoming kept vs drop)
        → (o ≡ concurrent → Kept incoming (kept ++ (v ∷ [])) vs keep)
        → Kept incoming kept (v ∷ vs) (choose o drop keep)
    unfolding choose Kept
    Kept-choose equal drop keep e d k = inl ((compare_clocks_iff dec _ _ equal).0 e).1
    Kept-choose after drop keep e d k = inl ((compare_clocks_iff dec _ _ after).0 e).0
    Kept-choose before none keep e d k = inr (d refl)
    Kept-choose before (some out) keep e d k =
        let (anti, apart, cover) = d refl in
        let below = ((compare_clocks_iff dec v.clock incoming.clock before).0 e).0 in
        (
          anti,
          apart,
          λ u h. elim (Covered-drop u v kept vs h) [
            | inl p ↦ Covered-last u v incoming out p below
            | inr q ↦ cover u q
          ],
        )
    Kept-choose concurrent drop none e d k = inr (k refl)
    Kept-choose concurrent drop (some out) e d k =
        let (anti, apart, cover) = k refl in
        (anti, apart, λ u h. cover u (rw (append-middle kept v vs) h))

  pub keep_versions-Kept :
      (incoming : Version K V) (kept vs : List (Version K V))
      → Antichain (kept ++ vs)
      → Apart incoming kept
      → Kept incoming kept vs (keep_versions dec incoming kept vs)
  unfolding keep_versions Kept
  keep_versions-Kept incoming kept [] anti apart =
      (rw append-nil at anti, apart, λ u h. Covered-append u kept _ (rw append-nil at h))
  keep_versions-Kept incoming kept (v ∷ vs) anti apart =
      Kept-choose incoming v kept vs _ _ _ refl
        (λ e. keep_versions-Kept incoming kept vs (Antichain-drop kept v vs anti) apart)
        (λ e.
          keep_versions-Kept incoming (kept ++ (v ∷ [])) vs (rw (append-middle kept v vs) anti)
            (Apart-append incoming kept (v ∷ []) apart (e, tt)))
