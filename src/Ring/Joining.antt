-- ===== src/Ring/Joining.antt =====
-- code/consistent_hashing/ring.go: which keys move when a node joins.
use mathlib.Core.List.{append_assoc, append-nil}
use mathlib.Core.Logic.{if_pos}
use system_design_handbook.Base.{
  ℕ, zero, suc, ◌≡◌, refl, ap, sym, ◌∙◌, ◌⊎◌, inl, inr, Bool-cases, Option-cases, some, List, [],
  ◌∷◌, ◌++◌, ℕ_discrete, arith,
}
use system_design_handbook.Base.Dict.{find, insert, find-insert}
use system_design_handbook.Ring.Positions.{
  Ring, insert_sorted, sort_into, first_from, first, locate, place_all, is_member, add, owner_at,
  get,
}
use system_design_handbook.Ring.Sorted.{IsSorted, resort}
use system_design_handbook.Ring.Owners.{owner_of-same, owner_of-found}

first_from-insert :
    (h p : ℕ) (ps : List ℕ)
    → (first_from h (insert_sorted p ps) ≡ some p)
      ⊎ (first_from h (insert_sorted p ps) ≡ first_from h ps)
unfolding first_from insert_sorted
first_from-insert h p [] = ground arith
first_from-insert h p (x ∷ xs) = ground (arith, first_from-insert h p xs)

first-insert :
    (p : ℕ) (ps : List ℕ)
    → (first (insert_sorted p ps) ≡ some p) ⊎ (first (insert_sorted p ps) ≡ first ps)
unfolding first insert_sorted
first-insert p [] = inl refl
first-insert p (x ∷ xs) = ground arith

locate-insert :
    (h p : ℕ) (ps : List ℕ)
    → (locate h (insert_sorted p ps) ≡ some p) ⊎ (locate h (insert_sorted p ps) ≡ locate h ps)
unfolding locate
locate-insert h p ps = ground (arith, first_from-insert h p ps, first-insert p ps)

module _ {K : Type 0} (node : K) (owners : List (ℕ × K)) where
  -- All these positions belong to the node.
  abbrev AllOwned : List ℕ → Type 0
  AllOwned [] = Unit
  AllOwned (p ∷ ps) = (find ℕ_discrete p owners ≡ some node) × AllOwned ps

  AllOwned-snoc :
      (ps : List ℕ) (p : ℕ)
      → AllOwned ps
      → find ℕ_discrete p owners ≡ some node
      → AllOwned (ps ++ (p ∷ []))
  AllOwned-snoc [] p h e = (e, tt)
  AllOwned-snoc (q ∷ qs) p h e = (h.0, AllOwned-snoc qs p h.1 e)

  -- Where a key is found after the node's positions are sorted in.
  locate-sort_into :
      (h : ℕ) (acc ps : List ℕ)
      → AllOwned ps
      → ((p : ℕ) × (locate h (sort_into acc ps) ≡ some p) × (find ℕ_discrete p owners ≡ some node))
        ⊎ (locate h (sort_into acc ps) ≡ locate h acc)
  unfolding sort_into
  locate-sort_into h acc [] own = inr refl
  locate-sort_into h acc (p ∷ ps) own = elim (locate-sort_into h (insert_sorted p acc) ps own.1) [
    | inl found ↦ inl found
    | inr same ↦ elim (locate-insert h p acc) [
      | inl new ↦ inl (p, same ∙ new, own.0)
      | inr old ↦ inr (same ∙ old)
    ]
  ]

module _ {K : Type 0} (dec : Discrete K) where
  AllOwned-insert :
      (node : K) (p : ℕ) (owners : List (ℕ × K)) (ps : List ℕ)
      → AllOwned node owners ps
      → AllOwned node (insert ℕ_discrete p node owners) ps
  AllOwned-insert node p owners [] h = tt
  AllOwned-insert node p owners (q ∷ qs) h = (
    ground (arith, find-insert ℕ_discrete p q node owners, h.0),
    AllOwned-insert node p owners qs h.1,
  )

  -- What the loop of `Add` has done.
  record Places (node : K) (ps : List ℕ) (owners : List (ℕ × K)) (s : List ℕ × List (ℕ × K))
      : Type 0 where
    fresh : List ℕ
    appended : s.0 ≡ ps ++ fresh
    own : AllOwned node s.1 fresh
    others :
        (p : ℕ)
        → (find ℕ_discrete p s.1 ≡ some node) ⊎ (find ℕ_discrete p s.1 ≡ find ℕ_discrete p owners)

  place_all-Places :
      (place : K → ℕ → ℕ) (node : K) (n : ℕ) (ps : List ℕ) (owners : List (ℕ × K))
      → Places node ps owners (place_all dec place node n ps owners)
  unfolding place_all
  place_all-Places place node zero ps owners = record {
    fresh = [];
    appended = sym (append-nil ps);
    own = tt;
    others = λ p. inr refl;
  }
  place_all-Places place node (suc n) ps owners =
      let h = place_all-Places place node n ps owners in
      let s = place_all dec place node n ps owners in
      let p = place node n in
      let added = λ (q : ℕ). find-insert ℕ_discrete p q node s.1 in
      record {
        fresh = h.fresh ++ (p ∷ []);
        appended = ap (λ (t : List ℕ). t ++ (p ∷ [])) h.appended ∙ append_assoc ps h.fresh (p ∷ []);
        own =
            AllOwned-snoc node (insert ℕ_discrete p node s.1) h.fresh p
              (AllOwned-insert node p s.1 h.fresh h.own)
              (added p ∙ if_pos (ℕ_discrete p p) refl _ _);
        others = λ q. ground (arith, added q, h.others q);
      }

  -- When a node joins, a key either stays where it was or moves to the new node: no key moves between
  -- two old nodes. (The positions are sorted, as `Add` and `Remove` keep them.)
  pub add_moves_to_node :
      (place : K → ℕ → ℕ) (blank node : K) (r : Ring K) (h : ℕ)
      → IsSorted r.positions
      → (get dec blank h (add dec place node r) ≡ some node)
        ⊎ (get dec blank h (add dec place node r) ≡ get dec blank h r)
  unfolding add get owner_at
  add_moves_to_node place blank node r h sorted =
      let s = place_all dec place node r.virtual_nodes r.positions r.owners in
      let m = place_all-Places place node r.virtual_nodes r.positions r.owners in
      let order : sort_into [] s.0 ≡ sort_into r.positions m.fresh =
        ap (sort_into []) m.appended ∙ resort r.positions m.fresh sorted in
      elim (Bool-cases (is_member dec node r.nodes)) [
        | inl old ↦ rw old (inr refl)
        | inr new ↦
            rw (new, order)
              (elim (locate-sort_into node s.1 h r.positions m.fresh m.own) [
                | inl (p, at, own) ↦ rw (at, owner_of-found dec blank s.1 p node own) (inl refl)
                | inr same ↦ rw same (elim (Option-cases (locate h r.positions)) [
                  | inl e ↦ rw e (inr refl)
                  | inr (p, e) ↦ rw e (elim (m.others p) [
                    | inl own ↦ rw (owner_of-found dec blank s.1 p node own) (inl refl)
                    | inr kept ↦ rw (owner_of-same dec blank r.owners s.1 p kept) (inr refl)
                  ])
                ])
              ])
      ]
