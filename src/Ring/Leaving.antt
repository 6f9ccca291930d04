-- ===== src/Ring/Leaving.antt =====
-- code/consistent_hashing/ring.go: which keys move when a node leaves.
use mathlib.Core.Logic.{if_neg}
use system_design_handbook.Base.{
  ℕ, ◌≡◌, ◌≢◌, refl, ◌∙◌, inl, inr, true, false, Bool-cases, Option, Option-cases, none, some, List,
  [], ◌∷◌, leb, ℕ_discrete, arith,
}
use system_design_handbook.Base.Dict.{find, erase, find-erase}
use system_design_handbook.Ring.Positions.{
  Ring, first_from, first, locate, is_member, owner_of, same_owner, keep_others, remove, owns,
  owner_at, get,
}
use system_design_handbook.Ring.Owners.{owner_of-same}

module _ {K : Type 0} (dec : Discrete K) (blank : K) where
  owns-lem :
      (node o : K) (owners : List (ℕ × K)) (p : ℕ)
      → owner_of dec blank p owners ≡ o
      → o ≢ node
      → owns dec blank node owners p ≡ false
  unfolding owns owner_of same_owner
  owns-lem node o owners p e ne = rw e (if_neg (dec o node) ne _ _)

  -- Erasing a position of the node leaves the owner of another node's position.
  erase_other :
      (node : K) (owners : List (ℕ × K)) (p q : ℕ)
      → owns dec blank node owners p ≡ true
      → owns dec blank node owners q ≡ false
      → find ℕ_discrete q (erase ℕ_discrete p owners) ≡ find ℕ_discrete q owners
  erase_other node owners p q mine other = elim (ℕ_discrete p q) [
    | yes e ↦ absurd (let same = rw e at mine in cc)
    | no ne ↦ find-erase ℕ_discrete p q owners ∙ if_neg (ℕ_discrete p q) ne _ _
  ]

  owns-same :
      (node : K) (owners owners' : List (ℕ × K)) (q : ℕ)
      → find ℕ_discrete q owners' ≡ find ℕ_discrete q owners
      → owns dec blank node owners q ≡ false
      → owns dec blank node owners' q ≡ false
  unfolding owns
  owns-same node owners owners' q e h = rw (owner_of-same dec blank owners owners' q e) h

  -- A position of another node keeps its owner.
  keep_others-owner :
      (node : K) (ps : List ℕ) (owners : List (ℕ × K)) (q : ℕ)
      → owns dec blank node owners q ≡ false
      → find ℕ_discrete q (keep_others dec blank node ps owners).1 ≡ find ℕ_discrete q owners
  unfolding keep_others
  keep_others-owner node [] owners q other = refl
  keep_others-owner node (p ∷ ps) owners q other =
      elim (Bool-cases (owns dec blank node owners p)) [
        | inl mine ↦
            let same = erase_other node owners p q mine other in
            rw mine (
              keep_others-owner node ps (erase ℕ_discrete p owners) q
                (owns-same node owners (erase ℕ_discrete p owners) q same other)
              ∙ same)
        | inr foreign ↦ rw foreign (keep_others-owner node ps owners q other)
      ]

  first_from-keep_others :
      (node : K) (h : ℕ) (ps : List ℕ) (owners : List (ℕ × K)) (q : ℕ)
      → first_from h ps ≡ some q
      → owns dec blank node owners q ≡ false
      → first_from h (keep_others dec blank node ps owners).0 ≡ some q
  unfolding keep_others first_from
  first_from-keep_others node h [] owners q e other = e
  first_from-keep_others node h (p ∷ ps) owners q e other =
      elim (Bool-cases (owns dec blank node owners p)) [
        | inl mine ↦ elim (Bool-cases (leb h p)) [
          | inl here ↦ let same : p ≡ q = ground arith in absurd (let clash = rw same at mine in cc)
          | inr before ↦
              let erased = erase ℕ_discrete p owners in
              let kept = erase_other node owners p q mine other in
              rw mine (
                first_from-keep_others node h ps erased q (rw before at e)
                  (owns-same node owners erased q kept other))
        ]
        | inr foreign ↦ elim (Bool-cases (leb h p)) [
          | inl here ↦ rw (foreign, here) (rw here at e)
          | inr before ↦
              rw (foreign, before)
                (first_from-keep_others node h ps owners q (rw before at e) other)
        ]
      ]

  none_from-keep_others :
      (node : K) (h : ℕ) (ps : List ℕ) (owners : List (ℕ × K))
      → first_from h ps ≡ none
      → first_from h (keep_others dec blank node ps owners).0 ≡ none
  unfolding keep_others first_from
  none_from-keep_others node h [] owners e = e
  none_from-keep_others node h (p ∷ ps) owners e = elim (Bool-cases (leb h p)) [
    | inl here ↦ absurd (let found = rw here at e in cc)
    | inr before ↦ elim (Bool-cases (owns dec blank node owners p)) [
      | inl mine ↦
          rw mine (none_from-keep_others node h ps (erase ℕ_discrete p owners) (rw before at e))
      | inr foreign ↦ rw (foreign, before) (none_from-keep_others node h ps owners (rw before at e))
    ]
  ]

  first-keep_others :
      (node : K) (ps : List ℕ) (owners : List (ℕ × K)) (q : ℕ)
      → first ps ≡ some q
      → owns dec blank node owners q ≡ false
      → first (keep_others dec blank node ps owners).0 ≡ some q
  unfolding keep_others first
  first-keep_others node [] owners q e other = e
  first-keep_others node (p ∷ ps) owners q e other =
      let same : p ≡ q = ground arith in
      let kept : owns dec blank node owners p ≡ false = rw same other in rw kept e

  locate-keep_others :
      (node : K) (h : ℕ) (ps : List ℕ) (owners : List (ℕ × K)) (q : ℕ)
      → locate h ps ≡ some q
      → owns dec blank node owners q ≡ false
      → locate h (keep_others dec blank node ps owners).0 ≡ some q
  unfolding locate
  locate-keep_others node h ps owners q e other = elim (Option-cases (first_from h ps)) [
    | inl nowhere ↦
        rw (none_from-keep_others node h ps owners nowhere)
          (first-keep_others node ps owners q (rw nowhere at e) other)
    | inr (p, here) ↦
        let same : some p ≡ some q = rw here at e in
        rw (first_from-keep_others node h ps owners q (here ∙ same) other) refl
  ]

  -- When a node leaves, only its own keys move: a key of another node stays on that node.
  pub remove_keeps_others :
      (node o : K) (r : Ring K) (h : ℕ)
      → get dec blank h r ≡ some o
      → o ≢ node
      → get dec blank h (remove dec blank node r) ≡ some o
  unfolding remove get owner_at
  remove_keeps_others node o r h e ne = elim (Bool-cases (is_member dec node r.nodes)) [
    | inr absent ↦ rw absent e
    | inl present ↦ elim (Option-cases (locate h r.positions)) [
      | inl nowhere ↦ absurd (let none_found = rw nowhere at e in cc)
      | inr (q, at) ↦
          let own : owner_of dec blank q r.owners ≡ o = some_inj _ _ (rw at at e) in
          let other = owns-lem node o r.owners q own ne in
          rw
            (
              present,
              locate-keep_others node h r.positions r.owners q at other,
              owner_of-same dec blank r.owners (keep_others dec blank node r.positions r.owners).1 q
                  (keep_others-owner node r.positions r.owners q other),
            )
            (rw own refl)
    ]
  ]
    where
      some_inj : (x y : K) → Path (Option K) (some x) (some y) → x ≡ y
      some_inj x y p = ground arith
