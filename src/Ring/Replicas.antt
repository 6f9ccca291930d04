-- ===== src/Ring/Replicas.antt =====
-- code/consistent_hashing/ring.go: the replicas that `GetN` chooses are different nodes.
use system_design_handbook.Base.{
  ℕ, ◌≤◌, ◌≡◌, ◌≢◌, ◌⊎◌, inl, inr, true, false, Bool-cases, List, [], ◌∷◌, ◌++◌, length,
  length-append, Holds, Holds-append_left, Holds-append_right, Holds-append_cases, ltb, leb,
  if◌then◌else◌, arith,
}
use system_design_handbook.Ring.Positions.{
  Ring, owner_of, same_owner, seen, pick, get_n, from, below,
}

module _ {K : Type 0} (dec : Discrete K) where
  abbrev pub Differs : K → List K → Type 0
  Differs x [] = Unit
  Differs x (y ∷ ys) = (x ≢ y) × Differs x ys

  abbrev pub AllDistinct : List K → Type 0
  AllDistinct [] = Unit
  AllDistinct (x ∷ xs) = Differs x xs × AllDistinct xs

  same_owner_refl : (x : K) → same_owner dec x x ≡ true
  unfolding same_owner
  same_owner_refl a = ground arith

  same_owner-differs : (x y : K) → same_owner dec x y ≡ false → x ≢ y
  same_owner-differs x y h e = let own = same_owner_refl y in absurd (let t = rw e at h in cc)

  Differs-snoc : (x o : K) (xs : List K) → Differs x xs → x ≢ o → Differs x (xs ++ (o ∷ []))
  Differs-snoc x o [] d ne = (ne, tt)
  Differs-snoc x o (y ∷ ys) d ne = (d.0, Differs-snoc x o ys d.1 ne)

  AllDistinct-snoc :
      (o : K) (xs : List K) → AllDistinct xs → seen dec o xs ≡ false → AllDistinct (xs ++ (o ∷ []))
  unfolding seen
  AllDistinct-snoc o [] d h = (tt, tt)
  AllDistinct-snoc o (x ∷ xs) d h =
      let first_differs : same_owner dec x o ≡ false = ground arith in
      let rest : seen dec o xs ≡ false = ground arith in
      (
        Differs-snoc x o xs d.0 (same_owner-differs x o first_differs),
        AllDistinct-snoc o xs d.1 rest,
      )

  module _ (blank : K) where
    pick-AllDistinct :
        (ps : List ℕ) (owners : List (ℕ × K)) (n : ℕ) (out : List K)
        → AllDistinct out
        → length out ≤ n
        → AllDistinct (pick dec blank ps owners n out)
          × (length (pick dec blank ps owners n out) ≤ n)
    unfolding pick
    pick-AllDistinct [] owners n out d l = (d, l)
    pick-AllDistinct (p ∷ ps) owners n out d l =
        let o = owner_of dec blank p owners in
        elim (Bool-cases (leb n (length out))) [
          | inl full ↦ rw full (d, l)
          | inr room ↦ elim (Bool-cases (seen dec o out)) [
            | inl known ↦ rw (room, known) (pick-AllDistinct ps owners n out d l)
            | inr new ↦
                rw (room, new)
                  (pick-AllDistinct ps owners n (out ++ (o ∷ [])) (AllDistinct-snoc o out d new)
                    (ground (arith, length-append out (o ∷ []))))
          ]
        ]

    -- What was seen stays seen.
    seen-append : (x : K) (xs ys : List K) → seen dec x xs ≡ true → seen dec x (xs ++ ys) ≡ true
    unfolding seen
    seen-append x [] ys h = cc
    seen-append x (y ∷ xs) ys h = ground (arith, seen-append x xs ys)

    seen-snoc : (x : K) (xs : List K) → seen dec x (xs ++ (x ∷ [])) ≡ true
    unfolding seen
    seen-snoc x [] = ground (arith, same_owner_refl x)
    seen-snoc x (y ∷ xs) = ground (arith, seen-snoc x xs)

    seen-pick :
        (x : K) (ps : List ℕ) (owners : List (ℕ × K)) (n : ℕ) (out : List K)
        → seen dec x out ≡ true
        → seen dec x (pick dec blank ps owners n out) ≡ true
    unfolding pick
    seen-pick x [] owners n out h = h
    seen-pick x (p ∷ ps) owners n out h =
        let o = owner_of dec blank p owners in
        let longer = seen-append x out (o ∷ []) h in
        ground
          (arith, seen-pick x ps owners n out h, seen-pick x ps owners n (out ++ (o ∷ [])) longer)

    -- The owners of all these positions were seen.
    abbrev pub AllSeen : List ℕ → List (ℕ × K) → List K → Type 0
    AllSeen ps owners out = (p : ℕ) → Holds p ps → seen dec (owner_of dec blank p owners) out ≡ true

    seen_too :
        (p : ℕ) (ps : List ℕ) (owners : List (ℕ × K)) (n : ℕ) (out : List K)
        → seen dec (owner_of dec blank p owners) out ≡ true
        → (length (pick dec blank ps owners n out) ≡ n)
          ⊎ AllSeen ps owners (pick dec blank ps owners n out)
        → (length (pick dec blank ps owners n out) ≡ n)
          ⊎ AllSeen (p ∷ ps) owners (pick dec blank ps owners n out)
    seen_too p ps owners n out known (inl full) = inl full
    seen_too p ps owners n out known (inr all) = inr (λ q held. elim held [
      | inl same ↦ rw⁻¹ same (seen-pick (owner_of dec blank p owners) ps owners n out known)
      | inr later ↦ all q later
    ])

    pick-AllSeen :
        (ps : List ℕ) (owners : List (ℕ × K)) (n : ℕ) (out : List K)
        → length out ≤ n
        → (length (pick dec blank ps owners n out) ≡ n)
          ⊎ AllSeen ps owners (pick dec blank ps owners n out)
    unfolding pick
    pick-AllSeen [] owners n out l = inr (λ p none. absurd none)
    pick-AllSeen (p ∷ ps) owners n out l =
        let o = owner_of dec blank p owners in
        elim (Bool-cases (leb n (length out))) [
          | inl full ↦ rw full (inl (ground arith))
          | inr room ↦ elim (Bool-cases (seen dec o out)) [
            | inl known ↦
                rw (room, known) (seen_too p ps owners n out known (pick-AllSeen ps owners n out l))
            | inr new ↦
                rw (room, new)
                  (seen_too p ps owners n (out ++ (o ∷ [])) (seen-snoc o out) (
                    pick-AllSeen ps owners n (out ++ (o ∷ []))
                      (ground (arith, length-append out (o ∷ [])))))
          ]
        ]

    -- Once around is every position.
    Holds-around : (h p : ℕ) (ps : List ℕ) → Holds p ps → Holds p (from h ps ++ below h ps)
    unfolding from below
    Holds-around h p [] held = absurd held
    Holds-around h p (x ∷ ps) held = elim (Bool-cases (leb h x)) [
      | inl reached ↦ rw reached (Holds-append_left p (x ∷ ps) [] held)
      | inr before ↦ rw before (elim held [
        | inl same ↦ Holds-append_right p (from h ps) (x ∷ below h ps) (inl same)
        | inr later ↦
            elim (Holds-append_cases p (from h ps) (below h ps) (Holds-around h p ps later)) [
              | inl ahead ↦ Holds-append_left p (from h ps) (x ∷ below h ps) ahead
              | inr behind ↦ Holds-append_right p (from h ps) (x ∷ below h ps) (inr behind)
            ]
      ])
    ]

    -- `GetN` returns nodes that differ from one another, at most n of them, and no more than the ring
    -- has. It returns fewer than both only when every position's owner is among them.
    pub get_n-AllDistinct :
        (h n : ℕ) (r : Ring K)
        → let out = get_n dec blank h n r in
          let wanted = if ltb (length r.nodes) n then length r.nodes else n in
          AllDistinct out
          × (length out ≤ n)
          × (length out ≤ length r.nodes)
          × ((length out ≡ wanted) ⊎ AllSeen r.positions r.owners out)
    unfolding get_n
    get_n-AllDistinct h n r =
        let wanted = if ltb (length r.nodes) n then length r.nodes else n in
        let around = from h r.positions ++ below h r.positions in
        let p = pick-AllDistinct around r.owners wanted [] tt (omega arith) in
        (
          p.0,
          ground (arith, p.1),
          ground (arith, p.1),
          elim (pick-AllSeen around r.owners wanted [] (omega arith)) [
            | inl full ↦ inl full
            | inr all ↦ inr (λ q held. all q (Holds-around h q r.positions held))
          ],
        )
