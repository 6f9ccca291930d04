-- ===== src/Ring/Positions.antt =====
-- code/consistent_hashing/ring.go: `Ring` with `Add`, `Remove`, `Get` and `GetN`. SHA-1 is a
-- parameter: `place node i` is the hash of the node's virtual node number i, and a key is given by its
-- hash. `sort.Search` returns the first position that is not below the key's hash.
use mathlib.Core.Logic.{ite}
use system_design_handbook.Base.{
  ℕ, zero, suc, Bool, true, false, ◌||◌, Option, none, some, List, [], ◌∷◌, ◌++◌, length, ltb, leb,
  if◌then◌else◌, ℕ_discrete,
}
use system_design_handbook.Base.Dict.{find, insert, erase}
use system_design_handbook.Int.{ℤ, pos, leb_ℤ, pos_part}

pub record Ring (K : Type 0) : Type 0 where
  pub virtual_nodes : ℕ
  pub positions : List ℕ
  pub owners : List (ℕ × K)
  pub nodes : List K

unfoldable pub new_ring : {K : Type 0} → ℤ → Ring K
new_ring virtual_nodes = record {
  virtual_nodes = if leb_ℤ virtual_nodes (pos 0) then 150 else pos_part virtual_nodes;
  positions = [];
  owners = [];
  nodes = [];
}

-- `sort.Slice`, by insertion from the left.
unfoldable pub insert_sorted : ℕ → List ℕ → List ℕ
insert_sorted p [] = p ∷ []
insert_sorted p (x ∷ xs) = let rest = insert_sorted p xs in if ltb p x then p ∷ x ∷ xs else x ∷ rest

unfoldable pub sort_into : List ℕ → List ℕ → List ℕ
sort_into acc [] = acc
sort_into acc (p ∷ ps) = sort_into (insert_sorted p acc) ps

-- The position at which `Get` finds a key: the first not below it, or else the first of all.
unfoldable pub first_from : ℕ → List ℕ → Option ℕ
first_from h [] = none
first_from h (p ∷ ps) = let rest = first_from h ps in if leb h p then some p else rest

unfoldable pub first : List ℕ → Option ℕ
first [] = none
first (p ∷ ps) = some p

or_else : Option ℕ → Option ℕ → Option ℕ
or_else none q = q
or_else (some p) q = some p

unfoldable pub locate : ℕ → List ℕ → Option ℕ
unfolding or_else
locate h ps = or_else (first_from h ps) (first ps)

-- The positions from the key on, once around.
unfoldable pub below : ℕ → List ℕ → List ℕ
below h [] = []
below h (p ∷ ps) = let rest = below h ps in if leb h p then [] else p ∷ rest

unfoldable pub from : ℕ → List ℕ → List ℕ
from h [] = []
from h (p ∷ ps) = let rest = from h ps in if leb h p then p ∷ ps else rest

module _ {K : Type 0} (dec : Discrete K) where
  unfoldable pub is_member : K → List K → Bool
  is_member n [] = false
  is_member n (m ∷ ms) = ite (dec m n) true (is_member n ms)

  -- `delete(r.nodes, node)`
  unfoldable pub forget : K → List K → List K
  forget n [] = []
  forget n (m ∷ ms) = ite (dec m n) (forget n ms) (m ∷ forget n ms)

  -- The loop of `Add`, for the virtual nodes below n: the positions appended, and the owners.
  unfoldable pub place_all : (K → ℕ → ℕ) → K → ℕ → List ℕ → List (ℕ × K) → List ℕ × List (ℕ × K)
  place_all place node zero ps owners = (ps, owners)
  place_all place node (suc n) ps owners =
      let (ps', owners') = place_all place node n ps owners in
      let p = place node n in (ps' ++ (p ∷ []), insert ℕ_discrete p node owners')

  unfoldable pub add : (K → ℕ → ℕ) → K → Ring K → Ring K
  add place node r =
      if is_member node r.nodes
      then r
      else (let (ps, owners) = place_all place node r.virtual_nodes r.positions r.owners in
          record r { positions = sort_into [] ps; owners = owners; nodes = node ∷ r.nodes })

  unfoldable pub same_owner : K → K → Bool
  same_owner a b = ite (dec a b) true false

  unfoldable pub seen : K → List K → Bool
  seen o [] = false
  seen o (x ∷ xs) = same_owner x o || seen o xs

  -- `blank` is the empty string, which Go's map gives for a position without an owner.
  module _ (blank : K) where
    -- `owners[p]`
    unfoldable pub owner_of : ℕ → List (ℕ × K) → K
    owner_of p owners = elim (find ℕ_discrete p owners) [ none ↦ blank | some o ↦ o ]

    -- `owners[p] == node`
    unfoldable pub owns : K → List (ℕ × K) → ℕ → Bool
    unfolding owner_of same_owner
    owns node owners p = same_owner (owner_of p owners) node

    -- The loop of `Remove`: the positions kept, and the owners.
    unfoldable pub keep_others : K → List ℕ → List (ℕ × K) → List ℕ × List (ℕ × K)
    keep_others node [] owners = ([], owners)
    keep_others node (p ∷ ps) owners =
        let (dropped, owners_dropped) = keep_others node ps (erase ℕ_discrete p owners) in
        let (kept, owners_kept) = keep_others node ps owners in
        if owns node owners p then (dropped, owners_dropped) else (p ∷ kept, owners_kept)

    unfoldable pub remove : K → Ring K → Ring K
    remove node r =
        if is_member node r.nodes
        then (let (ps, owners) = keep_others node r.positions r.owners in
            record r { positions = ps; owners = owners; nodes = forget node r.nodes })
        else r

    -- `Get`: `none` is the empty ring.
    unfoldable pub owner_at : Option ℕ → List (ℕ × K) → Option K
    unfolding owner_of
    owner_at none owners = none
    owner_at (some p) owners = some (owner_of p owners)

    unfoldable pub get : ℕ → Ring K → Option K
    unfolding owner_at
    get h r = owner_at (locate h r.positions) r.owners

    -- The loop of `GetN`; its map `seen` holds just what `out` does.
    unfoldable pub pick : List ℕ → List (ℕ × K) → ℕ → List K → List K
    unfolding owner_of
    pick [] owners n out = out
    pick (p ∷ ps) owners n out =
        let owner = owner_of p owners in
        let skip = pick ps owners n out in
        let take_it = pick ps owners n (out ++ (owner ∷ [])) in
        if leb n (length out) then out else (if seen owner out then skip else take_it)

    unfoldable pub get_n : ℕ → ℕ → Ring K → List K
    get_n h n r =
        let n' = if ltb (length r.nodes) n then length r.nodes else n in
        pick (from h r.positions ++ below h r.positions) r.owners n' []
