-- ===== src/Lsm/Offsets.antt =====
-- code/lsm_memtable/lsm.go: what a search may leave out, and where the records of a file begin.
use system_design_handbook.Base.{
  ℕ, zero, suc, ◌+◌, ◌<◌, ◌≡◌, refl, ◌∙◌, inl, inr, false, none, List, [], ◌∷◌, ◌++◌, length, Holds,
  arith,
}
use system_design_handbook.Bytes.{Bytes, drop}
use system_design_handbook.Bytes.Order.{ltb_bytes, ◌≺◌, compare_bytes-cases, gt_of_lt, lt_trans}
use system_design_handbook.Lsm.Memtable.{Entry}
use system_design_handbook.Lsm.Links.{IsSorted}
use system_design_handbook.Lsm.Table.{compare_record}
use system_design_handbook.Lsm.Scans.{AllShort, lookup, Ends}

abbrev pub entry_keys : List Entry → List Bytes
entry_keys [] = []
entry_keys (e ∷ es) = e.key ∷ entry_keys es

pub AllShort-append_right : (mid es : List Entry) → AllShort (mid ++ es) → AllShort es
AllShort-append_right [] es short = short
AllShort-append_right (m ∷ mid) es short = AllShort-append_right mid es short.1

pub IsSorted-append_right :
    (mid es : List Entry) → IsSorted (entry_keys (mid ++ es)) → IsSorted (entry_keys es)
IsSorted-append_right [] es sorted = sorted
IsSorted-append_right (m ∷ mid) es sorted = IsSorted-append_right mid es sorted.1

Holds-key :
    (mid : List Entry) (e : Entry) (es : List Entry) → Holds e.key (entry_keys (mid ++ e ∷ es))
Holds-key [] e es = inl refl
Holds-key (m ∷ mid) e es = inr (Holds-key mid e es)

compare_record_below :
    (key : Bytes) (e : Entry) → e.key ≺ key → compare_record key e.key e.value e.deleted ≡ none
unfolding compare_record
compare_record_below key e low = ground (arith, gt_of_lt e.key key low)

lookup_below :
    (key : Bytes) (e : Entry) (es : List Entry) → e.key ≺ key → lookup key (e ∷ es) ≡ lookup key es
unfolding lookup
lookup_below key e es low = ground (arith, compare_record_below key e low)

-- The entries before one that is not above the key are no matter.
pub lookup_skip :
    (key : Bytes) (mid : List Entry) (e : Entry) (es : List Entry)
    → IsSorted (entry_keys (mid ++ e ∷ es))
    → ltb_bytes key e.key ≡ false
    → lookup key (mid ++ e ∷ es) ≡ lookup key (e ∷ es)
lookup_skip key [] e es sorted low = refl
lookup_skip key (m ∷ mid) e es sorted low =
    let under : m.key ≺ e.key = sorted.0 e.key (Holds-key mid e es) in
    let below : m.key ≺ key = elim (compare_bytes-cases e.key key) [
      | inl less ↦ lt_trans m.key e.key key under less
      | inr (inl same) ↦ rw same at under
      | inr (inr more) ↦ ground arith
    ] in
    lookup_below key m (mid ++ e ∷ es) below ∙ lookup_skip key mid e es sorted.1 low

pub Ends-append :
    (key : Bytes) (n : ℕ) (mid : List Entry) (e : Entry) (es : List Entry)
    → length mid < n
    → ltb_bytes e.key key ≡ false
    → Ends key n (mid ++ e ∷ es)
Ends-append key zero mid e es h stop = absurd (omega arith)
Ends-append key (suc n) [] e es h stop = inl stop
Ends-append key (suc n) (m ∷ mid) e es h stop = inr (Ends-append key n mid e es (omega arith) stop)

pub Ends-short : (key : Bytes) (n : ℕ) (mid : List Entry) → length mid < n → Ends key n mid
Ends-short key zero mid h = absurd (omega arith)
Ends-short key (suc n) [] h = tt
Ends-short key (suc n) (m ∷ mid) h = inr (Ends-short key n mid (omega arith))

drop_nil : (n : ℕ) → drop {A = ℕ} n [] ≡ []
drop_nil zero = refl
drop_nil (suc n) = refl

pub drop-add : (a b : ℕ) (xs : Bytes) → drop (a + b) xs ≡ drop b (drop a xs)
drop-add zero b xs = let e : 0 + b ≡ b = omega arith in rw e refl
drop-add (suc a) b [] = rw (drop_nil (suc a + b), drop_nil b) refl
drop-add (suc a) b (x ∷ xs) =
    let e : suc a + b ≡ suc (a + b) = omega arith in rw e (drop-add a b xs)
