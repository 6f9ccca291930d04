-- ===== src/Bytes.antt =====
-- What code/wal/wal.go, code/grpc_example/ and code/lsm_memtable/lsm.go use of encoding/binary and io:
-- little-endian numbers, `io.ReadFull` and slices. Text and buffers are lists of bytes.
pub mod Order
use native.Mathlib.Nat.{pow-suc}
use system_design_handbook.Base.{
  ℕ, zero, suc, ◌+◌, ◌*◌, ◌/◌, ◌%◌, ◌^◌, ◌<◌, ◌≡◌, refl, ap, Option, none, some, ◌>>=◌, >>=-eq-some,
  List, [], ◌∷◌, ◌++◌, length, take, ℕ_discrete, arith,
}

abbrev pub Bytes : Type 0
Bytes = List ℕ

-- `PutUint64` and `PutUint32`, by the number of bytes.
abbrev pub put_le : ℕ → ℕ → Bytes
put_le zero v = []
put_le (suc n) v = v % 256 ∷ put_le n (v / 256)

-- `Uint64` and `Uint32`
abbrev pub get_le : Bytes → ℕ
get_le [] = 0
get_le (b ∷ bs) = b + 256 * get_le bs

abbrev pub drop {ℓ} : {A : Type ℓ} → ℕ → List A → List A
drop zero xs = xs
drop (suc n) [] = []
drop (suc n) (x ∷ xs) = drop n xs

-- `io.ReadFull`: that many bytes and the rest, or `none` when they are not all there.
unfoldable pub read_full : ℕ → Bytes → Option (Bytes × Bytes)
read_full zero bs = some ([], bs)
read_full (suc n) [] = none
read_full (suc n) (b ∷ bs) = do (xs, rest) ← read_full n bs; some (b ∷ xs, rest)

pub get_le-put_le : (n v : ℕ) → v < 256 ^ n → get_le (put_le n v) ≡ v
get_le-put_le zero v h = omega arith
get_le-put_le (suc n) v h =
    omega (arith, pow-suc 256 n, get_le-put_le n (v / 256) (omega (arith, pow-suc 256 n)))

pub read_full-append : (xs ys : Bytes) → read_full (length xs) (xs ++ ys) ≡ some (xs, ys)
unfolding read_full
read_full-append [] ys = refl
read_full-append (x ∷ xs) ys = rw (read_full-append xs ys)

pub read_full_short : (n : ℕ) (bs : Bytes) → length bs < n → read_full n bs ≡ none
unfolding read_full
read_full_short zero bs h = absurd (omega arith)
read_full_short (suc n) [] h = refl
read_full_short (suc n) (b ∷ bs) h = rw (read_full_short n bs (omega arith))

-- What is read is the front.
pub read_full-splits :
    (n : ℕ) (bs xs rest : Bytes)
    → read_full n bs ≡ some (xs, rest)
    → (length xs ≡ n) × (xs ++ rest ≡ bs)
unfolding read_full
read_full-splits zero bs xs rest h = ground arith
read_full-splits (suc n) [] xs rest h = ground arith
read_full-splits (suc n) (b ∷ bs) xs rest h =
    let (p, e, f) = >>=-eq-some (read_full n bs) (λ (ys, r). some (b ∷ ys, r)) {b = (xs, rest)} h in
    ground (arith, read_full-splits n bs p.0 p.1 e)

pub take-append : (xs ys : Bytes) → take (length xs) (xs ++ ys) ≡ xs
take-append [] ys = refl
take-append (x ∷ xs) ys = ap (◌∷◌ x) (take-append xs ys)

pub drop-append : (xs ys : Bytes) → drop (length xs) (xs ++ ys) ≡ ys
drop-append [] ys = refl
drop-append (x ∷ xs) ys = drop-append xs ys

heads : (x y : ℕ) (xs ys : Bytes) → x ∷ xs ≡ y ∷ ys → x ≡ y
heads x y xs ys p = ground arith

tails : (x y : ℕ) (xs ys : Bytes) → x ∷ xs ≡ y ∷ ys → xs ≡ ys
tails x y xs ys p = ground arith

unfoldable pub bytes_discrete : Discrete Bytes
unfolding heads tails
bytes_discrete [] [] = yes refl
bytes_discrete [] (y ∷ ys) = no (λ p. cc p)
bytes_discrete (x ∷ xs) [] = no (λ p. cc p)
bytes_discrete (x ∷ xs) (y ∷ ys) =
    let rest = bytes_discrete xs ys in
    elim (ℕ_discrete x y) [
      | no ne ↦ no (λ p. ne (heads x y xs ys p))
      | yes e ↦ elim rest [
        | no ne ↦ no (λ p. ne (tails x y xs ys p))
        | yes f ↦ yes (λ i. e i ∷ f i)
      ]
    ]
