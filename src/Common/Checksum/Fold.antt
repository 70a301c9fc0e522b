-- ===== src/Common/Checksum/Fold.antt =====
-- The two loops of `calculate_checksum` against plain sums.
use ride_hailing_system.Prelude.{
  ℕ, suc, ◌+◌, ◌-◌, ◌*◌, ◌%◌, ◌^◌, ◌<◌, ◌≤◌, ◌≡◌, List, [], ◌∷◌, ◌++◌, ◌==◌, if◌then◌else◌, arith,
  All, length,
}
use ride_hailing_system.Common.Checksum.{sum_bytes, fold_carry}

-- The sum of a list, with no wrap-around.
abbrev pub sum : List ℕ → ℕ
sum [] = 0
sum (b ∷ bs) = b + sum bs

abbrev pub IsByte : ℕ → Type 0
IsByte b = b < 256

-- The end-around sum: 0 only for 0, else the residue modulo 65535 that lies in 1 .. 65535.
abbrev pub end_around : ℕ → ℕ
end_around s = if s == 0 then 0 else (s - 1) % 65535 + 1

pub sum-append : (xs ys : List ℕ) → sum (xs ++ ys) ≡ sum xs + sum ys
sum-append [] ys = omega arith
sum-append (x ∷ xs) ys = omega (arith, sum-append xs ys)

pub sum-le : (xs : List ℕ) → All IsByte xs → sum xs ≤ 255 * length xs
sum-le [] h = omega arith
sum-le (x ∷ xs) h = omega (arith, sum-le xs h.1)

pub sum_bytes-eq-sum :
    (acc : ℕ) (xs : List ℕ) → acc + sum xs < 2 ^ 32 → sum_bytes acc xs ≡ acc + sum xs
unfolding sum_bytes
sum_bytes-eq-sum acc [] h = omega arith
sum_bytes-eq-sum acc (x ∷ xs) h =
    omega (arith, sum_bytes-eq-sum ((acc + x) % 2 ^ 32) xs (omega arith))

-- The `while` loop has ended by its own test: the result has no high bits, and is the end-around
-- sum of what it began with.
pub fold_carry_lem : (s : ℕ) → s < 2 ^ 32 → fold_carry 3 s ≡ end_around s
unfolding fold_carry
fold_carry_lem s h = ground arith

-- Every `uint32_t` leaves the folding loop by its own test within two rounds: with any more fuel
-- the result is the same, and it is below 2^16.
pub fold_carry_ends :
    (fuel s : ℕ)
    → s < 2 ^ 32
    → (fold_carry (suc (suc (suc fuel))) s ≡ fold_carry 3 s) × (fold_carry 3 s < 2 ^ 16)
unfolding fold_carry
fold_carry_ends fuel s h = (ground arith, ground arith)
