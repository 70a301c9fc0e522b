-- ===== src/Common/Checksum.antt =====
-- `calculate_checksum` of src/common/protocol.c: a byte sum in a `uint32_t`, its carries folded
-- into 16 bits, and the complement.
pub mod Fold
pub mod Laws
use ride_hailing_system.Prelude.{
  ℕ, zero, suc, ◌+◌, ◌-◌, ◌/◌, ◌%◌, ◌^◌, List, [], ◌∷◌, ◌==◌, if◌then◌else◌,
}

-- The `for` loop: `sum += *ptr++`.
pub sum_bytes : ℕ → List ℕ → ℕ
sum_bytes sum [] = sum
sum_bytes sum (b ∷ bs) = sum_bytes ((sum + b) % 2 ^ 32) bs

-- The `while` loop, on fuel.
pub fold_carry : ℕ → ℕ → ℕ
fold_carry zero sum = sum
fold_carry (suc fuel) sum =
    let rest = fold_carry fuel ((sum % 2 ^ 16 + sum / 2 ^ 16) % 2 ^ 32) in
    if sum / 2 ^ 16 == 0 then sum else rest

-- Two rounds always reach the end of the loop, the third sees its test fail.
pub calculate_checksum : List ℕ → ℕ
calculate_checksum bytes = (2 ^ 32 - 1 - fold_carry 3 (sum_bytes 0 bytes)) % 2 ^ 16
