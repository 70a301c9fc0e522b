-- ===== src/Common/Checksum/Laws.antt =====
-- The checksum as a function of the sum, and changes of the payload.
use ride_hailing_system.Prelude.{
  ℕ, ◌+◌, ◌-◌, ◌<◌, ◌≤◌, ◌^◌, ◌≡◌, ◌≢◌, List, ◌∷◌, ◌++◌, arith, All, length,
}
use ride_hailing_system.Common.Checksum.{calculate_checksum}
use ride_hailing_system.Common.Checksum.Fold.{
  sum, IsByte, end_around, sum-append, sum-le, sum_bytes-eq-sum, fold_carry_lem,
}

-- A payload of bytes that is short enough for its sum to fit `uint32_t`: about 16 MB.
abbrev pub Fits : List ℕ → Type 0
Fits bytes = All IsByte bytes × (length bytes ≤ 16843009)

-- The checksum of a payload of bytes, of at most 16843009 of them, is 65535 minus the end-around
-- sum of the bytes: no addition wraps around, and the folding loop has ended by its own test.
pub calculate_checksum_lem :
    (bytes : List ℕ) → Fits bytes → calculate_checksum bytes ≡ 65535 - end_around (sum bytes)
unfolding calculate_checksum
calculate_checksum_lem bytes fits =
    let small : 0 + sum bytes < 2 ^ 32 = omega (arith, sum-le bytes fits.0) in
    ground (arith, sum_bytes-eq-sum 0 bytes small, fold_carry_lem (sum bytes) (omega arith))

-- Two payloads of bytes, of at most 16843009 of them, that differ in exactly one byte have
-- different checksums.
pub calculate_checksum_detects :
    (pre post : List ℕ) (a b : ℕ)
    → Fits (pre ++ (a ∷ post))
    → Fits (pre ++ (b ∷ post))
    → a < 256
    → b < 256
    → a ≢ b
    → calculate_checksum (pre ++ (a ∷ post)) ≢ calculate_checksum (pre ++ (b ∷ post))
calculate_checksum_detects pre post a b fits_a fits_b ha hb ne = ground (
  arith,
  calculate_checksum_lem (pre ++ (a ∷ post)) fits_a,
  calculate_checksum_lem (pre ++ (b ∷ post)) fits_b,
  sum-append pre (a ∷ post),
  sum-append pre (b ∷ post),
)

-- Exchanging two bytes of such a payload, wherever they stand, leaves the checksum as it is.
pub calculate_checksum_swap :
    (pre mid post : List ℕ) (a b : ℕ)
    → Fits (pre ++ (a ∷ (mid ++ (b ∷ post))))
    → Fits (pre ++ (b ∷ (mid ++ (a ∷ post))))
    → calculate_checksum (pre ++ (a ∷ (mid ++ (b ∷ post))))
      ≡ calculate_checksum (pre ++ (b ∷ (mid ++ (a ∷ post))))
calculate_checksum_swap pre mid post a b fits fits' = ground (
  arith,
  calculate_checksum_lem (pre ++ (a ∷ (mid ++ (b ∷ post)))) fits,
  calculate_checksum_lem (pre ++ (b ∷ (mid ++ (a ∷ post)))) fits',
  sum-append pre (a ∷ (mid ++ (b ∷ post))),
  sum-append pre (b ∷ (mid ++ (a ∷ post))),
  sum-append mid (b ∷ post),
  sum-append mid (a ∷ post),
)
