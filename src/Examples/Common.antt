-- ===== src/Examples/Common.antt =====
-- Examples for the shared library.
use ride_hailing_system.Prelude.{
  ℕ, ◌-◌, ◌*◌, ◌%◌, ◌^◌, ◌<◌, ◌≡◌, ◌≢◌, refl, arith, List, [], ◌∷◌, All, length, done, ℤ, pos,
  negsuc, nat_abs,
}
use ride_hailing_system.Common.Checksum.{calculate_checksum, fold_carry}
use ride_hailing_system.Common.Checksum.Fold.{sum, end_around, fold_carry_ends}
use ride_hailing_system.Common.Checksum.Laws.{
  Fits, calculate_checksum_lem, calculate_checksum_detects,
}
use ride_hailing_system.Common.Rc4.{rc4_crypt}
use ride_hailing_system.Common.Rc4.Keystream.{IsAscii}
use ride_hailing_system.Common.Rc4.RoundTrip.{IsCipher, rc4_crypt-IsCipher}
use ride_hailing_system.Common.Dh.{
  dh_prime, dh_generator, calculate_public_key, calculate_shared_secret, derive_session_key,
}
use ride_hailing_system.Common.Dh.Agreement.{dh_agreement, calculate_shared_secret_total}
use ride_hailing_system.Common.Dh.SessionKey.{read_key, derive_session_key-IsKey}

-- Payloads that differ in one byte, and with two bytes exchanged.
abbrev payload : List ℕ
payload = 1 ∷ 200 ∷ 255 ∷ 7 ∷ []

Fits-three : (a b c d : ℕ) → a < 256 → b < 256 → c < 256 → d < 256 → Fits (a ∷ b ∷ c ∷ d ∷ [])
Fits-three a b c d ha hb hc hd = ((ha, (hb, (hc, (hd, tt)))), omega arith)

payload-Fits : Fits payload
payload-Fits = Fits-three 1 200 255 7 (omega arith) (omega arith) (omega arith) (omega arith)

calculate_checksum_lem_example : calculate_checksum payload ≡ 65535 - end_around (sum payload)
calculate_checksum_lem_example = calculate_checksum_lem payload payload-Fits

calculate_checksum_detects_example :
    calculate_checksum (1 ∷ 200 ∷ 255 ∷ 7 ∷ []) ≢ calculate_checksum (1 ∷ 200 ∷ 254 ∷ 7 ∷ [])
calculate_checksum_detects_example =
    calculate_checksum_detects (1 ∷ 200 ∷ []) (7 ∷ []) 255 254 payload-Fits
      (Fits-three 1 200 254 7 (omega arith) (omega arith) (omega arith) (omega arith)) (omega arith)
      (omega arith) (omega arith)

fold_carry_ends_example :
    (fold_carry 4 4294967295 ≡ fold_carry 3 4294967295) × (fold_carry 3 4294967295 < 2 ^ 16)
fold_carry_ends_example = fold_carry_ends 1 4294967295 (omega arith)

-- "KEY".
abbrev session_key : List ℕ
session_key = 75 ∷ 69 ∷ 89 ∷ []

session_key-IsAscii : All IsAscii session_key
session_key-IsAscii = omega arith

rc4_crypt-IsCipher_example : (out : List ℕ) × IsCipher (λ d. rc4_crypt d session_key) payload out
rc4_crypt-IsCipher_example =
    rc4_crypt-IsCipher payload session_key payload-Fits.0 session_key-IsAscii (omega arith)

dh_agreement_example :
    (pub_a pub_b secret : ℤ) × (calculate_public_key (pos 5) ≡ done pub_a)
    × (calculate_public_key (pos 7) ≡ done pub_b)
    × (calculate_shared_secret pub_b (pos 5) ≡ done secret)
    × (calculate_shared_secret pub_a (pos 7) ≡ done secret)
    × (secret ≡ pos ((dh_generator ^ (5 * 7)) % dh_prime))
dh_agreement_example = dh_agreement 5 7

calculate_shared_secret_total_example :
    (secret : ℤ) × (calculate_shared_secret (negsuc 4) (pos 3) ≡ done secret)
    × (nat_abs secret < dh_prime)
calculate_shared_secret_total_example = calculate_shared_secret_total (negsuc 4) (pos 3)

derive_session_key-IsKey_example :
    All IsAscii (derive_session_key (pos 2147483646) 64)
    × (0 < length (derive_session_key (pos 2147483646) 64))
    × (length (derive_session_key (pos 2147483646) 64) < 64)
    × (read_key (derive_session_key (pos 2147483646) 64) ≡ pos 2147483646)
derive_session_key-IsKey_example = derive_session_key-IsKey (pos 2147483646) refl
