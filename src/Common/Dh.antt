-- ===== src/Common/Dh.antt =====
-- The key exchange of src/common/dh_crypto.c. A `long long` is an integer whose products are checked
-- to fit 64 bits: a signed overflow, and a remainder by 0, is a crash.
pub mod Power
pub mod Agreement
pub mod Exchange
pub mod SessionKey
use ride_hailing_system.Prelude.{
  Bool, ℕ, zero, suc, ◌+◌, ◌-◌, ◌/◌, ◌%◌, ◌^◌, List, [], ◌∷◌, ◌++◌, ◌==◌, ltb, if◌then◌else◌, Exec,
  done, crash, ◌>>=◌, ℤ, pos, negsuc, pos_part, ◌+ℤ◌, ◌*ℤ◌, ◌%ℤ◌, take,
}

abbrev pub dh_prime : ℕ
dh_prime = 2147483647

abbrev pub dh_generator : ℕ
dh_generator = 16807

abbrev pub fits_i64 : ℤ → Bool
fits_i64 (pos n) = ltb n (2 ^ 63)
fits_i64 (negsuc n) = ltb n (2 ^ 63)

-- `(a * b) % mod`.
pub mul_mod : ℤ → ℤ → ℕ → Exec ℤ
mul_mod a b modulus = if fits_i64 (a *ℤ b) then done ((a *ℤ b) %ℤ modulus) else crash

-- The `while` loop on fuel, with the exponent as a number: a negative one ends the loop at once.
pub power_loop : ℕ → ℤ → ℤ → ℕ → ℕ → Exec ℤ
power_loop zero res base exp modulus = done res
power_loop (suc fuel) res base exp modulus =
    let round = do
      res' ← (if exp % 2 == 1 then mul_mod res base modulus else done res)
      base' ← mul_mod base base modulus
      power_loop fuel res' base' (exp / 2) modulus
    in if exp == 0 then done res else round

-- The modulus is positive at every call.
unfoldable pub power_mod : ℤ → ℤ → ℕ → Exec ℤ
unfolding power_loop
power_mod base exp zero = crash
power_mod base exp (suc m) =
    power_loop (suc (pos_part exp)) (pos 1) (base %ℤ suc m) (pos_part exp) (suc m)

-- `rand()` is a parameter: a number that is not negative.
pub generate_private_key : ℕ → ℤ
generate_private_key rand = pos (rand % 100000 + 1)

pub calculate_public_key : ℤ → Exec ℤ
calculate_public_key private_key = power_mod (pos dh_generator) private_key dh_prime

pub calculate_shared_secret : ℤ → ℤ → Exec ℤ
calculate_shared_secret other_public_key my_private_key =
    power_mod other_public_key my_private_key dh_prime

-- `%lld`: the decimal digits of a number, on fuel, and the sign.
pub decimal : ℕ → ℕ → List ℕ
decimal zero n = []
decimal (suc fuel) n =
    let high = decimal fuel (n / 10) in
    if ltb n 10 then (b'0' + n) ∷ [] else high ++ ((b'0' + n % 10) ∷ [])

pub print_lld : ℤ → List ℕ
print_lld (pos n) = decimal (suc n) n
print_lld (negsuc n) = b'-' ∷ decimal (suc (suc n)) (suc n)

abbrev pub key_prefix : List ℕ
key_prefix = b'K' ∷ b'E' ∷ b'Y' ∷ b'_' ∷ []

abbrev pub key_suffix : List ℕ
key_suffix = b'_' ∷ b'S' ∷ b'E' ∷ b'C' ∷ b'U' ∷ b'R' ∷ b'E' ∷ []

-- `snprintf` into a buffer of `len` bytes keeps `len - 1` of them before the NUL.
pub derive_session_key : ℤ → ℕ → List ℕ
derive_session_key shared_secret len =
    take (len - 1) (key_prefix ++ (print_lld shared_secret ++ key_suffix))
