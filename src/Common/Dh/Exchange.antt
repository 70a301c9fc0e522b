-- ===== src/Common/Dh/Exchange.antt =====
-- A key exchange with private keys from `generate_private_key`.
use native.Mathlib.Nat.{mod-lt}
use ride_hailing_system.Prelude.{ℕ, ◌+◌, ◌*◌, ◌%◌, ◌^◌, ◌<◌, ◌≡◌, arith, true, done, ℤ, pos}
use ride_hailing_system.Common.Dh.{
  dh_prime, dh_generator, fits_i64, generate_private_key, calculate_public_key,
  calculate_shared_secret,
}
use ride_hailing_system.Common.Dh.Agreement.{power_mod_pos, dh_agreement}

-- An exchange between two ends that draw their private keys from `rand()`, with numbers for the
-- public keys.
pub record Exchange (rand_a rand_b : ℕ) : Type 0 where
  pub pub_a : ℕ
  pub pub_b : ℕ
  pub secret : ℤ
  pub a_small : pub_a < 2 ^ 31
  pub b_small : pub_b < 2 ^ 31
  pub secret_fits : fits_i64 secret ≡ true
  pub a_public : calculate_public_key (generate_private_key rand_a) ≡ done (pos pub_a)
  pub b_public : calculate_public_key (generate_private_key rand_b) ≡ done (pos pub_b)
  pub a_secret : calculate_shared_secret (pos pub_b) (generate_private_key rand_a) ≡ done secret
  pub b_secret : calculate_shared_secret (pos pub_a) (generate_private_key rand_b) ≡ done secret

public_of : (a : ℕ) → calculate_public_key (pos a) ≡ done (pos ((dh_generator ^ a) % dh_prime))
unfolding calculate_public_key
public_of a = power_mod_pos dh_generator a dh_prime (omega arith) (omega arith)

residue_small : (n : ℕ) → n % dh_prime < 2 ^ 31
residue_small n = omega (arith, mod-lt n {m = dh_prime} (omega arith))

residue_fits : (n : ℕ) → fits_i64 (pos (n % dh_prime)) ≡ true
residue_fits n = ground (arith, residue_small n)

pub exchange : (rand_a rand_b : ℕ) → Exchange rand_a rand_b
unfolding generate_private_key
exchange rand_a rand_b =
    let a = rand_a % 100000 + 1 in
    let b = rand_b % 100000 + 1 in
    let (pa, pb, s, ea, eb, sa, sb, v) = dh_agreement a b in
    let same_a : pa ≡ pos ((dh_generator ^ a) % dh_prime) = cc (ea, public_of a) in
    let same_b : pb ≡ pos ((dh_generator ^ b) % dh_prime) = cc (eb, public_of b) in
    record {
      pub_a = (dh_generator ^ a) % dh_prime;
      pub_b = (dh_generator ^ b) % dh_prime;
      secret = s;
      a_small = residue_small (dh_generator ^ a);
      b_small = residue_small (dh_generator ^ b);
      secret_fits = rw v (residue_fits (dh_generator ^ (a * b)));
      a_public = public_of a;
      b_public = public_of b;
      a_secret = rw same_b at sa;
      b_secret = rw same_a at sb;
    }
