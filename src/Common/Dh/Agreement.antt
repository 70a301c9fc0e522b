-- ===== src/Common/Dh/Agreement.antt =====
-- Both ends of the key exchange.
use ride_hailing_system.Prelude.{
  ℕ, zero, suc, ◌*◌, ◌/◌, ◌%◌, ◌^◌, ◌<◌, ◌≤◌, ◌≡◌, refl, ◌∙◌, ap, arith, done, ℤ, pos, nat_abs,
  ◌*ℤ◌, ◌%ℤ◌, mod-pow, pow-mul,
}
use native.Mathlib.Nat.{mul_comm, mod-lt}
use ride_hailing_system.Common.Dh.{
  dh_prime, dh_generator, mul_mod, power_loop, power_mod, calculate_public_key,
  calculate_shared_secret,
}
use ride_hailing_system.Common.Dh.Power.{power_mod_lem}

power_loop_nonneg :
    (fuel x y exp m : ℕ) (r : ℤ)
    → power_loop fuel (pos x) (pos y) exp m ≡ done r
    → r ≡ pos (nat_abs r)
unfolding power_loop mul_mod ◌*ℤ◌ ◌%ℤ◌
power_loop_nonneg zero x y exp m r h = ground arith
power_loop_nonneg (suc fuel) x y exp m r h = ground (
  arith,
  power_loop_nonneg fuel ((x * y) % m) ((y * y) % m) (exp / 2) m r,
  power_loop_nonneg fuel x ((y * y) % m) (exp / 2) m r,
)

-- From a base that is not negative the loop computes the power modulo the modulus.
pub power_mod_pos :
    (base exp m : ℕ)
    → 1 < m
    → m ≤ 2 ^ 31
    → power_mod (pos base) (pos exp) m ≡ done (pos ((base ^ exp) % m))
unfolding power_mod ◌%ℤ◌
power_mod_pos base exp zero h small = absurd (omega arith)
power_mod_pos base exp (suc m) h small =
    let (r, e, v) = power_mod_lem (pos base) (pos exp) (suc m) h small in
    e ∙ ap done (power_loop_nonneg (suc exp) 1 (base % suc m) exp (suc m) r e ∙ ap pos v)

-- For any two private keys that are not negative, both public keys are computed, and each end
-- computes the same shared secret from its own private key and the other's public key: G^(a*b)
-- modulo P.
pub dh_agreement :
    (a b : ℕ)
    → (pub_a pub_b secret : ℤ) × (calculate_public_key (pos a) ≡ done pub_a)
      × (calculate_public_key (pos b) ≡ done pub_b)
      × (calculate_shared_secret pub_b (pos a) ≡ done secret)
      × (calculate_shared_secret pub_a (pos b) ≡ done secret)
      × (secret ≡ pos ((dh_generator ^ (a * b)) % dh_prime))
unfolding calculate_public_key calculate_shared_secret
dh_agreement a b = (
  pos ((dh_generator ^ a) % dh_prime),
  pos ((dh_generator ^ b) % dh_prime),
  pos ((dh_generator ^ (a * b)) % dh_prime),
  power_mod_pos dh_generator a dh_prime (omega arith) (omega arith),
  power_mod_pos dh_generator b dh_prime (omega arith) (omega arith),
  secret_of b a ∙ rw (mul_comm b a),
  secret_of a b,
  refl,
)
  where
    secret_of :
        (x y : ℕ)
        → power_mod (pos ((dh_generator ^ x) % dh_prime)) (pos y) dh_prime
          ≡ done (pos ((dh_generator ^ (x * y)) % dh_prime))
    secret_of x y =
        power_mod_pos ((dh_generator ^ x) % dh_prime) y dh_prime (omega arith) (omega arith)
        ∙ ap (λ (n : ℕ). done (pos n))
            (mod-pow (dh_generator ^ x) y dh_prime
              ∙ ap (λ (n : ℕ). n % dh_prime) (pow-mul dh_generator x y))

pub calculate_public_key_total : (my : ℤ) → (key : ℤ) × (calculate_public_key my ≡ done key)
unfolding calculate_public_key
calculate_public_key_total my =
    let (r, e, _) = power_mod_lem (pos dh_generator) my dh_prime (omega arith) (omega arith) in
    (r, e)

-- Whatever 64-bit or larger number the other end sends as its public key, and whatever the private
-- key, the shared secret is computed without an overflow and its absolute value is below P.
pub calculate_shared_secret_total :
    (other my : ℤ)
    → (secret : ℤ) × (calculate_shared_secret other my ≡ done secret) × (nat_abs secret < dh_prime)
unfolding calculate_shared_secret
calculate_shared_secret_total other my =
    let (r, e, v) = power_mod_lem other my dh_prime (omega arith) (omega arith) in
    (r, e, rw v (mod-lt _ (omega arith)))
