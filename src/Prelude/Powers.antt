-- ===== src/Prelude/Powers.antt =====
-- Powers and remainders of native numbers.
use native.Mathlib.Nat.{
  add-mul-mod_self_left, div-add-mod, mul_comm, pow-suc, pow-zero, add-suc, add-zero, mul-zero,
  mul-suc,
}
use Prim.Native.Nat.{ℕ, zero, suc, ◌+◌, ◌*◌, ◌/◌, ◌%◌, ◌^◌}
use mathlib.Core.Path.{◌≡◌, refl, sym, ap, ◌∙◌, ◌≡⟨◌⟩◌, ◌∎}
use native.Mathlib.Omega.{arith}

pub mod_mul_mod : (a b m : ℕ) → (a % m * b) % m ≡ (a * b) % m
mod_mul_mod a b m = sym (
    ap (λ (t : ℕ). (t * b) % m) (sym (div-add-mod a m))
    ∙ ap (λ (t : ℕ). t % m) {x = (m * (a / m) + a % m) * b} {y = a % m * b + m * (a / m * b)}
        (omega arith)
    ∙ add-mul-mod_self_left (a % m * b) m (a / m * b))

pub mul_mod_mod : (a b m : ℕ) → (a * (b % m)) % m ≡ (a * b) % m
mul_mod_mod a b m = rw (mul_comm a (b % m), mul_comm a b) (mod_mul_mod b a m)

pub mod-pow : (a n m : ℕ) → ((a % m) ^ n) % m ≡ (a ^ n) % m
mod-pow a zero m = rw (pow-zero (a % m), pow-zero a)
mod-pow a (suc n) m =
    (a % m) ^ suc n % m
    ≡⟨ rw (pow-suc (a % m) n) refl ⟩ ((a % m) ^ n * (a % m)) % m
    ≡⟨ mul_mod_mod ((a % m) ^ n) a m ⟩ ((a % m) ^ n * a) % m
    ≡⟨ sym (mod_mul_mod ((a % m) ^ n) a m) ⟩ (((a % m) ^ n) % m * a) % m
    ≡⟨ ap (λ (t : ℕ). (t * a) % m) (mod-pow a n m) ⟩ ((a ^ n) % m * a) % m
    ≡⟨ mod_mul_mod (a ^ n) a m ⟩ (a ^ n * a) % m
    ≡⟨ rw (pow-suc a n) refl ⟩ (a ^ suc n) % m ∎

pub pow-one : (a : ℕ) → a ^ 1 ≡ a
pow-one a = omega (arith, pow-suc a 0, ap (λ (t : ℕ). t * a) (pow-zero a))

square : (a : ℕ) → a ^ 2 ≡ a * a
square a = omega (arith, pow-suc a 1, ap (λ (t : ℕ). t * a) (pow-one a))

pub pow-add : (a m n : ℕ) → a ^ (m + n) ≡ a ^ m * a ^ n
pow-add a m zero = rw (add-zero m, pow-zero a) (omega arith)
pow-add a m (suc n) =
    rw (add-suc m n) (
      rw (pow-suc a (m + n), pow-add a m n)
        (omega (arith, ap (λ (t : ℕ). a ^ m * t) (pow-suc a n))))

pub pow-mul : (a m n : ℕ) → (a ^ m) ^ n ≡ a ^ (m * n)
pow-mul a m zero = rw (mul-zero m, pow-zero a, pow-zero (a ^ m))
pow-mul a m (suc n) = rw (pow-suc (a ^ m) n, pow-mul a m n, mul-suc m n, pow-add a (m * n) m)

-- Squaring the base halves the exponent.
pub pow-half : (a n : ℕ) → a ^ n ≡ (a * a) ^ (n / 2) * a ^ (n % 2)
pow-half a n =
    a ^ n
    ≡⟨ ap (λ (t : ℕ). a ^ t) {y = 2 * (n / 2) + n % 2} (omega arith) ⟩ a ^ (2 * (n / 2) + n % 2)
    ≡⟨ pow-add a (2 * (n / 2)) (n % 2) ⟩ a ^ (2 * (n / 2)) * a ^ (n % 2)
    ≡⟨ ap (λ (t : ℕ). t * a ^ (n % 2)) (sym (pow-mul a 2 (n / 2))) ⟩ (a ^ 2) ^ (n / 2) * a ^ (n % 2)
    ≡⟨ ap (λ (t : ℕ). t ^ (n / 2) * a ^ (n % 2)) (square a) ⟩ (a * a) ^ (n / 2) * a ^ (n % 2) ∎

-- One round of square and multiply on residues.
pub square_and_multiply :
    (x a n m : ℕ) → ((x * a ^ (n % 2)) % m * ((a * a) % m) ^ (n / 2)) % m ≡ (x * a ^ n) % m
square_and_multiply x a n m =
    let odd : ℕ = x * a ^ (n % 2) in
    let rest : ℕ = ((a * a) % m) ^ (n / 2) in
    (odd % m * rest) % m
    ≡⟨ mod_mul_mod odd rest m ⟩ (odd * rest) % m
    ≡⟨ sym (mul_mod_mod odd rest m) ⟩ (odd * (rest % m)) % m
    ≡⟨ ap (λ (t : ℕ). (odd * t) % m) (mod-pow (a * a) (n / 2) m) ⟩
      (odd * ((a * a) ^ (n / 2) % m)) % m
    ≡⟨ mul_mod_mod odd ((a * a) ^ (n / 2)) m ⟩ (odd * (a * a) ^ (n / 2)) % m
    ≡⟨ ap (λ (t : ℕ). t % m) (omega (arith, ap (λ (t : ℕ). x * t) (pow-half a n))) ⟩
      (x * a ^ n) % m ∎
