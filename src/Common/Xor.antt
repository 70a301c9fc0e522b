-- ===== src/Common/Xor.antt =====
-- Laws of `^` on bytes, from the digit recursion that the native operation stands for.
use Prim.Native.Nat.{bit_xor, digits, bit_xor-bitwise, differ}
use native.Mathlib.Nat.{le_refl, two-pow-succ, zero-add}
use ride_hailing_system.Prelude.{
  ℕ, zero, suc, ◌+◌, ◌-◌, ◌*◌, ◌/◌, ◌%◌, ◌^◌, ◌≤◌, ◌<◌, ◌≡◌, refl, ◌∙◌, arith,
}

abbrev xor_digits : ℕ → ℕ → ℕ → ℕ
xor_digits fuel x y = digits (λ d. d) differ fuel x y

-- Fuel beyond the number itself is never used.
spare_fuel : (fuel x y : ℕ) → x ≤ fuel → xor_digits (suc fuel) x y ≡ xor_digits fuel x y
spare_fuel fuel zero y enough = xor_zero fuel y
  where
    xor_zero : (fuel y : ℕ) → xor_digits (suc fuel) 0 y ≡ xor_digits fuel 0 y
    xor_zero zero y = refl
    xor_zero (suc fuel) y = refl
spare_fuel zero (suc x) y enough = absurd (omega arith)
spare_fuel (suc fuel) (suc x) y enough = rw (spare_fuel fuel (suc x / 2) (y / 2) (omega arith))

-- So `extra` rounds more give the digits of `bitwise`.
spare_fuels : (extra x y : ℕ) → xor_digits (extra + x) x y ≡ xor_digits x x y
spare_fuels zero x y = rw (zero-add x)
spare_fuels (suc extra) x y =
    let e : suc extra + x ≡ suc (extra + x) = omega arith in
    rw e (spare_fuel (extra + x) x y (omega arith) ∙ spare_fuels extra x y)

bit_xor_step : (a b : ℕ) → bit_xor a b ≡ bit_xor (a / 2) (b / 2) * 2 + differ (a % 2) (b % 2)
bit_xor_step zero b = omega (arith, bit_xor-bitwise 0 b, bit_xor-bitwise 0 (b / 2))
bit_xor_step (suc a) b =
    let half = suc a / 2 in
    let split : a - half + half ≡ a = omega arith in
    omega (
      arith,
      bit_xor-bitwise (suc a) b,
      bit_xor-bitwise half (b / 2),
      rw split at (spare_fuels (a - half) half (b / 2)),
    )

differ_bits : (x y : ℕ) → x < 2 → y < 2 → (differ x y < 2) × (differ (differ x y) y ≡ x)
differ_bits zero zero hx hy = omega arith
differ_bits zero (suc zero) hx hy = omega arith
differ_bits (suc zero) zero hx hy = omega arith
differ_bits (suc zero) (suc zero) hx hy = omega arith
differ_bits (suc (suc x)) y hx hy = absurd (omega arith)
differ_bits zero (suc (suc y)) hx hy = absurd (omega arith)
differ_bits (suc zero) (suc (suc y)) hx hy = absurd (omega arith)

-- One more digit of a number with the low digit `d`.
step_back : (q d b : ℕ) → d < 2 → bit_xor (q * 2 + d) b ≡ bit_xor q (b / 2) * 2 + differ d (b % 2)
step_back q d b h =
    let high : (q * 2 + d) / 2 ≡ q = omega arith in
    let low : (q * 2 + d) % 2 ≡ d = omega arith in bit_xor_step (q * 2 + d) b ∙ rw (high, low)

twice_fuel : (n a b : ℕ) → a + b ≤ n → bit_xor (bit_xor a b) b ≡ a
twice_fuel zero zero zero h = refl
twice_fuel zero zero (suc b) h = absurd (omega arith)
twice_fuel zero (suc a) b h = absurd (omega arith)
twice_fuel (suc n) zero zero h = refl
twice_fuel (suc n) a b h =
    let d = differ_bits (a % 2) (b % 2) (omega arith) (omega arith) in
    rw (bit_xor_step a b) (
      omega (
        arith,
        step_back (bit_xor (a / 2) (b / 2)) (differ (a % 2) (b % 2)) b d.0,
        twice_fuel n (a / 2) (b / 2) (omega arith),
        d.1,
      ))

-- The same mask twice gives the number back.
pub bit_xor_twice : (a b : ℕ) → bit_xor (bit_xor a b) b ≡ a
bit_xor_twice a b = twice_fuel (a + b) a b (le_refl _)

-- The result fits the width of both.
pub bit_xor-lt : (k a b : ℕ) → a < 2 ^ k → b < 2 ^ k → bit_xor a b < 2 ^ k
bit_xor-lt zero zero zero ha hb = omega arith
bit_xor-lt zero zero (suc b) ha hb = absurd (omega arith)
bit_xor-lt zero (suc a) b ha hb = absurd (omega arith)
bit_xor-lt (suc k) a b ha hb = omega (
  arith,
  two-pow-succ k,
  bit_xor_step a b,
  differ_bits (a % 2) (b % 2) (omega arith) (omega arith),
  bit_xor-lt k (a / 2) (b / 2) (omega (arith, two-pow-succ k)) (omega (arith, two-pow-succ k)),
)
