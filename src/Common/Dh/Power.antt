-- ===== src/Common/Dh/Power.antt =====
-- `power_mod` against exponentiation.
use native.Mathlib.Nat.{mod-lt, pow-zero, mul-one, one-mul, mod-eq_of_lt}
use ride_hailing_system.Prelude.{
  ℕ, zero, suc, ◌*◌, ◌/◌, ◌%◌, ◌^◌, ◌<◌, ◌≤◌, ◌≡◌, refl, ◌∙◌, sym, ◌==◌, if◌then◌else◌, arith, true,
  false, Bool-cases, inl, inr, mod-pow, square_and_multiply, pow-one, suc-eq-zero_false, done, ℤ,
  pos, negsuc, pos_part, nat_abs, ◌*ℤ◌, ◌%ℤ◌, nat_abs-*ℤ, nat_abs-%ℤ,
}
use ride_hailing_system.Common.Dh.{fits_i64, mul_mod, power_loop, power_mod}

fits_i64-nat_abs : (z : ℤ) → nat_abs z < 2 ^ 63 → fits_i64 z ≡ true
fits_i64-nat_abs (pos n) h = ground arith
fits_i64-nat_abs (negsuc n) h = ground arith

module _ (m : ℕ) (m_pos : 0 < m) (m_small : m ≤ 2 ^ 31) where
  product_small : (x y : ℕ) → x < m → y < m → x * y < 2 ^ 63
  product_small x y hx hy = grind arith

  -- A product of two residues does not overflow, and its residue is that of the absolute values.
  pub mul_mod_lem :
      (a b : ℤ)
      → nat_abs a < m
      → nat_abs b < m
      → (r : ℤ) × (mul_mod a b m ≡ done r) × (nat_abs r ≡ (nat_abs a * nat_abs b) % m)
  unfolding mul_mod
  mul_mod_lem a b ha hb = (
    (a *ℤ b) %ℤ m,
    rw (
        fits_i64-nat_abs (a *ℤ b)
          (rw (nat_abs-*ℤ a b) (product_small (nat_abs a) (nat_abs b) ha hb))),
    nat_abs-%ℤ (a *ℤ b) m ∙ rw (nat_abs-*ℤ a b),
  )

  times_one : {x : ℕ} → x < m → (x * 1) % m ≡ x
  times_one {x} h = rw (mul-one x) (mod-eq_of_lt h)

  even_power : (x b exp : ℕ) → x < m → (exp % 2 == 1) ≡ false → x ≡ (x * b ^ (exp % 2)) % m
  even_power x b exp hx h =
      let e : exp % 2 ≡ 0 = ground arith in rw (e, pow-zero b) (sym (times_one hx))

  odd_power : (b exp : ℕ) → (exp % 2 == 1) ≡ true → b ^ (exp % 2) ≡ b
  odd_power b exp h = let e : exp % 2 ≡ 1 = ground arith in rw e (pow-one b)

  -- What a round does to the result.
  odd_round :
      (res base : ℤ) (exp : ℕ)
      → nat_abs res < m
      → nat_abs base < m
      → (r : ℤ) × ((if exp % 2 == 1 then mul_mod res base m else done res) ≡ done r)
        × (nat_abs r ≡ (nat_abs res * nat_abs base ^ (exp % 2)) % m)
  odd_round res base exp hr hb = elim (Bool-cases (exp % 2 == 1)) [
    | inl odd ↦
        let (r, e, v) = mul_mod_lem res base hr hb in
        (r, rw odd e, rw (odd_power (nat_abs base) exp odd) v)
    | inr even ↦ (res, rw even, even_power (nat_abs res) (nat_abs base) exp hr even)
  ]

  pub power_loop_lem :
      (fuel : ℕ) (res base : ℤ) (exp : ℕ)
      → exp < fuel
      → nat_abs res < m
      → nat_abs base < m
      → (r : ℤ) × (power_loop fuel res base exp m ≡ done r)
        × (nat_abs r ≡ (nat_abs res * nat_abs base ^ exp) % m)
  unfolding power_loop
  power_loop_lem zero res base exp h hr hb = absurd (omega arith)
  power_loop_lem (suc fuel) res base zero h hr hb =
      (res, refl, rw (pow-zero (nat_abs base)) (sym (times_one hr)))
  power_loop_lem (suc fuel) res base (suc n) h hr hb =
      let (r, er, vr) = odd_round res base (suc n) hr hb in
      let (b, eb, vb) = mul_mod_lem base base hb hb in
      let (out, eo, vo) =
        power_loop_lem fuel r b (suc n / 2) (omega arith) (rw vr (mod-lt _ m_pos))
          (rw vb (mod-lt _ m_pos)) in
      (
        out,
        rw (suc-eq-zero_false n, er, eb) eo,
        vo ∙ rw (vr, vb) (square_and_multiply (nat_abs res) (nat_abs base) (suc n) m),
      )

-- For a modulus from 2 to 2^31, any base and any exponent, `power_mod` ends without an overflow,
-- and the absolute value of its result is |base| to the power of the exponent, modulo the modulus.
-- A negative exponent counts as 0.
pub power_mod_lem :
    (base exp : ℤ) (m : ℕ)
    → 1 < m
    → m ≤ 2 ^ 31
    → (r : ℤ) × (power_mod base exp m ≡ done r) × (nat_abs r ≡ (nat_abs base ^ pos_part exp) % m)
unfolding power_mod
power_mod_lem base exp zero h _ = absurd (omega arith)
power_mod_lem base exp (suc m) h small =
    let (r, e, v) =
      power_loop_lem (suc m) (omega arith) small (suc (pos_part exp)) (pos 1) (base %ℤ suc m)
        (pos_part exp) (omega arith) h (rw (nat_abs-%ℤ base (suc m)) (mod-lt _ (omega arith))) in
    (
      r,
      e,
      v ∙ rw (nat_abs-%ℤ base (suc m), one-mul) (mod-pow (nat_abs base) (pos_part exp) (suc m)),
    )
