-- ===== src/Server/Double/Fixed.antt =====
-- A fixed-point number with four decimals, on which the server's `double` code runs: the laws of
-- the interface can be met.
use native.Mathlib.Nat.{le-div_iff_mul-le}
use ride_hailing_system.Prelude.{
  ◌∙◌, ℕ, zero, suc, ◌+◌, ◌*◌, ◌/◌, ◌^◌, ◌<◌, ◌≤◌, ◌≡◌, refl, ◌==◌, leb, if◌then◌else◌, ltb, arith,
  ℤ, pos, negsuc, neg_ℕ, nat_abs, ltb_ℤ, leb_ℤ, ◌+ℤ◌, ◌-ℤ◌, ◌*ℤ◌,
}
use ride_hailing_system.Server.Double.{Double, IsOrdered, HasExactFares, HasExactRatio}

-- The integer square root, by base 4 digits on fuel.
unfoldable pub isqrt : ℕ → ℕ → ℕ
isqrt zero n = 0
isqrt (suc fuel) n =
    let rest = isqrt fuel (n / 4) in
    if n == 0
    then 0
    else (if leb ((2 * rest + 1) * (2 * rest + 1)) n then 2 * rest + 1 else 2 * rest)

-- Truncated division by a positive number.
abbrev pub quot : ℤ → ℕ → ℤ
quot (pos a) b = pos (a / b)
quot (negsuc a) b = neg_ℕ (suc a / b)

-- A division by something negative is not met.
abbrev pub div_fixed : ℤ → ℤ → ℤ
div_fixed a (pos b) = quot (a *ℤ pos 10000) b
div_fixed a (negsuc b) = pos 0

-- Ten-thousandths.
instance abbrev pub fixed : Double ℤ
fixed = record {
  lit = λ m k. pos (m * 10000 / 10 ^ k);
  add = ◌+ℤ◌;
  sub = ◌-ℤ◌;
  mul = λ a b. quot (a *ℤ b) 10000;
  div = div_fixed;
  sqrt = λ a. pos (isqrt 64 (nat_abs a * 10000));
  pow = λ a b. quot (a *ℤ a) 10000;
  lt = ltb_ℤ;
  le = leb_ℤ;
  of_int = λ a. a *ℤ pos 10000;
  to_int = λ a. quot a 10000;
}

pub fixed-IsOrdered : IsOrdered ℤ
fixed-IsOrdered = record { lt_trans = λ x y z p q. ground arith; lt_irrefl = λ x. ground arith }

pub fixed-HasExactFares : HasExactFares ℤ
unfolding ◌+ℤ◌
fixed-HasExactFares = record { standard_fare = refl; vip_fare = refl }

quotient_above : (a t : ℕ) → 0 < t → ltb 7000 (a / t) ≡ leb (7001 * t) a
quotient_above a t h = ground (arith, le-div_iff_mul-le {k = t} {x = 7001} {y = a} h)

above_iff :
    (busy total : ℕ)
    → busy ≤ total
    → 0 < total
    → total ≤ 256
    → ltb 7000 (busy * 10000 * 10000 / (total * 10000)) ≡ ltb (7 * total) (10 * busy)
above_iff busy total h p small =
    quotient_above (busy * 10000 * 10000) (total * 10000) (omega arith) ∙ ground arith

pub fixed-HasExactRatio : HasExactRatio ℤ
unfolding ◌*ℤ◌
fixed-HasExactRatio = record {
  ratio = λ busy total h pos_total small. ground (arith, above_iff busy total h pos_total small);
}
