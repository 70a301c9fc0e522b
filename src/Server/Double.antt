-- ===== src/Server/Double.antt =====
-- The `double` of C with what the server does on it: literals, arithmetic, `sqrt`, `pow`, two
-- comparisons and the casts from and to `int`. `lit m k` is the literal m / 10^k.
pub mod Fixed
use ride_hailing_system.Prelude.{ℕ, ℤ, pos, ◌≡◌, ◌<◌, ◌≤◌, ◌*◌, Bool, true, false, ltb}

pub record Double (W : Type 0) : Type 0 where
  pub lit : ℕ → ℕ → W
  pub add : W → W → W
  pub sub : W → W → W
  pub mul : W → W → W
  pub div : W → W → W
  pub sqrt : W → W
  pub pow : W → W → W
  pub lt : W → W → Bool
  pub le : W → W → Bool
  pub of_int : ℤ → W
  pub to_int : W → ℤ

-- `<` is transitive and irreflexive, also where NaN takes part: no comparison with NaN holds.
pub record IsOrdered (W : Type 0) ⦃d : Double W⦄ : Type 0 where
  pub lt_trans : (x y z : W) → d.lt x y ≡ true → d.lt y z ≡ true → d.lt x z ≡ true
  pub lt_irrefl : (x : W) → d.lt x x ≡ false

-- Sums of the two fares are exact.
pub record HasExactFares (W : Type 0) ⦃d : Double W⦄ : Type 0 where
  pub standard_fare : d.to_int (d.add (d.lit 1000 1) (d.lit 0 1)) ≡ pos 100
  pub vip_fare : d.to_int (d.add (d.lit 1000 1) (d.lit 500 1)) ≡ pos 150

-- A quotient of two small counts is above the literal 0.7 exactly when the fraction is.
pub record HasExactRatio (W : Type 0) ⦃d : Double W⦄ : Type 0 where
  pub ratio :
      (busy total : ℕ)
      → busy ≤ total
      → 0 < total
      → total ≤ 256
      → d.lt (d.lit 7 1) (d.div (d.of_int (pos busy)) (d.of_int (pos total)))
        ≡ ltb (7 * total) (10 * busy)
