-- ===== src/Server/Pricing/Surge.antt =====
-- The surge price in terms of how many drivers are busy.
use native.Mathlib.Numerals.{add-one}
use ride_hailing_system.Prelude.{
  suc-eq-zero_false, ℕ, zero, suc, ◌+◌, ◌*◌, ◌≤◌, ◌≡◌, refl, ap, arith, true, false, ltb,
  if◌then◌else◌, List, [], ◌∷◌, length, get_elem?, get_elem?-some, done, pos, some,
}
use ride_hailing_system.Server.Double.{Double, HasExactRatio}
use ride_hailing_system.Server.State.{Driver, SharedState, IsSized}
use ride_hailing_system.Server.Pricing.{is_busy, count_busy, calculate_surge_price}

module _ {W : Type 0} where
  -- How many of the first `n` drivers carry a passenger.
  abbrev pub busy : ℕ → List (Driver W) → ℕ
  busy zero drivers = 0
  busy (suc n) [] = 0
  busy (suc n) (v ∷ drivers) = (if is_busy v then 1 else 0) + busy n drivers

  busy-le : (n : ℕ) (drivers : List (Driver W)) → busy n drivers ≤ n
  busy-le zero drivers = omega arith
  busy-le (suc n) [] = omega arith
  busy-le (suc n) (v ∷ drivers) = ground (arith, busy-le n drivers)

  busy-suc :
      (n : ℕ) (drivers : List (Driver W)) {v : Driver W}
      → get_elem? drivers n ≡ some v
      → busy (suc n) drivers ≡ busy n drivers + (if is_busy v then 1 else 0)
  busy-suc n [] e = ground arith
  busy-suc zero (u ∷ drivers) e = ground arith
  busy-suc (suc n) (u ∷ drivers) e = omega (arith, busy-suc n drivers e)

  one_more :
      (drivers : List (Driver W)) (i : ℕ) {v : Driver W}
      → get_elem? drivers i ≡ some v
      → (if is_busy v then busy i drivers + 1 else busy i drivers) ≡ busy (i + 1) drivers
  one_more drivers i {v} e = rw (add-one i, busy-suc i drivers e) (ground arith)

  count_busy-eq-busy :
      (drivers : List (Driver W)) (left i n : ℕ)
      → i + left ≡ n
      → n ≤ length drivers
      → count_busy drivers left i (busy i drivers) ≡ done (busy n drivers)
  unfolding count_busy
  count_busy-eq-busy drivers zero i n e h = ap (λ (t : ℕ). done (busy t drivers)) (omega arith)
  count_busy-eq-busy drivers (suc left) i n e h =
      let (v, ev) = get_elem?-some drivers i (omega arith) in
      rw (ev, one_more drivers i ev) (count_busy-eq-busy drivers left (i + 1) n (omega arith) h)

module _ {W : Type 0} ⦃d : Double W⦄ (exact : HasExactRatio W) (s : SharedState W)
    (sized : IsSized W s) where
  -- Where quotients of counts compare exactly with 0.7, on a state of the right sizes and a driver
  -- count that is not negative: the price is 200 with the surge flag set if more than 7 of 10
  -- drivers are busy (neither available nor refuelling), and 100 without it otherwise, also with no
  -- drivers.
  pub calculate_surge_price_lem :
      (n : ℕ)
      → s.driver_count ≡ pos n
      → calculate_surge_price s
        ≡ done (
            if ltb (7 * n) (10 * busy n s.drivers)
            then record { fare = 200; is_surge = true }
            else record { fare = 100; is_surge = false })
  unfolding calculate_surge_price
  calculate_surge_price_lem zero e = rw e refl
  calculate_surge_price_lem (suc n) e =
      let small : suc n ≤ 256 = rw e at sized.count_fits in
      rw
        (
          e,
          suc-eq-zero_false n,
          count_busy-eq-busy s.drivers (suc n) 0 (suc n) (omega arith)
              (rw sized.drivers_size small),
        )
        (rw (
          exact.ratio (busy (suc n) s.drivers) (suc n) (busy-le (suc n) s.drivers) (omega arith)
            small))
