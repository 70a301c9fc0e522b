-- ===== src/Server/Pricing.antt =====
-- src/server/pricing_service.c: the surge price.
pub mod Surge
use ride_hailing_system.Prelude.{
  ℕ, zero, suc, ◌+◌, ◌*◌, Bool, true, false, not, ◌&&◌, ◌==◌, if◌then◌else◌, List, Exec, done,
  ◌>>=◌, read, ℤ, pos, nat_abs, rounds,
}
use ride_hailing_system.Server.Double.{Double}
use ride_hailing_system.Server.State.{Driver, SharedState}

-- The price, and the output parameter `*is_surge`.
pub record Quote : Type 0 where
  pub fare : ℕ
  pub is_surge : Bool

abbrev pub base_fare : ℕ
base_fare = 100

module _ {W : Type 0} where
  abbrev pub is_busy : Driver W → Bool
  is_busy v = not v.is_available && not v.is_refueling

  -- The counting loop.
  pub count_busy : List (Driver W) → ℕ → ℕ → ℕ → Exec ℕ
  count_busy drivers zero i busy_drivers = done busy_drivers
  count_busy drivers (suc left) i busy_drivers = do
    v ← read drivers i
    count_busy drivers left (i + 1) (if is_busy v then busy_drivers + 1 else busy_drivers)

module _ {W : Type 0} ⦃d : Double W⦄ where
  open d use {lit, div, of_int, lt}

  pub calculate_surge_price : SharedState W → Exec Quote
  calculate_surge_price state =
      if nat_abs state.driver_count == 0
      then done (record { fare = base_fare; is_surge = false })
      else do
        busy_drivers ← count_busy state.drivers (rounds state.driver_count) 0 0
        let busy_ratio = div (of_int (pos busy_drivers)) (of_int state.driver_count)
        done (
            if lt (lit 7 1) busy_ratio
            then record { fare = base_fare * 2; is_surge = true }
            else record { fare = base_fare; is_surge = false })
