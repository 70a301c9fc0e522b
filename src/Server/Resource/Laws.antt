-- ===== src/Server/Resource/Laws.antt =====
-- The two driver functions of src/server/resource_service.c together.
use ride_hailing_system.Prelude.{
  ℕ, zero, suc, add_i64, inc_i32, ◌≡◌, refl, ◌∙◌, ap, arith, Bool, true, false, not, ◌&&◌,
  if◌then◌else◌, some, get_elem?, get_elem?-lt, length-set, get_elem?-set_self, set, done, ℤ, pos,
  negsuc, ltb_ℤ, leb_ℤ, ◌-ℤ◌,
}
use ride_hailing_system.Server.State.{Driver, SharedState, IsSized}
use ride_hailing_system.Server.Resource.{
  check_if_driver_available, complete_ride_and_update_resources,
}

left_over :
    (refueling : Bool) (fuel : ℤ)
    → (if refueling
        then false
        else (if leb_ℤ (if ltb_ℤ (pos 0) fuel then fuel -ℤ pos 1 else fuel) (pos 0)
            then false
            else true))
      ≡ (not refueling && ltb_ℤ (pos 1) fuel)
unfolding ◌-ℤ◌
left_over true fuel = refl
left_over false (negsuc n) = ground arith
left_over false (pos zero) = ground arith
left_over false (pos (suc n)) = ground arith

module _ {W : Type 0} where
  -- The driver and the state after `complete_ride_and_update_resources`.
  abbrev completed_driver : Driver W → Driver W
  completed_driver v = record v {
    is_available = true;
    rides_count = inc_i32 v.rides_count;
    fuel = if ltb_ℤ (pos 0) v.fuel then v.fuel -ℤ pos 1 else v.fuel;
  }

  abbrev completed : SharedState W → ℕ → ℤ → Driver W → SharedState W
  completed s k fare v = record s {
    drivers = set s.drivers k (completed_driver v);
    total_revenue = add_i64 s.total_revenue fare;
  }

  -- On a state of the right sizes and for a driver in the array, completing a ride ends, keeps the
  -- sizes, and the availability check on that driver answers 1 afterwards exactly if it is not
  -- refuelling and had more than one unit of fuel.
  pub complete_ride-check :
      (s : SharedState W) (k : ℕ) (fare : ℤ) {v : Driver W}
      → IsSized W s
      → get_elem? s.drivers k ≡ some v
      → (s' : SharedState W) × (complete_ride_and_update_resources s k fare ≡ done s')
        × (check_if_driver_available s' k ≡ done (not v.is_refueling && ltb_ℤ (pos 1) v.fuel))
        × IsSized W s'
  unfolding complete_ride_and_update_resources check_if_driver_available
  complete_ride-check s k fare {v} sized e =
      let here = get_elem?-lt s.drivers k e in
      (
        completed s k fare v,
        rw e refl,
        rw (get_elem?-set_self s.drivers k (completed_driver v) here)
            (ap done (left_over v.is_refueling v.fuel)),
        record {
          drivers_size = length-set s.drivers k _ ∙ sized.drivers_size;
          last_seen_size = sized.last_seen_size;
          req_count_size = sized.req_count_size;
          count_fits = sized.count_fits;
        },
      )
