-- ===== src/Examples/Server.antt =====
-- Examples for the server, on fixed-point coordinates in ten-thousandths.
use ride_hailing_system.Server.Resource.{
  check_if_driver_available, complete_ride_and_update_resources,
}
use ride_hailing_system.Server.Resource.Laws.{complete_ride-check}
use ride_hailing_system.Prelude.{
  not, ◌&&◌, ltb_ℤ, ℕ, ◌*◌, ◌≡◌, refl, arith, Bool, true, false, ltb, if◌then◌else◌, Option, List,
  [], ◌∷◌, replicate, done, ℤ, pos,
}
use ride_hailing_system.Server.Double.Fixed.{
  fixed, fixed-IsOrdered, fixed-HasExactFares, fixed-HasExactRatio,
}
use ride_hailing_system.Server.State.{Driver, SharedState, IsSized}
use ride_hailing_system.Server.Dispatch.{find_driver_smart}
use ride_hailing_system.Server.Dispatch.Smart.{IsSmartChoice, find_driver_smart-IsSmartChoice}
use ride_hailing_system.Server.Pricing.{calculate_surge_price}
use ride_hailing_system.Server.Pricing.Surge.{busy, calculate_surge_price_lem}
use ride_hailing_system.Server.Ride.{Reply, handle_ride_request_logic}
use ride_hailing_system.Server.Ride.Assign.{Outcome, handle_ride_request_logic-Outcome}
use ride_hailing_system.Server.Ride.Ledger.{Run, vip_flags, ledger_of, run_requests-Run}
use ride_hailing_system.Server.Ride.Fleet.{Request, run_requests}

abbrev driver : ℕ → ℤ → Bool → ℤ → ℤ → Driver ℤ
driver id lat is_available fuel rating = record {
  driver_id = id;
  lat = lat;
  lon = pos 1215654;
  is_available = is_available;
  rides_count = pos 0;
  fuel = fuel;
  is_refueling = false;
  rating = rating;
  has_target = false;
  target_lat = pos 0;
  target_lon = pos 0;
}

abbrev near_driver : Driver ℤ
near_driver = driver 1 (pos 250331) true (pos 10) (pos 41000)

abbrev top_driver : Driver ℤ
top_driver = driver 2 (pos 250339) true (pos 10) (pos 49000)

abbrev busy_driver : Driver ℤ
busy_driver = driver 3 (pos 250330) false (pos 5) (pos 50000)

-- Three drivers of which two are free, in the smart mode.
abbrev fleet : SharedState ℤ
fleet = record {
  drivers = near_driver ∷ (top_driver ∷ (busy_driver ∷ replicate 253 busy_driver));
  driver_count = pos 3;
  pending_rides = [];
  ride_count = pos 0;
  total_requests_handled = 0;
  total_success_requests = 0;
  total_revenue = pos 0;
  client_last_seen = replicate 2000 0;
  client_req_count = replicate 2000 (pos 0);
  dispatch_mode = pos 1;
}

fleet-IsSized : IsSized ℤ fleet
fleet-IsSized = record {
  drivers_size = refl;
  last_seen_size = refl;
  req_count_size = refl;
  count_fits = omega arith;
}

handle_ride_request_logic-Outcome_example :
    (r : SharedState ℤ × Reply ℤ) × (handle_ride_request_logic (pos 7) 41 18 fleet ≡ done r)
    × Outcome (pos 7) fleet r
    × IsSized ℤ r.0
handle_ride_request_logic-Outcome_example =
    handle_ride_request_logic-Outcome fixed-IsOrdered fixed-HasExactFares fleet fleet-IsSized
      (pos 7) 41 18

abbrev requests : List Request
requests =
    record { client_id = pos 7; rand1 = 41; rand2 = 18 }
    ∷ (record { client_id = pos 30; rand1 = 5; rand2 = 6 } ∷ [])

run_requests-Run_example :
    (s' : SharedState ℤ) × (rides : ℕ) × (run_requests requests fleet 0 ≡ done (s', rides))
    × Run (vip_flags requests) rides (ledger_of fleet) (ledger_of s')
run_requests-Run_example =
    run_requests-Run fixed-IsOrdered fixed-HasExactFares requests fleet fleet-IsSized

find_driver_smart-IsSmartChoice_example :
    (found : Option ℕ) × (find_driver_smart fleet true ≡ done found)
    × IsSmartChoice fleet true found
find_driver_smart-IsSmartChoice_example =
    find_driver_smart-IsSmartChoice fixed-IsOrdered fleet fleet-IsSized true

calculate_surge_price_lem_example :
    calculate_surge_price fleet
    ≡ done (
        if ltb (7 * 3) (10 * busy 3 fleet.drivers)
        then record { fare = 200; is_surge = true }
        else record { fare = 100; is_surge = false })
calculate_surge_price_lem_example =
    calculate_surge_price_lem fixed-HasExactRatio fleet fleet-IsSized 3 refl

complete_ride-check_example :
    (s' : SharedState ℤ) × (complete_ride_and_update_resources fleet 2 (pos 100) ≡ done s')
    × (check_if_driver_available s' 2
        ≡ done (not busy_driver.is_refueling && ltb_ℤ (pos 1) busy_driver.fuel))
    × IsSized ℤ s'
complete_ride-check_example =
    complete_ride-check fleet 2 (pos 100) {v = busy_driver} fleet-IsSized refl
