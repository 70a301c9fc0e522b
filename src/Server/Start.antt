-- ===== src/Server/Start.antt =====
-- The first state of the server, from `main` of src/server/server_main.c: the memory is
-- cleared, and the first `driver_count` drivers are placed. Three values of `rand()` for each driver
-- are arguments. A driver past the array is a crash.
pub mod Drivers
use ride_hailing_system.Prelude.{
  ℕ, zero, suc, ◌+◌, ◌%◌, Bool, true, false, ltb, if◌then◌else◌, List, [], replicate, Exec, done,
  ◌>>=◌, read, set, ℤ, pos, rounds,
}
use ride_hailing_system.Server.Double.{Double}
use ride_hailing_system.Server.State.{
  Driver, Ride, SharedState, max_drivers, max_pending_rides, max_clients,
}

pub record Places : Type 0 where
  pub north : ℕ
  pub east : ℕ
  pub stars : ℕ

module _ {W : Type 0} ⦃d : Double W⦄ where
  open d use {lit, add, mul, div, of_int}

  -- The bytes of a structure after `memset(..., 0, ...)`.
  unfoldable pub zero_driver : Driver W
  zero_driver = record {
    driver_id = 0;
    lat = lit 0 1;
    lon = lit 0 1;
    is_available = false;
    rides_count = pos 0;
    fuel = pos 0;
    is_refueling = false;
    rating = lit 0 1;
    has_target = false;
    target_lat = lit 0 1;
    target_lon = lit 0 1;
  }

  unfoldable pub zero_ride : Ride W
  zero_ride = record {
    ride_id = 0;
    client_id = 0;
    start_lat = lit 0 1;
    start_lon = lit 0 1;
    status = 0;
  }

  unfoldable pub zero_state : SharedState W
  zero_state = record {
    drivers = replicate max_drivers zero_driver;
    driver_count = pos 0;
    pending_rides = replicate max_pending_rides zero_ride;
    ride_count = pos 0;
    total_requests_handled = 0;
    total_success_requests = 0;
    total_revenue = pos 0;
    client_last_seen = replicate max_clients 0;
    client_req_count = replicate max_clients (pos 0);
    dispatch_mode = pos 0;
  }

  -- The first two drivers are the best.
  pub first_rating : ℕ → ℕ → W
  first_rating i stars =
      if ltb i 2
      then add (lit 49 1) (div (of_int (pos (stars % 2))) (lit 100 1))
      else add (lit 35 1) (div (of_int (pos (stars % 15))) (lit 100 1))

  pub place_driver : ℕ → Places → Driver W → Driver W
  place_driver i places v = record v {
    driver_id = 1000 + i + 1;
    is_available = true;
    lat = add (lit 250330 4) (mul (of_int (pos (places.north % 100))) (lit 1 4));
    lon = add (lit 1215654 4) (mul (of_int (pos (places.east % 100))) (lit 1 4));
    fuel = pos 10;
    is_refueling = false;
    has_target = false;
    target_lat = lit 0 1;
    target_lon = lit 0 1;
    rating = first_rating i places.stars;
  }

  unfoldable pub place_drivers : (ℕ → Places) → ℕ → ℕ → List (Driver W) → Exec (List (Driver W))
  place_drivers places zero i drivers = done drivers
  place_drivers places (suc left) i drivers = do
    v ← read drivers i
    place_drivers places left (i + 1) (set drivers i (place_driver i (places i) v))

  unfoldable pub init_state : (ℕ → Places) → ℤ → ℤ → Exec (SharedState W)
  init_state places driver_count mode = do
    drivers ← place_drivers places (rounds driver_count) 0 zero_state.drivers
    done
        (record zero_state { drivers = drivers; driver_count = driver_count; dispatch_mode = mode })
