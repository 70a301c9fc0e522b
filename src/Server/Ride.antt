-- ===== src/Server/Ride.antt =====
-- src/server/ride_service.c: one ride request, run under the mutex. The two values of `rand()` are
-- arguments. The reply is kept as the values that `snprintf` is given, and not as its text; the
-- fields that the code reads after it has unlocked are those that it wrote.
pub mod Assign
pub mod Fleet
pub mod Text
pub mod Ledger
use ride_hailing_system.Prelude.{
  ℕ, ◌+◌, ◌%◌, ◌^◌, Bool, true, false, if◌then◌else◌, Option, none, some, Exec, done, ◌>>=◌, read,
  set, ℤ, pos, negsuc, eqb_ℤ, leb_ℤ, ◌-ℤ◌, inc_i32, add_i64,
}
use ride_hailing_system.Server.Double.{Double}
use ride_hailing_system.Server.State.{Driver, SharedState}
use ride_hailing_system.Server.Dispatch.{pickup_distance, find_driver_basic, find_driver_smart}

-- "Ride Confirmed! ..." with its values, or "Error: No drivers available.".
pub data Reply (W : Type 0) : Type 0 where
  confirmed : ℕ → W → W → Bool → Reply W
  no_drivers : Reply W

-- The result of the function: 0 or -1.
abbrev pub result_of : {W : Type 0} → Reply W → ℤ
result_of (confirmed _ _ _ _) = pos 0
result_of no_drivers = negsuc 0

abbrev pub is_vip_client : ℤ → Bool
is_vip_client client_id = leb_ℤ client_id (pos 10)

-- `(long)fare`: 100.0, and 50.0 more for a VIP.
abbrev pub fare_of : (W : Type 0) ⦃d : Double W⦄ → Bool → ℤ
fare_of W ⦃d⦄ is_vip = d.to_int (d.add (d.lit 1000 1) (if is_vip then d.lit 500 1 else d.lit 0 1))

module _ {W : Type 0} ⦃d : Double W⦄ where
  open d use {lit, add, mul, of_int}

  -- The driver with its ride: busy, one ride more, one unit of fuel less, and on its way.
  pub take_ride : ℕ → ℕ → Driver W → Driver W
  take_ride rand1 rand2 v = record v {
    is_available = false;
    rides_count = inc_i32 v.rides_count;
    fuel = v.fuel -ℤ pos 1;
    has_target = true;
    target_lat = add (lit 250330 4) (mul (of_int (pos (rand1 % 90))) (lit 1 4));
    target_lon = add (lit 1215654 4) (mul (of_int (pos (rand2 % 180))) (lit 1 4));
  }

  -- The writes on the driver at `best_driver_index`, and on the totals; and the reply.
  abbrev pub assign : Bool → ℕ → ℕ → SharedState W → ℕ → Driver W → SharedState W × Reply W
  assign is_vip rand1 rand2 state best_driver_index v =
      let v' = take_ride rand1 rand2 v in
      (
        record state {
          drivers = set state.drivers best_driver_index v';
          total_requests_handled = (state.total_requests_handled + 1) % 2 ^ 64;
          total_success_requests = (state.total_success_requests + 1) % 2 ^ 64;
          total_revenue = add_i64 state.total_revenue (fare_of W is_vip);
        },
        confirmed v'.driver_id v'.rating (pickup_distance v') (eqb_ℤ state.dispatch_mode (pos 1)),
      )

  -- The branch on the driver that was found.
  pub serve : Bool → ℕ → ℕ → SharedState W → Option ℕ → Exec (SharedState W × Reply W)
  serve is_vip rand1 rand2 state none = done (state, no_drivers)
  serve is_vip rand1 rand2 state (some best_driver_index) = do
    v ← read state.drivers best_driver_index
    done (assign is_vip rand1 rand2 state best_driver_index v)

  -- The choice of the search by the dispatch mode.
  pub find_driver : Bool → SharedState W → Exec (Option ℕ)
  find_driver is_vip state =
      if eqb_ℤ state.dispatch_mode (pos 0)
      then find_driver_basic state
      else find_driver_smart state is_vip

  pub handle_ride_request_logic : ℤ → ℕ → ℕ → SharedState W → Exec (SharedState W × Reply W)
  handle_ride_request_logic client_id rand1 rand2 state = do
    best_driver_index ← find_driver (is_vip_client client_id) state
    serve (is_vip_client client_id) rand1 rand2 state best_driver_index
