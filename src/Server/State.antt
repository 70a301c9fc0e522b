-- ===== src/Server/State.antt =====
-- The structures of src/common/include/shared_data.h. The flags are 0 or 1 wherever the program
-- writes them, and are read as truth values. The mutex is left out: each critical section is one
-- function on the state. The two arrays of rides, which no code uses, are kept.
use ride_hailing_system.Prelude.{ℕ, ◌≤◌, ◌≡◌, Bool, List, ℤ, pos_part, length}

abbrev pub max_drivers : ℕ
max_drivers = 256

abbrev pub max_pending_rides : ℕ
max_pending_rides = 128

abbrev pub max_clients : ℕ
max_clients = 2000

module _ (W : Type 0) where
  pub record Driver : Type 0 where
    pub driver_id : ℕ
    pub lat : W
    pub lon : W
    pub is_available : Bool
    pub rides_count : ℤ
    pub fuel : ℤ
    pub is_refueling : Bool
    pub rating : W
    pub has_target : Bool
    pub target_lat : W
    pub target_lon : W

  pub record Ride : Type 0 where
    pub ride_id : ℕ
    pub client_id : ℕ
    pub start_lat : W
    pub start_lon : W
    pub status : ℕ

  pub record SharedState : Type 0 where
    pub drivers : List Driver
    pub driver_count : ℤ
    pub pending_rides : List Ride
    pub ride_count : ℤ
    pub total_requests_handled : ℕ
    pub total_success_requests : ℕ
    pub total_revenue : ℤ
    pub client_last_seen : List ℕ
    pub client_req_count : List ℤ
    pub dispatch_mode : ℤ

  -- The arrays have their C sizes, and the count of drivers fits its array.
  pub record IsSized (s : SharedState) : Type 0 where
    pub drivers_size : length s.drivers ≡ max_drivers
    pub last_seen_size : length s.client_last_seen ≡ max_clients
    pub req_count_size : length s.client_req_count ≡ max_clients
    pub count_fits : pos_part s.driver_count ≤ max_drivers
