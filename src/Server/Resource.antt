-- ===== src/Server/Resource.antt =====
-- The driver functions of src/server/resource_service.c. (No other code calls them.)
pub mod Laws
use ride_hailing_system.Prelude.{
  ℕ, Bool, true, false, if◌then◌else◌, List, Exec, done, ◌>>=◌, read, set, ℤ, pos, ltb_ℤ, leb_ℤ,
  ◌-ℤ◌, inc_i32, add_i64,
}
use ride_hailing_system.Server.State.{Driver, SharedState}

module _ {W : Type 0} where
  pub check_if_driver_available : SharedState W → ℕ → Exec Bool
  check_if_driver_available state driver_index = do
    v ← read state.drivers driver_index
    done (if v.is_refueling then false else (if leb_ℤ v.fuel (pos 0) then false else true))

  pub complete_ride_and_update_resources : SharedState W → ℕ → ℤ → Exec (SharedState W)
  complete_ride_and_update_resources state driver_index fare = do
    v ← read state.drivers driver_index
    let v' = record v {
      is_available = true;
      rides_count = inc_i32 v.rides_count;
      fuel = if ltb_ℤ (pos 0) v.fuel then v.fuel -ℤ pos 1 else v.fuel;
    }
    done (record state {
      drivers = set state.drivers driver_index v';
      total_revenue = add_i64 state.total_revenue fare;
    })
