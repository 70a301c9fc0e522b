-- ===== src/Server/Dump.antt =====
-- src/dump_dat.c: the report on a saved state. What is printed is a record.
pub mod Counts
use ride_hailing_system.Prelude.{
  ℕ, zero, suc, ◌+◌, Bool, true, false, ltb, ltb_ℤ, if◌then◌else◌, Option, none, some, List, [],
  ◌∷◌, ◌++◌, Exec, done, ◌>>=◌, read, ℤ, pos, ◌-ℤ◌, rounds,
}
use ride_hailing_system.Server.State.{Driver, SharedState}
use ride_hailing_system.Server.Ipc.{DataFile, missing, short, complete}

pub data Status : Type 0 where
  refueling available busy : Status

-- A line of the list of drivers.
pub record Detail : Type 0 where
  pub place : ℕ
  pub driver_id : ℕ
  pub status : Status
  pub rides_count : ℤ
  pub fuel : ℤ

-- The variables of the loop, with the lines that it has printed. Each count is at most 256.
pub record Summary : Type 0 where
  pub available_drivers : ℕ
  pub refueling_drivers : ℕ
  pub busy_drivers : ℕ
  pub details : List Detail

pub record Report : Type 0 where
  pub total_requests_handled : ℕ
  pub total_success_requests : ℕ
  pub total_revenue : ℤ
  pub driver_count : ℤ
  pub hidden : Option ℤ
  pub summary : Summary

abbrev pub count_status : Status → Summary → Summary
count_status refueling r = record r { refueling_drivers = r.refueling_drivers + 1 }
count_status available r = record r { available_drivers = r.available_drivers + 1 }
count_status busy r = record r { busy_drivers = r.busy_drivers + 1 }

module _ {W : Type 0} where
  pub status_of : Driver W → Status
  status_of v = if v.is_refueling then refueling else (if v.is_available then available else busy)

  abbrev pub detail_of : ℕ → Driver W → Detail
  detail_of i v = record {
    place = i;
    driver_id = v.driver_id;
    status = status_of v;
    rides_count = v.rides_count;
    fuel = v.fuel;
  }

  -- One round of the loop: the first five drivers are listed.
  pub count_driver : ℕ → Driver W → Summary → Summary
  count_driver i v r =
      let counted = count_status (status_of v) r in
      if ltb i 5
      then record counted { details = counted.details ++ (detail_of i v ∷ []) }
      else counted

  pub summarize : ℕ → ℕ → List (Driver W) → Summary → Exec Summary
  summarize zero i drivers r = done r
  summarize (suc left) i drivers r =
      read drivers i >>= λ v. summarize left (i + 1) drivers (count_driver i v r)

  pub report : SharedState W → Exec Report
  report state = do
    let start : Summary = record {
      available_drivers = 0;
      refueling_drivers = 0;
      busy_drivers = 0;
      details = [];
    }
    summary ← summarize (rounds state.driver_count) 0 state.drivers start
    done (record {
      total_requests_handled = state.total_requests_handled;
      total_success_requests = state.total_success_requests;
      total_revenue = state.total_revenue;
      driver_count = state.driver_count;
      hidden =
          if ltb_ℤ (pos 5) state.driver_count then some (state.driver_count -ℤ pos 5) else none;
      summary = summary;
    })

  -- Without a complete file there is an error and no report.
  pub dump : DataFile W → Exec (Option Report)
  dump missing = done none
  dump (short rest) = done none
  dump (complete state) = report state >>= λ r. done (some r)
