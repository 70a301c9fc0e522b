-- ===== src/Server/Dump/Counts.antt =====
-- The counts of the report (src/dump_dat.c) against the drivers in use.
use ride_hailing_system.Prelude.{
  ℕ, Bool, not, ◌&&◌, ◌+◌, ◌≡◌, List, take, total_of, if◌then◌else◌, pos_part,
}
use ride_hailing_system.Server.State.{Driver, SharedState}
use ride_hailing_system.Server.Dump.{Status, refueling, available, busy, Summary, Report}

abbrev pub one_if : Status → Status → ℕ
one_if refueling refueling = 1
one_if available available = 1
one_if busy busy = 1
one_if refueling available = 0
one_if refueling busy = 0
one_if available refueling = 0
one_if available busy = 0
one_if busy refueling = 0
one_if busy available = 0

module _ {W : Type 0} where
  -- Whether the two flags of a driver give it a status: it is refuelling, it is available and not
  -- refuelling, or it is neither.
  abbrev pub has_status : Status → Driver W → Bool
  has_status refueling v = v.is_refueling
  has_status available v = not v.is_refueling && v.is_available
  has_status busy v = not v.is_refueling && not v.is_available

  -- The drivers of a status.
  abbrev pub number_of : Status → List (Driver W) → ℕ
  number_of status drivers = total_of (λ v. if has_status status v then 1 else 0) drivers

  -- `r'` counts `drivers` in addition to what `r` has counted.
  record IsCounted (drivers : List (Driver W)) (r r' : Summary) : Type 0 where
    free : r'.available_drivers ≡ r.available_drivers + number_of available drivers
    filling : r'.refueling_drivers ≡ r.refueling_drivers + number_of refueling drivers
    away : r'.busy_drivers ≡ r.busy_drivers + number_of busy drivers

  -- What the report says of the state: each count is that of the drivers in use with the status, and
  -- together they are all drivers in use.
  pub record IsReported (s : SharedState W) (r : Report) : Type 0 where
    pub free :
        r.summary.available_drivers ≡ number_of available (take (pos_part s.driver_count) s.drivers)
    pub filling :
        r.summary.refueling_drivers ≡ number_of refueling (take (pos_part s.driver_count) s.drivers)
    pub away : r.summary.busy_drivers ≡ number_of busy (take (pos_part s.driver_count) s.drivers)
    pub everyone :
        r.summary.available_drivers + r.summary.refueling_drivers + r.summary.busy_drivers
        ≡ pos_part s.driver_count
    pub deals : r.total_success_requests ≡ s.total_success_requests
    pub earned : r.total_revenue ≡ s.total_revenue
