-- ===== src/Examples/Screen.antt =====
-- Examples for what the monitor prints.
use ride_hailing_system.Prelude.{
  ◌≡◌, refl, arith, true, false, set, replicate, All-get_elem?, All-replicate, length-replicate,
  done, ℤ, pos,
}
use ride_hailing_system.Server.Double.Fixed.{fixed}
use ride_hailing_system.Server.State.{Driver, SharedState, IsSized}
use ride_hailing_system.Server.MapMonitor.Modes.{IsSound}
use ride_hailing_system.Server.MapMonitor.Events.{IsWell}
use ride_hailing_system.Server.Pathfinding.{zero_grid}
use ride_hailing_system.Server.Pathfinding.Grid.{zero_grid-IsGrid}
use ride_hailing_system.Server.Pathfinding.Obstacles.{obstacle_map}
use ride_hailing_system.Server.MapMonitor.{tick}
use ride_hailing_system.Server.System.Memory.{IsSpare, IsRunning}
use ride_hailing_system.Server.Screen.{Screen, Reads, monitor_round}
use ride_hailing_system.Server.Screen.Round.{IsScreen, monitor_round-IsScreen}
use ride_hailing_system.Examples.Monitor.{rolls}
use ride_hailing_system.Examples.Dispatcher.{empty_state}

-- A free driver with 7 units of fuel.
abbrev driver : Driver ℤ
driver = record {
  driver_id = 1001;
  lat = pos 0;
  lon = pos 0;
  is_available = true;
  rides_count = pos 1;
  fuel = pos 7;
  is_refueling = false;
  rating = pos 0;
  has_target = false;
  target_lat = pos 3;
  target_lon = pos 4;
}

-- Twelve drivers in use, of whom the table has room for ten.
abbrev twelve : SharedState ℤ
twelve = record empty_state { drivers = replicate 256 driver; driver_count = pos 12 }

driver-IsSound : IsSound driver
driver-IsSound = record { mode = refl; tank = refl }

twelve-IsWell : IsWell twelve
twelve-IsWell = record {
  sized = record {
    drivers_size = length-replicate 256 driver;
    last_seen_size = refl;
    req_count_size = refl;
    count_fits = omega arith;
  };
  sound = λ j v less e.
      All-get_elem? IsSound (replicate 256 driver) j
        (All-replicate IsSound 256 driver driver-IsSound) e;
}

twelve-IsRunning : IsRunning twelve
twelve-IsRunning = record {
  well = twelve-IsWell;
  drivers = 12;
  count = refl;
  spare = λ j v beyond e.
      All-get_elem? IsSpare (replicate 256 driver) j (All-replicate IsSpare 256 driver (refl, refl))
        e;
}

-- After the unlock a worker has taken the first driver, and one more ride is counted.
abbrev taken : SharedState ℤ
taken = record twelve {
  drivers = set twelve.drivers 0 (record driver { is_available = false; has_target = true });
  total_success_requests = 1;
}

abbrev later : Reads ℤ
later = record { for_map = twelve; for_title = taken; for_table = taken }

taken-IsSized : IsSized ℤ taken
taken-IsSized = record {
  drivers_size = refl;
  last_seen_size = refl;
  req_count_size = refl;
  count_fits = omega arith;
}

monitor_round-IsScreen_example :
    (s' : SharedState ℤ) × (screen : Screen ℤ) × (monitor_round obstacle_map
        (λ _. rolls)
        twelve
        later
        zero_grid
      ≡ done (s', screen))
    × (tick obstacle_map (λ _. rolls) twelve ≡ done s')
    × IsRunning s'
    × IsScreen later 12 zero_grid screen
monitor_round-IsScreen_example =
    monitor_round-IsScreen (λ _. rolls) twelve later 12 zero_grid twelve-IsRunning
      twelve-IsWell.sized taken-IsSized refl zero_grid-IsGrid
