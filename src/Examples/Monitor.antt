-- ===== src/Examples/Monitor.antt =====
-- Examples for the monitor and the start of the server.
use ride_hailing_system.Prelude.{◌≡◌, arith, crash, ℤ, pos}
use ride_hailing_system.Server.Double.Fixed.{fixed}
use ride_hailing_system.Server.MapMonitor.{Rolls}
use ride_hailing_system.Server.Start.{Places, init_state}
use ride_hailing_system.Server.Start.Drivers.{init_state_crash}

abbrev pub rolls : Rolls
rolls = record { arrival = 55; consumption = 3; north = 1; east = 2 }

abbrev pub places : Places
places = record { north = 40; east = 70; stars = 11 }

init_state_crash_example : init_state {W = ℤ} (λ _. places) (pos 300) (pos 1) ≡ crash
init_state_crash_example = init_state_crash (λ _. places) (pos 300) (pos 1) (omega arith)
