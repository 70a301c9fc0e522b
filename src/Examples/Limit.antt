-- ===== src/Examples/Limit.antt =====
-- An example for the limiter in a run of the server.
use Prim.Native.Nat.{min}
use ride_hailing_system.Prelude.{
  ◌+ℤ◌, ℕ, ◌≡◌, refl, arith, List, [], ◌∷◌, All, All-replicate, All-get_elem?, done, ℤ, pos, false,
  true, inr,
}
use ride_hailing_system.Server.Double.Fixed.{fixed, fixed-IsOrdered, fixed-HasExactFares}
use ride_hailing_system.Server.State.{Driver}
use ride_hailing_system.Server.RateLimit.{check_and_update_rate_limit, count_request, tally}
use ride_hailing_system.Server.MapMonitor.{tick, tick_drivers}
use ride_hailing_system.Server.Pathfinding.Obstacles.{obstacle_map, obstacle_map-IsGrid}
use ride_hailing_system.Server.System.{
  ended, failed, limit_call, Worker, System, Turn, worker_turn, monitor_turn, step_worker, run_turn,
  run_turns,
}
use ride_hailing_system.Server.System.Memory.{IsSpare, AreSpare, IsRunning}
use ride_hailing_system.Server.System.Turns.{IsHealthy, AreHealthy}
use ride_hailing_system.Server.System.Limit.{LimitCall, calls_by, passed_by, limit_log}
use ride_hailing_system.Server.System.Window.{IsAtSecond, passed_by-limit_log}
use ride_hailing_system.Examples.Dispatcher.{empty_state, empty_state-IsSized}
use ride_hailing_system.Examples.Monitor.{rolls}

-- A worker that is about to ask the limiter for a client, in the second 1700, and crashes if the
-- client is blocked.
abbrev asks : ℕ → Worker ℤ
asks client = record {
  program =
      limit_call (pos client) 1700 (λ blocked. elim blocked [ true ↦ failed | false ↦ ended tt ]);
  blocked = false;
}

-- Client 7 calls four times within the second 1700, and client 30 once.
abbrev five_workers : List (Worker ℤ)
five_workers = asks 7 ∷ (asks 30 ∷ (asks 7 ∷ (asks 7 ∷ (asks 7 ∷ []))))

abbrev busy_server : System ℤ
busy_server = record { memory = empty_state; workers = five_workers }

abbrev no_driver : Driver ℤ
no_driver = record {
  driver_id = 0;
  lat = pos 0;
  lon = pos 0;
  is_available = false;
  rides_count = pos 0;
  fuel = pos 0;
  is_refueling = false;
  rating = pos 0;
  has_target = false;
  target_lat = pos 0;
  target_lon = pos 0;
}

empty_state-AreSpare : AreSpare empty_state.drivers 0
empty_state-AreSpare j v beyond e =
    All-get_elem? (IsSpare {W = ℤ}) empty_state.drivers j
      (All-replicate (IsSpare {W = ℤ}) 256 no_driver (refl, refl)) e

empty_state-IsRunning : IsRunning empty_state
empty_state-IsRunning = record {
  well = record { sized = empty_state-IsSized; sound = λ j v less e. absurd (omega arith) };
  drivers = 0;
  count = refl;
  spare = empty_state-AreSpare;
}

asks-IsHealthy : (client : ℕ) → IsHealthy 1 (asks client)
asks-IsHealthy client = inr (refl, (refl, tt))

busy_server-AreHealthy : AreHealthy (λ _. 1) five_workers
busy_server-AreHealthy i w e =
    All-get_elem? (IsHealthy 1) five_workers i
      (
        asks-IsHealthy 7,
        (asks-IsHealthy 30, (asks-IsHealthy 7, (asks-IsHealthy 7, (asks-IsHealthy 7, tt)))),
      )
      e

abbrev orders : List Turn
orders =
    worker_turn 4
    ∷ (worker_turn 1
        ∷ (worker_turn 0 ∷ (monitor_turn (λ _. rolls) ∷ (worker_turn 2 ∷ (worker_turn 3 ∷ [])))))

abbrev told : ℕ → LimitCall
told client = record { client_id = pos client; now = 1700; blocked = false }

abbrev expected : List LimitCall
expected = told 7 ∷ (told 30 ∷ (told 7 ∷ (told 7 ∷ (record (told 7) { blocked = true } ∷ []))))

limit_log-orders : limit_log obstacle_map orders busy_server ≡ expected
unfolding limit_log run_turn step_worker check_and_update_rate_limit count_request tally tick
    tick_drivers ◌+ℤ◌
limit_log-orders = refl

orders_at : All (IsAtSecond 1700) (limit_log obstacle_map orders busy_server)
orders_at = rw limit_log-orders (refl, (refl, (refl, (refl, (refl, tt)))))

passed_by-limit_log_example :
    (system' : System ℤ) × (run_turns obstacle_map orders busy_server ≡ done system')
    × (passed_by 7 (limit_log obstacle_map orders busy_server)
        ≡ min 3 (calls_by 7 (limit_log obstacle_map orders busy_server)))
passed_by-limit_log_example =
    passed_by-limit_log fixed-IsOrdered fixed-HasExactFares 7 1700 (omega arith) (omega arith)
      obstacle_map obstacle_map-IsGrid orders busy_server (λ _. 1) 0 empty_state-IsRunning
      busy_server-AreHealthy refl (omega arith) (omega arith) orders_at
