-- ===== src/Examples/System.antt =====
-- Examples for the processes of the server and for their start and end.
use ride_hailing_system.Prelude.{
  false, ℕ, zero, suc, ◌+◌, ◌<◌, ◌≡◌, refl, arith, true, Option, some, List, [], ◌∷◌, map,
  replicate, get_elem?, All, All-replicate, done, ◌>>=◌, ℤ, pos, negsuc,
}
use ride_hailing_system.Common.Rc4.Keystream.{IsByte}
use ride_hailing_system.Common.Socket.{ServerAnswers, create_server_socket, server_socket, set_up}
use ride_hailing_system.Server.Double.Fixed.{fixed, fixed-IsOrdered, fixed-HasExactFares}
use ride_hailing_system.Server.State.{SharedState}
use ride_hailing_system.Server.Pathfinding.Obstacles.{obstacle_map, obstacle_map-IsGrid}
use ride_hailing_system.Server.Dispatcher.{Accepted}
use ride_hailing_system.Server.Dispatcher.Loop.{IsAccepted}
use ride_hailing_system.Server.Ipc.{missing, saved}
use ride_hailing_system.Server.System.{
  Worker, System, Turn, worker_turn, monitor_turn, run_turns, start_worker, start_system,
}
use ride_hailing_system.Server.System.Memory.{IsRunning}
use ride_hailing_system.Server.System.Schedule.{
  IsJudged, HasStopped, run_turns-IsJudged, run_turns-HasStopped,
}
use ride_hailing_system.Server.Processes.{
  worker_count, watches, wait_for_workers, start_coordinator_process, handle_sigint,
}
use ride_hailing_system.Server.Processes.Signals.{pids, is_pid}
use ride_hailing_system.Server.Main.{Answers, serving, main, insecure_main}
use ride_hailing_system.Server.Main.Lifecycle.{reopened, main-insecure_main}
use ride_hailing_system.Examples.Host.{ok_text, accepted_clients, accepted_clients-IsAccepted}
use ride_hailing_system.Examples.Monitor.{rolls, places}

-- Driver 9 joins.
abbrev joining : Accepted
joining = record {
  arrivals =
      record {
        header = record { body_length = 4; type = 9; opcode = 2; checksum = 0 };
        bytes = 9 ∷ replicate 3 0;
        now = 1700;
        key_rand = 5;
        rand1 = 41;
        rand2 = 18;
      }
      ∷ [];
  body = replicate 1024 0;
  closed = false;
}

-- The connections of two workers.
abbrev jobs : List (List (Option Accepted))
jobs = accepted_clients ∷ ((some joining ∷ []) ∷ [])

jobs-IsAccepted : All (All IsAccepted) jobs
jobs-IsAccepted = (
  accepted_clients-IsAccepted,
  (((refl, All-replicate IsByte 1024 0 (omega arith), (omega arith, tt)), tt), tt),
)

-- The two workers and the monitor in turn.
abbrev turns : List Turn
turns =
    worker_turn 1
    ∷ worker_turn 0
    ∷ monitor_turn (λ _. rolls)
    ∷ worker_turn 0
    ∷ worker_turn 1
    ∷ worker_turn 0
    ∷ monitor_turn (λ _. rolls)
    ∷ worker_turn 0
    ∷ []

run_turns-IsJudged_example :
    (system : System ℤ) × ((start_system ok_text (λ _. places) (pos 3) (pos 1) jobs
        >>= run_turns obstacle_map turns)
      ≡ done system)
    × IsRunning system.memory
    × All IsJudged system.workers
run_turns-IsJudged_example =
    run_turns-IsJudged fixed-IsOrdered fixed-HasExactFares ok_text (λ reply. omega arith)
      obstacle_map obstacle_map-IsGrid (λ _. places) 3 (pos 1) jobs turns (omega arith)
      jobs-IsAccepted

run_turns-HasStopped_example :
    (system : System ℤ) × (w : Worker ℤ) × ((start_system ok_text (λ _. places) (pos 3) (pos 1) jobs
        >>= run_turns obstacle_map turns)
      ≡ done system)
    × (get_elem? system.workers 0 ≡ some w)
    × HasStopped w
run_turns-HasStopped_example =
    run_turns-HasStopped fixed-IsOrdered fixed-HasExactFares ok_text (λ reply. omega arith)
      obstacle_map obstacle_map-IsGrid (λ _. places) 3 (pos 1) jobs turns 0 (omega arith)
      jobs-IsAccepted (omega arith) (omega arith)

-- Each `fork` succeeds; and the third one fails.
abbrev all_forks : ℕ → ℤ
all_forks i = pos (i + 500)

abbrev two_forks : ℕ → ℤ
two_forks zero = pos 500
two_forks (suc zero) = pos 501
two_forks (suc (suc i)) = negsuc 0

-- `server 8080 3`.
abbrev argv : ℕ → ℤ
argv zero = pos 0
argv (suc zero) = pos 8080
argv (suc (suc i)) = pos 3

abbrev good_socket : ServerAnswers
good_socket = record { socket = some 4; setsockopt = true; bind = λ _. true; listen = true }

abbrev good_answers : Answers
good_answers = record { shm_open = true; ftruncate = true; mmap = true; socket = good_socket }

socket_listens : (create_server_socket good_socket (pos 8080) []).0 ≡ some 4
unfolding create_server_socket server_socket set_up
socket_listens = refl

all_forks-pid : (j : ℕ) → j < worker_count → is_pid (all_forks j) ≡ true
all_forks-pid j h = ground arith

main-insecure_main_example :
    (memory : SharedState ℤ) × (workers : List ℤ) × (system : System ℤ) × (main 3 argv
        (λ _. places)
        good_answers
        saved
        missing
        []
      ≡ done (serving memory 4))
    × (start_coordinator_process all_forks true [] ≡ watches workers true (wait_for_workers []))
    × (run_turns obstacle_map turns
          (record { memory = memory; workers = map (start_worker ok_text) jobs })
        ≡ done system)
    × IsRunning system.memory
    × ((handle_sigint workers [] saved (some system.memory) missing).killed
        ≡ pids all_forks worker_count 0)
    × (insecure_main 3 argv good_socket
          (handle_sigint workers [] saved (some system.memory) missing).file
          []
        ≡ done (serving (reopened system.memory) 4))
main-insecure_main_example =
    main-insecure_main fixed-IsOrdered fixed-HasExactFares ok_text (λ reply. omega arith)
      obstacle_map obstacle_map-IsGrid 3 argv argv (λ _. places) good_answers good_socket saved
      missing [] [] 4 4 3 all_forks true [] [] jobs turns (omega arith) refl (omega arith)
      (record { opened = refl; sized = refl; mapped = refl; listens = socket_listens })
      socket_listens all_forks-pid jobs-IsAccepted
