-- ===== src/Examples/Host.antt =====
-- Examples for the worker, the shared memory, the map that is drawn, sockets and the log.
use ride_hailing_system.Prelude.{
  false, ℕ, ◌≡◌, refl, arith, true, Option, none, some, List, [], ◌∷◌, replicate, take, All,
  All-replicate, done, ◌>>=◌, ℤ, pos,
}
use ride_hailing_system.Common.Rc4.Keystream.{IsByte}
use ride_hailing_system.Common.Receive.{ReadResult, bytes_read, interrupted, recv_n}
use ride_hailing_system.Common.Send.{WriteResult, written, stopped, broken, send_n}
use ride_hailing_system.Common.Send.Delivery.{IsSent, send_n-IsSent, recv_n-send_n}
use ride_hailing_system.Common.Log.{
  LogState, opened, info, warn, LogCall, init, cleanup, log, run_log,
}
use ride_hailing_system.Common.Log.Lines.{messages, IsLogged, run_log-IsLogged}
use ride_hailing_system.Common.Protocol.{load}
use ride_hailing_system.Server.Double.Fixed.{fixed}
use ride_hailing_system.Server.State.{SharedState, IsSized}
use ride_hailing_system.Server.Ride.{Reply}
use ride_hailing_system.Server.Pathfinding.{cell, zero_grid}
use ride_hailing_system.Server.Pathfinding.Grid.{zero_grid-IsGrid}
use ride_hailing_system.Server.Pathfinding.Obstacles.{obstacle_map}
use ride_hailing_system.Server.MapView.{draw_map}
use ride_hailing_system.Server.MapView.Picture.{ground_at}
use ride_hailing_system.Server.MapView.Places.{shown, draw_map-shown}
use ride_hailing_system.Server.Coordinator.{process_driver_join}
use ride_hailing_system.Server.Coordinator.Join.{IsJoined, process_driver_join-IsJoined}
use ride_hailing_system.Server.Ipc.{missing, load_state, ipc_init}
use ride_hailing_system.Server.Ipc.Restart.{IsFresh, ipc_init-IsFresh}
use ride_hailing_system.Server.Dispatcher.{Arrival, Accepted}
use ride_hailing_system.Server.Dispatcher.Loop.{IsAccepted}
use ride_hailing_system.Server.InsecureDispatcher.{Connected}
use ride_hailing_system.Server.InsecureDispatcher.Steady.{survives}
use ride_hailing_system.Examples.Dispatcher.{empty_state, empty_state-IsSized}

-- Any text for a reply.
abbrev pub ok_text : Reply ℤ → List ℕ
ok_text _ = 79 ∷ (75 ∷ [])

-- A handshake with the key 7, and a ride request that is not encrypted.
abbrev hello : Arrival
hello = record {
  header = record { body_length = 8; type = 3; opcode = 4; checksum = 0 };
  bytes = 7 ∷ replicate 7 0;
  now = 1700;
  key_rand = 5;
  rand1 = 41;
  rand2 = 18;
}

abbrev plain_request : Arrival
plain_request = record {
  header = record { body_length = 4; type = 1; opcode = 1; checksum = 0 };
  bytes = 7 ∷ replicate 3 0;
  now = 1700;
  key_rand = 5;
  rand1 = 41;
  rand2 = 18;
}

abbrev pub accepted_clients : List (Option Accepted)
accepted_clients =
    none
    ∷ (some (record {
      arrivals = hello ∷ (plain_request ∷ []);
      body = replicate 1024 0;
      closed = false;
    })
        ∷ [])

pub accepted_clients-IsAccepted : All IsAccepted accepted_clients
accepted_clients-IsAccepted =
    (tt, ((refl, All-replicate IsByte 1024 0 (omega arith), (omega arith, (omega arith, tt))), tt))

abbrev partial_writes : List WriteResult
partial_writes = written 2 ∷ (stopped ∷ (written 1 ∷ []))

abbrev partial_reads : List ReadResult
partial_reads = bytes_read (5 ∷ []) ∷ (interrupted ∷ (bytes_read (6 ∷ (7 ∷ [])) ∷ []))

send_n_all : send_n partial_writes (5 ∷ (6 ∷ (7 ∷ []))) [] ≡ (true, 5 ∷ (6 ∷ (7 ∷ [])))
unfolding send_n
send_n_all = refl

recv_n-send_n_example : recv_n partial_reads 3 [] ≡ some (5 ∷ (6 ∷ (7 ∷ [])))
unfolding send_n
recv_n-send_n_example =
    recv_n-send_n partial_writes partial_reads (5 ∷ (6 ∷ (7 ∷ []))) refl
      (omega arith, (tt, (omega arith, tt))) refl

send_n-IsSent_example :
    (rest : List ℕ) × IsSent
      (5 ∷ (6 ∷ []))
      []
      rest
      (send_n (written 1 ∷ (broken ∷ [])) (5 ∷ (6 ∷ [])) [])
send_n-IsSent_example = send_n-IsSent (written 1 ∷ (broken ∷ [])) (5 ∷ (6 ∷ []))

ipc_init-IsFresh_example :
    (s : SharedState ℤ) × (ipc_init (pos 300) missing empty_state ≡ done s) × IsFresh (pos 300) s
unfolding load_state
ipc_init-IsFresh_example = ipc_init-IsFresh (pos 300) missing empty_state refl

-- One driver, at the coordinates 0.
abbrev pub one_driver : SharedState ℤ
one_driver = record empty_state { driver_count = pos 1 }

pub one_driver-IsSized : IsSized ℤ one_driver
one_driver-IsSized = record {
  drivers_size = refl;
  last_seen_size = refl;
  req_count_size = refl;
  count_fits = omega arith;
}

draw_map-shown_example :
    (draw_map obstacle_map one_driver zero_grid >>= λ m. cell m (pos 20) (pos 7))
    ≡ done (shown (take 1 one_driver.drivers) 20 7 (ground_at 20 7))
draw_map-shown_example =
    draw_map-shown one_driver zero_grid 20 7 one_driver-IsSized zero_grid-IsGrid (omega arith)
      (omega arith)

process_driver_join-IsJoined_example :
    (id : ℕ) × (s' : SharedState ℤ) × (load 4 0 (9 ∷ replicate 3 0) ≡ done id)
    × (process_driver_join (9 ∷ replicate 3 0) empty_state ≡ done s')
    × IsJoined id 0 empty_state s'
    × IsSized ℤ s'
    × (m : ℕ) × (s'.driver_count ≡ pos m)
process_driver_join-IsJoined_example =
    process_driver_join-IsJoined (9 ∷ replicate 3 0) empty_state 0 (omega arith) empty_state-IsSized
      refl

abbrev log_calls : List LogCall
log_calls = init (opened 4) ∷ (log info (79 ∷ []) ∷ (cleanup ∷ (log warn (75 ∷ []) ∷ [])))

abbrev no_log : LogState
no_log = record { log_fp = none; open_files = []; lines = [] }

run_log-IsLogged_example :
    (s' : LogState) × (run_log log_calls no_log ≡ done s') × IsLogged (messages log_calls) no_log s'
run_log-IsLogged_example = run_log-IsLogged log_calls no_log tt

-- A call of `accept` that fails, a client that waits for its answer, and one that does not.
abbrev three_clients : List (Option Connected)
three_clients =
    none
    ∷ (some (record { arrival = plain_request; body = replicate 1024 0; closed = false })
        ∷ (some (record { arrival = plain_request; body = replicate 1024 0; closed = true }) ∷ []))

last_is_deadly : survives three_clients ≡ false
last_is_deadly = refl
