-- ===== src/Server/Main/Lifecycle.antt =====
-- The server from its command line (src/server/server_main.c) over its workers and the monitor to
-- the signal that ends it (src/server/coordinator.c), and the start of the insecure server
-- (src/server/insecure_server.c) from the file that it leaves.
use ride_hailing_system.Prelude.{
  ℕ, Bool, ◌≤◌, ◌<◌, ◌≡◌, refl, arith, true, false, ltb, Option, some, List, map, All, done, ℤ, pos,
  pos_part,
}
use ride_hailing_system.Common.Rc4.Keystream.{IsByte}
use ride_hailing_system.Common.Socket.{ServerAnswers, create_server_socket}
use ride_hailing_system.Server.Double.{Double, IsOrdered, HasExactFares}
use ride_hailing_system.Server.State.{SharedState, max_drivers}
use ride_hailing_system.Server.Ride.{Reply}
use ride_hailing_system.Server.Pathfinding.{Grid}
use ride_hailing_system.Server.Pathfinding.Grid.{IsGrid}
use ride_hailing_system.Server.Start.{Places, zero_state}
use ride_hailing_system.Server.Dispatcher.{Accepted}
use ride_hailing_system.Server.Dispatcher.Loop.{IsAccepted}
use ride_hailing_system.Server.Ipc.{DataFile, SaveResult, saved, make_available}
use ride_hailing_system.Server.Ipc.Restart.{change_first, ipc_init_restart}
use ride_hailing_system.Server.System.{System, Turn, start_worker, run_turns}
use ride_hailing_system.Server.System.Memory.{IsRunning}
use ride_hailing_system.Server.System.Begin.{init_state-IsRunning}
use ride_hailing_system.Server.System.Turns.{run_turns-AreHealthy}
use ride_hailing_system.Server.System.Schedule.{sections_of, start-AreHealthy}
use ride_hailing_system.Server.Processes.{
  worker_count, Waited, watches, wait_for_workers, start_coordinator_process, to_kill,
  handle_sigint,
}
use ride_hailing_system.Server.Processes.Signals.{pids, is_pid, start_coordinator_process-watches}
use ride_hailing_system.Server.Main.{Answers, serving, mode_of, main, insecure_main}

-- All calls for the memory and the socket succeed.
pub record IsUp (answers : Answers) (port : ℤ) (fds : List ℕ) (server_fd : ℕ) : Type 0 where
  pub opened : answers.shm_open ≡ true
  pub sized : answers.ftruncate ≡ true
  pub mapped : answers.mmap ≡ true
  pub listens : (create_server_socket answers.socket port fds).0 ≡ some server_fd

module _ {W : Type 0} ⦃d : Double W⦄ where
  main-IsRunning :
      (argc : ℕ) (argv : ℕ → ℤ) (places : ℕ → Places) (answers : Answers) (saving : SaveResult W)
      (file : DataFile W) (fds : List ℕ) (server_fd n : ℕ)
      → 3 ≤ argc
      → argv 2 ≡ pos n
      → n ≤ max_drivers
      → IsUp answers (argv 1) fds server_fd
      → (memory : SharedState W) × (main argc argv places answers saving file fds
          ≡ done (serving memory server_fd))
        × IsRunning memory
  unfolding main
  main-IsRunning argc argv places answers saving file fds server_fd n enough count room up =
      let (memory, e, running) = init_state-IsRunning places n (mode_of argc (argv 3)) room in
      let given : ltb argc 3 ≡ false = ground arith in
      (memory, rw (given, up.opened, up.sized, up.mapped, count, e, up.listens) refl, running)

  -- The state with its drivers in use made available.
  abbrev pub reopened : SharedState W → SharedState W
  reopened s = record s {
    drivers = change_first make_available (pos_part s.driver_count) 0 s.drivers;
  }

  insecure_main_restart :
      (argv : ℕ → ℤ) (socket : ServerAnswers) (s : SharedState W) (workers waits : List ℤ)
      (file : DataFile W) (fds : List ℕ) (server_fd : ℕ)
      → (create_server_socket socket (argv 1) fds).0 ≡ some server_fd
      → IsRunning s
      → insecure_main 3 argv socket (handle_sigint workers waits saved (some s) file).file fds
        ≡ done (serving (reopened s) server_fd)
  unfolding insecure_main handle_sigint
  insecure_main_restart argv socket s workers waits file fds server_fd listens running =
      rw (listens, ipc_init_restart (argv 2) s zero_state file running.well.sized) refl

  sigint_kills :
      (forks : ℕ → ℤ) (workers waits : List ℤ) (memory : Option (SharedState W)) (file : DataFile W)
      → to_kill workers ≡ pids forks worker_count 0
      → (handle_sigint workers waits saved memory file).killed ≡ pids forks worker_count 0
  unfolding handle_sigint
  sigint_kills forks workers waits memory file e = e

module _ {W : Type 0} ⦃d : Double W⦄ (o : IsOrdered W) (exact : HasExactFares W)
    (text : Reply W → List ℕ) (bytes : (reply : Reply W) → All IsByte (text reply))
    (grid_map : Grid) (fits : IsGrid grid_map) where
  -- With at least two arguments, at most 256 drivers asked for, a shared memory and a socket that
  -- the system gives, forks that succeed, and the conditions on the grid, the double and the
  -- replies: main starts the server, its parent watches all its workers, and these and the monitor
  -- run in any order without a crash inside a critical section, to a well-formed memory. A signal
  -- SIGINT then kills exactly the forked workers; and if the memory is saved and the insecure
  -- server gets a socket, that server starts from this file with the memory as it was, its drivers
  -- in use made available.
  pub main-insecure_main :
      (argc : ℕ) (argv argv' : ℕ → ℤ) (places : ℕ → Places) (answers : Answers)
      (socket : ServerAnswers) (saving : SaveResult W) (file : DataFile W) (fds fds' : List ℕ)
      (server_fd server_fd' n : ℕ) (forks : ℕ → ℤ) (monitor : Bool) (calls : List Waited)
      (waits : List ℤ) (jobs : List (List (Option Accepted))) (turns : List Turn)
      → 3 ≤ argc
      → argv 2 ≡ pos n
      → n ≤ max_drivers
      → IsUp answers (argv 1) fds server_fd
      → (create_server_socket socket (argv' 1) fds').0 ≡ some server_fd'
      → ((j : ℕ) → j < worker_count → is_pid (forks j) ≡ true)
      → All (All IsAccepted) jobs
      → (memory : SharedState W) × (workers : List ℤ) × (system : System W) × (main argc argv places
            answers saving file fds
          ≡ done (serving memory server_fd))
        × (start_coordinator_process forks monitor calls
            ≡ watches workers monitor (wait_for_workers calls))
        × (run_turns grid_map turns
              (record { memory = memory; workers = map (start_worker text) jobs })
            ≡ done system)
        × IsRunning system.memory
        × ((handle_sigint workers waits saved (some system.memory) file).killed
            ≡ pids forks worker_count 0)
        × (insecure_main 3 argv' socket
              (handle_sigint workers waits saved (some system.memory) file).file
              fds'
            ≡ done (serving (reopened system.memory) server_fd'))
  main-insecure_main argc argv argv' places answers socket saving file fds fds' server_fd server_fd'
        n forks monitor calls waits jobs turns enough count room up listens forked all =
      let (memory, started, running) =
        main-IsRunning argc argv places answers saving file fds server_fd n enough count room up in
      let (workers, launched, kills) =
        start_coordinator_process-watches forks monitor calls forked in
      let (system, ran, running', _, _) =
        run_turns-AreHealthy o exact grid_map fits turns
          (record { memory = memory; workers = map (start_worker text) jobs }) (sections_of jobs)
          running (start-AreHealthy text bytes memory jobs running all) in
      (
        memory,
        workers,
        system,
        started,
        launched,
        ran,
        running',
        sigint_kills forks workers waits (some system.memory) file kills,
        insecure_main_restart argv' socket system.memory workers waits file fds' server_fd' listens
            running',
      )
