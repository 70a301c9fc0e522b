-- ===== src/Server/Processes.antt =====
-- The processes of the server: `start_coordinator_process`, `start_coordinator_process_insecure` and
-- `handle_sigint` of src/server/coordinator.c, in the parent. What `fork` and `wait` return is an
-- argument; the two start functions differ in what a child runs.
pub mod Signals
use ride_hailing_system.Prelude.{
  ℕ, zero, suc, ◌+◌, Bool, true, false, not, ◌&&◌, ◌||◌, if◌then◌else◌, Option, none, some, List,
  [], ◌∷◌, set, replicate, ℤ, pos, ltb_ℤ, leb_ℤ, eqb_ℤ,
}
use ride_hailing_system.Server.State.{SharedState}
use ride_hailing_system.Server.Ipc.{DataFile, SaveResult, save_state}

abbrev pub worker_count : ℕ
worker_count = 100

-- The array `workers`, which is static, before the first `fork`.
abbrev pub no_workers : List ℤ
no_workers = replicate worker_count (pos 0)

-- How the loop of forks ends: `exit(EXIT_FAILURE)` after a `fork` that failed; in a child, which
-- serves connections; or in the parent, with all its workers.
pub data Launch : Type 0 where
  fork_failed : List ℤ → Launch
  child : ℕ → Launch
  parent : List ℤ → Launch

unfoldable pub fork_workers : (ℕ → ℤ) → ℕ → ℕ → List ℤ → Launch
fork_workers forks zero i workers = parent workers
fork_workers forks (suc left) i workers =
    let pid = forks i in
    let rest = fork_workers forks left (i + 1) (set workers i pid) in
    if ltb_ℤ pid (pos 0) then fork_failed workers else (if eqb_ℤ pid (pos 0) then child i else rest)

-- What a call of `wait` in the parent gives, whether `errno` is ECHILD, and `g_running` after it.
pub record Waited : Type 0 where
  pub result : ℤ
  pub is_echild : Bool
  pub g_running : Bool

-- The loop of the parent, on the calls of `wait` so far: whether it has ended.
unfoldable pub wait_for_workers : List Waited → Bool
wait_for_workers [] = false
wait_for_workers (w ∷ waits) =
    let rest = wait_for_workers waits in
    if leb_ℤ w.result (pos 0) && (w.is_echild || not w.g_running)
    then true
    else (if w.g_running then rest else true)

-- What a start function has come to: the exit after a `fork` that failed; a child with its loop of
-- connections, of the secure or of the insecure dispatcher; or the parent, with its workers, the
-- monitor thread if it was created, and whether its loop has ended.
pub data Coordinator : Type 0 where
  gave_up : List ℤ → Coordinator
  serves : (secure : Bool) → ℕ → Coordinator
  watches : List ℤ → (monitor : Bool) → (ended : Bool) → Coordinator

abbrev pub coordinate : Bool → Bool → List Waited → Launch → Coordinator
coordinate secure monitor waits (fork_failed workers) = gave_up workers
coordinate secure monitor waits (child i) = serves secure i
coordinate secure monitor waits (parent workers) = watches workers monitor (wait_for_workers waits)

unfoldable pub start_coordinator_process : (ℕ → ℤ) → Bool → List Waited → Coordinator
start_coordinator_process forks monitor waits =
    coordinate true monitor waits (fork_workers forks worker_count 0 no_workers)

unfoldable pub start_coordinator_process_insecure : (ℕ → ℤ) → Bool → List Waited → Coordinator
start_coordinator_process_insecure forks monitor waits =
    coordinate false monitor waits (fork_workers forks worker_count 0 no_workers)

-- The calls of `kill(workers[i], SIGTERM)`.
abbrev pub to_kill : List ℤ → List ℤ
to_kill [] = []
to_kill (pid ∷ workers) =
    let rest = to_kill workers in if ltb_ℤ (pos 0) pid then pid ∷ rest else rest

-- `while (wait(NULL) > 0)`: the workers that have ended.
abbrev pub reap : List ℤ → List ℤ
reap [] = []
reap (pid ∷ waits) = let rest = reap waits in if ltb_ℤ (pos 0) pid then pid ∷ rest else []

-- What the process has done when it exits.
pub record Shutdown (W : Type 0) : Type 0 where
  pub killed : List ℤ
  pub reaped : List ℤ
  pub file : DataFile W
  pub memory : Option (SharedState W)

module _ {W : Type 0} where
  -- The mapping is gone, and `g_shared_state` is NULL.
  abbrev pub ipc_cleanup : Option (SharedState W) → Option (SharedState W)
  ipc_cleanup none = none
  ipc_cleanup (some memory) = none

  abbrev pub save_if_mapped : SaveResult W → Option (SharedState W) → DataFile W → DataFile W
  save_if_mapped saving none file = file
  save_if_mapped saving (some memory) file = save_state saving memory file

  unfoldable pub handle_sigint :
      List ℤ → List ℤ → SaveResult W → Option (SharedState W) → DataFile W → Shutdown W
  handle_sigint workers waits saving memory file = record {
    killed = to_kill workers;
    reaped = reap waits;
    file = save_if_mapped saving memory file;
    memory = ipc_cleanup memory;
  }
