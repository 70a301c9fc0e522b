-- ===== src/Server/Ipc.antt =====
-- The shared memory and its file in src/server/coordinator.c: `save_state`, `load_state` and
-- `ipc_init`, with a mapping that succeeds. The mutex in the memory is left out.
pub mod Restart
use ride_hailing_system.Prelude.{
  ℕ, zero, suc, ◌+◌, Bool, true, false, ltb_ℤ, if◌then◌else◌, List, [], ◌∷◌, Exec, done, ◌>>=◌,
  read, set, ℤ, pos, rounds,
}
use ride_hailing_system.Server.Double.{Double}
use ride_hailing_system.Server.State.{Driver, SharedState, max_drivers}
use ride_hailing_system.Server.Start.{zero_state}

-- The file: none, one that is too short (with the memory as a read of it leaves it), or a state.
pub data DataFile (W : Type 0) : Type 0 where
  missing : DataFile W
  short : SharedState W → DataFile W
  complete : SharedState W → DataFile W

-- What the system makes of the two calls: the file is not opened, it is cut off, or it is written.
pub data SaveResult (W : Type 0) : Type 0 where
  not_opened : SaveResult W
  cut_off : SharedState W → SaveResult W
  saved : SaveResult W

pub clamp_drivers : ℤ → ℤ
clamp_drivers driver_count =
    if ltb_ℤ (pos max_drivers) driver_count then pos max_drivers else driver_count

module _ {W : Type 0} where
  pub save_state : SaveResult W → SharedState W → DataFile W → DataFile W
  save_state not_opened state file = file
  save_state (cut_off rest) state file = short rest
  save_state saved state file = complete state

  -- Whether a state was loaded, and the memory.
  unfoldable pub load_state : DataFile W → SharedState W → Bool × SharedState W
  load_state missing memory = (false, memory)
  load_state (short rest) memory = (false, rest)
  load_state (complete state) memory = (true, state)

  -- A loop over the first drivers; a driver past the array is a crash.
  pub for_drivers : (ℕ → Driver W → Driver W) → ℕ → ℕ → List (Driver W) → Exec (List (Driver W))
  for_drivers change zero i drivers = done drivers
  for_drivers change (suc left) i drivers = do
    v ← read drivers i
    for_drivers change left (i + 1) (set drivers i (change i v))

  pub make_available : ℕ → Driver W → Driver W
  make_available i v = record v { is_available = true }

module _ {W : Type 0} ⦃d : Double W⦄ where
  open d use {lit, add, mul, of_int}

  pub new_driver : ℕ → Driver W → Driver W
  new_driver i v = record v {
    driver_id = 1000 + i;
    is_available = true;
    lat = add (lit 250330 4) (mul (of_int (pos i)) (lit 1 3));
    lon = add (lit 1215654 4) (mul (of_int (pos i)) (lit 1 3));
    fuel = pos 10;
  }

  -- The memory after the initialisation, from the memory that the file was loaded to.
  pub prepare : ℤ → Bool × SharedState W → Exec (SharedState W)
  prepare driver_count (true, state) = do
    drivers ← for_drivers make_available (rounds state.driver_count) 0 state.drivers
    done (record state { drivers = drivers })
  prepare driver_count (false, state) = do
    let count = clamp_drivers driver_count
    drivers ← for_drivers new_driver (rounds count) 0 zero_state.drivers
    done (record zero_state { drivers = drivers; driver_count = count })

  pub ipc_init : ℤ → DataFile W → SharedState W → Exec (SharedState W)
  ipc_init driver_count file memory = prepare driver_count (load_state file memory)
