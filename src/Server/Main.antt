-- ===== src/Server/Main.antt =====
-- `main` of src/server/server_main.c and of src/server/insecure_server.c, up to the start of the
-- workers, and the files that the first one writes. The numbers that `atoi` makes of the arguments
-- and the answers of the system are arguments.
pub mod Lifecycle
use ride_hailing_system.Prelude.{
  ℕ, Bool, true, false, ◌&&◌, ltb, leb, ◌==◌, if◌then◌else◌, Option, none, some, List, Exec, done,
  ◌>>=◌, ℤ, pos,
}
use ride_hailing_system.Common.Socket.{ServerAnswers, create_server_socket}
use ride_hailing_system.Server.Double.{Double}
use ride_hailing_system.Server.State.{SharedState}
use ride_hailing_system.Server.Start.{Places, init_state, zero_state}
use ride_hailing_system.Server.Ipc.{
  DataFile, missing, short, complete, SaveResult, not_opened, cut_off, saved, ipc_init,
}

module _ {W : Type 0} where
  pub save_data_to_file : SaveResult W → SharedState W → DataFile W → DataFile W
  save_data_to_file not_opened memory file = file
  save_data_to_file (cut_off rest) memory file = short rest
  save_data_to_file saved memory file = complete memory

  -- The result of `fread` is not looked at. No code calls this function.
  pub load_data_from_file : DataFile W → SharedState W → SharedState W
  load_data_from_file missing memory = memory
  load_data_from_file (short rest) memory = rest
  load_data_from_file (complete state) memory = state

-- The file, and whether the shared memory object is gone.
pub record Cleaned (W : Type 0) : Type 0 where
  pub file : DataFile W
  pub unlinked : Bool

-- The object is unlinked if its descriptor was opened.
pub cleanup_resources : {W : Type 0} → SaveResult W → Bool → SharedState W → DataFile W → Cleaned W
cleanup_resources saving is_open memory file = record {
  file = save_data_to_file saving memory file;
  unlinked = is_open;
}

-- Whether the calls of the system for the shared memory succeed, and its answers for the socket.
pub record Answers : Type 0 where
  pub shm_open : Bool
  pub ftruncate : Bool
  pub mmap : Bool
  pub socket : ServerAnswers

-- How far `main` comes: a wrong number of arguments, a call that failed, no socket (with what the
-- cleanup leaves), or the start of the workers, with the memory and the socket.
pub data Startup (W : Type 0) : Type 0 where
  usage call_failed : Startup W
  no_socket : Cleaned W → Startup W
  serving : SharedState W → ℕ → Startup W

abbrev pub mode_of : ℕ → ℤ → ℤ
mode_of argc mode = if leb 4 argc then mode else pos 1

module _ {W : Type 0} where
  abbrev pub with_socket : SaveResult W → Bool → DataFile W → SharedState W → Option ℕ → Startup W
  with_socket saving is_open file memory none =
      no_socket (cleanup_resources saving is_open memory file)
  with_socket saving is_open file memory (some server_fd) = serving memory server_fd

module _ {W : Type 0} ⦃d : Double W⦄ where
  unfoldable pub main :
      ℕ → (ℕ → ℤ) → (ℕ → Places) → Answers → SaveResult W → DataFile W → List ℕ → Exec (Startup W)
  main argc argv places answers saving file fds =
      let listen = λ (memory : SharedState W). done (
        with_socket saving answers.shm_open file memory
          (create_server_socket answers.socket (argv 1) fds).0) in
      if ltb argc 3
      then done usage
      else (if answers.shm_open && (answers.ftruncate && answers.mmap)
          then (init_state places (argv 2) (mode_of argc (argv 3)) >>= listen)
          else done call_failed)

  -- The anonymous mapping of `ipc_init` is cleared memory.
  abbrev pub insecure_socket : ℤ → DataFile W → Option ℕ → Exec (Startup W)
  insecure_socket driver_count file none = done call_failed
  insecure_socket driver_count file (some server_fd) =
      ipc_init driver_count file zero_state >>= λ memory. done (serving memory server_fd)

  unfoldable pub insecure_main :
      ℕ → (ℕ → ℤ) → ServerAnswers → DataFile W → List ℕ → Exec (Startup W)
  insecure_main argc argv socket file fds =
      if argc == 3
      then insecure_socket (argv 2) file (create_server_socket socket (argv 1) fds).0
      else done usage
