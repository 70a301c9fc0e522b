-- ===== src/Server/System.antt =====
-- The server at work: many processes of src/server/dispatcher.c and the monitor thread of
-- src/server/map_monitor.c over one shared memory, in any order of their critical sections. A
-- process is a program: what it does between two critical sections is its own and is done at
-- once; each critical section is one call.
pub mod Steps
pub mod Alone
pub mod Memory
pub mod Begin
pub mod Budget
pub mod Open
pub mod Sessions
pub mod Turns
pub mod Schedule
pub mod Limit
pub mod Counters
pub mod Window
use ride_hailing_system.Prelude.{
  ℕ, Option, none, some, ◌+◌, ◌^◌, Bool, true, false, ltb, ◌==◌, ◌||◌, if◌then◌else◌, List, [], ◌∷◌,
  ◌++◌, length, take, get_elem?, set, map, Exec, done, crash, ◌>>=◌, ℤ,
}
use ride_hailing_system.Common.Checksum.{calculate_checksum}
use ride_hailing_system.Common.Rc4.{rc4_crypt}
use ride_hailing_system.Common.Dh.{
  generate_private_key, calculate_public_key, calculate_shared_secret, derive_session_key,
}
use ride_hailing_system.Common.Protocol.{
  msg_type_ride_req, msg_type_handshake, op_req_ride, op_driver_join, op_response, Packet,
  to_signed, overwrite, receive_into, load,
}
use ride_hailing_system.Server.Double.{Double}
use ride_hailing_system.Server.State.{SharedState}
use ride_hailing_system.Server.RateLimit.{check_and_update_rate_limit}
use ride_hailing_system.Server.Ride.{Reply, handle_ride_request_logic}
use ride_hailing_system.Server.Coordinator.{join_answer, process_driver_join}
use ride_hailing_system.Server.Start.{Places, init_state}
use ride_hailing_system.Server.Pathfinding.{Grid}
use ride_hailing_system.Server.MapMonitor.{Rolls, tick}
use ride_hailing_system.Server.Dispatcher.{
  Arrival, Accepted, Message, array, literal, ack_packet, send_response_packet, err_msg,
}

-- A process up to its end, with the critical sections that it still enters: the limiter, a ride
-- request, a driver that joins. `failed` is a process that has crashed.
pub data Program (W A : Type 0) : Type 0 where
  ended : A → Program W A
  failed : Program W A
  limit_call : ℤ → ℕ → (Bool → Program W A) → Program W A
  ride_call : ℤ → ℕ → ℕ → (Reply W → Program W A) → Program W A
  join_call : List ℕ → Program W A → Program W A

-- The variables of `handle_client`, without the shared memory.
pub record Session : Type 0 where
  pub body : List ℕ
  pub session_key : List ℕ
  pub is_key_established : Bool
  pub sent : List Packet

abbrev pub new_session : List ℕ → Session
new_session body = record { body = body; session_key = []; is_key_established = false; sent = [] }

module _ {W A : Type 0} where
  -- What a process does on its own before it goes on.
  abbrev pub alone : {B : Type 0} → Exec B → (B → Program W A) → Program W A
  alone (done b) k = k b
  alone crash k = failed

  -- One program after the other.
  unfoldable pub then_run : {B : Type 0} → Program W A → (A → Program W B) → Program W B
  then_run (ended a) k = k a
  then_run failed k = failed
  then_run (limit_call client_id now p) k =
      limit_call client_id now (λ blocked. then_run (p blocked) k)
  then_run (ride_call client_id rand1 rand2 p) k =
      ride_call client_id rand1 rand2 (λ reply. then_run (p reply) k)
  then_run (join_call body p) k = join_call body (then_run p k)

abbrev pub add_sent : Session → Packet → Session
add_sent l p = record l { sent = l.sent ++ (p ∷ []) }

unfoldable pub session_handshake : Arrival → Session → Exec Session
session_handshake a l = do
  let srv_priv = generate_private_key a.key_rand
  srv_pub ← calculate_public_key srv_priv
  key ← load 8 0 l.body
  shared ← calculate_shared_secret (to_signed (2 ^ 63) key) srv_priv
  done (record l {
    session_key = derive_session_key shared 64;
    is_key_established = true;
    sent = l.sent ++ (ack_packet srv_pub ∷ []);
  })

unfoldable pub session_decrypt : ℕ → Session → Exec Session
session_decrypt body_length l = do
  plain ← rc4_crypt (take body_length l.body) l.session_key
  done (record l { body = overwrite plain l.body })

module _ {W : Type 0} (text : Reply W → List ℕ) where
  -- A message to the client ends the program of the connection.
  unfoldable pub respond : Message → Session → Program W Session
  respond message l =
      alone (send_response_packet message op_response l.session_key) λ p. ended (add_sent l p)

  -- `process_ride_request_wrapper`: the limiter, and then the refusal or the ride.
  unfoldable pub request_program : Arrival → Session → Program W Session
  request_program a l = alone (load 4 0 l.body) λ id.
      let client_id = to_signed (2 ^ 31) id in
      limit_call client_id a.now λ blocked.
        if blocked
        then respond (literal err_msg) l
        else ride_call client_id a.rand1 a.rand2 λ reply. respond (array (text reply)) l

  unfoldable pub join_program : Session → Program W Session
  join_program l = join_call l.body (ended (add_sent l join_answer))

  -- `handle_client`.
  unfoldable pub client_program : List Arrival → Session → Program W Session
  client_program [] l = ended l
  client_program (a ∷ arrivals) l =
      let h = a.header in
      let others = λ (e : Session). client_program arrivals e in
      let after =
        λ (e : Session). if h.opcode == op_driver_join then join_program e else others e in
      let checked_ride = λ (received : Session). alone (session_decrypt h.body_length received) λ e.
        if calculate_checksum (take h.body_length e.body) == h.checksum
        then (if h.opcode == op_req_ride then request_program a e else after e)
        else ended e in
      let ride_request = λ (received : Session).
        if l.is_key_established then checked_ride received else ended received in
      let turn = λ (received : Session).
        if h.type == msg_type_handshake
        then alone (session_handshake a received) others
        else (if h.type == msg_type_ride_req then ride_request received else after received) in
      let whole = alone (receive_into a.bytes l.body) λ body. turn (record l { body = body }) in
      if ltb 1024 h.body_length
      then ended l
      else (if h.body_length == 0
          then turn l
          else (if length a.bytes == h.body_length then whole else ended l))

  -- `dispatcher_loop`.
  unfoldable pub worker_program : List (Option Accepted) → Program W Unit
  worker_program [] = ended tt
  worker_program (none ∷ clients) = worker_program clients
  worker_program (some client ∷ clients) =
      then_run (client_program client.arrivals (new_session client.body))
        λ _. worker_program clients

-- A process, and whether the limiter has blocked one of its clients.
pub record Worker (W : Type 0) : Type 0 where
  pub program : Program W Unit
  pub blocked : Bool

pub record System (W : Type 0) : Type 0 where
  pub memory : SharedState W
  pub workers : List (Worker W)

-- Who enters the next critical section: a worker, or the monitor.
pub data Turn : Type 0 where
  worker_turn : ℕ → Turn
  monitor_turn : (ℕ → Rolls) → Turn

module _ {W : Type 0} ⦃d : Double W⦄ where
  -- A program with the memory to itself.
  unfoldable pub run_alone : {A : Type 0} → Program W A → SharedState W → Exec (SharedState W × A)
  run_alone (ended a) memory = done (memory, a)
  run_alone failed memory = crash
  run_alone (limit_call client_id now k) memory =
      check_and_update_rate_limit client_id now memory >>= λ r. run_alone (k r.1) r.0
  run_alone (ride_call client_id rand1 rand2 k) memory =
      handle_ride_request_logic client_id rand1 rand2 memory >>= λ r. run_alone (k r.1) r.0
  run_alone (join_call body k) memory = process_driver_join body memory >>= run_alone k

  -- The next critical section of a worker; a crash inside it leaves the mutex locked for all.
  unfoldable pub step_worker : Worker W → SharedState W → Exec (SharedState W × Worker W)
  step_worker w memory = elim w.program [
    | ended _ ↦ done (memory, w)
    | failed ↦ done (memory, w)
    | limit_call client_id now k ↦ check_and_update_rate_limit client_id now memory >>= λ r.
        done (r.0, record { program = k r.1; blocked = w.blocked || r.1 })
    | ride_call client_id rand1 rand2 k ↦
        handle_ride_request_logic client_id rand1 rand2 memory >>= λ r.
        done (r.0, record w { program = k r.1 })
    | join_call body k ↦
        process_driver_join body memory >>= λ memory'. done (memory', record w { program = k })
  ]

  -- The turn of worker `i`, if there is one.
  abbrev pub run_worker : ℕ → System W → Option (Worker W) → Exec (System W)
  run_worker i system none = done system
  run_worker i system (some w) = step_worker w system.memory >>= λ r.
      done (record { memory = r.0; workers = set system.workers i r.1 })

  unfoldable pub run_turn : Grid → Turn → System W → Exec (System W)
  run_turn grid_map (monitor_turn rolls) system = do
    memory ← tick grid_map rolls system.memory
    done (record system { memory = memory })
  run_turn grid_map (worker_turn i) system = run_worker i system (get_elem? system.workers i)

  unfoldable pub run_turns : Grid → List Turn → System W → Exec (System W)
  run_turns grid_map [] system = done system
  run_turns grid_map (t ∷ turns) system = run_turn grid_map t system >>= run_turns grid_map turns

abbrev pub start_worker : {W : Type 0} → (Reply W → List ℕ) → List (Option Accepted) → Worker W
start_worker text clients = record { program = worker_program text clients; blocked = false }

-- The server once its workers are forked; `jobs` are the connections that each will accept.
unfoldable pub start_system :
    {W : Type 0} ⦃d : Double W⦄
    → (Reply W → List ℕ)
    → (ℕ → Places)
    → ℤ
    → ℤ
    → List (List (Option Accepted))
    → Exec (System W)
start_system text places driver_count mode jobs = do
  memory ← init_state places driver_count mode
  done (record { memory = memory; workers = map (start_worker text) jobs })
