-- ===== src/Server/Dispatcher.antt =====
-- src/server/dispatcher.c: one connection of a client. What `recv_n` delivers is a list; its end is the closed connection.
-- The text that `snprintf` makes of a reply is a parameter.
pub mod Handshake
pub mod Turns
pub mod Honest
pub mod Ready
pub mod Robust
pub mod Loop
use ride_hailing_system.Prelude.{
  ℕ, Option, none, some, zero, suc, ◌+◌, ◌-◌, ◌/◌, ◌%◌, ◌^◌, Bool, true, false, not, ltb, ◌==◌,
  ◌&&◌, if◌then◌else◌, List, [], ◌∷◌, ◌++◌, length, take, Exec, done, crash, ◌>>=◌, ℤ, pos, negsuc,
  ◌-ℤ◌,
}
use ride_hailing_system.Common.Checksum.{calculate_checksum}
use ride_hailing_system.Common.Rc4.{rc4_crypt}
use ride_hailing_system.Common.Dh.{
  generate_private_key, calculate_public_key, calculate_shared_secret, derive_session_key,
}
use ride_hailing_system.Common.Protocol.{
  msg_type_ride_req, msg_type_ride_resp, msg_type_handshake, msg_type_handshake_ack, op_req_ride,
  op_driver_join, op_handshake, op_response, ProtocolHeader, Packet, to_signed, store_i64,
  overwrite, receive_into, load,
}
use ride_hailing_system.Server.Double.{Double}
use ride_hailing_system.Server.State.{SharedState}
use ride_hailing_system.Server.RateLimit.{check_and_update_rate_limit}
use ride_hailing_system.Server.Ride.{Reply, handle_ride_request_logic}
use ride_hailing_system.Server.Coordinator.{join_answer, process_driver_join}

-- One turn of the loop: the header as the variable holds it after the read, the bytes of the body
-- that came before the connection closed, the time, and what `rand()` returns.
pub record Arrival : Type 0 where
  pub header : ProtocolHeader
  pub bytes : List ℕ
  pub now : ℕ
  pub key_rand : ℕ
  pub rand1 : ℕ
  pub rand2 : ℕ

-- The answer to a handshake, with the server's public key.
abbrev pub ack_packet : ℤ → Packet
ack_packet srv_pub = record {
  header = record {
    body_length = 8;
    type = msg_type_handshake_ack;
    opcode = op_handshake;
    checksum = 0;
  };
  body = store_i64 srv_pub;
}

-- An answer to a request, with the message and its encryption.
abbrev pub response_packet : ℕ → List ℕ → List ℕ → Packet
response_packet opcode resp_msg encrypted = record {
  header = record {
    body_length = length resp_msg % 2 ^ 32;
    type = msg_type_ride_resp;
    opcode = opcode;
    checksum = calculate_checksum resp_msg;
  };
  body = encrypted;
}

-- A message in an array, and one in a string literal, which must not be written to.
pub data Message : Type 0 where
  array : List ℕ → Message
  literal : List ℕ → Message

-- `send_response_packet`, with a session key: the message is encrypted in place.
unfoldable pub send_response_packet : Message → ℕ → List ℕ → Exec Packet
send_response_packet (literal resp_msg) opcode session_key = crash
send_response_packet (array resp_msg) opcode session_key = do
  encrypted ← rc4_crypt resp_msg session_key
  done (response_packet opcode resp_msg encrypted)

-- "Error: Blocked."
abbrev pub err_msg : List ℕ
err_msg = 69 ∷ 114 ∷ 114 ∷ 111 ∷ 114 ∷ 58 ∷ 32 ∷ 66 ∷ 108 ∷ 111 ∷ 99 ∷ 107 ∷ 101 ∷ 100 ∷ 46 ∷ []

-- The variables of `handle_client`, with the shared state and what has been sent.
pub record Connection (W : Type 0) : Type 0 where
  pub state : SharedState W
  pub body : List ℕ
  pub session_key : List ℕ
  pub is_key_established : Bool
  pub sent : List Packet

-- An accepted connection: the packets that are read of it, the old memory of the buffer, and whether
-- its client has closed it by the last packet that is sent to it. That write then raises SIGPIPE,
-- which the server does not ignore, so that nothing more is read, and the worker ends.
pub record Accepted : Type 0 where
  pub arrivals : List Arrival
  pub body : List ℕ
  pub closed : Bool

abbrev pub has_packets : List Packet → Bool
has_packets [] = false
has_packets (p ∷ packets) = true

abbrev pub new_connection : {W : Type 0} → List ℕ → SharedState W → Connection W
new_connection body state = record {
  state = state;
  body = body;
  session_key = [];
  is_key_established = false;
  sent = [];
}

module _ {W : Type 0} ⦃d : Double W⦄ (text : Reply W → List ℕ) where
  unfoldable pub process_ride_request_wrapper :
      Arrival → List ℕ → List ℕ → SharedState W → Exec (SharedState W × Packet)
  process_ride_request_wrapper a body session_key state = do
    id ← load 4 0 body
    let client_id = to_signed (2 ^ 31) id
    checked_state ← check_and_update_rate_limit client_id a.now state
    let blocked = send_response_packet (literal err_msg) op_response session_key >>= λ p.
        done (checked_state.0, p)
    let serve = handle_ride_request_logic client_id a.rand1 a.rand2 checked_state.0 >>= λ r.
        send_response_packet (array (text r.1)) op_response session_key >>= λ p. done (r.0, p)
    if checked_state.1 then blocked else serve

  -- The answer to a handshake: a new session key, and the server's public key.
  unfoldable pub shake_hands : Arrival → Connection W → Exec (Connection W)
  shake_hands a c = do
    let srv_priv = generate_private_key a.key_rand
    srv_pub ← calculate_public_key srv_priv
    key ← load 8 0 c.body
    shared ← calculate_shared_secret (to_signed (2 ^ 63) key) srv_priv
    done (record c {
      session_key = derive_session_key shared 64;
      is_key_established = true;
      sent = c.sent ++ (ack_packet srv_pub ∷ []);
    })

  -- A driver joins; the answer has no body. It ends the connection.
  unfoldable pub join_driver : Connection W → Exec (Connection W)
  join_driver c = do
    state' ← process_driver_join c.body c.state
    done (record c { state = state'; sent = c.sent ++ (join_answer ∷ []) })

  unfoldable pub serve_ride : Arrival → Connection W → Exec (Connection W)
  serve_ride a c = do
    r ← process_ride_request_wrapper a c.body c.session_key c.state
    done (record c { state = r.0; sent = c.sent ++ (r.1 ∷ []) })

  -- The body of a ride request, decrypted in place.
  unfoldable pub decrypt : ℕ → Connection W → Exec (Connection W)
  decrypt body_length c = do
    plain ← rc4_crypt (take body_length c.body) c.session_key
    done (record c { body = overwrite plain c.body })

  -- The turns of the `while` loop. Where a body is cut off, the loop ends, and the part in the
  -- buffer has no reader.
  unfoldable pub handle_client : List Arrival → Connection W → Exec (Connection W)
  handle_client [] c = done c
  handle_client (a ∷ arrivals) c =
      let h = a.header in
      let others = λ (e : Connection W). handle_client arrivals e in
      let after =
        λ (e : Connection W). if h.opcode == op_driver_join then join_driver e else others e in
      let checked_ride = λ (received : Connection W). decrypt h.body_length received >>= λ e.
      if calculate_checksum (take h.body_length e.body) == h.checksum
      then (if h.opcode == op_req_ride then serve_ride a e else after e)
      else done e in
      let ride = λ (received : Connection W).
        if c.is_key_established then checked_ride received else done received in
      let turn = λ (received : Connection W).
        if h.type == msg_type_handshake
        then (shake_hands a received >>= others)
        else (if h.type == msg_type_ride_req then ride received else after received) in
      let whole = receive_into a.bytes c.body >>= λ body. turn (record c { body = body }) in
      if ltb 1024 h.body_length
      then done c
      else (if h.body_length == 0
          then turn c
          else (if length a.bytes == h.body_length then whole else done c))

  -- The connections that a worker has accepted so far; `none` is a call of `accept` that failed. The
  -- result is the state, and whether the worker is still there.
  unfoldable pub dispatcher_loop :
      List (Option Accepted) → SharedState W → Exec (SharedState W × Bool)
  dispatcher_loop [] state = done (state, true)
  dispatcher_loop (none ∷ clients) state = dispatcher_loop clients state
  dispatcher_loop (some client ∷ clients) state =
      handle_client client.arrivals (new_connection client.body state) >>= λ c.
      let rest = dispatcher_loop clients c.state in
      if client.closed && has_packets c.sent then done (c.state, false) else rest
