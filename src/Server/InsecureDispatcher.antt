-- ===== src/Server/InsecureDispatcher.antt =====
-- src/server/insecure_dispatcher.c: the dispatcher with no handshake, no encryption, no rate limit and
-- no test of the checksum. It leaves the field `type` of its answers unset: what stands in it is an
-- argument.
pub mod Unlimited
pub mod Steady
use ride_hailing_system.Prelude.{
  ℕ, ◌%◌, ◌^◌, Bool, true, false, Option, none, some, ltb, ◌==◌, ◌&&◌, if◌then◌else◌, List, [], ◌∷◌,
  length, Exec, done, ◌>>=◌,
}
use ride_hailing_system.Common.Checksum.{calculate_checksum}
use ride_hailing_system.Server.Double.{Double}
use ride_hailing_system.Server.State.{SharedState}
use ride_hailing_system.Server.Ride.{Reply, handle_ride_request_logic}
use ride_hailing_system.Server.Coordinator.{join_answer, process_driver_join}
use ride_hailing_system.Server.Dispatcher.{Arrival, has_packets}
use ride_hailing_system.Common.Protocol.{
  ProtocolHeader, Packet, op_req_ride, op_driver_join, op_response, msg_type_ride_resp, to_signed,
  receive_into, load,
}

pub send_response_packet_insecure : ℕ → List ℕ → ℕ → Packet
send_response_packet_insecure unset resp_msg opcode = record {
  header = record {
    body_length = length resp_msg % 2 ^ 32;
    type = unset;
    opcode = opcode;
    checksum = calculate_checksum resp_msg;
  };
  body = resp_msg;
}

-- A connection: its packet, the old memory of the buffer, and whether the client has closed it by the
-- time of the answer, so that the write raises SIGPIPE.
pub record Connected : Type 0 where
  pub arrival : Arrival
  pub body : List ℕ
  pub closed : Bool

module _ {W : Type 0} ⦃d : Double W⦄ (text : Reply W → List ℕ) (unset : ℕ) where
  pub process_ride_request_insecure_wrapper :
      Arrival → List ℕ → SharedState W → Exec (SharedState W × List Packet)
  process_ride_request_insecure_wrapper a body state = do
    id ← load 4 0 body
    r ← handle_ride_request_logic (to_signed (2 ^ 31) id) a.rand1 a.rand2 state
    done (r.0, send_response_packet_insecure unset (text r.1) op_response ∷ [])

  -- One connection brings one packet; `body` is the buffer before it is read.
  pub handle_client_insecure : Arrival → List ℕ → SharedState W → Exec (SharedState W × List Packet)
  handle_client_insecure a body state =
      let h = a.header in
      let joined = λ (received : List ℕ).
        process_driver_join received state >>= λ s. done (s, join_answer ∷ []) in
      let other = λ (received : List ℕ).
        if h.opcode == op_driver_join then joined received else done (state, []) in
      let dispatched = λ (received : List ℕ).
        if h.opcode == op_req_ride
        then process_ride_request_insecure_wrapper a received state
        else other received in
      if ltb 1024 h.body_length
      then done (state, [])
      else (if h.body_length == 0
          then dispatched body
          else (if length a.bytes == h.body_length
              then (receive_into a.bytes body >>= dispatched)
              else done (state, [])))

  -- The connections that a worker has accepted so far; `none` is a call of `accept` that failed, or
  -- a client that sends no whole header. The result is the state, and whether the worker is still
  -- there: a write to a connection that its client has closed raises SIGPIPE, which the server does
  -- not ignore.
  pub dispatcher_loop_insecure :
      List (Option Connected) → SharedState W → Exec (SharedState W × Bool)
  dispatcher_loop_insecure [] state = done (state, true)
  dispatcher_loop_insecure (none ∷ clients) state = dispatcher_loop_insecure clients state
  dispatcher_loop_insecure (some c ∷ clients) state =
      handle_client_insecure c.arrival c.body state >>= λ r.
      let rest = dispatcher_loop_insecure clients r.0 in
      if c.closed && has_packets r.1 then done (r.0, false) else rest
