-- ===== src/Server/InsecureDispatcher/Unlimited.antt =====
-- A ride request to the insecure dispatcher.
use ride_hailing_system.Prelude.{
  ℕ, ◌≤◌, ◌^◌, ◌≡◌, ◌∙◌, ap, arith, ℤ, true, false, ltb, ◌==◌, Bool-cases, inl, inr, List, [], ◌∷◌,
  length, done,
}
use ride_hailing_system.Server.Double.{Double, IsOrdered, HasExactFares}
use ride_hailing_system.Server.State.{SharedState, IsSized}
use ride_hailing_system.Server.Ride.{Reply, confirmed, no_drivers}
use ride_hailing_system.Server.Ride.Assign.{Outcome, handle_ride_request_logic-Outcome}
use ride_hailing_system.Common.Protocol.{op_req_ride, op_response, load, to_signed, overwrite}
use ride_hailing_system.Common.Protocol.Bytes.{length-overwrite, overwrite_none, load_done}
use ride_hailing_system.Server.Dispatcher.{Arrival}
use ride_hailing_system.Server.Dispatcher.Handshake.{whole_body}
use ride_hailing_system.Server.InsecureDispatcher.{
  send_response_packet_insecure, process_ride_request_insecure_wrapper, handle_client_insecure,
}

module _ {W : Type 0} ⦃d : Double W⦄ where
  -- The limiter's arrays after a ride request.
  abbrev pub IsUncounted : SharedState W → SharedState W → Type 0
  IsUncounted s s' =
      (s'.client_last_seen ≡ s.client_last_seen) × (s'.client_req_count ≡ s.client_req_count)

  Outcome-IsUncounted :
      (client : ℤ) (s : SharedState W) (r : SharedState W × Reply W)
      → Outcome client s r
      → IsUncounted s r.0
  Outcome-IsUncounted client s (s', no_drivers) (same, _) =
      (ap (λ t. t.client_last_seen) same, ap (λ t. t.client_req_count) same)
  Outcome-IsUncounted client s (s', confirmed id rating distance is_smart)
        (k, v, v', a, _, _, _, _) =
      (ap (λ t. t.client_last_seen) a.rest, ap (λ t. t.client_req_count) a.rest)

module _ {W : Type 0} ⦃d : Double W⦄ (o : IsOrdered W) (exact : HasExactFares W)
    (text : Reply W → List ℕ) (unset : ℕ) where
  wrapper_done :
      (a : Arrival) (body : List ℕ) (s : SharedState W)
      → IsSized W s
      → length body ≡ 1024
      → (s' : SharedState W) × (reply : Reply W) × (id : ℕ) × (process_ride_request_insecure_wrapper
            text unset a body s
          ≡ done (s', send_response_packet_insecure unset (text reply) op_response ∷ []))
        × (load 4 0 body ≡ done id)
        × Outcome (to_signed (2 ^ 31) id) s (s', reply)
        × IsUncounted s s'
  unfolding process_ride_request_insecure_wrapper
  wrapper_done a body s sized size =
      let (id, ei) = load_done 4 0 body (omega arith) in
      let client = to_signed (2 ^ 31) id in
      let (r, er, outcome, _) =
        handle_ride_request_logic-Outcome o exact s sized client a.rand1 a.rand2 in
      (r.0, r.1, id, rw (ei, er), ei, outcome, Outcome-IsUncounted client s r outcome)

  -- On a state of the right sizes, with an ordered `double` that adds the fares exactly and a
  -- buffer of 1024 bytes, a packet with the opcode of a ride request, whose body is complete and at
  -- most 1024 bytes long, is served by the insecure dispatcher, whatever its type and its checksum:
  -- with the number in its first four bytes (after the old memory of the buffer, if the body is
  -- shorter) as the client, the state and the reply are those of a ride request of that client, the
  -- reply is sent as the only packet in the clear, and the arrays of the rate limiter are as
  -- before.
  pub handle_client_insecure-IsUncounted :
      (a : Arrival) (body : List ℕ) (s : SharedState W)
      → IsSized W s
      → length body ≡ 1024
      → a.header.opcode ≡ op_req_ride
      → a.header.body_length ≤ 1024
      → length a.bytes ≡ a.header.body_length
      → (s' : SharedState W) × (reply : Reply W) × (id : ℕ) × (handle_client_insecure text unset a
            body s
          ≡ done (s', send_response_packet_insecure unset (text reply) op_response ∷ []))
        × (load 4 0 (overwrite a.bytes body) ≡ done id)
        × Outcome (to_signed (2 ^ 31) id) s (s', reply)
        × IsUncounted s s'
  unfolding handle_client_insecure
  handle_client_insecure-IsUncounted a body s sized size request short whole =
      let fits : ltb 1024 a.header.body_length ≡ false = ground arith in
      let is_ride : (a.header.opcode == op_req_ride) ≡ true = ground arith in
      let all : (length a.bytes == a.header.body_length) ≡ true = ground arith in
      elim (Bool-cases (a.header.body_length == 0)) [
        | inl empty ↦
            let nothing : length a.bytes ≡ 0 = ground arith in
            rw (fits, empty, is_ride, overwrite_none a.bytes body nothing)
              (wrapper_done a body s sized size)
        | inr full ↦
            rw
              (fits, full, all, whole_body a.header.body_length a.bytes body fits all size, is_ride)
              (wrapper_done a (overwrite a.bytes body) s sized
                (length-overwrite a.bytes body ∙ size))
      ]
