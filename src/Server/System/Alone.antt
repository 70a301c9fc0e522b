-- ===== src/Server/System/Alone.antt =====
-- A program that has the memory to itself, and the functions of src/server/dispatcher.c.
use ride_hailing_system.Prelude.{
  ℕ, ◌≡◌, refl, Bool, true, false, ltb, ◌==◌, if◌then◌else◌, List, [], ◌∷◌, length, take, done,
  ◌>>=◌, Bool-cases, inl, inr, Exec-cases,
}
use ride_hailing_system.Common.Checksum.{calculate_checksum}
use ride_hailing_system.Common.Protocol.{
  msg_type_ride_req, msg_type_handshake, op_req_ride, op_driver_join, receive_into,
}
use ride_hailing_system.Server.Ride.{handle_ride_request_logic}
use ride_hailing_system.Server.RateLimit.{check_and_update_rate_limit}
use ride_hailing_system.Server.Coordinator.{process_driver_join}
use ride_hailing_system.Server.Double.{Double}
use ride_hailing_system.Server.State.{SharedState}
use ride_hailing_system.Server.Ride.{Reply}
use ride_hailing_system.Server.Dispatcher.{
  Arrival, shake_hands, decrypt, serve_ride, join_driver, handle_client,
}
use ride_hailing_system.Server.System.{
  Program, Session, alone, then_run, session_handshake, session_decrypt, request_program,
  join_program, client_program, run_alone, ended,
}
use ride_hailing_system.Server.System.Steps.{
  connect, run_session, alone-session_handshake, alone-session_decrypt, request_alone, join_alone,
}

module _ {W : Type 0} ⦃d : Double W⦄ (text : Reply W → List ℕ) where
  module _ (a : Arrival) (arrivals : List Arrival) (memory : SharedState W)
      (same : (l : Session)
        → run_session (client_program text arrivals l) memory
          ≡ handle_client text arrivals (connect memory l)) where
    after_alone :
        (l : Session)
        → run_session
            (if a.header.opcode == op_driver_join
              then join_program text l
              else client_program text arrivals l)
            memory
          ≡ (if a.header.opcode == op_driver_join
              then join_driver text (connect memory l)
              else handle_client text arrivals (connect memory l))
    after_alone l = elim (Bool-cases (a.header.opcode == op_driver_join)) [
      | inl joins ↦ rw joins (join_alone text l memory)
      | inr other ↦ rw other (same l)
    ]

    checked_alone :
        (l : Session)
        → run_session
            (if calculate_checksum (take a.header.body_length l.body) == a.header.checksum
              then (if a.header.opcode == op_req_ride
                  then request_program text a l
                  else (if a.header.opcode == op_driver_join
                      then join_program text l
                      else client_program text arrivals l))
              else ended l)
            memory
          ≡ (if calculate_checksum (take a.header.body_length l.body) == a.header.checksum
              then (if a.header.opcode == op_req_ride
                  then serve_ride text a (connect memory l)
                  else (if a.header.opcode == op_driver_join
                      then join_driver text (connect memory l)
                      else handle_client text arrivals (connect memory l)))
              else done (connect memory l))
    unfolding run_alone
    checked_alone l =
        elim (Bool-cases
          (calculate_checksum (take a.header.body_length l.body) == a.header.checksum)) [
            | inr broken ↦ rw broken refl
            | inl intact ↦ elim (Bool-cases (a.header.opcode == op_req_ride)) [
              | inl request ↦ rw (intact, request) (request_alone text a l memory)
              | inr other ↦ rw (intact, other) (after_alone l)
            ]
          ]

    keyed_alone :
        (l : Session) (has_key : Bool)
        → run_session
            (if has_key
              then alone (session_decrypt a.header.body_length l) (λ e.
                if calculate_checksum (take a.header.body_length e.body) == a.header.checksum
                then (if a.header.opcode == op_req_ride
                    then request_program text a e
                    else (if a.header.opcode == op_driver_join
                        then join_program text e
                        else client_program text arrivals e))
                else ended e)
              else ended l)
            memory
          ≡ (if has_key
              then (decrypt text a.header.body_length (connect memory l) >>= λ e.
                  if calculate_checksum (take a.header.body_length e.body) == a.header.checksum
                  then (if a.header.opcode == op_req_ride
                      then serve_ride text a e
                      else (if a.header.opcode == op_driver_join
                          then join_driver text e
                          else handle_client text arrivals e))
                  else done e)
              else done (connect memory l))
    unfolding run_alone
    keyed_alone l false = refl
    keyed_alone l true = alone-session_decrypt text memory _ _ checked_alone a.header.body_length l

    turn_alone :
        (l : Session) (has_key : Bool)
        → run_session
            (if a.header.type == msg_type_handshake
              then alone (session_handshake a l) (client_program text arrivals)
              else (if a.header.type == msg_type_ride_req
                  then (if has_key
                      then alone (session_decrypt a.header.body_length l) (λ e.
                        if calculate_checksum (take a.header.body_length e.body)
                          == a.header.checksum
                        then (if a.header.opcode == op_req_ride
                            then request_program text a e
                            else (if a.header.opcode == op_driver_join
                                then join_program text e
                                else client_program text arrivals e))
                        else ended e)
                      else ended l)
                  else (if a.header.opcode == op_driver_join
                      then join_program text l
                      else client_program text arrivals l)))
            memory
          ≡ (if a.header.type == msg_type_handshake
              then (shake_hands text a (connect memory l) >>= handle_client text arrivals)
              else (if a.header.type == msg_type_ride_req
                  then (if has_key
                      then (decrypt text a.header.body_length (connect memory l) >>= λ e.
                          if calculate_checksum (take a.header.body_length e.body)
                            == a.header.checksum
                          then (if a.header.opcode == op_req_ride
                              then serve_ride text a e
                              else (if a.header.opcode == op_driver_join
                                  then join_driver text e
                                  else handle_client text arrivals e))
                          else done e)
                      else done (connect memory l))
                  else (if a.header.opcode == op_driver_join
                      then join_driver text (connect memory l)
                      else handle_client text arrivals (connect memory l))))
    turn_alone l has_key = elim (Bool-cases (a.header.type == msg_type_handshake)) [
      | inl hello ↦ rw hello (alone-session_handshake text memory _ _ same a l)
      | inr strange ↦ elim (Bool-cases (a.header.type == msg_type_ride_req)) [
        | inl request ↦ rw (strange, request) (keyed_alone l has_key)
        | inr other ↦ rw (strange, other) (after_alone l)
      ]
    ]

  -- The program of a connection that has the memory to itself does what handle_client does: on any
  -- packets and any memory it ends with the same connection, or crashes where it does.
  pub client_program-handle_client :
      (arrivals : List Arrival) (l : Session) (memory : SharedState W)
      → run_session (client_program text arrivals l) memory
        ≡ handle_client text arrivals (connect memory l)
  unfolding client_program handle_client run_alone
  client_program-handle_client [] l memory = refl
  client_program-handle_client (a ∷ arrivals) l memory =
      let turn = λ (e : Session).
        turn_alone a arrivals memory (λ e'. client_program-handle_client arrivals e' memory) e
          l.is_key_established in
      elim (Bool-cases (ltb 1024 a.header.body_length)) [
        | inl long ↦ rw long refl
        | inr short ↦ elim (Bool-cases (a.header.body_length == 0)) [
          | inl empty ↦ rw (short, empty) (turn l)
          | inr full ↦ elim (Bool-cases (length a.bytes == a.header.body_length)) [
            | inr cut ↦ rw (short, full, cut) refl
            | inl whole ↦ elim (Exec-cases (receive_into a.bytes l.body)) [
              | inr e ↦ rw (short, full, whole, e) refl
              | inl (body, e) ↦ rw (short, full, whole, e) (turn (record l { body = body }))
            ]
          ]
        ]
      ]

  then_run_alone :
      {A B : Type 0} (p : Program W A) (k : A → Program W B) (memory : SharedState W)
      → run_alone (then_run p k) memory ≡ (run_alone p memory >>= λ r. run_alone (k r.1) r.0)
  unfolding then_run run_alone
  then_run_alone (Program.ended a) k memory = refl
  then_run_alone Program.failed k memory = refl
  then_run_alone (Program.limit_call client_id now p) k memory =
      elim (Exec-cases (check_and_update_rate_limit client_id now memory)) [
        | inr e ↦ rw e refl
        | inl (r, e) ↦ rw e (then_run_alone (p r.1) k r.0)
      ]
  then_run_alone (Program.ride_call client_id rand1 rand2 p) k memory =
      elim (Exec-cases (handle_ride_request_logic client_id rand1 rand2 memory)) [
        | inr e ↦ rw e refl
        | inl (r, e) ↦ rw e (then_run_alone (p r.1) k r.0)
      ]
  then_run_alone (Program.join_call body p) k memory =
      elim (Exec-cases (process_driver_join body memory)) [
        | inr e ↦ rw e refl
        | inl (memory', e) ↦ rw e (then_run_alone p k memory')
      ]
