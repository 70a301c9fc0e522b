-- ===== src/Server/System/Sessions.antt =====
-- How many critical sections the programs of src/server/dispatcher.c enter, and where they crash.
use ride_hailing_system.Prelude.{
  ℕ, Option, none, some, ◌*◌, ◌≡◌, refl, ◌∙◌, arith, Bool, true, false, ltb, ◌==◌, if◌then◌else◌,
  List, [], ◌∷◌, length, take, All, Bool-cases, inl, inr,
}
use ride_hailing_system.Common.Checksum.{calculate_checksum}
use ride_hailing_system.Common.Rc4.Keystream.{IsByte}
use ride_hailing_system.Common.Protocol.{
  msg_type_ride_req, msg_type_handshake, op_req_ride, op_driver_join, overwrite,
}
use ride_hailing_system.Common.Protocol.Bytes.{length-overwrite, All-overwrite}
use ride_hailing_system.Server.Double.{Double}
use ride_hailing_system.Server.State.{SharedState}
use ride_hailing_system.Server.Ride.{Reply}
use ride_hailing_system.Server.Dispatcher.{Arrival, Accepted}
use ride_hailing_system.Server.Dispatcher.Handshake.{whole_body}
use ride_hailing_system.Server.Dispatcher.Loop.{IsAccepted, IsServing}
use ride_hailing_system.Server.System.{
  ended, Session, new_session, alone, session_handshake, session_decrypt, request_program,
  join_program, client_program, worker_program,
}
use ride_hailing_system.Server.System.Budget.{EndsIn, EndsIn-more, then_run-EndsIn}
use ride_hailing_system.Server.System.Open.{
  IsOpen, request_program-EndsIn, join_program-EndsIn, handshake-IsOpen, decrypt-IsOpen,
}

module _ {W : Type 0} ⦃d : Double W⦄ (text : Reply W → List ℕ)
    (bytes : (reply : Reply W) → All IsByte (text reply)) (memory : SharedState W) where
  module _ (a : Arrival) (arrivals : List Arrival)
      (next : (l : Session)
        → IsOpen text bytes memory l
        → EndsIn 2 (client_program text arrivals l)) where
    after-EndsIn :
        (l : Session)
        → IsOpen text bytes memory l
        → EndsIn 2 (
            if a.header.opcode == op_driver_join
            then join_program text l
            else client_program text arrivals l)
    after-EndsIn l ready = elim (Bool-cases (a.header.opcode == op_driver_join)) [
      | inl joins ↦ rw joins (join_program-EndsIn text bytes memory l ready)
      | inr other ↦ rw other (next l ready)
    ]

    checked-EndsIn :
        (l : Session)
        → l.is_key_established ≡ true
        → IsOpen text bytes memory l
        → EndsIn 2 (
            if calculate_checksum (take a.header.body_length l.body) == a.header.checksum
            then (if a.header.opcode == op_req_ride
                then request_program text a l
                else (if a.header.opcode == op_driver_join
                    then join_program text l
                    else client_program text arrivals l))
            else ended l)
    checked-EndsIn l established ready =
        elim (Bool-cases
          (calculate_checksum (take a.header.body_length l.body) == a.header.checksum)) [
            | inr broken ↦ rw broken tt
            | inl intact ↦ elim (Bool-cases (a.header.opcode == op_req_ride)) [
              | inl request ↦
                  rw (intact, request)
                    (request_program-EndsIn text bytes memory a l established ready)
              | inr other ↦ rw (intact, other) (after-EndsIn l ready)
            ]
          ]

    keyed-EndsIn :
        (l : Session) (has_key : Bool)
        → l.is_key_established ≡ has_key
        → IsOpen text bytes memory l
        → EndsIn 2 (
            if has_key
            then alone (session_decrypt a.header.body_length l) (λ e.
              if calculate_checksum (take a.header.body_length e.body) == a.header.checksum
              then (if a.header.opcode == op_req_ride
                  then request_program text a e
                  else (if a.header.opcode == op_driver_join
                      then join_program text e
                      else client_program text arrivals e))
              else ended e)
            else ended l)
    keyed-EndsIn l false no_key ready = tt
    keyed-EndsIn l true established ready =
        let (l', e, still, ready') =
          decrypt-IsOpen text bytes memory a.header.body_length l established ready in
        rw e (checked-EndsIn l' still ready')

    turn-EndsIn :
        (l : Session) (has_key : Bool)
        → l.is_key_established ≡ has_key
        → IsOpen text bytes memory l
        → EndsIn 2 (
            if a.header.type == msg_type_handshake
            then alone (session_handshake a l) (client_program text arrivals)
            else (if a.header.type == msg_type_ride_req
                then (if has_key
                    then alone (session_decrypt a.header.body_length l) (λ e.
                      if calculate_checksum (take a.header.body_length e.body) == a.header.checksum
                      then (if a.header.opcode == op_req_ride
                          then request_program text a e
                          else (if a.header.opcode == op_driver_join
                              then join_program text e
                              else client_program text arrivals e))
                      else ended e)
                    else ended l)
                else (if a.header.opcode == op_driver_join
                    then join_program text l
                    else client_program text arrivals l)))
    turn-EndsIn l has_key same ready = elim (Bool-cases (a.header.type == msg_type_handshake)) [
      | inl hello ↦
          let (l', e, ready') = handshake-IsOpen text bytes memory a l ready in
          rw (hello, e) (next l' ready')
      | inr strange ↦ elim (Bool-cases (a.header.type == msg_type_ride_req)) [
        | inl request ↦ rw (strange, request) (keyed-EndsIn l has_key same ready)
        | inr other ↦ rw (strange, other) (after-EndsIn l ready)
      ]
    ]

  -- A connection enters at most two critical sections.
  client_program-EndsIn :
      (arrivals : List Arrival) (l : Session)
      → All (λ a. All IsByte a.bytes) arrivals
      → IsOpen text bytes memory l
      → EndsIn 2 (client_program text arrivals l)
  unfolding client_program
  client_program-EndsIn [] l all ready = tt
  client_program-EndsIn (a ∷ arrivals) l all ready =
      let next = λ (e : Session). client_program-EndsIn arrivals e all.1 in
      let filled = record l { body = overwrite a.bytes l.body } in
      let fill_ready : IsOpen text bytes memory filled = record {
        sized = ready.sized;
        drivers = ready.drivers;
        count = ready.count;
        body_size = length-overwrite a.bytes l.body ∙ ready.body_size;
        body_bytes = All-overwrite IsByte a.bytes l.body all.0 ready.body_bytes;
        key = ready.key;
      } in
      elim (Bool-cases (ltb 1024 a.header.body_length)) [
        | inl long ↦ rw long tt
        | inr short ↦ elim (Bool-cases (a.header.body_length == 0)) [
          | inl empty ↦
              rw (short, empty) (turn-EndsIn a arrivals next l l.is_key_established refl ready)
          | inr full ↦ elim (Bool-cases (length a.bytes == a.header.body_length)) [
            | inr cut ↦ rw (short, full, cut) tt
            | inl whole ↦
                rw
                  (
                    short,
                    full,
                    whole,
                    whole_body a.header.body_length a.bytes l.body short whole ready.body_size,
                  )
                  (turn-EndsIn a arrivals next filled l.is_key_established refl fill_ready)
          ]
        ]
      ]

  -- A worker enters at most two critical sections for each connection.
  pub worker_program-EndsIn :
      (clients : List (Option Accepted))
      → All IsAccepted clients
      → IsServing memory
      → EndsIn (2 * length clients) (worker_program text clients)
  unfolding worker_program
  worker_program-EndsIn [] all serving = tt
  worker_program-EndsIn (none ∷ clients) all serving =
      EndsIn-more (2 * length clients) _ _ (omega arith)
        (worker_program-EndsIn clients all.1 serving)
  worker_program-EndsIn (some client ∷ clients) all serving =
      let (size, old, arrived) = all.0 in
      let ready : IsOpen text bytes memory (new_session client.body) = record {
        sized = serving.sized;
        drivers = serving.drivers;
        count = serving.count;
        body_size = size;
        body_bytes = old;
        key = tt;
      } in
      then_run-EndsIn 2 (2 * length clients) _ _ _ (omega arith)
        (client_program-EndsIn client.arrivals (new_session client.body) arrived ready)
        (λ _. worker_program-EndsIn clients all.1 serving)
