-- ===== src/Server/System/Steps.antt =====
-- The parts of a program of `handle_client` (src/server/dispatcher.c) that has the memory to itself.
use ride_hailing_system.Prelude.{
  ℕ, ◌≡◌, ◌^◌, refl, Bool, true, false, if◌then◌else◌, List, take, Exec, done, ◌>>=◌, ℤ, inl, inr,
  Exec-cases,
}
use ride_hailing_system.Common.Protocol.{op_response, Packet, to_signed, load}
use ride_hailing_system.Common.Rc4.{rc4_crypt}
use ride_hailing_system.Common.Dh.{
  generate_private_key, calculate_public_key, calculate_shared_secret,
}
use ride_hailing_system.Server.Ride.{handle_ride_request_logic}
use ride_hailing_system.Server.RateLimit.{check_and_update_rate_limit}
use ride_hailing_system.Server.Coordinator.{process_driver_join}
use ride_hailing_system.Server.Double.{Double}
use ride_hailing_system.Server.State.{SharedState}
use ride_hailing_system.Server.Ride.{Reply}
use ride_hailing_system.Server.Dispatcher.{
  Arrival, Connection, Message, array, literal, send_response_packet, err_msg,
  process_ride_request_wrapper, shake_hands, decrypt, serve_ride, join_driver,
}
use ride_hailing_system.Server.System.{
  Program, Session, alone, session_handshake, session_decrypt, request_program, join_program,
  respond, add_sent, run_alone, ride_call,
}

module _ {W : Type 0} ⦃d : Double W⦄ where
  -- The connection of a session over a memory.
  abbrev pub connect : SharedState W → Session → Connection W
  connect memory l = record {
    state = memory;
    body = l.body;
    session_key = l.session_key;
    is_key_established = l.is_key_established;
    sent = l.sent;
  }

  abbrev pub run_session : Program W Session → SharedState W → Exec (Connection W)
  run_session p memory = run_alone p memory >>= λ r. done (connect r.0 r.1)

module _ {W : Type 0} ⦃d : Double W⦄ (text : Reply W → List ℕ) where
  module _ (memory : SharedState W) (k : Session → Program W Session)
      (rest : Connection W → Exec (Connection W))
      (same : (l : Session) → run_session (k l) memory ≡ rest (connect memory l)) where
    pub alone-session_handshake :
        (a : Arrival) (l : Session)
        → run_session (alone (session_handshake a l) k) memory
          ≡ (shake_hands text a (connect memory l) >>= rest)
    unfolding session_handshake shake_hands run_alone
    alone-session_handshake a l =
        let my = generate_private_key a.key_rand in
        elim (Exec-cases (calculate_public_key my)) [
          | inr e ↦ rw e refl
          | inl (srv_pub, e) ↦ elim (Exec-cases (load 8 0 l.body)) [
            | inr e1 ↦ rw (e, e1) refl
            | inl (key, e1) ↦
                elim (Exec-cases (calculate_shared_secret (to_signed (2 ^ 63) key) my)) [
                  | inr e2 ↦ rw (e, e1, e2) refl
                  | inl (secret, e2) ↦ rw (e, e1, e2) (same _)
                ]
          ]
        ]

    pub alone-session_decrypt :
        (n : ℕ) (l : Session)
        → run_session (alone (session_decrypt n l) k) memory
          ≡ (decrypt text n (connect memory l) >>= rest)
    unfolding session_decrypt decrypt run_alone
    alone-session_decrypt n l = elim (Exec-cases (rc4_crypt (take n l.body) l.session_key)) [
      | inr e ↦ rw e refl
      | inl (plain, e) ↦ rw e (same _)
    ]

  abbrev send_back : Message → Session → SharedState W → Exec (SharedState W × Packet)
  send_back m l memory = send_response_packet m op_response l.session_key >>= λ p. done (memory, p)

  respond_alone :
      (m : Message) (l : Session) (memory : SharedState W)
      → run_session (respond text m l) memory
        ≡ (send_back m l memory >>= λ r. done (connect r.0 (add_sent l r.1)))
  unfolding respond run_alone
  respond_alone m l memory = elim (Exec-cases (send_response_packet m op_response l.session_key)) [
    | inr e ↦ rw e refl
    | inl (p, e) ↦ rw e refl
  ]

  -- What follows the limiter, on the memory that it leaves.
  abbrev answer : Arrival → Session → SharedState W → Bool → ℤ → Exec (SharedState W × Packet)
  answer a l memory blocked client_id =
      if blocked
      then send_back (literal err_msg) l memory
      else (handle_ride_request_logic client_id a.rand1 a.rand2 memory >>= λ r.
          send_back (array (text r.1)) l r.0)

  served_alone :
      (a : Arrival) (l : Session) (memory : SharedState W) (blocked : Bool) (client_id : ℤ)
      → run_session
          (if blocked
            then respond text (literal err_msg) l
            else ride_call client_id a.rand1 a.rand2 λ reply. respond text (array (text reply)) l)
          memory
        ≡ (answer a l memory blocked client_id >>= λ r. done (connect r.0 (add_sent l r.1)))
  unfolding run_alone
  served_alone a l memory true client_id = respond_alone (literal err_msg) l memory
  served_alone a l memory false client_id =
      elim (Exec-cases (handle_ride_request_logic client_id a.rand1 a.rand2 memory)) [
        | inr e ↦ rw e refl
        | inl (r, e) ↦ rw e (respond_alone (array (text r.1)) l r.0)
      ]

  pub request_alone :
      (a : Arrival) (l : Session) (memory : SharedState W)
      → run_session (request_program text a l) memory ≡ serve_ride text a (connect memory l)
  unfolding request_program run_alone serve_ride process_ride_request_wrapper
  request_alone a l memory = elim (Exec-cases (load 4 0 l.body)) [
    | inr e ↦ rw e refl
    | inl (id, e) ↦
        let client = to_signed (2 ^ 31) id in
        elim (Exec-cases (check_and_update_rate_limit client a.now memory)) [
          | inr e1 ↦ rw (e, e1) refl
          | inl ((memory', blocked), e1) ↦ rw (e, e1) (served_alone a l memory' blocked client)
        ]
  ]

  pub join_alone :
      (l : Session) (memory : SharedState W)
      → run_session (join_program text l) memory ≡ join_driver text (connect memory l)
  unfolding join_program run_alone join_driver
  join_alone l memory = elim (Exec-cases (process_driver_join l.body memory)) [
    | inr e ↦ rw e refl
    | inl (memory', e) ↦ rw e refl
  ]
