-- ===== src/Server/Dispatcher/Robust.antt =====
-- One connection of the dispatcher under whatever arrives.
use mathlib.Core.Path.{subst}
use ride_hailing_system.Prelude.{
  ℕ, ◌≡◌, refl, ◌∙◌, Bool, true, false, ltb, ◌==◌, if◌then◌else◌, Bool-cases, inl, inr, List, [],
  ◌∷◌, length, take, All, Exec, done, ◌>>=◌,
}
use ride_hailing_system.Common.Checksum.{calculate_checksum}
use ride_hailing_system.Common.Rc4.Keystream.{IsByte}
use ride_hailing_system.Common.Protocol.{
  msg_type_handshake, msg_type_ride_req, op_driver_join, op_req_ride, overwrite,
}
use ride_hailing_system.Common.Protocol.Bytes.{length-overwrite, All-overwrite}
use ride_hailing_system.Server.Double.{Double, IsOrdered, HasExactFares}
use ride_hailing_system.Server.State.{SharedState}
use ride_hailing_system.Server.Ride.{Reply}
use ride_hailing_system.Server.Dispatcher.{
  Arrival, Connection, shake_hands, join_driver, serve_ride, decrypt, handle_client,
}
use ride_hailing_system.Server.Dispatcher.Handshake.{whole_body}
use ride_hailing_system.Server.Dispatcher.Ready.{
  IsReady, Ends, Ends-later, shake_hands-IsReady, decrypt-IsReady, join_driver-IsReady,
  serve_ride-Ends,
}

module _ {W : Type 0} ⦃d : Double W⦄ (o : IsOrdered W) (exact : HasExactFares W)
    (text : Reply W → List ℕ) (bytes : (reply : Reply W) → All IsByte (text reply)) where
  -- A turn of the loop, once the packet is in the buffer; `k` is what the loop does next.
  abbrev turn_of :
      Arrival → (Connection W → Exec (Connection W)) → Connection W → Exec (Connection W)
  turn_of a k c =
      let after = λ (e : Connection W).
        if a.header.opcode == op_driver_join then join_driver text e else k e in
      let checked_ride = decrypt text a.header.body_length c >>= λ e.
      if calculate_checksum (take a.header.body_length e.body) == a.header.checksum
      then (if a.header.opcode == op_req_ride then serve_ride text a e else after e)
      else done e in
      let ride = if c.is_key_established then checked_ride else done c in
      if a.header.type == msg_type_handshake
      then (shake_hands text a c >>= k)
      else (if a.header.type == msg_type_ride_req then ride else after c)

  module _ (a : Arrival) (arrivals : List Arrival) (s : SharedState W)
      (k : Connection W → Exec (Connection W))
      (next : (c : Connection W) → c.state ≡ s → IsReady c → Ends (a ∷ arrivals) s (k c)) where
    after-Ends :
        (c : Connection W)
        → c.state ≡ s
        → IsReady c
        → Ends
            (a ∷ arrivals)
            s
            (if a.header.opcode == op_driver_join then join_driver text c else k c)
    after-Ends c same ready = elim (Bool-cases (a.header.opcode == op_driver_join)) [
      | inl joins ↦ rw joins (inl (join_driver-IsReady text c ready))
      | inr other ↦ rw other (next c same ready)
    ]

    ride-Ends :
        (c : Connection W)
        → c.state ≡ s
        → c.is_key_established ≡ true
        → IsReady c
        → Ends (a ∷ arrivals) s (
            if a.header.opcode == op_req_ride
            then serve_ride text a c
            else (if a.header.opcode == op_driver_join then join_driver text c else k c))
    ride-Ends c same established ready = elim (Bool-cases (a.header.opcode == op_req_ride)) [
      | inl request ↦ rw request (
          subst (λ state. Ends (a ∷ arrivals) state (serve_ride text a c)) same
            (serve_ride-Ends o exact text bytes a arrivals c established ready))
      | inr other ↦ rw other (after-Ends c same ready)
    ]

    checked-Ends :
        (c : Connection W) (intact : Bool)
        → c.state ≡ s
        → c.is_key_established ≡ true
        → IsReady c
        → Ends (a ∷ arrivals) s (
            if intact
            then (if a.header.opcode == op_req_ride
                then serve_ride text a c
                else (if a.header.opcode == op_driver_join then join_driver text c else k c))
            else done c)
    checked-Ends c true same established ready = ride-Ends c same established ready
    checked-Ends c false same established ready = inl (c, refl, ready)

    -- With and without a key.
    keyed-Ends :
        (c : Connection W) (has_key : Bool)
        → c.state ≡ s
        → c.is_key_established ≡ has_key
        → IsReady c
        → Ends (a ∷ arrivals) s (
            if has_key
            then (decrypt text a.header.body_length c >>= λ e.
                if calculate_checksum (take a.header.body_length e.body) == a.header.checksum
                then (if a.header.opcode == op_req_ride
                    then serve_ride text a e
                    else (if a.header.opcode == op_driver_join then join_driver text e else k e))
                else done e)
            else done c)
    keyed-Ends c false same no_key ready = inl (c, refl, ready)
    keyed-Ends c true same established ready =
        let (c', e, kept, still, ready') =
          decrypt-IsReady text a.header.body_length c established ready in
        rw e (
          checked-Ends c'
            (calculate_checksum (take a.header.body_length c'.body) == a.header.checksum)
            (kept ∙ same) still ready')

    turn-Ends : (c : Connection W) → c.state ≡ s → IsReady c → Ends (a ∷ arrivals) s (turn_of a k c)
    turn-Ends c same ready = elim (Bool-cases (a.header.type == msg_type_handshake)) [
      | inl hello ↦
          let (c', e, kept, ready') = shake_hands-IsReady text a c ready in
          rw (hello, e) (next c' (kept ∙ same) ready')
      | inr strange ↦ elim (Bool-cases (a.header.type == msg_type_ride_req)) [
        | inr other ↦ rw (strange, other) (after-Ends c same ready)
        | inl ride ↦ rw (strange, ride) (keyed-Ends c c.is_key_established same refl ready)
      ]
    ]

  -- On a connection that is ready, whatever bytes arrive in whatever packets: the connection ends
  -- without a crash and ready again, with a state whose arrays have their sizes; or it crashes, and
  -- then the limiter blocks a client on the state that the connection began with.
  pub handle_client-Ends :
      (arrivals : List Arrival) (c : Connection W)
      → All (λ a. All IsByte a.bytes) arrivals
      → IsReady c
      → Ends arrivals c.state (handle_client text arrivals c)
  unfolding handle_client
  handle_client-Ends [] c all ready = inl (c, refl, ready)
  handle_client-Ends (a ∷ arrivals) c all ready =
      let filled = record c { body = overwrite a.bytes c.body } in
      let next = λ (e : Connection W) (same : e.state ≡ c.state) (ready' : IsReady e).
        Ends-later a arrivals c.state (handle_client text arrivals e) (
          subst (λ s. Ends arrivals s (handle_client text arrivals e)) same
            (handle_client-Ends arrivals e all.1 ready')) in
      let fill_ready : IsReady filled = record {
        sized = ready.sized;
        drivers = ready.drivers;
        count = ready.count;
        body_size = length-overwrite a.bytes c.body ∙ ready.body_size;
        body_bytes = All-overwrite IsByte a.bytes c.body all.0 ready.body_bytes;
        key = ready.key;
      } in
      let turn =
        λ (e : Connection W). turn-Ends a arrivals c.state (handle_client text arrivals) next e in
      elim (Bool-cases (ltb 1024 a.header.body_length)) [
        | inl long ↦ rw long (inl (c, refl, ready))
        | inr short ↦ elim (Bool-cases (a.header.body_length == 0)) [
          | inl empty ↦ rw (short, empty) (turn c refl ready)
          | inr full ↦ elim (Bool-cases (length a.bytes == a.header.body_length)) [
            | inl whole ↦
                rw
                  (
                    short,
                    full,
                    whole,
                    whole_body a.header.body_length a.bytes c.body short whole ready.body_size,
                  )
                  (turn filled refl fill_ready)
            | inr cut ↦ rw (short, full, cut) (inl (c, refl, ready))
          ]
        ]
      ]
