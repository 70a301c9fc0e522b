-- ===== src/Server/Dispatcher/Ready.antt =====
-- The functions of the dispatcher on a connection that is ready, under whatever arrives.
use mathlib.Core.Path.{subst}
use ride_hailing_system.Prelude.{
  ℕ, suc, ◌^◌, ◌<◌, ◌≡◌, refl, ap, ◌∙◌, arith, Bool, true, false, Bool-cases, ◌⊎◌, inl, inr, List,
  [], ◌∷◌, ◌++◌, length, take, get_elem?, All, All-take, some, Exec, done, crash, ℤ, pos, negsuc,
  nat_abs,
}
use ride_hailing_system.Common.Rc4.Keystream.{IsByte, IsAscii}
use ride_hailing_system.Common.Rc4.RoundTrip.{rc4_crypt-IsCipher}
use ride_hailing_system.Common.Dh.{generate_private_key, fits_i64, dh_prime}
use ride_hailing_system.Common.Dh.Agreement.{
  calculate_public_key_total, calculate_shared_secret_total,
}
use ride_hailing_system.Common.Dh.SessionKey.{derive_session_key-IsKey}
use ride_hailing_system.Common.Protocol.{to_signed, overwrite}
use ride_hailing_system.Common.Protocol.Bytes.{length-overwrite, load_done, All-overwrite}
use ride_hailing_system.Server.Double.{Double, IsOrdered, HasExactFares}
use ride_hailing_system.Server.State.{SharedState, IsSized}
use ride_hailing_system.Server.RateLimit.{check_and_update_rate_limit}
use ride_hailing_system.Server.RateLimit.Tally.{check_and_update_rate_limit-IsSized}
use ride_hailing_system.Server.Ride.{Reply}
use ride_hailing_system.Server.Ride.Assign.{handle_ride_request_logic-Outcome, Outcome-driver_count}
use ride_hailing_system.Server.Coordinator.{join_answer}
use ride_hailing_system.Server.Coordinator.Join.{process_driver_join-IsJoined}
use ride_hailing_system.Server.Dispatcher.{
  Arrival, Connection, shake_hands, join_driver, serve_ride, decrypt,
}
use ride_hailing_system.Server.Dispatcher.Honest.{with_key, serve_ride_lem, serve_ride_crash}

-- Once a key is established, it is one that `rc4_crypt` can use.
abbrev pub HasKey : Bool → List ℕ → Type 0
HasKey false key = Unit
HasKey true key = All IsAscii key × (0 < length key)

module _ {W : Type 0} where
  -- The state has its sizes and a count of drivers that is not negative, the buffer holds 1024
  -- bytes, and the key suits the cipher.
  pub record IsReady (c : Connection W) : Type 0 where
    pub sized : IsSized W c.state
    pub drivers : ℕ
    pub count : c.state.driver_count ≡ pos drivers
    pub body_size : length c.body ≡ 1024
    pub body_bytes : All IsByte c.body
    pub key : HasKey c.is_key_established c.session_key

  -- On the state `s`, the limiter blocks some client at the time of one of the packets.
  pub record IsBlocked (arrivals : List Arrival) (s : SharedState W) : Type 0 where
    pub place : ℕ
    pub arrival : Arrival
    pub arrived : get_elem? arrivals place ≡ some arrival
    pub client : ℤ
    pub counted : SharedState W
    pub blocked : check_and_update_rate_limit client arrival.now s ≡ done (counted, true)

  -- A normal end, ready for the next connection; or a crash, and a client was blocked.
  abbrev pub Ends : List Arrival → SharedState W → Exec (Connection W) → Type 0
  Ends arrivals s m =
      ((c' : Connection W) × (m ≡ done c') × IsReady c') ⊎ ((m ≡ crash) × IsBlocked arrivals s)

  pub Ends-later :
      (a : Arrival) (arrivals : List Arrival) (s : SharedState W) (m : Exec (Connection W))
      → Ends arrivals s m
      → Ends (a ∷ arrivals) s m
  Ends-later a arrivals s m (inl e) = inl e
  Ends-later a arrivals s m (inr (e, b)) = inr (
    e,
    record {
      place = suc b.place;
      arrival = b.arrival;
      arrived = b.arrived;
      client = b.client;
      counted = b.counted;
      blocked = b.blocked;
    },
  )

fits_secret : (z : ℤ) → nat_abs z < dh_prime → fits_i64 z ≡ true
fits_secret (pos n) h = ground arith
fits_secret (negsuc n) h = ground arith

module _ {W : Type 0} ⦃d : Double W⦄ (text : Reply W → List ℕ) where
  -- A handshake with any key.
  pub shake_hands-IsReady :
      (a : Arrival) (c : Connection W)
      → IsReady c
      → (c' : Connection W) × (shake_hands text a c ≡ done c') × (c'.state ≡ c.state) × IsReady c'
  unfolding shake_hands
  shake_hands-IsReady a c ready =
      let my = generate_private_key a.key_rand in
      let (srv_pub, e1) = calculate_public_key_total my in
      let (key, e2) = load_done 8 0 c.body (omega (arith, ready.body_size)) in
      let (secret, e3, small) = calculate_shared_secret_total (to_signed (2 ^ 63) key) my in
      let (ascii, some_key, _, _) = derive_session_key-IsKey secret (fits_secret secret small) in
      (
        with_key text c secret srv_pub,
        rw (e1, e2, e3),
        refl,
        record {
          sized = ready.sized;
          drivers = ready.drivers;
          count = ready.count;
          body_size = ready.body_size;
          body_bytes = ready.body_bytes;
          key = (ascii, some_key);
        },
      )

  pub decrypt-IsReady :
      (n : ℕ) (c : Connection W)
      → c.is_key_established ≡ true
      → IsReady c
      → (c' : Connection W) × (decrypt text n c ≡ done c')
        × (c'.state ≡ c.state)
        × (c'.is_key_established ≡ true)
        × IsReady c'
  unfolding decrypt
  decrypt-IsReady n c established ready =
      let key = subst (λ b. HasKey b c.session_key) established ready.key in
      let (plain, p) =
        rc4_crypt-IsCipher (take n c.body) c.session_key (All-take IsByte n c.body ready.body_bytes)
          key.0 key.1 in
      (
        record c { body = overwrite plain c.body },
        rw p.forth,
        refl,
        established,
        record {
          sized = ready.sized;
          drivers = ready.drivers;
          count = ready.count;
          body_size = length-overwrite plain c.body ∙ ready.body_size;
          body_bytes = All-overwrite IsByte plain c.body p.bytes_out ready.body_bytes;
          key = ready.key;
        },
      )

  pub join_driver-IsReady :
      (c : Connection W)
      → IsReady c
      → (c' : Connection W) × (join_driver text c ≡ done c') × IsReady c'
  unfolding join_driver
  join_driver-IsReady c ready =
      let (id, s', _, e, _, sized, m, count) =
        process_driver_join-IsJoined c.body c.state ready.drivers (omega (arith, ready.body_size))
          ready.sized ready.count in
      (
        record c { state = s'; sent = c.sent ++ (join_answer ∷ []) },
        rw e,
        record {
          sized = sized;
          drivers = m;
          count = count;
          body_size = ready.body_size;
          body_bytes = ready.body_bytes;
          key = ready.key;
        },
      )

module _ {W : Type 0} ⦃d : Double W⦄ (o : IsOrdered W) (exact : HasExactFares W)
    (text : Reply W → List ℕ) (bytes : (reply : Reply W) → All IsByte (text reply)) where
  pub serve_ride-Ends :
      (a : Arrival) (arrivals : List Arrival) (c : Connection W)
      → c.is_key_established ≡ true
      → IsReady c
      → Ends (a ∷ arrivals) c.state (serve_ride text a c)
  serve_ride-Ends a arrivals c established ready =
      let (id, e) = load_done 4 0 c.body (omega (arith, ready.body_size)) in
      let client = to_signed (2 ^ 31) id in
      let key = subst (λ b. HasKey b c.session_key) established ready.key in
      let (s1, blocked, e1, sized, count, _) =
        check_and_update_rate_limit-IsSized client a.now c.state ready.sized in
      elim (Bool-cases blocked) [
        | inl is_blocked ↦
            let limited = e1 ∙ ap (λ b. done (s1, b)) is_blocked in
            inr (
              serve_ride_crash text a c id client s1 e refl limited,
              record {
                place = 0;
                arrival = a;
                arrived = refl;
                client = client;
                counted = s1;
                blocked = limited;
              },
            )
        | inr passes ↦
            let ((s', reply), served, outcome, sized') =
              handle_ride_request_logic-Outcome o exact s1 sized client a.rand1 a.rand2 in
            let (encrypted, p) =
              rc4_crypt-IsCipher (text reply) c.session_key (bytes reply) key.0 key.1 in
            inl (
              _,
              serve_ride_lem text a c id client s1 (s', reply) encrypted e refl
                  (e1 ∙ ap (λ b. done (s1, b)) passes) served p.forth,
              record {
                sized = sized';
                drivers = ready.drivers;
                count = Outcome-driver_count client s1 s' reply outcome ∙ count ∙ ready.count;
                body_size = ready.body_size;
                body_bytes = ready.body_bytes;
                key = ready.key;
              },
            )
      ]
