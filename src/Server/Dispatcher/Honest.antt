-- ===== src/Server/Dispatcher/Honest.antt =====
-- What the functions of `handle_client` do with the packets of an honest client.
use ride_hailing_system.Prelude.{
  ℕ, ◌^◌, ◌≡◌, arith, true, false, List, [], ◌∷◌, ◌++◌, length, done, crash, ℤ, pos,
}
use ride_hailing_system.Common.Rc4.{rc4_crypt}
use ride_hailing_system.Common.Dh.{derive_session_key}
use ride_hailing_system.Common.Dh.Exchange.{Exchange}
use ride_hailing_system.Common.Protocol.{op_response, to_signed, store_i64, load}
use ride_hailing_system.Common.Protocol.Bytes.{load-store_i64, take-append, overwrite-append}
use ride_hailing_system.Server.Double.{Double}
use ride_hailing_system.Server.State.{SharedState}
use ride_hailing_system.Server.RateLimit.{check_and_update_rate_limit}
use ride_hailing_system.Server.Ride.{Reply, handle_ride_request_logic}
use ride_hailing_system.Server.Dispatcher.{
  Arrival, Connection, ack_packet, response_packet, send_response_packet,
  process_ride_request_wrapper, shake_hands, decrypt, serve_ride,
}

module _ {W : Type 0} ⦃d : Double W⦄ (text : Reply W → List ℕ) where
  -- The connection once its session key is agreed.
  abbrev pub with_key : Connection W → ℤ → ℤ → Connection W
  with_key c secret srv_pub = record c {
    session_key = derive_session_key secret 64;
    is_key_established = true;
    sent = c.sent ++ (ack_packet srv_pub ∷ []);
  }

  pub shake_hands-Exchange :
      {rand_a : ℕ} (a : Arrival) (x : Exchange rand_a a.key_rand) (c : Connection W) (rest : List ℕ)
      → c.body ≡ store_i64 (pos x.pub_a) ++ rest
      → shake_hands text a c ≡ done (with_key c x.secret (pos x.pub_b))
  unfolding shake_hands
  shake_hands-Exchange a x c rest body =
      let (e1, e2) = load-store_i64 x.pub_a rest (omega (arith, x)) in
      rw (x.b_public, body, e1, e2, x.b_secret)

  pub decrypt_lem :
      (c : Connection W) (cipher plain rest : List ℕ)
      → c.body ≡ cipher ++ rest
      → rc4_crypt cipher c.session_key ≡ done plain
      → length plain ≡ length cipher
      → decrypt text (length cipher) c ≡ done (record c { body = plain ++ rest })
  unfolding decrypt
  decrypt_lem c cipher plain rest body e same =
      rw (body, take-append cipher rest, e, overwrite-append plain cipher rest same)

  pub serve_ride_lem :
      (a : Arrival) (c : Connection W) (id : ℕ) (client : ℤ) (s1 : SharedState W)
      (r : SharedState W × Reply W) (encrypted : List ℕ)
      → load 4 0 c.body ≡ done id
      → to_signed (2 ^ 31) id ≡ client
      → check_and_update_rate_limit client a.now c.state ≡ done (s1, false)
      → handle_ride_request_logic client a.rand1 a.rand2 s1 ≡ done r
      → rc4_crypt (text r.1) c.session_key ≡ done encrypted
      → serve_ride text a c
        ≡ done (record c {
          state = r.0;
          sent = c.sent ++ (response_packet op_response (text r.1) encrypted ∷ []);
        })
  unfolding serve_ride process_ride_request_wrapper send_response_packet
  serve_ride_lem a c id client s1 r encrypted el ei elimit eh ec = rw (el, ei, elimit, eh, ec)

  -- The refusal is a string literal, which the encryption writes to.
  pub serve_ride_crash :
      (a : Arrival) (c : Connection W) (id : ℕ) (client : ℤ) (s1 : SharedState W)
      → load 4 0 c.body ≡ done id
      → to_signed (2 ^ 31) id ≡ client
      → check_and_update_rate_limit client a.now c.state ≡ done (s1, true)
      → serve_ride text a c ≡ crash
  unfolding serve_ride process_ride_request_wrapper send_response_packet
  serve_ride_crash a c id client s1 el ei elimit = rw (el, ei, elimit)
