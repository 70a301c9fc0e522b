-- ===== src/Client/Session/Run.antt =====
-- The exchange of a client and the dispatcher, step by step.
use ride_hailing_system.Prelude.{
  ℕ, ◌%◌, ◌^◌, ◌<◌, ◌≡◌, refl, sym, ◌∙◌, ap, arith, false, List, [], ◌∷◌, ◌++◌, length, done, ◌>>=◌,
  ℤ, pos,
}
use ride_hailing_system.Common.Checksum.{calculate_checksum}
use ride_hailing_system.Common.Rc4.{rc4_crypt}
use ride_hailing_system.Common.Rc4.RoundTrip.{rc4_crypt-IsCipher}
use ride_hailing_system.Common.Dh.{derive_session_key}
use ride_hailing_system.Common.Dh.Exchange.{Exchange, exchange}
use ride_hailing_system.Common.Dh.SessionKey.{derive_session_key-IsKey}
use ride_hailing_system.Common.Protocol.{
  op_response, to_signed, store_i64, overwrite, load, request_bytes,
}
use ride_hailing_system.Common.Protocol.Bytes.{
  overwrite_split, length-overwrite, length-store_i64, take-append, to_signed_small,
}
use ride_hailing_system.Common.Protocol.Layout.{
  IsRequest, length-request_bytes, request_bytes-IsByte, load-request_bytes,
}
use ride_hailing_system.Server.Double.{Double, IsOrdered, HasExactFares}
use ride_hailing_system.Server.State.{SharedState, IsSized}
use ride_hailing_system.Server.RateLimit.{check_and_update_rate_limit}
use ride_hailing_system.Server.Ride.{Reply, result_of, handle_ride_request_logic}
use ride_hailing_system.Server.Ride.Assign.{handle_ride_request_logic-Outcome}
use ride_hailing_system.Server.Dispatcher.{
  serve_ride, Arrival, Connection, ack_packet, response_packet, handle_client,
}
use ride_hailing_system.Server.Dispatcher.Turns.{
  received, handle_client-handshake, handle_client-ride,
}
use ride_hailing_system.Server.Dispatcher.Honest.{
  with_key, shake_hands-Exchange, decrypt_lem, serve_ride_lem,
}
use ride_hailing_system.Client.Core.{hello_packet, ride_packet, request_data, perform_ride_request}
use ride_hailing_system.Client.Core.Honest.{
  perform_dh_handshake-Exchange, request_packet_lem, read_response_lem, perform_ride_request_lem,
  request_data-client_id,
}
use ride_hailing_system.Client.Session.{
  IsText, Chances, HasBuffers, arrives, link_of, accepted, Session,
}

module _ {W : Type 0} ⦃d : Double W⦄ (text : Reply W → List ℕ) (q : Chances)
    (x : Exchange q.client_rand q.server_rand) (s : SharedState W) where
  abbrev pub key : List ℕ
  key = derive_session_key x.secret 64

  -- The connection after the handshake.
  abbrev pub greeted : Connection W
  greeted =
      with_key text
        (record (accepted q s) { body = overwrite (store_i64 (pos x.pub_a)) q.server_body })
        x.secret (pos x.pub_b)

  pub server_greets :
      (arrivals : List Arrival)
      → length q.server_body ≡ 1024
      → handle_client text (arrives q (hello_packet (pos x.pub_a)) ∷ arrivals) (accepted q s)
        ≡ handle_client text arrivals greeted
  server_greets arrivals size =
      let hello = arrives q (hello_packet (pos x.pub_a)) in
      let len = length-store_i64 x.pub_a in
      let (rest, e) = overwrite_split (store_i64 (pos x.pub_a)) q.server_body (omega arith) in
      handle_client-handshake text hello arrivals (accepted q s) refl (omega arith) (omega arith)
        len size
      ∙ ap (λ m. m >>= handle_client text arrivals)
          (shake_hands-Exchange text hello x (received text hello arrivals (accepted q s)) rest e)

  module _ (plain cipher : List ℕ) where
    -- The connection with the decrypted request in its buffer.
    abbrev pub opened : List ℕ → Connection W
    opened rest = record (received text (arrives q (ride_packet plain cipher)) [] greeted) {
      body = plain ++ rest;
    }

    pub server_decrypts :
        length q.server_body ≡ 1024
        → length plain ≡ 24
        → length cipher ≡ 24
        → rc4_crypt cipher key ≡ done plain
        → (rest : List ℕ) × (handle_client text (arrives q (ride_packet plain cipher) ∷ []) greeted
            ≡ serve_ride text (arrives q (ride_packet plain cipher)) (opened rest))
    server_decrypts size size_p size_c ec =
        let a = arrives q (ride_packet plain cipher) in
        let buffer = overwrite (store_i64 (pos x.pub_a)) q.server_body in
        let room : length buffer ≡ 1024 =
          length-overwrite (store_i64 (pos x.pub_a)) q.server_body ∙ size in
        let (rest, e) = overwrite_split cipher buffer (omega arith) in
        let same : length plain ≡ length cipher = omega arith in
        let decrypts =
          rw (← same) at
            (decrypt_lem text (received text a [] greeted) cipher plain rest e ec same) in
        (
          rest,
          handle_client-ride text a [] greeted (opened rest) refl refl (omega arith) (omega arith)
              (omega arith) room refl decrypts (ap calculate_checksum (take-append plain rest)),
        )

    module _ (client : ℤ) (id : ℕ) (s1 : SharedState W)
        (loads : (rest : List ℕ) → load 4 0 (plain ++ rest) ≡ done id)
        (is_client : to_signed (2 ^ 31) id ≡ client) where
      server_serves :
          (r : SharedState W × Reply W) (encrypted rest : List ℕ)
          → check_and_update_rate_limit client q.now s ≡ done (s1, false)
          → handle_ride_request_logic client q.rand1 q.rand2 s1 ≡ done r
          → rc4_crypt (text r.1) key ≡ done encrypted
          → (c : Connection W) × (serve_ride text
                (arrives q (ride_packet plain cipher))
                (opened rest)
              ≡ done c)
            × (c.state ≡ r.0)
            × (c.sent
                ≡ ack_packet (pos x.pub_b)
                  ∷ (response_packet op_response (text r.1) encrypted ∷ []))
      server_serves r encrypted rest passed served et = (
        _,
        serve_ride_lem text (arrives q (ride_packet plain cipher)) (opened rest) id client s1 r
            encrypted (loads rest) is_client passed served et,
        refl,
        refl,
      )

  module _ (is_text : IsText text) (client : ℤ) (lat lon cipher encrypted : List ℕ)
      (reply : Reply W) where
    abbrev plain : List ℕ
    plain = request_bytes (request_data client lat lon)

    client_runs :
        HasBuffers q
        → rc4_crypt plain key ≡ done cipher
        → rc4_crypt encrypted key ≡ done (text reply)
        → length encrypted ≡ length (text reply)
        → (rest : List ℕ) × (perform_ride_request client lat lon q.client_rand q.resp_body
              (link_of
                (ack_packet (pos x.pub_b))
                (response_packet op_response (text reply) encrypted))
              q.msg_buffer
            ≡ done (record {
              result = result_of reply;
              msg_buffer = text reply ++ (0 ∷ rest);
              sent = hello_packet (pos x.pub_a) ∷ (ride_packet plain cipher ∷ []);
            }))
    client_runs buffers ec et same =
        let ack = ack_packet (pos x.pub_b) in
        let response = response_packet op_response (text reply) encrypted in
        let link = link_of ack response in
        let small : length (text reply) % 2 ^ 32 ≡ length encrypted =
          omega (arith, is_text.short reply) in
        let (rest, er) =
          read_response_lem key q.msg_buffer encrypted (text reply)
            (record { header = response.header; bytes = encrypted }) refl small
            (omega (arith, is_text.some_text reply)) (omega (arith, is_text.short reply))
            buffers.msg_size et (sym same) refl (is_text.chars reply) in
        (
          rest,
          perform_ride_request_lem client lat lon q.client_rand q.resp_body q.msg_buffer key
              (text reply ++ (0 ∷ rest)) link (hello_packet (pos x.pub_a))
              (ride_packet plain cipher) (result_of reply)
              (perform_dh_handshake-Exchange q.client_rand x q.resp_body link
                (record { header = ack.header; bytes = ack.body }) buffers.resp_size refl refl refl
                refl)
              (request_packet_lem key cipher (request_data client lat lon) ec) refl
              (er ∙ ap (λ v. done (v, text reply ++ (0 ∷ rest))) (is_text.verdict reply)),
        )

module _ {W : Type 0} ⦃d : Double W⦄ (o : IsOrdered W) (exact : HasExactFares W)
    (text : Reply W → List ℕ) (is_text : IsText text) where
  -- A client with an identifier below 2^31 whose handshake packet and ride request reach the
  -- dispatcher, and that receives what the dispatcher answers: if the limiter lets the request pass
  -- and leaves a state of the right sizes, and the texts of the replies are such as the client can
  -- tell apart, then the server serves this client's request on that state (with one of the two
  -- outcomes of a ride request), its state after the connection is the one that the ride service
  -- left, it has sent exactly the two packets that the client received, and the client ends with
  -- the outcome as its result and the text of the reply in its buffer, after sending exactly the
  -- two packets that the server received.
  pub perform_ride_request-Session :
      (client : ℕ) (lat lon : List ℕ) (q : Chances) (s s1 : SharedState W)
      → client < 2 ^ 31
      → IsRequest (request_data (pos client) lat lon)
      → HasBuffers q
      → IsSized W s1
      → check_and_update_rate_limit (pos client) q.now s ≡ done (s1, false)
      → Session text (pos client) lat lon q s s1
  perform_ride_request-Session client lat lon q s s1 small fits buffers sized passed =
      let x = exchange q.client_rand q.server_rand in
      let key = derive_session_key x.secret 64 in
      let (ascii, some_key, _, _) = derive_session_key-IsKey x.secret x.secret_fits in
      let body = request_data (pos client) lat lon in
      let bytes = request_bytes body in
      let size = length-request_bytes body fits in
      let (cipher, c) =
        rc4_crypt-IsCipher bytes key (request_bytes-IsByte body fits) ascii some_key in
      let (r, served, outcome, _) =
        handle_ride_request_logic-Outcome o exact s1 sized (pos client) q.rand1 q.rand2 in
      let (encrypted, t) = rc4_crypt-IsCipher (text r.1) key (is_text.bytes r.1) ascii some_key in
      let id : body.client_id ≡ client = request_data-client_id client lat lon small in
      let loads : (rest : List ℕ) → load 4 0 (bytes ++ rest) ≡ done client =
        λ rest. load-request_bytes body rest (omega (arith, id)) ∙ ap done id in
      let (old, opens) =
        server_decrypts text q x s bytes cipher buffers.body_size size (c.same_length ∙ size)
          c.back in
      let (server, e, state_after, server_sent) =
        server_serves text q x s bytes cipher (pos client) client s1 loads
          (to_signed_small (2 ^ 31) client small) r encrypted old passed served t.forth in
      let (rest, client_run) =
        client_runs text q x s is_text (pos client) lat lon cipher encrypted r.1 buffers c.forth
          t.back t.same_length in
      record {
        hello = hello_packet (pos x.pub_a);
        ack = ack_packet (pos x.pub_b);
        request = ride_packet bytes cipher;
        response = response_packet op_response (text r.1) encrypted;
        r = r;
        rest = rest;
        server = server;
        served = served;
        outcome = outcome;
        client_run = client_run;
        server_run =
            server_greets text q x s (arrives q (ride_packet bytes cipher) ∷ []) buffers.body_size
            ∙ opens
            ∙ e;
        state_after = state_after;
        server_sent = server_sent;
      }
