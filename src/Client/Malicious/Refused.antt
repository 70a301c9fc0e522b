-- ===== src/Client/Malicious/Refused.antt =====
-- The packet of src/client/malicious_client.c at the dispatcher.
use ride_hailing_system.Prelude.{
  length, ℕ, ◌≡◌, refl, arith, true, false, ◌==◌, none, List, [], ◌∷◌, done, ℤ, negsuc,
}
use ride_hailing_system.Common.Rc4.RoundTrip.{rc4_crypt-IsCipher}
use ride_hailing_system.Common.Protocol.{Packet, msg_type_handshake, request_bytes}
use ride_hailing_system.Common.Protocol.Layout.{IsRequest, request_bytes-IsByte}
use ride_hailing_system.Server.Double.{Double}
use ride_hailing_system.Server.State.{SharedState}
use ride_hailing_system.Server.Ride.{Reply}
use ride_hailing_system.Server.Dispatcher.{Arrival, Connection, new_connection, handle_client}
use ride_hailing_system.Server.Dispatcher.Handshake.{IsUntouched, handle_client-IsUntouched}
use ride_hailing_system.Client.Malicious.{
  wrong_secret_key, forged_data, forged_packet, read_reply, perform_malicious_request,
}

module _ {W : Type 0} ⦃d : Double W⦄ (text : Reply W → List ℕ) where
  -- The client sends `packet`, which leaves the server as it was; the closed connection is the
  -- client's failure.
  pub record IsRefused (client : ℤ) (old_type old_body_type : ℕ) (lat lon msg_buffer : List ℕ)
      (now key_rand rand1 rand2 : ℕ) (body : List ℕ) (s : SharedState W) : Type 0 where
    pub packet : Packet
    pub server : Connection W
    pub client_run :
        perform_malicious_request client old_type old_body_type lat lon true none msg_buffer
        ≡ done (packet, negsuc 0, msg_buffer)
    pub server_run :
        handle_client text
          (record {
            header = packet.header;
            bytes = packet.body;
            now = now;
            key_rand = key_rand;
            rand1 = rand1;
            rand2 = rand2;
          }
            ∷ [])
          (new_connection body s)
        ≡ done server
    pub untouched : IsUntouched (new_connection body s) server

  -- Unless the old memory in the type of the header is that of a handshake: the packet of the
  -- malicious client, with its wrong key and its right checksum, leaves the shared state as it was
  -- and gets no answer, on a new connection whose buffer holds any 1024 bytes; and without an
  -- answer the client ends with -1.
  pub perform_malicious_request-IsRefused :
      (client : ℤ) (old_type old_body_type : ℕ) (lat lon msg_buffer : List ℕ)
      (now key_rand rand1 rand2 : ℕ) (body : List ℕ) (s : SharedState W)
      → IsRequest (forged_data client old_body_type lat lon)
      → (old_type == msg_type_handshake) ≡ false
      → length body ≡ 1024
      → IsRefused client old_type old_body_type lat lon msg_buffer now key_rand rand1 rand2 body s
  unfolding perform_malicious_request read_reply
  perform_malicious_request-IsRefused client old_type old_body_type lat lon msg_buffer now key_rand
        rand1 rand2 body s fits strange size =
      let request = forged_data client old_body_type lat lon in
      let (encrypted, p) =
        rc4_crypt-IsCipher (request_bytes request) wrong_secret_key
          (request_bytes-IsByte request fits) (omega arith) (omega arith) in
      let packet = forged_packet old_type (request_bytes request) encrypted in
      let arrival : Arrival = record {
        header = packet.header;
        bytes = packet.body;
        now = now;
        key_rand = key_rand;
        rand1 = rand1;
        rand2 = rand2;
      } in
      let (server, run, untouched) =
        handle_client-IsUntouched text (arrival ∷ []) (new_connection body s) ((strange, refl), tt)
          refl size in
      record {
        packet = packet;
        server = server;
        client_run = rw p.forth;
        server_run = run;
        untouched = untouched;
      }
