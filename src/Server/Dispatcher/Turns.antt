-- ===== src/Server/Dispatcher/Turns.antt =====
-- The turns of `handle_client` for the packets of an honest client.
use ride_hailing_system.Prelude.{
  ℕ, ◌<◌, ◌≤◌, ◌≡◌, arith, true, false, ltb, ◌==◌, List, ◌∷◌, length, take, done, ◌>>=◌,
}
use ride_hailing_system.Common.Checksum.{calculate_checksum}
use ride_hailing_system.Common.Protocol.{
  msg_type_handshake, msg_type_ride_req, op_req_ride, overwrite,
}
use ride_hailing_system.Server.Double.{Double}
use ride_hailing_system.Server.Ride.{Reply}
use ride_hailing_system.Server.Dispatcher.Handshake.{whole_body}
use ride_hailing_system.Server.Dispatcher.{
  Arrival, Connection, handle_client, shake_hands, decrypt, serve_ride,
}

module _ {W : Type 0} ⦃d : Double W⦄ (text : Reply W → List ℕ) (a : Arrival)
    (arrivals : List Arrival) (c : Connection W) where
  -- The connection with the body of the packet in its buffer.
  abbrev pub received : Connection W
  received = record c { body = overwrite a.bytes c.body }

  pub handle_client-handshake :
      a.header.type ≡ msg_type_handshake
      → 0 < a.header.body_length
      → a.header.body_length ≤ 1024
      → length a.bytes ≡ a.header.body_length
      → length c.body ≡ 1024
      → handle_client text (a ∷ arrivals) c
        ≡ (shake_hands text a received >>= handle_client text arrivals)
  unfolding handle_client
  handle_client-handshake is_hello some_body short whole size =
      let e1 : ltb 1024 a.header.body_length ≡ false = ground arith in
      let e2 : (a.header.body_length == 0) ≡ false = ground arith in
      let e3 : (length a.bytes == a.header.body_length) ≡ true = ground arith in
      let e4 : (a.header.type == msg_type_handshake) ≡ true = ground arith in
      rw (e1, e2, e3, whole_body a.header.body_length a.bytes c.body e1 e3 size, e4)

  pub handle_client-ride :
      (e : Connection W)
      → a.header.type ≡ msg_type_ride_req
      → a.header.opcode ≡ op_req_ride
      → 0 < a.header.body_length
      → a.header.body_length ≤ 1024
      → length a.bytes ≡ a.header.body_length
      → length c.body ≡ 1024
      → c.is_key_established ≡ true
      → decrypt text a.header.body_length received ≡ done e
      → calculate_checksum (take a.header.body_length e.body) ≡ a.header.checksum
      → handle_client text (a ∷ arrivals) c ≡ serve_ride text a e
  unfolding handle_client
  handle_client-ride e is_ride is_request some_body short whole size has_key plain intact =
      let e1 : ltb 1024 a.header.body_length ≡ false = ground arith in
      let e2 : (a.header.body_length == 0) ≡ false = ground arith in
      let e3 : (length a.bytes == a.header.body_length) ≡ true = ground arith in
      let e4 : (a.header.type == msg_type_handshake) ≡ false = ground arith in
      let e5 : (a.header.type == msg_type_ride_req) ≡ true = ground arith in
      let e6 : (a.header.opcode == op_req_ride) ≡ true = ground arith in
      let e7 : (calculate_checksum (take a.header.body_length e.body) == a.header.checksum) ≡ true =
        ground arith in
      rw (
        e1,
        e2,
        e3,
        whole_body a.header.body_length a.bytes c.body e1 e3 size,
        e4,
        e5,
        plain,
        e7,
        e6,
        has_key,
      )
