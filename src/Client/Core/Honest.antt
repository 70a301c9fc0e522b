-- ===== src/Client/Core/Honest.antt =====
-- The functions of the client against an honest server.
use ride_hailing_system.Prelude.{
  ℕ, ◌^◌, ◌<◌, ◌≡◌, refl, arith, true, false, ltb, ◌==◌, some, List, [], ◌∷◌, ◌++◌, length, take,
  All, done, ℤ, pos, negsuc,
}
use ride_hailing_system.Common.Checksum.{calculate_checksum}
use ride_hailing_system.Common.Rc4.{rc4_crypt}
use ride_hailing_system.Common.Dh.{derive_session_key}
use ride_hailing_system.Common.Dh.Exchange.{Exchange}
use ride_hailing_system.Common.Protocol.{
  msg_type_handshake_ack, Packet, store_i64, overwrite, RideRequestData, request_bytes,
}
use ride_hailing_system.Common.Protocol.Bytes.{
  overwrite_split, overwrite_room, load-store_i64, length-store_i64, take-append, overwrite-append,
  write-append,
}
use ride_hailing_system.Server.Ride.Text.{no_drivers_text}
use ride_hailing_system.Client.Core.{
  Answer, Link, hello_packet, accept_ack, perform_dh_handshake, ride_packet, request_data, to_u32,
  request_packet, request_ride, perform_ride_request, c_string, judge, contains, is_prefix,
  ride_confirmed, read_response,
}

pub perform_dh_handshake-Exchange :
    (rand : ℕ) {rand_b : ℕ} (x : Exchange rand rand_b) (resp_body : List ℕ) (link : Link)
    (a : Answer)
    → length resp_body ≡ 8
    → link.hello_sent ≡ true
    → link.ack ≡ some a
    → a.header.type ≡ msg_type_handshake_ack
    → a.bytes ≡ store_i64 (pos x.pub_b)
    → perform_dh_handshake rand resp_body link
      ≡ done (hello_packet (pos x.pub_a), some (derive_session_key x.secret 64))
unfolding perform_dh_handshake accept_ack
perform_dh_handshake-Exchange rand x resp_body link a size sent ack is_ack bytes =
    let size_b : length (store_i64 (pos x.pub_b)) ≡ 8 = length-store_i64 x.pub_b in
    let (rest, es) = overwrite_split (store_i64 (pos x.pub_b)) resp_body (omega arith) in
    let (e1, e2) = load-store_i64 x.pub_b rest (omega (arith, x)) in
    let type_ok : (a.header.type == msg_type_handshake_ack) ≡ true = ground arith in
    let not_empty : (length (store_i64 (pos x.pub_b)) == 0) ≡ false = ground arith in
    rw (x.a_public, sent, ack, type_ok, bytes, not_empty, es, e1, e2, x.a_secret)

c_string-append :
    (text rest : List ℕ) → All (λ b. 0 < b) text → c_string (text ++ (0 ∷ rest)) ≡ text
unfolding c_string
c_string-append [] rest h = refl
c_string-append (b ∷ text) rest h =
    let e : (b == 0) ≡ false = ground (arith, h.0) in rw (e, c_string-append text rest h.1)

-- The same for a buffer that is known to have room behind the message.
read_response_room :
    (session_key msg_buffer cipher plain rest : List ℕ) (x : ℕ) (a : Answer)
    → a.bytes ≡ cipher
    → a.header.body_length ≡ length cipher
    → 0 < length cipher
    → length cipher < 1024
    → overwrite cipher msg_buffer ≡ cipher ++ (x ∷ rest)
    → rc4_crypt cipher session_key ≡ done plain
    → length plain ≡ length cipher
    → calculate_checksum plain ≡ a.header.checksum
    → All (λ b. 0 < b) plain
    → read_response session_key msg_buffer (some a) ≡ done (judge plain, plain ++ (0 ∷ rest))
unfolding read_response
read_response_room key buffer cipher plain rest x a bytes size some_bytes short es e same intact
      text =
    let e1 : (length cipher == 0) ≡ false = ground arith in
    let e2 : ltb (length cipher) 1024 ≡ true = ground arith in
    let e3 : take (length cipher) (plain ++ (0 ∷ rest)) ≡ plain =
      rw (← same) (take-append plain (0 ∷ rest)) in
    let e4 : (calculate_checksum plain == a.header.checksum) ≡ true = ground arith in
    rw (
      bytes,
      size,
      e1,
      e2,
      es,
      write-append cipher rest x 0,
      take-append cipher (0 ∷ rest),
      e,
      overwrite-append plain cipher (0 ∷ rest) same,
      e3,
      e4,
      c_string-append plain rest text,
    )

pub read_response_lem :
    (session_key msg_buffer cipher plain : List ℕ) (a : Answer)
    → a.bytes ≡ cipher
    → a.header.body_length ≡ length cipher
    → 0 < length cipher
    → length cipher < 1024
    → length msg_buffer ≡ 1024
    → rc4_crypt cipher session_key ≡ done plain
    → length plain ≡ length cipher
    → calculate_checksum plain ≡ a.header.checksum
    → All (λ b. 0 < b) plain
    → (rest : List ℕ) × (read_response session_key msg_buffer (some a)
        ≡ done (judge plain, plain ++ (0 ∷ rest)))
read_response_lem key buffer cipher plain a bytes size some_bytes short room e same intact text =
    let (x, rest, es) = overwrite_room cipher buffer (omega arith) in
    (
      rest,
      read_response_room key buffer cipher plain rest x a bytes size some_bytes short es e same
          intact text,
    )

pub request_packet_lem :
    (session_key cipher : List ℕ) (data_of : RideRequestData)
    → rc4_crypt (request_bytes data_of) session_key ≡ done cipher
    → request_packet session_key data_of ≡ done (ride_packet (request_bytes data_of) cipher)
unfolding request_packet
request_packet_lem session_key cipher data_of e = rw e

-- The whole run, from what its parts do.
pub perform_ride_request_lem :
    (client : ℤ) (lat lon : List ℕ) (rand : ℕ) (resp_body msg_buffer key message : List ℕ)
    (link : Link) (hello packet : Packet) (result : ℤ)
    → perform_dh_handshake rand resp_body link ≡ done (hello, some key)
    → request_packet key (request_data client lat lon) ≡ done packet
    → link.request_sent ≡ true
    → read_response key msg_buffer link.response ≡ done (result, message)
    → perform_ride_request client lat lon rand resp_body link msg_buffer
      ≡ done (record { result = result; msg_buffer = message; sent = hello ∷ (packet ∷ []) })
unfolding perform_ride_request request_ride
perform_ride_request_lem client lat lon rand resp_body msg_buffer key message link hello packet
      result eh ep sent er =
    rw (eh, ep, sent, er)

pub request_data-client_id :
    (n : ℕ) (lat lon : List ℕ) → n < 2 ^ 31 → (request_data (pos n) lat lon).client_id ≡ n
unfolding request_data to_u32
request_data-client_id n lat lon h = omega arith

-- A message that begins with the confirmation.
pub judge_confirmed : (rest : List ℕ) → judge (ride_confirmed ++ rest) ≡ pos 0
unfolding judge contains is_prefix
judge_confirmed rest = refl

-- The constant text of a refusal.
pub judge_no_drivers : judge no_drivers_text ≡ negsuc 0
unfolding judge contains is_prefix
judge_no_drivers = refl
