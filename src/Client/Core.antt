-- ===== src/Client/Core.antt =====
-- src/client/client_core.c: the handshake and the ride request of a client. What the socket delivers
-- is an argument; a packet that is sent is part of the result.
pub mod Honest
use ride_hailing_system.Prelude.{
  ℕ, zero, suc, ◌+◌, ◌-◌, ◌%◌, ◌^◌, Bool, true, false, not, ◌&&◌, ◌||◌, ltb, ◌==◌, if◌then◌else◌,
  Option, none, some, List, [], ◌∷◌, ◌++◌, length, take, Exec, done, ◌>>=◌, write, ℤ, pos, negsuc,
  leb_ℤ,
}
use ride_hailing_system.Common.Checksum.{calculate_checksum}
use ride_hailing_system.Common.Rc4.{rc4_crypt}
use ride_hailing_system.Common.Dh.{
  generate_private_key, calculate_public_key, calculate_shared_secret, derive_session_key,
}
use ride_hailing_system.Common.Protocol.{
  msg_type_ride_req, msg_type_handshake, msg_type_handshake_ack, op_req_ride, op_handshake,
  ProtocolHeader, Packet, RideRequestData, request_bytes, to_signed, store_i64, overwrite, load,
}

-- An answer: its header as the variable holds it after the read, and the bytes of the body that
-- came before the connection closed, at most as many as were asked for.
pub record Answer : Type 0 where
  pub header : ProtocolHeader
  pub bytes : List ℕ

-- What becomes of the two sends and the two reads of a header; a read that fails is `none`.
pub record Link : Type 0 where
  pub hello_sent : Bool
  pub ack : Option Answer
  pub request_sent : Bool
  pub response : Option Answer

-- The handshake packet with the client's public key.
abbrev pub hello_packet : ℤ → Packet
hello_packet my_pub = record {
  header = record {
    body_length = 8;
    type = msg_type_handshake;
    opcode = op_handshake;
    checksum = 0;
  };
  body = store_i64 my_pub;
}

-- The session key from the server's answer; `resp_body` is the memory that its body is read into.
pub accept_ack : ℤ → List ℕ → Option Answer → Exec (Option (List ℕ))
accept_ack my_priv resp_body none = done none
accept_ack my_priv resp_body (some a) =
    let key = load 8 0 (overwrite a.bytes resp_body) >>= λ server_pub.
    calculate_shared_secret (to_signed (2 ^ 63) server_pub) my_priv >>= λ shared_secret.
    done (some (derive_session_key shared_secret 64)) in
    if not (a.header.type == msg_type_handshake_ack) || length a.bytes == 0 then done none else key

-- The packet sent, and the session key; -1 is `none`.
pub perform_dh_handshake : ℕ → List ℕ → Link → Exec (Packet × Option (List ℕ))
perform_dh_handshake rand resp_body link = do
  let my_priv = generate_private_key rand
  my_pub ← calculate_public_key my_priv
  key ← (if link.hello_sent then accept_ack my_priv resp_body link.ack else done none)
  done (hello_packet my_pub, key)

-- The conversion of an `int` to `uint32_t`.
unfoldable pub to_u32 : ℤ → ℕ
to_u32 (pos n) = n % 2 ^ 32
to_u32 (negsuc n) = 2 ^ 32 - 1 - n % 2 ^ 32

-- `lat` and `lon` are the bytes of the two `double`s.
unfoldable pub request_data : ℤ → List ℕ → List ℕ → RideRequestData
request_data client_id lat lon = record {
  client_id = to_u32 client_id;
  type = if leb_ℤ client_id (pos 10) then 1 else 0;
  lat = lat;
  lon = lon;
}

-- A request with its encryption; its checksum is that of the plain bytes.
abbrev pub ride_packet : List ℕ → List ℕ → Packet
ride_packet plain encrypted = record {
  header = record {
    body_length = length plain;
    type = msg_type_ride_req;
    opcode = op_req_ride;
    checksum = calculate_checksum plain;
  };
  body = encrypted;
}

pub request_packet : List ℕ → RideRequestData → Exec Packet
request_packet session_key req_body = do
  encrypted ← rc4_crypt (request_bytes req_body) session_key
  done (ride_packet (request_bytes req_body) encrypted)

-- `strstr(...)` as a test, on the characters of a string.
pub is_prefix : List ℕ → List ℕ → Bool
is_prefix [] text = true
is_prefix (c ∷ needle) [] = false
is_prefix (c ∷ needle) (t ∷ text) = c == t && is_prefix needle text

pub contains : List ℕ → List ℕ → Bool
contains needle [] = is_prefix needle []
contains needle (t ∷ text) = is_prefix needle (t ∷ text) || contains needle text

-- The string in a buffer, up to its NUL.
pub c_string : List ℕ → List ℕ
c_string [] = []
c_string (b ∷ buffer) = let rest = c_string buffer in if b == 0 then [] else b ∷ rest

-- "Ride Confirmed!"
abbrev pub ride_confirmed : List ℕ
ride_confirmed =
    b'R' ∷ b'i' ∷ b'd' ∷ b'e' ∷ b' ' ∷ b'C' ∷ b'o' ∷ b'n' ∷ b'f' ∷ b'i' ∷ b'r' ∷ b'm' ∷ b'e' ∷ b'd'
    ∷ b'!' ∷ []

-- "Blocked."
abbrev pub blocked_text : List ℕ
blocked_text = b'B' ∷ b'l' ∷ b'o' ∷ b'c' ∷ b'k' ∷ b'e' ∷ b'd' ∷ b'.' ∷ []

-- "Handshake Failed"
abbrev pub handshake_failed : List ℕ
handshake_failed =
    b'H' ∷ b'a' ∷ b'n' ∷ b'd' ∷ b's' ∷ b'h' ∷ b'a' ∷ b'k' ∷ b'e' ∷ b' ' ∷ b'F' ∷ b'a' ∷ b'i' ∷ b'l'
    ∷ b'e' ∷ b'd' ∷ []

-- "Checksum Mismatch"
abbrev pub checksum_mismatch : List ℕ
checksum_mismatch =
    b'C' ∷ b'h' ∷ b'e' ∷ b'c' ∷ b'k' ∷ b's' ∷ b'u' ∷ b'm' ∷ b' ' ∷ b'M' ∷ b'i' ∷ b's' ∷ b'm' ∷ b'a'
    ∷ b't' ∷ b'c' ∷ b'h' ∷ []

-- `snprintf(buffer, 1024, ...)` of a constant.
pub print : List ℕ → List ℕ → List ℕ
print text buffer = overwrite (text ++ (0 ∷ [])) buffer

-- The result for a decrypted message.
pub judge : List ℕ → ℤ
judge message =
    if contains ride_confirmed message
    then pos 0
    else (if contains blocked_text message then negsuc 1 else negsuc 0)

-- The result and the message buffer, from the answer to the request.
pub read_response : List ℕ → List ℕ → Option Answer → Exec (ℤ × List ℕ)
read_response session_key msg_buffer none = done (negsuc 0, msg_buffer)
read_response session_key msg_buffer (some a) =
    let n = a.header.body_length in
    let opened = write (overwrite a.bytes msg_buffer) n 0 >>= λ ended.
    rc4_crypt (take n ended) session_key >>= λ plain. done (overwrite plain ended) in
    let checked = opened >>= λ buffer. done (
      if calculate_checksum (take n buffer) == a.header.checksum
      then (judge (c_string buffer), buffer)
      else (negsuc 0, print checksum_mismatch buffer)) in
    if not (n == 0) && ltb n 1024
    then (if length a.bytes == 0 then done (negsuc 0, msg_buffer) else checked)
    else done (negsuc 0, msg_buffer)

-- The result of `perform_ride_request`: 0, -1 or -2, the buffer, and the packets sent.
pub record ClientRun : Type 0 where
  pub result : ℤ
  pub msg_buffer : List ℕ
  pub sent : List Packet

-- From the session key on.
pub request_ride : ℤ → List ℕ → List ℕ → Link → List ℕ → Packet → Option (List ℕ) → Exec ClientRun
request_ride client_id lat lon link msg_buffer hello none = done (record {
  result = negsuc 0;
  msg_buffer = print handshake_failed msg_buffer;
  sent = hello ∷ [];
})
request_ride client_id lat lon link msg_buffer hello (some session_key) = do
  packet ← request_packet session_key (request_data client_id lat lon)
  r ←
      (if link.request_sent
        then read_response session_key msg_buffer link.response
        else done (negsuc 0, msg_buffer))
  done (record { result = r.0; msg_buffer = r.1; sent = hello ∷ (packet ∷ []) })

pub perform_ride_request : ℤ → List ℕ → List ℕ → ℕ → List ℕ → Link → List ℕ → Exec ClientRun
perform_ride_request client_id lat lon rand resp_body link msg_buffer =
    perform_dh_handshake rand resp_body link >>= λ h.
    request_ride client_id lat lon link msg_buffer h.0 h.1
