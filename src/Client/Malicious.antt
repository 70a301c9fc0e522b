-- ===== src/Client/Malicious.antt =====
-- src/client/malicious_client.c: a request that is encrypted with a wrong key, without a handshake.
-- The code leaves the type of the header and that of the request unset: they are old memory, and
-- arguments here.
pub mod Refused
use ride_hailing_system.Prelude.{
  ℕ, Bool, true, false, not, ◌&&◌, ltb, ◌==◌, if◌then◌else◌, Option, none, some, List, [], ◌∷◌,
  length, Exec, done, ◌>>=◌, write, ℤ, pos, negsuc,
}
use ride_hailing_system.Common.Checksum.{calculate_checksum}
use ride_hailing_system.Common.Rc4.{rc4_crypt}
use ride_hailing_system.Common.Protocol.{
  op_req_ride, Packet, RideRequestData, request_bytes, overwrite,
}
use ride_hailing_system.Client.Core.{Answer, to_u32}

-- "HACKER_WRONG_2025_KEY!"
abbrev pub wrong_secret_key : List ℕ
wrong_secret_key =
    b'H' ∷ b'A' ∷ b'C' ∷ b'K' ∷ b'E' ∷ b'R' ∷ b'_' ∷ b'W' ∷ b'R' ∷ b'O' ∷ b'N' ∷ b'G' ∷ b'_' ∷ b'2'
    ∷ b'0' ∷ b'2' ∷ b'5' ∷ b'_' ∷ b'K' ∷ b'E' ∷ b'Y' ∷ b'!' ∷ []

abbrev pub forged_data : ℤ → ℕ → List ℕ → List ℕ → RideRequestData
forged_data client_id old_body_type lat lon = record {
  client_id = to_u32 client_id;
  type = old_body_type;
  lat = lat;
  lon = lon;
}

-- The checksum is that of the plain bytes.
abbrev pub forged_packet : ℕ → List ℕ → List ℕ → Packet
forged_packet old_type plain encrypted = record {
  header = record {
    body_length = length plain;
    type = old_type;
    opcode = op_req_ride;
    checksum = calculate_checksum plain;
  };
  body = encrypted;
}

-- The result and the buffer, from the answer: a read of a header that fails is `none`.
pub read_reply : List ℕ → Option Answer → Exec (ℤ × List ℕ)
read_reply msg_buffer none = done (negsuc 0, msg_buffer)
read_reply msg_buffer (some a) =
    let n = a.header.body_length in
    let ended = write (overwrite a.bytes msg_buffer) n 0 >>= λ buffer. done (pos 0, buffer) in
    if not (n == 0) && ltb n 1024
    then (if length a.bytes == 0 then done (negsuc 0, msg_buffer) else ended)
    else done (negsuc 0, msg_buffer)

-- The packet that is sent, the result (0 or -1) and the buffer; `sent` is what the two sends report.
pub perform_malicious_request :
    ℤ → ℕ → ℕ → List ℕ → List ℕ → Bool → Option Answer → List ℕ → Exec (Packet × ℤ × List ℕ)
perform_malicious_request client_id old_type old_body_type lat lon sent response msg_buffer = do
  let plain = request_bytes (forged_data client_id old_body_type lat lon)
  encrypted ← rc4_crypt plain wrong_secret_key
  r ← (if sent then read_reply msg_buffer response else done (negsuc 0, msg_buffer))
  done (forged_packet old_type plain encrypted, r.0, r.1)
