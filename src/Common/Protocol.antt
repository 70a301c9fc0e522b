-- ===== src/Common/Protocol.antt =====
-- The packets of src/common/include/protocol.h, and their bytes in memory and on the wire. The code
-- sends and receives the packed structures as they are, on machines that store the lowest byte
-- first.
pub mod Bytes
pub mod Layout
use ride_hailing_system.Prelude.{
  ℕ, zero, suc, ◌+◌, ◌-◌, ◌*◌, ◌/◌, ◌%◌, ◌^◌, ltb, leb, length, crash, if◌then◌else◌, List, [], ◌∷◌,
  ◌++◌, Exec, done, ◌>>=◌, read, ℤ, pos, negsuc, ◌-ℤ◌,
}

abbrev pub msg_type_ride_req : ℕ
msg_type_ride_req = 1

abbrev pub msg_type_ride_resp : ℕ
msg_type_ride_resp = 2

abbrev pub msg_type_handshake : ℕ
msg_type_handshake = 3

abbrev pub msg_type_handshake_ack : ℕ
msg_type_handshake_ack = 4

abbrev pub op_req_ride : ℕ
op_req_ride = 1

abbrev pub op_driver_join : ℕ
op_driver_join = 2

abbrev pub op_handshake : ℕ
op_handshake = 4

abbrev pub op_response : ℕ
op_response = 32768

-- `ProtocolHeader`; the first field is the source's `length`.
pub record ProtocolHeader : Type 0 where
  pub body_length : ℕ
  pub type : ℕ
  pub opcode : ℕ
  pub checksum : ℕ

-- A header with the bytes that follow it.
pub record Packet : Type 0 where
  pub header : ProtocolHeader
  pub body : List ℕ

-- A conversion of 32 bits to `int`, and of 64 bits to `long long`.
pub to_signed : ℕ → ℕ → ℤ
to_signed half n = if ltb n half then pos n else pos n -ℤ pos (half + half)

-- The bytes of a `long long` in memory.
pub store : ℕ → ℕ → List ℕ
store zero n = []
store (suc count) n = n % 256 ∷ store count (n / 256)

pub store_i64 : ℤ → List ℕ
store_i64 (pos n) = store 8 (n % 2 ^ 64)
store_i64 (negsuc n) = store 8 (2 ^ 64 - 1 - n % 2 ^ 64)

-- Bytes written over the start of a buffer, which they fit.
pub overwrite : List ℕ → List ℕ → List ℕ
overwrite [] buffer = buffer
overwrite (b ∷ bytes) [] = []
overwrite (b ∷ bytes) (old ∷ buffer) = b ∷ overwrite bytes buffer

-- A read of bytes into a buffer: a crash past its end.
pub receive_into : List ℕ → List ℕ → Exec (List ℕ)
receive_into bytes buffer =
    if leb (length bytes) (length buffer) then done (overwrite bytes buffer) else crash

-- The number in `count` bytes of memory from index `i` on, lowest byte first.
pub load : ℕ → ℕ → List ℕ → Exec ℕ
load zero i bytes = done 0
load (suc count) i bytes = do
  b ← read bytes i
  rest ← load count (i + 1) bytes
  done (b + 256 * rest)

-- The 9 bytes of a packed `ProtocolHeader`.
pub header_bytes : ProtocolHeader → List ℕ
header_bytes h =
    store 4 h.body_length ++ (store 1 h.type ++ (store 2 h.opcode ++ store 2 h.checksum))

pub read_header : List ℕ → Exec ProtocolHeader
read_header bytes = do
  body_length ← load 4 0 bytes
  type ← load 1 4 bytes
  opcode ← load 2 5 bytes
  checksum ← load 2 7 bytes
  done (record { body_length = body_length; type = type; opcode = opcode; checksum = checksum })

-- `RideRequestData`: the two coordinates are the 8 bytes of a `double` each.
pub record RideRequestData : Type 0 where
  pub client_id : ℕ
  pub type : ℕ
  pub lat : List ℕ
  pub lon : List ℕ

pub request_bytes : RideRequestData → List ℕ
request_bytes r = store 4 r.client_id ++ (store 4 r.type ++ (r.lat ++ r.lon))
