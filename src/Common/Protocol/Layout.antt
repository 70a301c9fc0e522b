-- ===== src/Common/Protocol/Layout.antt =====
-- The layout of the packed header.
use mathlib.Core.List.{append-nil, append_assoc}
use ride_hailing_system.Prelude.{
  ℕ, ◌^◌, ◌<◌, ◌≡◌, ◌∙◌, arith, List, [], ◌++◌, length, length-append, All, All-append, done,
}
use ride_hailing_system.Common.Protocol.{
  ProtocolHeader, RideRequestData, store, load, header_bytes, read_header, request_bytes,
}
use ride_hailing_system.Common.Protocol.Bytes.{length-store, load-append, load-store, store-IsByte}

-- The fields are within the widths of their types.
pub record IsHeader (h : ProtocolHeader) : Type 0 where
  pub length_fits : h.body_length < 2 ^ 32
  pub type_fits : h.type < 2 ^ 8
  pub opcode_fits : h.opcode < 2 ^ 16
  pub checksum_fits : h.checksum < 2 ^ 16

load-store_last : (count n : ℕ) → n < 256 ^ count → load count 0 (store count n) ≡ done n
load-store_last count n h = rw (append-nil (store count n)) at (load-store count n [] h)

-- A header whose fields are within the widths of their types is read back from its bytes, which are
-- nine.
pub read_header-header_bytes :
    (h : ProtocolHeader)
    → IsHeader h
    → (read_header (header_bytes h) ≡ done h) × (length (header_bytes h) ≡ 9)
unfolding read_header header_bytes
read_header-header_bytes h fits =
    let tail = store 2 h.checksum in
    let ops = store 2 h.opcode ++ tail in
    let types = store 1 h.type ++ ops in
    let e1 : load 4 0 (store 4 h.body_length ++ types) ≡ done h.body_length =
      load-store 4 h.body_length types (omega (arith, fits)) in
    let e2 : load 1 4 (store 4 h.body_length ++ types) ≡ done h.type =
      load-append (store 4 h.body_length) types 1 0 4 (omega (arith, length-store 4 h.body_length))
      ∙ load-store 1 h.type ops (omega (arith, fits)) in
    let e3 : load 2 5 (store 4 h.body_length ++ types) ≡ done h.opcode =
      load-append (store 4 h.body_length) types 2 1 5 (omega (arith, length-store 4 h.body_length))
      ∙ load-append (store 1 h.type) ops 2 0 1 (omega (arith, length-store 1 h.type))
      ∙ load-store 2 h.opcode tail (omega (arith, fits)) in
    let e4 : load 2 7 (store 4 h.body_length ++ types) ≡ done h.checksum =
      load-append (store 4 h.body_length) types 2 3 7 (omega (arith, length-store 4 h.body_length))
      ∙ load-append (store 1 h.type) ops 2 2 3 (omega (arith, length-store 1 h.type))
      ∙ load-append (store 2 h.opcode) tail 2 0 2 (omega (arith, length-store 2 h.opcode))
      ∙ load-store_last 2 h.checksum (omega (arith, fits)) in
    (
      rw (e1, e2, e3, e4),
      omega (
        arith,
        length-append (store 4 h.body_length) types,
        length-append (store 1 h.type) ops,
        length-append (store 2 h.opcode) tail,
        length-store 4 h.body_length,
        length-store 1 h.type,
        length-store 2 h.opcode,
        length-store 2 h.checksum,
      ),
    )

abbrev IsByte : ℕ → Type 0
IsByte b = b < 256

-- The coordinates are the bytes of two `double`s.
pub record IsRequest (r : RideRequestData) : Type 0 where
  pub lat_size : length r.lat ≡ 8
  pub lon_size : length r.lon ≡ 8
  pub lat_bytes : All IsByte r.lat
  pub lon_bytes : All IsByte r.lon

pub length-request_bytes : (r : RideRequestData) → IsRequest r → length (request_bytes r) ≡ 24
unfolding request_bytes
length-request_bytes r fits = omega (
  arith,
  fits,
  length-append (store 4 r.client_id) (store 4 r.type ++ (r.lat ++ r.lon)),
  length-append (store 4 r.type) (r.lat ++ r.lon),
  length-append r.lat r.lon,
  length-store 4 r.client_id,
  length-store 4 r.type,
)

pub request_bytes-IsByte : (r : RideRequestData) → IsRequest r → All IsByte (request_bytes r)
unfolding request_bytes
request_bytes-IsByte r fits =
    All-append IsByte (store 4 r.client_id) (store 4 r.type ++ (r.lat ++ r.lon))
      (store-IsByte 4 r.client_id)
      (All-append IsByte (store 4 r.type) (r.lat ++ r.lon) (store-IsByte 4 r.type)
        (All-append IsByte r.lat r.lon fits.lat_bytes fits.lon_bytes))

-- The first field of a request, in a buffer that it stands at the start of.
pub load-request_bytes :
    (r : RideRequestData) (rest : List ℕ)
    → r.client_id < 2 ^ 32
    → load 4 0 (request_bytes r ++ rest) ≡ done r.client_id
unfolding request_bytes
load-request_bytes r rest small =
    rw append_assoc
      (load-store 4 r.client_id ((store 4 r.type ++ (r.lat ++ r.lon)) ++ rest) (omega arith))
