-- ===== src/Common/Receive.antt =====
-- `recv_n` of src/common/net_wrapper.c. What the calls of `read` return, one after the other, is an
-- argument; from its end on the connection is closed, and `read` returns 0.
pub mod Reassembly
use ride_hailing_system.Prelude.{
  ℕ, ◌-◌, ◌==◌, if◌then◌else◌, Option, none, some, List, [], ◌∷◌, ◌++◌, length,
}

-- Bytes (none of them at the end of the stream), a signal (`EINTR`), or another error.
pub data ReadResult : Type 0 where
  bytes_read : List ℕ → ReadResult
  interrupted : ReadResult
  failed : ReadResult

-- The bytes received, in addition to those already in the buffer; -1 is `none`.
pub recv_n : List ReadResult → ℕ → List ℕ → Option (List ℕ)
recv_n [] nleft received = some received
recv_n (failed ∷ reads) nleft received = if nleft == 0 then some received else none
recv_n (interrupted ∷ reads) nleft received =
    let again = recv_n reads nleft received in if nleft == 0 then some received else again
recv_n (bytes_read bytes ∷ reads) nleft received =
    let next = recv_n reads (nleft - length bytes) (received ++ bytes) in
    if nleft == 0 then some received else (if length bytes == 0 then some received else next)
