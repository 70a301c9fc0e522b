-- ===== src/Common/Send.antt =====
-- `send_n` of src/common/net_wrapper.c. What the calls of `write` return, one after the other, is an
-- argument; at its end the connection is gone, and `write` fails.
pub mod Delivery
use ride_hailing_system.Prelude.{
  ℕ, ◌==◌, Bool, true, false, if◌then◌else◌, List, [], ◌∷◌, ◌++◌, length, take, drop,
}

-- A number of bytes, a signal (`EINTR`), or another error.
pub data WriteResult : Type 0 where
  written : ℕ → WriteResult
  stopped : WriteResult
  broken : WriteResult

-- Whether the result is not -1, and the bytes on the wire; `sent` are those of the calls before.
unfoldable pub send_n : List WriteResult → List ℕ → List ℕ → Bool × List ℕ
send_n [] bytes sent = (length bytes == 0, sent)
send_n (broken ∷ writes) bytes sent = (length bytes == 0, sent)
send_n (stopped ∷ writes) bytes sent =
    let again = send_n writes bytes sent in if length bytes == 0 then (true, sent) else again
send_n (written count ∷ writes) bytes sent =
    let next = send_n writes (drop count bytes) (sent ++ take count bytes) in
    if length bytes == 0 then (true, sent) else (if count == 0 then (false, sent) else next)
