-- ===== src/Common/Send/Delivery.antt =====
-- What is on the wire after `send_n`, and the receiver's end.
use mathlib.Core.List.{append_assoc, append-nil}
use ride_hailing_system.Prelude.{
  ℕ, ◌≡◌, refl, sym, ap, ◌∙◌, arith, ◌==◌, Bool, true, Bool-cases, inl, inr, some, List, [], ◌∷◌,
  ◌++◌, length, take, drop, take-drop, All,
}
use ride_hailing_system.Common.Receive.{ReadResult, recv_n}
use ride_hailing_system.Common.Receive.Reassembly.{IsProgress, stream, recv_n-stream}
use ride_hailing_system.Common.Send.{WriteResult, written, stopped, broken, send_n}

-- `r` is a result of sending `bytes` after `sent`, where `rest` has not been sent.
abbrev pub IsSent : List ℕ → List ℕ → List ℕ → Bool × List ℕ → Type 0
IsSent bytes sent rest r = (r.1 ++ rest ≡ sent ++ bytes) × (r.0 ≡ (length rest == 0))

no_bytes : (bytes : List ℕ) → (length bytes == 0) ≡ true → bytes ≡ []
no_bytes [] e = refl
no_bytes (b ∷ bytes) e = ground arith

send_n_lem :
    (writes : List WriteResult) (bytes sent : List ℕ)
    → (rest : List ℕ) × IsSent bytes sent rest (send_n writes bytes sent)
unfolding send_n
send_n_lem [] bytes sent = (bytes, (refl, refl))
send_n_lem (broken ∷ writes) bytes sent = (bytes, (refl, refl))
send_n_lem (stopped ∷ writes) bytes sent = elim (Bool-cases (length bytes == 0)) [
  | inl all ↦ rw all (bytes, (refl, sym all))
  | inr more ↦ rw more (send_n_lem writes bytes sent)
]
send_n_lem (written count ∷ writes) bytes sent = elim (Bool-cases (length bytes == 0)) [
  | inl all ↦ rw all (bytes, (refl, sym all))
  | inr more ↦ elim (Bool-cases (count == 0)) [
    | inl none_sent ↦ rw (more, none_sent) (bytes, (refl, sym more))
    | inr some_sent ↦
        let (rest, (whole, ok)) = send_n_lem writes (drop count bytes) (sent ++ take count bytes) in
        rw (more, some_sent)
          (
            rest,
            (
              whole
                  ∙ append_assoc sent (take count bytes) (drop count bytes)
                  ∙ ap (λ l. sent ++ l) (take-drop count bytes),
              ok,
            ),
          )
  ]
]

-- Whatever the calls of write return, the bytes on the wire are the first ones of the data, in
-- order, and send_n does not return -1 if and only if they are all of them.
pub send_n-IsSent :
    (writes : List WriteResult) (bytes : List ℕ)
    → (rest : List ℕ) × IsSent bytes [] rest (send_n writes bytes [])
send_n-IsSent writes bytes = send_n_lem writes bytes []

-- If send_n does not return -1, and the reads at the other end deliver what is on the wire, in
-- pieces of whatever sizes, none of them empty and none failing, recv_n of as many bytes gives the
-- data that was sent.
pub recv_n-send_n :
    (writes : List WriteResult) (reads : List ReadResult) (bytes : List ℕ)
    → (send_n writes bytes []).0 ≡ true
    → All IsProgress reads
    → stream reads ≡ (send_n writes bytes []).1
    → recv_n reads (length bytes) [] ≡ some bytes
recv_n-send_n writes reads bytes sent ok arrived =
    let (rest, (whole, all)) = send_n-IsSent writes bytes in
    let none_left : rest ≡ [] = no_bytes rest (sym all ∙ sent) in
    let same : stream reads ≡ bytes =
      arrived
      ∙ sym (append-nil (send_n writes bytes []).1)
      ∙ ap (λ l. (send_n writes bytes []).1 ++ l) (sym none_left)
      ∙ whole in
    rw same at (recv_n-stream reads ok)
