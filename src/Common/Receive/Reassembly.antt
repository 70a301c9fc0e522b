-- ===== src/Common/Receive/Reassembly.antt =====
-- Reads of part of the data.
use mathlib.Core.List.{append_assoc, append-nil}
use ride_hailing_system.Prelude.{
  ℕ, ◌-◌, ◌<◌, ◌≡◌, refl, ◌∙◌, sym, ap, arith, false, ◌==◌, Bool-cases, inl, inr, some, List, [],
  ◌∷◌, ◌++◌, length, length-append, All,
}
use ride_hailing_system.Common.Receive.{ReadResult, bytes_read, interrupted, failed, recv_n}

-- A read that is not an error and not the end of the stream.
abbrev pub IsProgress : ReadResult → Type 0
IsProgress (bytes_read bytes) = 0 < length bytes
IsProgress interrupted = Unit
IsProgress failed = ⊥

-- All bytes of the reads.
abbrev pub stream : List ReadResult → List ℕ
stream [] = []
stream (bytes_read bytes ∷ reads) = bytes ++ stream reads
stream (interrupted ∷ reads) = stream reads
stream (failed ∷ reads) = stream reads

nothing_left : (bytes : List ℕ) → length bytes ≡ 0 → bytes ≡ []
nothing_left [] e = refl
nothing_left (b ∷ bytes) e = absurd (omega arith)

recv_n_lem :
    (reads : List ReadResult) (n : ℕ) (received : List ℕ)
    → All IsProgress reads
    → length (stream reads) ≡ n
    → recv_n reads n received ≡ some (received ++ stream reads)
unfolding recv_n
recv_n_lem [] n received ok e = ap some (sym (append-nil received))
recv_n_lem (failed ∷ reads) n received ok e = absurd (ok.0)
recv_n_lem (interrupted ∷ reads) n received ok e = elim (Bool-cases (n == 0)) [
  | inl enough ↦
      let no_more : stream reads ≡ [] = nothing_left (stream reads) (ground arith) in
      rw (enough, no_more, append-nil received)
  | inr more ↦ rw more (recv_n_lem reads n received ok.1 e)
]
recv_n_lem (bytes_read bytes ∷ reads) n received ok e =
    let size = length-append bytes (stream reads) in
    let more : (n == 0) ≡ false = ground arith in
    let some_bytes : (length bytes == 0) ≡ false = ground arith in
    let left : n - length bytes ≡ length (stream reads) = omega arith in
    rw (more, some_bytes, left)
      (recv_n_lem reads (length (stream reads)) (received ++ bytes) ok.1 refl
        ∙ ap some (append_assoc received bytes (stream reads)))

-- If no read fails and none of them is empty, a request for as many bytes as the reads deliver
-- together gives all their bytes, in order: partial reads are put together, and signals between
-- them do no harm.
pub recv_n-stream :
    (reads : List ReadResult)
    → All IsProgress reads
    → recv_n reads (length (stream reads)) [] ≡ some (stream reads)
recv_n-stream reads ok = recv_n_lem reads (length (stream reads)) [] ok refl
