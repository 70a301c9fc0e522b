-- ===== src/Common/Rc4/RoundTrip.antt =====
-- `rc4_crypt` run twice.
use Prim.Native.Nat.{bit_xor}
use ride_hailing_system.Prelude.{
  ℕ, ◌+◌, ◌%◌, ◌<◌, ◌≡◌, refl, ◌∙◌, List, [], ◌∷◌, arith, Exec, done, length, All,
}
use ride_hailing_system.Common.Xor.{bit_xor_twice, bit_xor-lt}
use ride_hailing_system.Common.Rc4.{generate, rc4_crypt}
use ride_hailing_system.Common.Rc4.Keystream.{
  IsByte, IsAscii, IsBox, schedule-IsBox, round_lem, count_up-IsBox,
}

-- `out` is as long as `bytes`, consists of bytes, and comes back to `bytes`.
pub record IsCipher (crypt : List ℕ → Exec (List ℕ)) (bytes out : List ℕ) : Type 0 where
  pub forth : crypt bytes ≡ done out
  pub back : crypt out ≡ done bytes
  pub same_length : length out ≡ length bytes
  pub bytes_out : All IsByte out

pub generate-IsCipher :
    (bytes : List ℕ) (i j : ℕ) {box : List ℕ}
    → All IsByte bytes
    → j < 256
    → IsBox box
    → (out : List ℕ) × IsCipher (λ d. generate d i j box) bytes out
unfolding generate
generate-IsCipher [] i j all hj b =
    ([], record { forth = refl; back = refl; same_length = refl; bytes_out = tt })
generate-IsCipher (byte ∷ rest) i j {box} all hj b =
    let (j', box', k, hj', b', hk, step) = round_lem i j hj b in
    let (out, c) = generate-IsCipher rest ((i + 1) % 256) j' all.1 hj' b' in
    (
      bit_xor byte k ∷ out,
      record {
        forth = step byte rest ∙ rw c.forth;
        back = step (bit_xor byte k) out ∙ rw (c.back, bit_xor_twice byte k);
        same_length = omega (arith, c.same_length);
        bytes_out = (bit_xor-lt 8 byte k all.0 hk, c.bytes_out);
      },
    )

-- With a key that is not empty and has only ASCII characters, `rc4_crypt` of any bytes ends without
-- an access outside its box: the output has the same length and consists of bytes, and running
-- `rc4_crypt` with the same key on the output gives the input back.
pub rc4_crypt-IsCipher :
    (bytes key : List ℕ)
    → All IsByte bytes
    → All IsAscii key
    → 0 < length key
    → (out : List ℕ) × IsCipher (λ d. rc4_crypt d key) bytes out
unfolding rc4_crypt
rc4_crypt-IsCipher bytes key all ascii h =
    let (box, e, b) =
      schedule-IsBox key ascii h 256 0 0 (omega arith) (omega arith) count_up-IsBox in
    let (out, c) = generate-IsCipher bytes 0 0 all (omega arith) b in
    (
      out,
      record {
        forth = rw e c.forth;
        back = rw e c.back;
        same_length = c.same_length;
        bytes_out = c.bytes_out;
      },
    )
