-- ===== src/Common/Rc4.antt =====
-- `rc4_crypt` of src/common/net_wrapper.c. The state array `S` and the data are lists of bytes; the
-- key is the bytes of the C string before its NUL. Each array access is checked: one out of bounds
-- is a crash, and so is the division by zero that an empty key leads to.
pub mod Keystream
pub mod RoundTrip
use Prim.Native.Nat.{bit_xor}
use ride_hailing_system.Prelude.{
  ℕ, zero, suc, ◌+◌, ◌-◌, ◌%◌, List, [], ◌∷◌, map, ◌==◌, ltb, leb, if◌then◌else◌, Exec, done, crash,
  ◌>>=◌, read, write, length,
}

-- `for (i = 0; i < 256; i++) S[i] = i`: the values from `i` on.
pub count_up : ℕ → ℕ → List ℕ
count_up zero i = []
count_up (suc n) i = i ∷ count_up n (i + 1)

-- `(j + S[i] + key[...]) % 256`: a `char` from 128 on is negative, and C's remainder of a negative
-- sum is negative, so that `S[j]` would lie before the array.
pub mix_key : ℕ → ℕ → ℕ → Exec ℕ
mix_key j s k =
    if ltb k 128
    then done ((j + s + k) % 256)
    else (if leb 256 (j + s + k) then done ((j + s + k - 256) % 256) else crash)

-- Swap S[i] and S[j].
pub swap : List ℕ → ℕ → ℕ → Exec (List ℕ)
swap box i j = do temp ← read box i; other ← read box j; box' ← write box i other; write box' j temp

-- `key[i % key_len]`; an empty key divides by zero.
pub key_at : List ℕ → ℕ → ℕ → Exec ℕ
key_at key zero i = crash
key_at key (suc k) i = read key (i % suc k)

module _ (key : List ℕ) (key_len : ℕ) where
  -- The key scheduling loop, with the rounds left, at `i`.
  pub schedule : ℕ → ℕ → ℕ → List ℕ → Exec (List ℕ)
  schedule zero i j box = done box
  schedule (suc left) i j box = do
    k ← key_at key key_len i
    s ← read box i
    j' ← mix_key j s k
    box' ← swap box i j'
    schedule left (i + 1) j' box'

-- The generation loop over the data that is left.
pub generate : List ℕ → ℕ → ℕ → List ℕ → Exec (List ℕ)
generate [] i j box = done []
generate (byte ∷ rest) i j box = do
  let i' = (i + 1) % 256
  s ← read box i'
  let j' = (j + s) % 256
  box' ← swap box i' j'
  a ← read box' i'
  b ← read box' j'
  k ← read box' ((a + b) % 256)
  out ← generate rest i' j' box'
  done (bit_xor byte k ∷ out)

-- `strlen(key)` is the length of the list.
pub rc4_crypt : List ℕ → List ℕ → Exec (List ℕ)
rc4_crypt bytes key = do
  box ← schedule key (length key) 256 0 0 (count_up 256 0)
  generate bytes 0 0 box
