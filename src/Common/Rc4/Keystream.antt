-- ===== src/Common/Rc4/Keystream.antt =====
-- The loops of `rc4_crypt` and the 256 entries of `S`.
use Prim.Native.Nat.{bit_xor}
use ride_hailing_system.Prelude.{
  ℕ, zero, suc, ◌+◌, ◌%◌, ◌≤◌, ◌<◌, ◌≡◌, refl, List, [], ◌∷◌, arith, done, read, ◌>>=◌, set, length,
  All, length-set, All-set, All-get_elem?, get_elem?-some,
}
use ride_hailing_system.Common.Rc4.{count_up, mix_key, swap, key_at, schedule, generate}

abbrev pub IsByte : ℕ → Type 0
IsByte b = b < 256

abbrev pub IsAscii : ℕ → Type 0
IsAscii c = (0 < c) × (c < 128)

-- The state array: 256 entries, each a byte.
pub record IsBox (box : List ℕ) : Type 0 where
  pub size : length box ≡ 256
  pub bytes : All IsByte box

-- A checked read of a box, and the byte that it finds.
pub read-IsBox :
    {box : List ℕ} (i : ℕ) → IsBox box → i < 256 → (s : ℕ) × (read box i ≡ done s) × (s < 256)
read-IsBox {box} i b h =
    let (s, e) = get_elem?-some box i (omega (arith, b.size)) in
    (s, ground arith, All-get_elem? IsByte box i b.bytes e)

pub set-IsBox : {box : List ℕ} (i v : ℕ) → IsBox box → v < 256 → IsBox (set box i v)
set-IsBox {box} i v b h = record {
  size = omega (arith, length-set box i v, b.size);
  bytes = All-set IsByte box i v b.bytes h;
}

pub swap-IsBox :
    {box : List ℕ} (i j : ℕ)
    → IsBox box
    → i < 256
    → j < 256
    → (box' : List ℕ) × (swap box i j ≡ done box') × IsBox box'
unfolding swap
swap-IsBox {box} i j b hi hj =
    let (s, es, hs) = read-IsBox i b hi in
    let (t, et, ht) = read-IsBox j b hj in
    let b' = set-IsBox i t b ht in
    let (u, eu, _) = read-IsBox j b' hj in
    (set (set box i t) j s, ground arith, set-IsBox j s b' hs)

mix_key_lem : (j s k : ℕ) → IsAscii k → (j' : ℕ) × (mix_key j s k ≡ done j') × (j' < 256)
unfolding mix_key
mix_key_lem j s k ascii = ((j + s + k) % 256, ground arith, omega arith)

key_at_lem :
    (key : List ℕ) (i : ℕ)
    → All IsAscii key
    → 0 < length key
    → (k : ℕ) × (key_at key (length key) i ≡ done k) × IsAscii k
unfolding key_at
key_at_lem [] i ascii h = absurd (omega arith)
key_at_lem (c ∷ key) i ascii h =
    let (k, e) = get_elem?-some (c ∷ key) (i % suc (length key)) (omega arith) in
    (k, ground arith, All-get_elem? IsAscii (c ∷ key) (i % suc (length key)) ascii e)

module _ (key : List ℕ) (ascii : All IsAscii key) (some_key : 0 < length key) where
  pub schedule-IsBox :
      (left i j : ℕ) {box : List ℕ}
      → i + left ≤ 256
      → j < 256
      → IsBox box
      → (box' : List ℕ) × (schedule key (length key) left i j box ≡ done box') × IsBox box'
  unfolding schedule
  schedule-IsBox zero i j {box} hi hj b = (box, refl, b)
  schedule-IsBox (suc left) i j {box} hi hj b =
      let (k, ek, hk) = key_at_lem key i ascii some_key in
      let (s, es, _) = read-IsBox i b (omega arith) in
      let (j', ej, hj') = mix_key_lem j s k hk in
      let (box', ew, b') = swap-IsBox i j' b (omega arith) hj' in
      let (box'', er, b'') = schedule-IsBox left (i + 1) j' (omega arith) hj' b' in
      (box'', rw (ek, es, ej, ew) er, b'')

-- One round of the generation loop: the new state and the key byte, whatever the data are.
pub round_lem :
    (i j : ℕ) {box : List ℕ}
    → j < 256
    → IsBox box
    → (j' : ℕ) × (box' : List ℕ) × (k : ℕ) × (j' < 256)
      × IsBox box'
      × (k < 256)
      × ((byte : ℕ) (rest : List ℕ)
          → generate (byte ∷ rest) i j box
            ≡ (generate rest ((i + 1) % 256) j' box' >>= λ out. done (bit_xor byte k ∷ out)))
unfolding generate
round_lem i j {box} hj b =
    let (s, es, _) = read-IsBox ((i + 1) % 256) b (omega arith) in
    let (box', ew, b') = swap-IsBox ((i + 1) % 256) ((j + s) % 256) b (omega arith) (omega arith) in
    let (x, ex, _) = read-IsBox ((i + 1) % 256) b' (omega arith) in
    let (y, ey, _) = read-IsBox ((j + s) % 256) b' (omega arith) in
    let (k, ek, hk) = read-IsBox ((x + y) % 256) b' (omega arith) in
    ((j + s) % 256, box', k, omega arith, b', hk, λ byte rest. rw (es, ew, ex, ey, ek))

-- The first state array of `schedule`.
pub count_up-IsBox : IsBox (count_up 256 0)
unfolding count_up
count_up-IsBox = record { size = refl; bytes = omega arith }
