-- ===== src/Common/Protocol/Bytes.antt =====
-- Numbers stored to memory and loaded from it, and buffers written over.
use native.Mathlib.Nat.{pow-suc, zero-add}
use ride_hailing_system.Prelude.{
  leb, true, get_elem?-append, set-append, write, pos, ℕ, zero, suc, ◌+◌, ◌*◌, ◌/◌, ◌%◌, ◌^◌, ◌≤◌,
  ◌<◌, ◌≡◌, refl, ◌∙◌, ap, arith, List, [], ◌∷◌, ◌++◌, length, take, All, get_elem?-some, done,
}
use ride_hailing_system.Common.Protocol.{receive_into, store, store_i64, to_signed, overwrite, load}

pub length-overwrite : (bytes buffer : List ℕ) → length (overwrite bytes buffer) ≡ length buffer
unfolding overwrite
length-overwrite [] buffer = refl
length-overwrite (b ∷ bytes) [] = refl
length-overwrite (b ∷ bytes) (old ∷ buffer) = ap suc (length-overwrite bytes buffer)

-- No bytes change nothing.
pub overwrite_none : (bytes buffer : List ℕ) → length bytes ≡ 0 → overwrite bytes buffer ≡ buffer
unfolding overwrite
overwrite_none [] buffer h = refl
overwrite_none (b ∷ bytes) buffer h = absurd (omega (arith, h))

pub load_done :
    (count i : ℕ) (bytes : List ℕ)
    → i + count ≤ length bytes
    → (n : ℕ) × (load count i bytes ≡ done n)
unfolding load
load_done zero i bytes h = (0, refl)
load_done (suc count) i bytes h =
    let (b, eb) = get_elem?-some bytes i (omega arith) in
    let (n, en) = load_done count (i + 1) bytes (omega arith) in (b + 256 * n, rw (eb, en))

pub length-store : (count n : ℕ) → length (store count n) ≡ count
unfolding store
length-store zero n = refl
length-store (suc count) n = ap suc (length-store count (n / 256))

pub store-IsByte : (count n : ℕ) → All (λ b. b < 256) (store count n)
unfolding store
store-IsByte zero n = tt
store-IsByte (suc count) n = (omega arith, store-IsByte count (n / 256))

load_next :
    (b : ℕ) (bytes : List ℕ) (count i : ℕ) → load count (suc i) (b ∷ bytes) ≡ load count i bytes
unfolding load
load_next b bytes zero i = refl
load_next b bytes (suc count) i =
    let e : suc i + 1 ≡ suc (i + 1) = omega arith in rw (e, load_next b bytes count (i + 1))

-- Loading past bytes that come before.
pub load_past :
    (before bytes : List ℕ) (count i : ℕ)
    → load count (length before + i) (before ++ bytes) ≡ load count i bytes
load_past [] bytes count i = rw (zero-add i)
load_past (b ∷ before) bytes count i =
    let e : suc (length before) + i ≡ suc (length before + i) = omega arith in
    rw e (load_next b (before ++ bytes) count (length before + i) ∙ load_past before bytes count i)

digits_of : (n : ℕ) → n % 256 + 256 * (n / 256) ≡ n
digits_of n = omega arith

pub load-store :
    (count n : ℕ) (rest : List ℕ) → n < 256 ^ count → load count 0 (store count n ++ rest) ≡ done n
unfolding load store
load-store zero n rest h = ap done (omega (arith, h))
load-store (suc count) n rest h =
    let less : n / 256 < 256 ^ count = omega (arith, pow-suc 256 count) in
    let e : 0 + 1 ≡ suc 0 = omega arith in
    rw
      (
        load_next (n % 256) (store count (n / 256) ++ rest) count 0,
        load-store count (n / 256) rest less,
      )
      (ap done (digits_of n))

-- What is written over a buffer can be taken off it again.
pub take-overwrite :
    (bytes buffer : List ℕ)
    → length bytes ≤ length buffer
    → take (length bytes) (overwrite bytes buffer) ≡ bytes
unfolding overwrite
take-overwrite [] buffer h = refl
take-overwrite (b ∷ bytes) [] h = absurd (omega arith)
take-overwrite (b ∷ bytes) (old ∷ buffer) h =
    ap (λ r. b ∷ r) (take-overwrite bytes buffer (omega arith))

-- The buffer is what was written, and the old bytes behind it.
pub overwrite_split :
    (bytes buffer : List ℕ)
    → length bytes ≤ length buffer
    → (rest : List ℕ) × (overwrite bytes buffer ≡ bytes ++ rest)
unfolding overwrite
overwrite_split [] buffer h = (buffer, refl)
overwrite_split (b ∷ bytes) [] h = absurd (omega arith)
overwrite_split (b ∷ bytes) (old ∷ buffer) h =
    let (rest, e) = overwrite_split bytes buffer (omega arith) in (rest, ap (λ r. b ∷ r) e)

-- The same at an index further on, past bytes of a known length.
pub load-append :
    (before bytes : List ℕ) (count i j : ℕ)
    → length before + i ≡ j
    → load count j (before ++ bytes) ≡ load count i bytes
load-append before bytes count i j e = rw (← e) (load_past before bytes count i)

pub take-append : (xs ys : List ℕ) → take (length xs) (xs ++ ys) ≡ xs
take-append [] ys = refl
take-append (x ∷ xs) ys = ap (λ r. x ∷ r) (take-append xs ys)

-- New bytes over as many old ones.
pub overwrite-append :
    (new old rest : List ℕ) → length new ≡ length old → overwrite new (old ++ rest) ≡ new ++ rest
unfolding overwrite
overwrite-append [] [] rest e = refl
overwrite-append [] (o ∷ old) rest e = absurd (omega arith)
overwrite-append (b ∷ new) [] rest e = absurd (omega arith)
overwrite-append (b ∷ new) (o ∷ old) rest e =
    ap (λ r. b ∷ r) (overwrite-append new old rest (omega arith))

-- A buffer with room behind what is written to it.
pub overwrite_room :
    (bytes buffer : List ℕ)
    → length bytes < length buffer
    → (x : ℕ) × (rest : List ℕ) × (overwrite bytes buffer ≡ bytes ++ (x ∷ rest))
unfolding overwrite
overwrite_room [] [] h = absurd (omega arith)
overwrite_room [] (x ∷ buffer) h = (x, buffer, refl)
overwrite_room (b ∷ bytes) [] h = absurd (omega arith)
overwrite_room (b ∷ bytes) (old ∷ buffer) h =
    let (x, rest, e) = overwrite_room bytes buffer (omega arith) in (x, rest, ap (λ r. b ∷ r) e)

pub write-append :
    (xs rest : List ℕ) (x v : ℕ) → write (xs ++ (x ∷ rest)) (length xs) v ≡ done (xs ++ (v ∷ rest))
write-append xs rest x v = rw (get_elem?-append xs rest x, set-append xs rest x v)

-- A small public key in memory.
pub load-store_i64 :
    (n : ℕ) (rest : List ℕ)
    → n < 2 ^ 31
    → (load 8 0 (store_i64 (pos n) ++ rest) ≡ done n) × (to_signed (2 ^ 63) n ≡ pos n)
unfolding store_i64 to_signed
load-store_i64 n rest h =
    let e : n % 2 ^ 64 ≡ n = omega arith in (rw e (load-store 8 n rest (omega arith)), ground arith)

pub length-store_i64 : (n : ℕ) → length (store_i64 (pos n)) ≡ 8
unfolding store_i64
length-store_i64 n = length-store 8 (n % 2 ^ 64)

pub to_signed_small : (half n : ℕ) → n < half → to_signed half n ≡ pos n
unfolding to_signed
to_signed_small half n h = ground arith

pub All-overwrite :
    (P : ℕ → Type 0) (bytes buffer : List ℕ)
    → All P bytes
    → All P buffer
    → All P (overwrite bytes buffer)
unfolding overwrite
All-overwrite P [] buffer h hb = hb
All-overwrite P (b ∷ bytes) [] h hb = tt
All-overwrite P (b ∷ bytes) (old ∷ buffer) h hb = (h.0, All-overwrite P bytes buffer h.1 hb.1)

pub receive_into_done :
    (bytes buffer : List ℕ)
    → length bytes ≤ length buffer
    → receive_into bytes buffer ≡ done (overwrite bytes buffer)
unfolding receive_into
receive_into_done bytes buffer h =
    let fits : leb (length bytes) (length buffer) ≡ true = ground arith in rw fits
