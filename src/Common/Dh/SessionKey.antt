-- ===== src/Common/Dh/SessionKey.antt =====
-- The text of a session key, and how it is read back.
use native.Mathlib.Nat.{pow-suc}
use mathlib.Core.List.{append_assoc}
use ride_hailing_system.Prelude.{
  ℕ, zero, suc, ◌+◌, ◌-◌, ◌*◌, ◌/◌, ◌%◌, ◌^◌, ◌<◌, ◌≤◌, ◌≡◌, refl, ◌∙◌, ap, true, false, ◌&&◌, ltb,
  leb, ◌==◌, if◌then◌else◌, Bool-cases, inl, inr, arith, List, [], ◌∷◌, ◌++◌, length, length-append,
  take_all, All, All-append, ℤ, pos, negsuc, neg_ℕ,
}
use ride_hailing_system.Common.Dh.{
  decimal, print_lld, key_prefix, key_suffix, derive_session_key, fits_i64,
}
use ride_hailing_system.Common.Rc4.Keystream.{IsAscii}

decimal-IsAscii : (fuel n : ℕ) → All IsAscii (decimal fuel n)
unfolding decimal
decimal-IsAscii zero n = tt
decimal-IsAscii (suc fuel) n = elim (Bool-cases (ltb n 10)) [
  | inl small ↦ rw small (ground arith)
  | inr large ↦ rw large (
      All-append IsAscii (decimal fuel (n / 10)) ((48 + n % 10) ∷ [])
        (decimal-IsAscii fuel (n / 10)) (omega arith))
]

length-decimal : (k fuel n : ℕ) → n < 10 ^ suc k → length (decimal fuel n) ≤ suc k
unfolding decimal
length-decimal k zero n h = omega arith
length-decimal zero (suc fuel) n h = ground arith
length-decimal (suc k) (suc fuel) n h = ground (
  arith,
  length-append (decimal fuel (n / 10)) ((48 + n % 10) ∷ []),
  length-decimal k fuel (n / 10) (omega (arith, pow-suc 10 (suc k))),
)

-- Reading a number back: the digits up to the first other character.
pub parse : ℕ → List ℕ → ℕ
parse acc [] = acc
parse acc (c ∷ cs) = if leb 48 c && leb c 57 then parse (acc * 10 + (c - 48)) cs else acc

parse_digit :
    (acc d : ℕ) (rest : List ℕ) → d < 10 → parse acc ((48 + d) ∷ rest) ≡ parse (acc * 10 + d) rest
unfolding parse
parse_digit acc d rest h = let e : 48 + d - 48 ≡ d = omega arith in ground arith

parse-decimal :
    (fuel n : ℕ) (rest : List ℕ) → n < fuel → parse 0 (decimal fuel n ++ rest) ≡ parse n rest
unfolding decimal
parse-decimal zero n rest h = absurd (omega arith)
parse-decimal (suc fuel) n rest h = elim (Bool-cases (ltb n 10)) [
  | inl small ↦
      rw small (parse_digit 0 n rest (ground arith) ∙ ap (λ (t : ℕ). parse t rest) (omega arith))
  | inr large ↦
      rw (large, append_assoc)
        (parse-decimal fuel (n / 10) ((48 + n % 10) ∷ rest) (ground arith)
          ∙ parse_digit (n / 10) (n % 10) rest (omega arith)
          ∙ ap (λ (t : ℕ). parse t rest) (omega arith))
]

decimal_head :
    (fuel n : ℕ) → n < fuel → (c : ℕ) × (cs : List ℕ) × (decimal fuel n ≡ c ∷ cs) × (48 ≤ c)
unfolding decimal
decimal_head zero n h = absurd (omega arith)
decimal_head (suc fuel) n h = elim (Bool-cases (ltb n 10)) [
  | inl small ↦ (48 + n, [], rw small, omega arith)
  | inr large ↦
      let (c, cs, e, hc) = decimal_head fuel (n / 10) (ground arith) in
      (c, cs ++ ((48 + n % 10) ∷ []), rw (large, e), hc)
]

read_lld : List ℕ → ℤ
read_lld [] = pos 0
read_lld (c ∷ cs) = if c == 45 then neg_ℕ (parse 0 cs) else pos (parse 0 (c ∷ cs))

-- The secret that a session key was derived from.
pub read_key : List ℕ → ℤ
read_key (_ ∷ _ ∷ _ ∷ _ ∷ text) = read_lld text
read_key _ = pos 0

parse_suffix : (n : ℕ) → parse n key_suffix ≡ n
unfolding parse
parse_suffix n = refl

read_lld-print_lld : (z : ℤ) → read_lld (print_lld z ++ key_suffix) ≡ z
unfolding read_lld print_lld
read_lld-print_lld (pos n) =
    let (c, cs, e, hc) = decimal_head (suc n) n (omega arith) in
    let ne : (c == 45) ≡ false = ground arith in
    let back : parse 0 (decimal (suc n) n ++ key_suffix) ≡ n =
      parse-decimal (suc n) n key_suffix (omega arith) ∙ parse_suffix _ in
    rw e (rw ne (ap pos (rw e at back)))
read_lld-print_lld (negsuc n) =
    ap neg_ℕ (parse-decimal (suc (suc n)) (suc n) key_suffix (omega arith) ∙ parse_suffix _)

pub print_lld-IsAscii : (z : ℤ) → All IsAscii (print_lld z)
unfolding print_lld
print_lld-IsAscii (pos n) = decimal-IsAscii (suc n) n
print_lld-IsAscii (negsuc n) = (omega arith, decimal-IsAscii (suc (suc n)) (suc n))

length-print_lld : (z : ℤ) → fits_i64 z ≡ true → length (print_lld z) ≤ 20
unfolding print_lld
length-print_lld (pos n) h = omega (arith, length-decimal 18 (suc n) n (ground arith))
length-print_lld (negsuc n) h =
    omega (arith, length-decimal 18 (suc (suc n)) (suc n) (ground arith))

-- `snprintf` cuts nothing off.
pub derive_session_key_lem :
    (z : ℤ)
    → fits_i64 z ≡ true
    → derive_session_key z 64 ≡ key_prefix ++ (print_lld z ++ key_suffix)
unfolding derive_session_key
derive_session_key_lem z h =
    take_all 63 (key_prefix ++ (print_lld z ++ key_suffix))
      (omega (arith, length-append (print_lld z) key_suffix, length-print_lld z h))

-- For a secret that fits 64 bits, the session key in a buffer of 64 bytes is not cut off: it has
-- only ASCII characters, is not empty, is shorter than 64, and the secret can be read back from it.
pub derive_session_key-IsKey :
    (z : ℤ)
    → fits_i64 z ≡ true
    → let key = derive_session_key z 64 in
      All IsAscii key × (0 < length key) × (length key < 64) × (read_key key ≡ z)
unfolding read_key
derive_session_key-IsKey z h = rw (derive_session_key_lem z h) (
  All-append IsAscii key_prefix (print_lld z ++ key_suffix) (omega arith)
      (All-append IsAscii (print_lld z) key_suffix (print_lld-IsAscii z) (omega arith)),
  omega arith,
  omega (arith, length-append (print_lld z) key_suffix, length-print_lld z h),
  read_lld-print_lld z,
)
