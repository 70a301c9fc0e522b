-- ===== src/Prelude/Int.antt =====
-- Signed integers over the native numbers, under the library's names. `negsuc n` is -(n + 1).
use Prim.Native.Nat.{ℕ, zero, suc, ◌+◌, ◌-◌, ◌*◌, ◌%◌, ◌≤◌, ◌<◌}
use mathlib.Core.Path.{◌≡◌, refl}
use mathlib.Core.Bool.{Bool}
use ride_hailing_system.Prelude.Tests.{ltb, leb, ◌==◌, if◌then◌else◌}

pub data ℤ : Type 0 where
  pos : ℕ → ℤ
  negsuc : ℕ → ℤ

abbrev pub pos_part : ℤ → ℕ
pos_part (pos n) = n
pos_part (negsuc n) = 0

abbrev pub neg_part : ℤ → ℕ
neg_part (pos n) = 0
neg_part (negsuc n) = suc n

-- a - b, as an integer.
abbrev pub sub_ℕ : ℕ → ℕ → ℤ
sub_ℕ a b = if leb b a then pos (a - b) else negsuc (b - a - 1)

infixl 65 ◌+ℤ◌ ◌-ℤ◌
infix 50 ◌≤ℤ◌ ◌<ℤ◌
unfoldable pub ◌+ℤ◌ : ℤ → ℤ → ℤ
a +ℤ b = sub_ℕ (pos_part a + pos_part b) (neg_part a + neg_part b)

unfoldable pub ◌-ℤ◌ : ℤ → ℤ → ℤ
a -ℤ b = sub_ℕ (pos_part a + neg_part b) (neg_part a + pos_part b)

abbrev pub ◌≤ℤ◌ : ℤ → ℤ → Type 0
a ≤ℤ b = pos_part a + neg_part b ≤ pos_part b + neg_part a

abbrev pub ◌<ℤ◌ : ℤ → ℤ → Type 0
a <ℤ b = pos_part a + neg_part b < pos_part b + neg_part a

abbrev pub ltb_ℤ : ℤ → ℤ → Bool
ltb_ℤ a b = ltb (pos_part a + neg_part b) (pos_part b + neg_part a)

abbrev pub leb_ℤ : ℤ → ℤ → Bool
leb_ℤ a b = leb (pos_part a + neg_part b) (pos_part b + neg_part a)

abbrev pub eqb_ℤ : ℤ → ℤ → Bool
eqb_ℤ a b = pos_part a + neg_part b == pos_part b + neg_part a

-- `abs`.
abbrev pub nat_abs : ℤ → ℕ
nat_abs (pos n) = n
nat_abs (negsuc n) = suc n

-- -n.
abbrev pub neg_ℕ : ℕ → ℤ
neg_ℕ zero = pos 0
neg_ℕ (suc n) = negsuc n

infixl 70 ◌*ℤ◌ ◌%ℤ◌
unfoldable pub ◌*ℤ◌ : ℤ → ℤ → ℤ
pos a *ℤ pos b = pos (a * b)
pos a *ℤ negsuc b = neg_ℕ (a * suc b)
negsuc a *ℤ pos b = neg_ℕ (suc a * b)
negsuc a *ℤ negsuc b = pos (suc a * suc b)

-- C's remainder by a positive number: it has the sign of the dividend.
unfoldable pub ◌%ℤ◌ : ℤ → ℕ → ℤ
pos a %ℤ m = pos (a % m)
negsuc a %ℤ m = neg_ℕ (suc a % m)

pub nat_abs-neg_ℕ : (n : ℕ) → nat_abs (neg_ℕ n) ≡ n
nat_abs-neg_ℕ zero = refl
nat_abs-neg_ℕ (suc n) = refl

pub nat_abs-*ℤ : (a b : ℤ) → nat_abs (a *ℤ b) ≡ nat_abs a * nat_abs b
unfolding ◌*ℤ◌
nat_abs-*ℤ (pos a) (pos b) = refl
nat_abs-*ℤ (pos a) (negsuc b) = nat_abs-neg_ℕ (a * suc b)
nat_abs-*ℤ (negsuc a) (pos b) = nat_abs-neg_ℕ (suc a * b)
nat_abs-*ℤ (negsuc a) (negsuc b) = refl

pub nat_abs-%ℤ : (a : ℤ) (m : ℕ) → nat_abs (a %ℤ m) ≡ nat_abs a % m
unfolding ◌%ℤ◌
nat_abs-%ℤ (pos a) m = refl
nat_abs-%ℤ (negsuc a) m = nat_abs-neg_ℕ (suc a % m)

-- `x++` on an `int`: past the largest value it wraps around, as the compiled code does.
abbrev pub inc_i32 : ℤ → ℤ
inc_i32 z = if ltb_ℤ z (pos 2147483647) then z +ℤ pos 1 else negsuc 2147483647

-- `a += b` on a 64-bit `long`, with the wrap-around of the compiled code.
abbrev pub add_i64 : ℤ → ℤ → ℤ
add_i64 a b =
    if ltb_ℤ (pos 9223372036854775807) (a +ℤ b)
    then a +ℤ b -ℤ pos 18446744073709551616
    else (if ltb_ℤ (a +ℤ b) (negsuc 9223372036854775807)
        then a +ℤ b +ℤ pos 18446744073709551616
        else a +ℤ b)

-- The number of rounds of `for (int i = 0; i < n; i++)`: none for a negative bound.
abbrev pub rounds : ℤ → ℕ
rounds = pos_part
