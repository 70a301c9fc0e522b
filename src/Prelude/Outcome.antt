-- ===== src/Prelude/Outcome.antt =====
-- The outcome of C code that may meet undefined behaviour: a normal end with a value, or a crash
-- (an access out of bounds, a write to read-only memory, a division by zero).
use Prim.Native.Nat.{ℕ}
use mathlib.Core.Path.{◌≡◌, refl}
use mathlib.Core.Logic.{◌⊎◌, inl, inr}
use mathlib.Core.List.{List}
use mathlib.Core.Option.{Option, none, some}
use ride_hailing_system.Prelude.Lists.{get_elem?, set}

pub data Exec {ℓ} (A : Type ℓ) : Type ℓ where
  done : A → Exec A
  crash : Exec A

infixl 5 ◌>>=◌
abbrev pub ◌>>=◌ {ℓ κ} : {A : Type ℓ} {B : Type κ} → Exec A → (A → Exec B) → Exec B
done a >>= f = f a
crash >>= f = crash

module _ {ℓ} {A : Type ℓ} where
  -- What an array access finds, or a crash.
  abbrev pub checked : Option A → Exec A
  checked none = crash
  checked (some a) = done a

  -- `xs[i]` as an rvalue.
  abbrev pub read : List A → ℕ → Exec A
  read xs i = checked (get_elem? xs i)

  -- `xs[i] = v`.
  abbrev pub write : List A → ℕ → A → Exec (List A)
  write xs i v = read xs i >>= λ _. done (set xs i v)

  pub Exec-cases : (m : Exec A) → ((a : A) × (m ≡ done a)) ⊎ (m ≡ crash)
  Exec-cases (done a) = inl (a, refl)
  Exec-cases crash = inr refl

-- What a bind that ends normally has done.
pub >>=-eq_done {ℓ κ} :
    {A : Type ℓ} {B : Type κ} (m : Exec A) (f : A → Exec B) {b : B}
    → (m >>= f) ≡ done b
    → (a : A) × (m ≡ done a) × (f a ≡ done b)
>>=-eq_done (done a) f h = (a, refl, h)
>>=-eq_done crash f h = cc
