-- ===== src/Prelude/Pairs.antt =====
-- Two lists whose elements match one by one, under reads and writes at an index.
use mathlib.Core.Path.{subst}
use ride_hailing_system.Prelude.{
  ℕ, zero, suc, List, [], ◌∷◌, ◌≡◌, refl, ap, some, length, get_elem?, set,
}

abbrev pub All2 {ℓ κ} : {A : Type ℓ} {B : Type κ} → (A → B → Type 0) → List A → List B → Type 0
All2 R [] [] = Unit
All2 R [] (y ∷ ys) = ⊥
All2 R (x ∷ xs) [] = ⊥
All2 R (x ∷ xs) (y ∷ ys) = R x y × All2 R xs ys

module _ {ℓ κ} {A : Type ℓ} {B : Type κ} (R : A → B → Type 0) where
  pub All2-get_elem? :
      (xs : List A) (ys : List B) (i : ℕ) {y : B}
      → All2 R xs ys
      → get_elem? ys i ≡ some y
      → (x : A) × (get_elem? xs i ≡ some x) × R x y
  All2-get_elem? [] [] i h e = cc
  All2-get_elem? [] (z ∷ ys) i h e = absurd h
  All2-get_elem? (x ∷ xs) [] i h e = absurd h
  All2-get_elem? (x ∷ xs) (z ∷ ys) zero {y} h e =
      let same : z ≡ y = cc in (x, refl, subst (λ u. R x u) same h.0)
  All2-get_elem? (x ∷ xs) (z ∷ ys) (suc i) h e = All2-get_elem? xs ys i h.1 e

  pub All2-set :
      (xs : List A) (ys : List B) (i : ℕ) (v : A) (u : B)
      → All2 R xs ys
      → R v u
      → All2 R (set xs i v) (set ys i u)
  All2-set [] [] i v u h r = tt
  All2-set [] (y ∷ ys) i v u h r = absurd h
  All2-set (x ∷ xs) [] i v u h r = absurd h
  All2-set (x ∷ xs) (y ∷ ys) zero v u h r = (r, h.1)
  All2-set (x ∷ xs) (y ∷ ys) (suc i) v u h r = (h.0, All2-set xs ys i v u h.1 r)

  pub All2-set_right :
      (xs : List A) (ys : List B) (i : ℕ) {x : A} (u : B)
      → All2 R xs ys
      → get_elem? xs i ≡ some x
      → R x u
      → All2 R xs (set ys i u)
  All2-set_right [] [] i u h e r = tt
  All2-set_right [] (y ∷ ys) i u h e r = absurd h
  All2-set_right (x ∷ xs) [] i u h e r = absurd h
  All2-set_right (z ∷ xs) (y ∷ ys) zero {x} u h e r =
      let same : x ≡ z = cc in (subst (λ a. R a u) same r, h.1)
  All2-set_right (z ∷ xs) (y ∷ ys) (suc i) u h e r = (h.0, All2-set_right xs ys i u h.1 e r)

  pub All2-length : (xs : List A) (ys : List B) → All2 R xs ys → length xs ≡ length ys
  All2-length [] [] h = refl
  All2-length [] (y ∷ ys) h = absurd h
  All2-length (x ∷ xs) [] h = absurd h
  All2-length (x ∷ xs) (y ∷ ys) h = ap suc (All2-length xs ys h.1)

-- A relation that follows from another one, for the elements that stand at the same index.
pub All2-imp {ℓ κ} :
    {A : Type ℓ} {B : Type κ} (R S : A → B → Type 0) (xs : List A) (ys : List B)
    → ((i : ℕ) (x : A) (y : B) → get_elem? ys i ≡ some y → R x y → S x y)
    → All2 R xs ys
    → All2 S xs ys
All2-imp R S [] [] f h = tt
All2-imp R S [] (y ∷ ys) f h = absurd h
All2-imp R S (x ∷ xs) [] f h = absurd h
All2-imp R S (x ∷ xs) (y ∷ ys) f h =
    (f 0 x y refl h.0, All2-imp R S xs ys (λ i a b e r. f (suc i) a b e r) h.1)
