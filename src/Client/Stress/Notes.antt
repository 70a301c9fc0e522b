-- ===== src/Client/Stress/Notes.antt =====
-- One more attempt, the end of a thread, and lists at an index, for the threads of
-- src/client/stress_client.c.
use ride_hailing_system.Prelude.{
  ℕ, zero, suc, ◌+◌, ◌≡◌, refl, sym, ap, ◌∙◌, arith, ltb, if◌then◌else◌, Bool-cases, inl, inr, List,
  [], ◌∷◌, ◌++◌, map, get_elem?, set, some, total_of, ℤ, pos, negsuc, eqb_ℤ,
}
use ride_hailing_system.Client.Stress.{
  status_init, status_success, status_fail_no_driver, status_fail_dos, status_fail_other,
  ClientStatusEntry, Attempt, unconnected, answered, note_failure, note_result, conclude,
}
use ride_hailing_system.Client.Stress.History.{is_ride, first_failure, or_no_driver, verdict}

module _ {A B : Type 0} (f : A → B) where
  pub get_elem?-map :
      (xs : List A) (i : ℕ) {x : A} → get_elem? xs i ≡ some x → get_elem? (map f xs) i ≡ some (f x)
  get_elem?-map [] i e = cc
  get_elem?-map (y ∷ xs) zero e = cc
  get_elem?-map (y ∷ xs) (suc i) e = get_elem?-map xs i e

  pub set-map : (xs : List A) (i : ℕ) (v : A) → set (map f xs) i (f v) ≡ map f (set xs i v)
  set-map [] i v = refl
  set-map (x ∷ xs) zero v = refl
  set-map (x ∷ xs) (suc i) v = ap (λ r. f x ∷ r) (set-map xs i v)

  -- A write that `f` does not see.
  pub map-set_same :
      (xs : List A) (i : ℕ) (v : A) {x : A}
      → get_elem? xs i ≡ some x
      → f v ≡ f x
      → map f (set xs i v) ≡ map f xs
  map-set_same [] i v e same = refl
  map-set_same (y ∷ xs) zero v {x} e same =
      let at : y ≡ x = cc in ap (λ r. r ∷ map f xs) (same ∙ ap f (sym at))
  map-set_same (y ∷ xs) (suc i) v e same = ap (λ r. f y ∷ r) (map-set_same xs i v e same)

-- A write of what is there.
pub set_at : {A : Type 0} (xs : List A) (i : ℕ) {x : A} → get_elem? xs i ≡ some x → xs ≡ set xs i x
set_at [] i e = refl
set_at (y ∷ xs) zero e = cc
set_at (y ∷ xs) (suc i) e = ap (λ r. y ∷ r) (set_at xs i e)

module _ {A : Type 0} (f : A → ℕ) where
  pub total_of-append : (xs ys : List A) → total_of f (xs ++ ys) ≡ total_of f xs + total_of f ys
  total_of-append [] ys = omega arith
  total_of-append (x ∷ xs) ys = omega (arith, total_of-append xs ys)

module _ {W : Type 0} where
  -- One more attempt.
  pub first_failure-append :
      (made : List (Attempt W)) (result : ℤ) (start end : W)
      → first_failure (made ++ (answered result start end ∷ [])) ≡ (
          if eqb_ℤ result (pos 0)
          then first_failure made
          else note_failure result (first_failure made))
  unfolding note_failure
  first_failure-append [] result start end = refl
  first_failure-append (unconnected ∷ made) result start end =
      first_failure-append made result start end
  first_failure-append (answered r s e ∷ made) result start end =
      elim (Bool-cases (eqb_ℤ r (pos 0))) [
        | inl ride ↦ rw ride (first_failure-append made result start end)
        | inr other ↦ elim (Bool-cases (eqb_ℤ r (negsuc 1))) [
          | inl blocked ↦ elim (Bool-cases (eqb_ℤ result (pos 0))) [
            | inl h ↦ rw (other, blocked, h) refl
            | inr h ↦ rw (other, blocked, h) refl
          ]
          | inr refused ↦ elim (Bool-cases (eqb_ℤ result (pos 0))) [
            | inl h ↦ rw (other, refused, h) refl
            | inr h ↦ rw (other, refused, h) refl
          ]
        ]
      ]

  pub first_failure_unconnected :
      (made : List (Attempt W)) → first_failure (made ++ (unconnected ∷ [])) ≡ first_failure made
  first_failure_unconnected [] = refl
  first_failure_unconnected (unconnected ∷ made) = first_failure_unconnected made
  first_failure_unconnected (answered r s e ∷ made) = elim (Bool-cases (eqb_ℤ r (pos 0))) [
    | inl ride ↦ rw ride (first_failure_unconnected made)
    | inr other ↦ rw other refl
  ]

  -- At the end, an entry that says the first failure says the verdict.
  pub conclude-verdict :
      (n : ℕ) (e : ClientStatusEntry) (made : List (Attempt W))
      → n ≡ total_of is_ride made
      → e.final_status ≡ first_failure made
      → (conclude n e).final_status ≡ verdict made
  unfolding conclude note_failure
  conclude-verdict n e made rides says =
      rw (← rides, ← says)
        (elim (Bool-cases (ltb 0 n)) [
          | inl some_ride ↦ rw some_ride refl
          | inr no_ride ↦
              rw no_ride
                (elim e.final_status as (λ st. note_failure (negsuc 0) st ≡ or_no_driver st) [
                  | status_init ↦ refl
                  | status_success ↦ refl
                  | status_fail_no_driver ↦ refl
                  | status_fail_dos ↦ refl
                  | status_fail_other ↦ refl
                ])
        ])

  pub note_result-says :
      (made : List (Attempt W)) (result : ℤ) (start end : W) (e : ClientStatusEntry)
      → e.final_status ≡ first_failure made
      → (note_result result e).final_status
        ≡ first_failure (made ++ (answered result start end ∷ []))
  unfolding note_result
  note_result-says made result start end e says =
      rw (first_failure-append made result start end, ← says)
        (elim (Bool-cases (eqb_ℤ result (pos 0))) [
          | inl ride ↦ rw ride refl
          | inr other ↦ rw other refl
        ])
