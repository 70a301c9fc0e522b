-- ===== src/Server/Dispatch/Nearest.antt =====
-- What the search loop of src/server/dispatch_algorithms.c finds.
use mathlib.Core.Bool.{false≢true}
use ride_hailing_system.Prelude.{
  lt-suc_cases, and_true, ℕ, zero, suc, ◌+◌, ◌<◌, ◌≤◌, ◌≡◌, refl, ◌∙◌, sym, ap, arith, Bool, true,
  false, ◌&&◌, inl, inr, Bool-cases, Option, none, some, List, done, length, get_elem?,
  get_elem?-some, pos_part,
}
use ride_hailing_system.Server.Double.{Double, IsOrdered}
use ride_hailing_system.Server.State.{Driver, SharedState, IsSized}
use ride_hailing_system.Server.Dispatch.{pickup_distance, far, is_free, scan, find_driver_basic}

module _ {W : Type 0} ⦃d : Double W⦄ (keep : Driver W → Bool) (drivers : List (Driver W)) where
  open d use {lt}

  -- Entry `j` of the array is a driver that the search may choose.
  abbrev pub Candidate : ℕ → Driver W → Type 0
  Candidate j v = (get_elem? drivers j ≡ some v) × (keep v ≡ true)

  -- No candidate below `n` is nearer than `dist`.
  abbrev pub NoneNearer : ℕ → W → Type 0
  NoneNearer n dist =
      (j : ℕ) (v : Driver W) → j < n → Candidate j v → lt (pickup_distance v) dist ≡ false

  -- The choice among the first `n` entries: a candidate that no other one beats, or nothing if
  -- no candidate is nearer than `far`.
  abbrev pub IsNearest : ℕ → Option ℕ → Type 0
  IsNearest n none = NoneNearer n far
  IsNearest n (some k) =
      (v : Driver W) × (k < n)
      × Candidate k v
      × (lt (pickup_distance v) far ≡ true)
      × NoneNearer n (pickup_distance v)

  -- What the two variables of the loop hold at index `i`.
  abbrev Tracks : ℕ → W → Option ℕ → Type 0
  Tracks i min none = min ≡ far
  Tracks i min (some k) =
      (v : Driver W) × (k < i)
      × Candidate k v
      × (lt (pickup_distance v) far ≡ true)
      × (min ≡ pickup_distance v)

  IsNearest-of_Tracks :
      (n : ℕ) (min : W) (best : Option ℕ) → Tracks n min best → NoneNearer n min → IsNearest n best
  IsNearest-of_Tracks n min none t h = rw (← t) h
  IsNearest-of_Tracks n min (some k) (v, lt_n, c, near, e) h = (v, lt_n, c, near, rw (← e) h)

  Tracks-later : (i : ℕ) (min : W) (best : Option ℕ) → Tracks i min best → Tracks (i + 1) min best
  Tracks-later i min none t = t
  Tracks-later i min (some k) (v, lt_i, c, near, e) = (v, omega arith, c, near, e)

  Tracks-far :
      (i : ℕ) (min : W) (best : Option ℕ)
      → IsOrdered W
      → Tracks i min best
      → (x : W) → lt x min ≡ true
      → lt x far ≡ true
  Tracks-far i min none o t x h = rw t at h
  Tracks-far i min (some k) o (v, _, _, near, e) x h =
      o.lt_trans x (pickup_distance v) far (rw e at h) near

  module _ (o : IsOrdered W) where
    -- The invariant passes one entry on.
    keep_bound :
        (i : ℕ) (min : W) (v : Driver W)
        → NoneNearer i min
        → get_elem? drivers i ≡ some v
        → (keep v && lt (pickup_distance v) min) ≡ false
        → NoneNearer (i + 1) min
    keep_bound i min v h e skip j u lt_j c = elim (lt-suc_cases j i lt_j) [
      | inl below ↦ h j u below c
      | inr last ↦
          let same : v ≡ u = cc (c.0) in
          ground (arith, ap keep same, ap (λ w. lt (pickup_distance w) min) same)
    ]

    lower_bound :
        (i : ℕ) (min : W) (v : Driver W)
        → NoneNearer i min
        → get_elem? drivers i ≡ some v
        → lt (pickup_distance v) min ≡ true
        → NoneNearer (i + 1) (pickup_distance v)
    lower_bound i min v h e near j u lt_j c = elim (lt-suc_cases j i lt_j) [
      | inl below ↦ elim (Bool-cases (lt (pickup_distance u) (pickup_distance v))) [
        | inl beats ↦ absurd (false≢true (sym (h j u below c) ∙ o.lt_trans _ _ _ beats near))
        | inr not_nearer ↦ not_nearer
      ]
      | inr last ↦ let same : v ≡ u = cc (c.0) in rw (← same) (o.lt_irrefl (pickup_distance v))
    ]

    pub scan-IsNearest :
        (left i n : ℕ) (min : W) (best : Option ℕ)
        → i + left ≡ n
        → n ≤ length drivers
        → Tracks i min best
        → NoneNearer i min
        → (found : Option ℕ) × (scan keep drivers left i min best ≡ done found) × IsNearest n found
    unfolding scan
    scan-IsNearest zero i n min best e fits t h =
        let same : i ≡ n = omega arith in
        (best, refl, IsNearest-of_Tracks n min best (rw same at t) (rw same at h))
    scan-IsNearest (suc left) i n min best e fits t h =
        let (v, ev) = get_elem?-some drivers i (omega arith) in
        elim (Bool-cases (keep v && lt (pickup_distance v) min)) [
          | inl nearer ↦
              let (kept, beats) = and_true (keep v) nearer in
              let (found, ef, near) =
                scan-IsNearest left (i + 1) n (pickup_distance v) (some i) (omega arith) fits
                  (
                    v,
                    omega arith,
                    (ev, kept),
                    Tracks-far i min best o t (pickup_distance v) beats,
                    refl,
                  )
                  (lower_bound i min v h ev beats) in
              (found, rw (ev, nearer) ef, near)
          | inr skip ↦
              let (found, ef, near) =
                scan-IsNearest left (i + 1) n min best (omega arith) fits
                  (Tracks-later i min best t) (keep_bound i min v h ev skip) in
              (found, rw (ev, skip) ef, near)
        ]

module _ {W : Type 0} ⦃d : Double W⦄ (o : IsOrdered W) (s : SharedState W)
    (sized : IsSized W s) where
  -- On a state of the right sizes and with an ordered `double`, `find_driver_basic` ends inside the
  -- array. What it returns is a free driver (available, not refuelling, with fuel) among the first
  -- `driver_count` that is nearer than 1000000.0 to the pick-up point and that no other such driver
  -- beats, or -1 where no free driver is nearer than that.
  pub find_driver_basic-IsNearest :
      (found : Option ℕ) × (find_driver_basic s ≡ done found)
      × IsNearest is_free s.drivers (pos_part s.driver_count) found
  unfolding find_driver_basic
  find_driver_basic-IsNearest =
      scan-IsNearest is_free s.drivers o (pos_part s.driver_count) 0 (pos_part s.driver_count) far
        none (omega arith) (omega (arith, sized)) refl (λ j v h c. absurd (omega arith))
