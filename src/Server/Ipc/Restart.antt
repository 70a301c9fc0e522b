-- ===== src/Server/Ipc/Restart.antt =====
-- The start of the shared memory (src/server/coordinator.c), fresh and from a saved state.
use mathlib.Core.List.{append_assoc}
use ride_hailing_system.Prelude.{
  ℕ, zero, suc, ◌+◌, ◌≤◌, ◌≡◌, ◌↔◌, refl, sym, ap, ◌∙◌, arith, Bool, true, false, List, [], ◌∷◌,
  ◌++◌, length, length-append, get_elem?-append, set-append, length-replicate, replicate, take, All,
  done, ℤ, pos, negsuc, pos_part,
}
use ride_hailing_system.Server.Double.{Double}
use ride_hailing_system.Server.State.{Driver, SharedState, IsSized, max_drivers}
use ride_hailing_system.Server.Start.{zero_driver, zero_state}
use ride_hailing_system.Server.MapMonitor.Modes.{is_one, IsSound}
use ride_hailing_system.Server.Ipc.{
  DataFile, missing, short, complete, saved, save_state, load_state, for_drivers, make_available,
  new_driver, clamp_drivers, prepare, ipc_init,
}

clamp_drivers-le : (z : ℤ) → pos_part (clamp_drivers z) ≤ max_drivers
unfolding clamp_drivers
clamp_drivers-le (pos n) = ground arith
clamp_drivers-le (negsuc n) = ground arith

only_mode : (a r t : Bool) → is_one a r t ≡ true → is_one true r t ≡ true → a ≡ true
only_mode a r t h k = ground arith

module _ {W : Type 0} where
  -- `change` on each of the first `n` drivers, which stand from place `i` on.
  abbrev pub change_first : (ℕ → Driver W → Driver W) → ℕ → ℕ → List (Driver W) → List (Driver W)
  change_first change zero i drivers = drivers
  change_first change (suc n) i [] = []
  change_first change (suc n) i (v ∷ drivers) = change i v ∷ change_first change n (i + 1) drivers

  length-change_first :
      (change : ℕ → Driver W → Driver W) (n i : ℕ) (drivers : List (Driver W))
      → length (change_first change n i drivers) ≡ length drivers
  length-change_first change zero i drivers = refl
  length-change_first change (suc n) i [] = refl
  length-change_first change (suc n) i (v ∷ drivers) =
      ap suc (length-change_first change n (i + 1) drivers)

  for_drivers_lem :
      (change : ℕ → Driver W → Driver W) (n : ℕ) (before drivers : List (Driver W))
      → n ≤ length drivers
      → for_drivers change n (length before) (before ++ drivers)
        ≡ done (before ++ change_first change n (length before) drivers)
  unfolding for_drivers
  for_drivers_lem change zero before drivers h = refl
  for_drivers_lem change (suc n) before [] h = absurd (omega arith)
  for_drivers_lem change (suc n) before (v ∷ drivers) h =
      let w = change (length before) v in
      let size : length (before ++ (w ∷ [])) ≡ length before + 1 =
        omega (arith, length-append before (w ∷ [])) in
      let next = for_drivers_lem change n (before ++ (w ∷ [])) drivers (omega arith) in
      rw (get_elem?-append before drivers v, set-append before drivers v w)
        (rw
          (
            size,
            append_assoc before (w ∷ []) drivers,
            append_assoc before (w ∷ []) (change_first change n (length before + 1) drivers),
          )
          at next)

  for_drivers-change_first :
      (change : ℕ → Driver W → Driver W) (n : ℕ) (drivers : List (Driver W))
      → n ≤ length drivers
      → for_drivers change n 0 drivers ≡ done (change_first change n 0 drivers)
  for_drivers-change_first change n drivers h = for_drivers_lem change n [] drivers h

  -- A start with the file of a saved state of the right sizes gives that state, with each of the
  -- drivers in use made available and nothing else changed, whatever number of drivers is asked
  -- for.
  pub ipc_init_restart :
      ⦃d : Double W⦄ (driver_count : ℤ) (s memory : SharedState W) (file : DataFile W)
      → IsSized W s
      → ipc_init driver_count (save_state saved s file) memory
        ≡ done (record s {
          drivers = change_first make_available (pos_part s.driver_count) 0 s.drivers;
        })
  unfolding ipc_init prepare load_state save_state
  ipc_init_restart driver_count s memory file sized = rw (
      for_drivers-change_first make_available (pos_part s.driver_count) s.drivers
        (omega (arith, sized)))

  -- A driver in exactly one mode is still so after being made available if and only if it was
  -- available.
  pub make_available-IsSound :
      (i : ℕ) (v : Driver W) → IsSound v → IsSound (make_available i v) ↔ (v.is_available ≡ true)
  unfolding make_available
  make_available-IsSound i v sound = (
    λ after. only_mode v.is_available v.is_refueling v.has_target sound.mode after.mode,
    λ free. record {
      mode = ap (λ b. is_one b v.is_refueling v.has_target) (sym free) ∙ sound.mode;
      tank = sound.tank;
    },
  )

module _ (W : Type 0) ⦃d : Double W⦄ where
  new_driver-IsSound : (i : ℕ) → IsSound (new_driver i (zero_driver {W = W}))
  unfolding new_driver zero_driver
  new_driver-IsSound i = record { mode = refl; tank = refl }

  fresh-IsSound :
      (n m i : ℕ)
      → All IsSound (take n (change_first new_driver n i (replicate m (zero_driver {W = W}))))
  fresh-IsSound zero m i = tt
  fresh-IsSound (suc n) zero i = tt
  fresh-IsSound (suc n) (suc m) i = (new_driver-IsSound i, fresh-IsSound n m (i + 1))

module _ {W : Type 0} ⦃d : Double W⦄ where
  -- A fresh memory for a wish for `driver_count` drivers.
  pub record IsFresh (driver_count : ℤ) (s : SharedState W) : Type 0 where
    pub sized : IsSized W s
    pub count : s.driver_count ≡ clamp_drivers driver_count
    pub sound : All IsSound (take (pos_part s.driver_count) s.drivers)

  prepare-IsFresh :
      (driver_count : ℤ) (state : SharedState W)
      → (s : SharedState W) × (prepare driver_count (false, state) ≡ done s)
        × IsFresh driver_count s
  unfolding prepare zero_state
  prepare-IsFresh driver_count state =
      let n = pos_part (clamp_drivers driver_count) in
      let all = replicate max_drivers (zero_driver {W = W}) in
      let size = length-replicate max_drivers (zero_driver {W = W}) in
      (
        record zero_state {
          drivers = change_first new_driver n 0 all;
          driver_count = clamp_drivers driver_count;
        },
        rw (
            for_drivers-change_first new_driver n all
              (omega (arith, size, clamp_drivers-le driver_count))),
        record {
          sized = record {
            drivers_size = length-change_first new_driver n 0 all ∙ size;
            last_seen_size = refl;
            req_count_size = refl;
            count_fits = clamp_drivers-le driver_count;
          };
          count = refl;
          sound = fresh-IsSound W n max_drivers 0;
        },
      )

  -- A start without a complete file, for any number of drivers asked for, ends with arrays of the
  -- right sizes, with that number of drivers or 256 if it is larger, and each of them is in exactly
  -- one mode with 0 to 11 units of fuel.
  pub ipc_init-IsFresh :
      (driver_count : ℤ) (file : DataFile W) (memory : SharedState W)
      → (load_state file memory).0 ≡ false
      → (s : SharedState W) × (ipc_init driver_count file memory ≡ done s) × IsFresh driver_count s
  unfolding ipc_init load_state
  ipc_init-IsFresh driver_count (complete state) memory h = cc
  ipc_init-IsFresh driver_count missing memory h = prepare-IsFresh driver_count memory
  ipc_init-IsFresh driver_count (short rest) memory h = prepare-IsFresh driver_count rest
