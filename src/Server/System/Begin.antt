-- ===== src/Server/System/Begin.antt =====
-- The shared memory at the start of the server (src/server/server_main.c).
use ride_hailing_system.Prelude.{
  ℕ, zero, suc, ◌+◌, ◌≤◌, ◌≡◌, refl, sym, ◌∙◌, ap, arith, List, some, get_elem?, get_elem?-set_ne,
  set, done, ℤ, pos, All-get_elem?, All-replicate, replicate, read, >>=-eq_done,
}
use ride_hailing_system.Server.Double.{Double}
use ride_hailing_system.Server.State.{Driver, SharedState, max_drivers}
use ride_hailing_system.Server.Start.{
  Places, zero_driver, zero_state, place_driver, place_drivers, init_state,
}
use ride_hailing_system.Server.Start.Drivers.{init_state-IsWell}
use ride_hailing_system.Server.System.Memory.{IsSpare, AreKept, IsRunning}

module _ {W : Type 0} ⦃d : Double W⦄ where
  place_drivers-AreKept :
      (places : ℕ → Places) (left i : ℕ) (drivers drivers' : List (Driver W))
      → place_drivers places left i drivers ≡ done drivers'
      → AreKept (i + left) drivers drivers'
  unfolding place_drivers
  place_drivers-AreKept places zero i drivers drivers' e j beyond = cc
  place_drivers-AreKept places (suc left) i drivers drivers' e j beyond =
      let (v, _, rest) = >>=-eq_done (read drivers i) _ e in
      let v' = place_driver i (places i) v in
      place_drivers-AreKept places left (i + 1) (set drivers i v') drivers' rest j (omega arith)
      ∙ get_elem?-set_ne drivers i j v' (omega arith)

  zero_driver-IsSpare :
      (n j : ℕ) (v : Driver W) → get_elem? (replicate n zero_driver) j ≡ some v → IsSpare v
  unfolding zero_driver
  zero_driver-IsSpare n j v e =
      All-get_elem? IsSpare (replicate n zero_driver) j
        (All-replicate IsSpare n zero_driver (refl, refl)) e

  pub init_state-IsRunning :
      (places : ℕ → Places) (n : ℕ) (mode : ℤ)
      → n ≤ max_drivers
      → (s : SharedState W) × (init_state places (pos n) mode ≡ done s) × IsRunning s
  unfolding init_state zero_state
  init_state-IsRunning places n mode fits =
      let (s, e, well) = init_state-IsWell places (pos n) mode fits in
      let (drivers, placed, same) = >>=-eq_done (place_drivers places n 0 zero_state.drivers) _ e in
      let kept = place_drivers-AreKept places n 0 zero_state.drivers drivers placed in
      let is_set : record zero_state {
        drivers = drivers;
        driver_count = pos n;
        dispatch_mode = mode;
      }
          ≡ s =
        cc in
      let at_start = λ (j : ℕ) (beyond : n ≤ j).
        sym (kept j (omega arith)) ∙ ap (λ (m : SharedState W). get_elem? m.drivers j) is_set in
      (
        s,
        e,
        record {
          well = well;
          drivers = n;
          count = sym (ap (λ (m : SharedState W). m.driver_count) is_set);
          spare = λ j v beyond es. zero_driver-IsSpare max_drivers j v (at_start j beyond ∙ es);
        },
      )
