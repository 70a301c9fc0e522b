-- ===== src/Server/Start/Drivers.antt =====
-- The drivers of the first state.
use ride_hailing_system.Prelude.{
  Option-cases, ℕ, zero, suc, ◌+◌, ◌<◌, ◌≤◌, ◌≡◌, refl, ◌∙◌, arith, List, length, length-set,
  length-replicate, get_elem?, get_elem?-lt, get_elem?-some, set, done, crash, ◌>>=◌, ℤ, pos,
  pos_part, inl, inr,
}
use ride_hailing_system.Server.Double.{Double, IsOrdered, HasExactFares}
use ride_hailing_system.Server.State.{Driver, SharedState, max_drivers, max_clients}
use ride_hailing_system.Server.Pathfinding.{Grid}
use ride_hailing_system.Server.Pathfinding.Grid.{IsGrid}
use ride_hailing_system.Server.MapMonitor.Modes.{IsSound}
use ride_hailing_system.Server.MapMonitor.Events.{
  AreSound, IsWell, AreSound-next, Event, run_events, run_events-IsWell,
}
use ride_hailing_system.Server.Start.{
  Places, zero_driver, zero_state, place_driver, place_drivers, init_state,
}

module _ {W : Type 0} ⦃d : Double W⦄ where
  place_driver-IsSound : (i : ℕ) (p : Places) (v : Driver W) → IsSound (place_driver i p v)
  unfolding place_driver
  place_driver-IsSound i p v = record { mode = refl; tank = refl }

  place_drivers-AreSound :
      (places : ℕ → Places) (left i n : ℕ) (drivers : List (Driver W))
      → i + left ≡ n
      → n ≤ length drivers
      → AreSound drivers i
      → (drivers' : List (Driver W)) × (place_drivers places left i drivers ≡ done drivers')
        × (length drivers' ≡ length drivers)
        × AreSound drivers' n
  unfolding place_drivers
  place_drivers-AreSound places zero i n drivers e h all =
      let same : i ≡ n = omega arith in (drivers, refl, refl, rw same at all)
  place_drivers-AreSound places (suc left) i n drivers e h all =
      let (v, ev) = get_elem?-some drivers i (omega arith) in
      let u = place_driver i (places i) v in
      let (drivers', et, same, all') =
        place_drivers-AreSound places left (i + 1) n (set drivers i u) (omega arith)
          (omega (arith, length-set drivers i u))
          (AreSound-next drivers i u all (omega arith) (place_driver-IsSound i (places i) v)) in
      (drivers', rw ev et, same ∙ length-set drivers i u, all')

  pub init_state-IsWell :
      (places : ℕ → Places) (count mode : ℤ)
      → pos_part count ≤ max_drivers
      → (s : SharedState W) × (init_state places count mode ≡ done s) × IsWell s
  unfolding init_state zero_state
  init_state-IsWell places count mode h =
      let (drivers, e, same, all) =
        place_drivers-AreSound places (pos_part count) 0 (pos_part count) zero_state.drivers
          (omega arith) (omega (arith, length-replicate max_drivers (zero_driver {W = W})))
          (λ j v less _. absurd (omega arith)) in
      (
        record zero_state { drivers = drivers; driver_count = count; dispatch_mode = mode },
        rw e,
        record {
          sized = record {
            drivers_size = same ∙ length-replicate max_drivers (zero_driver {W = W});
            last_seen_size = length-replicate {A = ℕ} max_clients 0;
            req_count_size = length-replicate {A = ℤ} max_clients (pos 0);
            count_fits = h;
          };
          sound = all;
        },
      )

module _ {W : Type 0} ⦃d : Double W⦄ where
  place_drivers_crash :
      (places : ℕ → Places) (left i : ℕ) (drivers : List (Driver W))
      → length drivers < i + left
      → i ≤ length drivers
      → place_drivers places left i drivers ≡ crash
  unfolding place_drivers
  place_drivers_crash places zero i drivers h within = absurd (omega arith)
  place_drivers_crash places (suc left) i drivers h within =
      elim (Option-cases (get_elem? drivers i)) [
        | inl missing ↦ rw missing
        | inr (v, ev) ↦
            let u = place_driver i (places i) v in
            rw ev (
              place_drivers_crash places left (i + 1) (set drivers i u)
                (omega (arith, length-set drivers i u))
                (omega (arith, length-set drivers i u, get_elem?-lt drivers i ev)))
      ]

  -- With more than 256 drivers asked for, the loop that places the drivers leaves the array.
  pub init_state_crash :
      (places : ℕ → Places) (count mode : ℤ)
      → max_drivers < pos_part count
      → init_state {W = W} places count mode ≡ crash
  unfolding init_state zero_state
  init_state_crash places count mode h = rw (
      place_drivers_crash places (pos_part count) 0 zero_state.drivers
        (omega (arith, length-replicate max_drivers (zero_driver {W = W}))) (omega arith))

module _ {W : Type 0} ⦃d : Double W⦄ (o : IsOrdered W) (exact : HasExactFares W) (grid_map : Grid)
    (fits : IsGrid grid_map) where
  -- With at most 256 drivers asked for, on a grid of the right size and with an ordered `double`
  -- that adds the fares exactly, the server starts, and any sequence of ride requests and rounds of
  -- the monitor then ends without a crash. Afterwards the arrays have their sizes, and each driver
  -- in use is in exactly one of its three modes (available, refuelling, on the way to a target) and
  -- has 0 to 11 units of fuel.
  pub init_state-run_events :
      (places : ℕ → Places) (count mode : ℤ) (events : List Event)
      → pos_part count ≤ max_drivers
      → (s' : SharedState W) × ((init_state places count mode >>= run_events grid_map events)
          ≡ done s')
        × IsWell s'
  init_state-run_events places count mode events h =
      let (s, e, w) = init_state-IsWell places count mode h in
      let (s', e', w') = run_events-IsWell o exact grid_map fits events s w in (s', rw e e', w')
