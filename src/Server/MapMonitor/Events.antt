-- ===== src/Server/MapMonitor/Events.antt =====
-- The whole shared state under the monitor's rounds and the workers' requests.
use ride_hailing_system.Prelude.{
  ℕ, zero, suc, ◌+◌, ◌<◌, ◌≤◌, ◌≡◌, ◌≢◌, refl, sym, ◌∙◌, ap, arith, Bool, true, false, ◌==◌,
  Bool-cases, inl, inr, List, [], ◌∷◌, some, length, length-set, get_elem?, get_elem?-lt,
  get_elem?-some, get_elem?-set_self, get_elem?-set_ne, set, Exec, done, ◌>>=◌, ℤ, pos_part,
  and_true, lt-suc_cases,
}
use ride_hailing_system.Server.Double.{Double, IsOrdered, HasExactFares}
use ride_hailing_system.Server.State.{Driver, SharedState, IsSized}
use ride_hailing_system.Server.Dispatch.{is_free}
use ride_hailing_system.Server.Pathfinding.{Grid}
use ride_hailing_system.Server.Pathfinding.Grid.{IsGrid}
use ride_hailing_system.Server.Ride.{
  is_vip_client, Reply, confirmed, no_drivers, handle_ride_request_logic,
}
use ride_hailing_system.Server.Ride.Assign.{
  choice-IsFree, IsEnRoute, Outcome, handle_ride_request_logic-Outcome,
}
use ride_hailing_system.Server.Ride.Fleet.{Request}
use ride_hailing_system.Server.MapMonitor.{Rolls, tick_drivers, tick}
use ride_hailing_system.Server.MapMonitor.Modes.{IsSound, is_one, tank_less, tick_driver-IsSound}

module _ {W : Type 0} where
  -- The first `n` drivers are sound.
  abbrev pub AreSound : List (Driver W) → ℕ → Type 0
  AreSound drivers n = (j : ℕ) (v : Driver W) → j < n → get_elem? drivers j ≡ some v → IsSound v

  pub record IsWell (s : SharedState W) : Type 0 where
    pub sized : IsSized W s
    pub sound : AreSound s.drivers (pos_part s.driver_count)

  -- A sound driver may be written anywhere.
  pub AreSound-set :
      (drivers : List (Driver W)) (n k : ℕ) (v : Driver W)
      → AreSound drivers n
      → k < length drivers
      → IsSound v
      → AreSound (set drivers k v) n
  AreSound-set drivers n k v all here s j u less e = elim (Bool-cases (k == j)) [
    | inl same ↦
        let eq : k ≡ j = ground arith in
        let hit : v ≡ u = cc (get_elem?-set_self drivers k v here, e, eq) in rw (← hit) s
    | inr other ↦
        let ne : k ≢ j = ground arith in all j u less (sym (get_elem?-set_ne drivers k j v ne) ∙ e)
  ]

  -- A sound driver in the next place.
  pub AreSound-next :
      (drivers : List (Driver W)) (i : ℕ) (u : Driver W)
      → AreSound drivers i
      → i < length drivers
      → IsSound u
      → AreSound (set drivers i u) (i + 1)
  AreSound-next drivers i u all here s j v less e = elim (lt-suc_cases j i less) [
    | inl below ↦ AreSound-set drivers i i u all here s j v below e
    | inr last ↦ let hit : u ≡ v = cc (get_elem?-set_self drivers i u here, e, last) in rw (← hit) s
  ]

busy_mode : (a r t : Bool) → is_one a r t ≡ true → a ≡ true → is_one false r true ≡ true
busy_mode a r t h g = ground arith

-- What the processes of the server do to the shared state, one at a time.
pub data Event : Type 0 where
  requested : Request → Event
  ticked : (ℕ → Rolls) → Event

module _ {W : Type 0} ⦃d : Double W⦄ where
  pub run_event : Grid → Event → SharedState W → Exec (SharedState W)
  run_event grid_map (requested q) state =
      handle_ride_request_logic q.client_id q.rand1 q.rand2 state >>= λ r. done r.0
  run_event grid_map (ticked rolls) state = tick grid_map rolls state

  pub run_events : Grid → List Event → SharedState W → Exec (SharedState W)
  run_events grid_map [] state = done state
  run_events grid_map (e ∷ events) state = run_event grid_map e state >>= run_events grid_map events

module _ {W : Type 0} ⦃d : Double W⦄ (grid_map : Grid) (fits : IsGrid grid_map) where
  tick_drivers-AreSound :
      (rolls : ℕ → Rolls) (left i n : ℕ) (drivers : List (Driver W))
      → i + left ≡ n
      → n ≤ length drivers
      → AreSound drivers n
      → (drivers' : List (Driver W)) × (tick_drivers grid_map rolls left i drivers ≡ done drivers')
        × (length drivers' ≡ length drivers)
        × AreSound drivers' n
  unfolding tick_drivers
  tick_drivers-AreSound rolls zero i n drivers e h all = (drivers, refl, refl, all)
  tick_drivers-AreSound rolls (suc left) i n drivers e h all =
      let (v, ev) = get_elem?-some drivers i (omega arith) in
      let (u, eu, su) = tick_driver-IsSound grid_map fits (rolls i) v (all i v (omega arith) ev) in
      let size = length-set drivers i u in
      let (drivers', et, same, all') =
        tick_drivers-AreSound rolls left (i + 1) n (set drivers i u) (omega arith) (omega arith)
          (AreSound-set drivers n i u all (get_elem?-lt drivers i ev) su) in
      (drivers', rw (ev, eu) et, same ∙ size, all')

  pub tick-IsWell :
      (rolls : ℕ → Rolls) (s : SharedState W)
      → IsWell s
      → (s' : SharedState W) × (tick grid_map rolls s ≡ done s') × IsWell s'
  unfolding tick
  tick-IsWell rolls s w =
      let n = pos_part s.driver_count in
      let (drivers', e, same, all) =
        tick_drivers-AreSound rolls n 0 n s.drivers (omega arith) (omega (arith, w.sized))
          w.sound in
      (
        record s { drivers = drivers' },
        rw e,
        record {
          sized = record {
            drivers_size = same ∙ w.sized.drivers_size;
            last_seen_size = w.sized.last_seen_size;
            req_count_size = w.sized.req_count_size;
            count_fits = w.sized.count_fits;
          };
          sound = all;
        },
      )

module _ {W : Type 0} ⦃d : Double W⦄ where
  en_route-IsSound : (v v' : Driver W) → is_free v ≡ true → IsSound v → IsEnRoute v v' → IsSound v'
  en_route-IsSound v v' free s e =
      let (available, rest) = and_true v.is_available free in
      let (_, fuelled) = and_true _ rest in
      rw e (record {
        mode = busy_mode v.is_available v.is_refueling v.has_target s.mode available;
        tank = tank_less v.fuel s.tank fuelled;
      })

  pub Outcome-IsWell :
      (client : ℤ) (s : SharedState W) (r : SharedState W × Reply W)
      → IsWell s
      → IsSized W r.0
      → Outcome client s r
      → IsWell r.0
  Outcome-IsWell client s (s', no_drivers) w sized (same, _) = rw same w
  Outcome-IsWell client s (s', confirmed id rating distance is_smart) w sized
        (k, v, v', a, _, _, _, _) =
      let here = get_elem?-lt s.drivers k a.was in
      let (_, in_use, _, _) = choice-IsFree s (is_vip_client client) k a.chosen in
      let sound_v = w.sound k v in_use a.was in
      let count : s'.driver_count ≡ s.driver_count = ap (λ t. t.driver_count) a.rest in
      record {
        sized = sized;
        sound =
            rw (a.drivers_set, count)
              (AreSound-set s.drivers _ k v' w.sound here
                (en_route-IsSound v v' a.was_free sound_v a.en_route));
      }

module _ {W : Type 0} ⦃d : Double W⦄ (o : IsOrdered W) (exact : HasExactFares W) (grid_map : Grid)
    (fits : IsGrid grid_map) where
  run_event-IsWell :
      (e : Event) (s : SharedState W)
      → IsWell s
      → (s' : SharedState W) × (run_event grid_map e s ≡ done s') × IsWell s'
  unfolding run_event
  run_event-IsWell (ticked rolls) s w = tick-IsWell grid_map fits rolls s w
  run_event-IsWell (requested q) s w =
      let (r, e, outcome, sized) =
        handle_ride_request_logic-Outcome o exact s w.sized q.client_id q.rand1 q.rand2 in
      (r.0, rw e, Outcome-IsWell q.client_id s r w sized outcome)

  -- From a well-formed state, on a grid of the right size and with an ordered `double` that adds
  -- the fares exactly, any sequence of requests and of rounds of the monitor ends in a well-formed
  -- state.
  pub run_events-IsWell :
      (events : List Event) (s : SharedState W)
      → IsWell s
      → (s' : SharedState W) × (run_events grid_map events s ≡ done s') × IsWell s'
  unfolding run_events
  run_events-IsWell [] s w = (s, refl, w)
  run_events-IsWell (e ∷ events) s w =
      let (s', es, w') = run_event-IsWell e s w in rw es (run_events-IsWell events s' w')
