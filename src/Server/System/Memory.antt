-- ===== src/Server/System/Memory.antt =====
-- The shared memory through the critical sections of the workers and the monitor: besides what
-- `IsWell` says, the places of the array that no driver has taken yet.
use ride_hailing_system.Prelude.{
  ℕ, zero, suc, ◌+◌, ◌<◌, ◌≤◌, ◌≡◌, refl, sym, ◌∙◌, ap, arith, Bool, true, false, inl, inr, List,
  some, length, get_elem?, get_elem?-lt, get_elem?-set_ne, set, done, ℤ, pos, pos_part, read,
  >>=-eq_done,
}
use ride_hailing_system.Server.Double.{Double, IsOrdered, HasExactFares}
use ride_hailing_system.Server.State.{Driver, SharedState, IsSized, max_drivers}
use ride_hailing_system.Server.Pathfinding.{Grid}
use ride_hailing_system.Server.Pathfinding.Grid.{IsGrid}
use ride_hailing_system.Server.Ride.{
  Reply, confirmed, no_drivers, is_vip_client, handle_ride_request_logic,
}
use ride_hailing_system.Server.Ride.Assign.{
  choice-IsFree, Outcome, Outcome-driver_count, handle_ride_request_logic-Outcome,
}
use ride_hailing_system.Server.RateLimit.{check_and_update_rate_limit}
use ride_hailing_system.Server.RateLimit.Tally.{check_and_update_rate_limit-IsSized}
use ride_hailing_system.Server.Coordinator.{process_driver_join}
use ride_hailing_system.Server.Coordinator.Join.{
  process_driver_join-IsJoined, with_driver, IsJoined, add_one,
}
use ride_hailing_system.Server.MapMonitor.{Rolls, tick_driver, tick_drivers, tick}
use ride_hailing_system.Server.MapMonitor.Modes.{IsSound}
use ride_hailing_system.Server.MapMonitor.Events.{
  IsWell, AreSound-next, Outcome-IsWell, tick-IsWell,
}

module _ {W : Type 0} where
  -- A place that no driver has taken: neither of the flags is set that a joining driver keeps.
  abbrev pub IsSpare : Driver W → Type 0
  IsSpare v = (v.is_refueling ≡ false) × (v.has_target ≡ false)

  abbrev pub AreSpare : List (Driver W) → ℕ → Type 0
  AreSpare drivers n = (j : ℕ) (v : Driver W) → n ≤ j → get_elem? drivers j ≡ some v → IsSpare v

  -- The memory of a server at work: its arrays have their sizes, the drivers in use are sound, and
  -- the places after them are spare.
  pub record IsRunning (s : SharedState W) : Type 0 where
    pub well : IsWell s
    pub drivers : ℕ
    pub count : s.driver_count ≡ pos drivers
    pub spare : AreSpare s.drivers drivers

  -- The places after the drivers are as before.
  abbrev pub AreKept : ℕ → List (Driver W) → List (Driver W) → Type 0
  AreKept n drivers drivers' = (j : ℕ) → n ≤ j → get_elem? drivers' j ≡ get_elem? drivers j

  AreKept-set :
      (drivers : List (Driver W)) (n k : ℕ) (v : Driver W)
      → k < n
      → AreKept n drivers (set drivers k v)
  AreKept-set drivers n k v less j beyond = get_elem?-set_ne drivers k j v (omega arith)

  IsRunning-kept :
      {s s' : SharedState W}
      → (r : IsRunning s) → IsWell s'
      → s'.driver_count ≡ s.driver_count
      → AreKept r.drivers s.drivers s'.drivers
      → IsRunning s'
  IsRunning-kept r well same kept = record {
    well = well;
    drivers = r.drivers;
    count = same ∙ r.count;
    spare = λ j v beyond e. r.spare j v beyond (sym (kept j beyond) ∙ e);
  }

  pub limit-IsRunning :
      (client_id : ℤ) (now : ℕ) (s : SharedState W)
      → IsRunning s
      → (r : SharedState W × Bool) × (check_and_update_rate_limit client_id now s ≡ done r)
        × IsRunning r.0
  limit-IsRunning client_id now s r =
      let (s', blocked, e, sized, count, same) =
        check_and_update_rate_limit-IsSized client_id now s r.well.sized in
      (
        (s', blocked),
        e,
        IsRunning-kept r (record { sized = sized; sound = rw (same, count) r.well.sound }) count
            (λ j _. ap (λ drivers. get_elem? drivers j) same),
      )

  -- The driver that joins is sound: it keeps the flags of a spare place.
  with_driver-IsRunning :
      (id : ℕ) (v : Driver W) (s : SharedState W)
      → (r : IsRunning s) → r.drivers < max_drivers
      → get_elem? s.drivers r.drivers ≡ some v
      → IsSized W (with_driver id r.drivers v s)
      → IsRunning (with_driver id r.drivers v s)
  with_driver-IsRunning id v s r room was sized =
      let u : Driver W = record v { driver_id = id; is_available = true; fuel = pos 10 } in
      let (parked, free) = r.spare r.drivers v (omega arith) was in
      let sound_u : IsSound u = record { mode = rw (parked, free) refl; tank = refl } in
      let used = rw r.count at r.well.sound in
      record {
        well = record {
          sized = sized;
          sound = rw (add_one r.drivers) (
              AreSound-next s.drivers r.drivers u used (get_elem?-lt s.drivers r.drivers was)
                sound_u);
        };
        drivers = r.drivers + 1;
        count = add_one r.drivers;
        spare = λ j w beyond e.
            r.spare j w (omega arith)
              (sym (get_elem?-set_ne s.drivers r.drivers j u (omega arith)) ∙ e);
      }

  joined-IsRunning :
      (id : ℕ) (s s' : SharedState W)
      → (r : IsRunning s) → IsSized W s'
      → IsJoined id r.drivers s s'
      → IsRunning s'
  joined-IsRunning id s s' r sized (inr (full, same)) = rw same r
  joined-IsRunning id s s' r sized (inl (room, v, was, e)) =
      rw e (with_driver-IsRunning id v s r room was (rw e at sized))

  pub join-IsRunning :
      (body : List ℕ) (s : SharedState W)
      → 4 ≤ length body
      → IsRunning s
      → (s' : SharedState W) × (process_driver_join body s ≡ done s') × IsRunning s'
  join-IsRunning body s long r =
      let (id, s', _, e, joined, sized, _, _) =
        process_driver_join-IsJoined body s r.drivers long r.well.sized r.count in
      (s', e, joined-IsRunning id s s' r sized joined)

module _ {W : Type 0} ⦃d : Double W⦄ where
  Outcome-AreKept :
      (client : ℤ) (s s' : SharedState W) (reply : Reply W) (n : ℕ)
      → s.driver_count ≡ pos n
      → Outcome client s (s', reply)
      → AreKept n s.drivers s'.drivers
  Outcome-AreKept client s s' no_drivers n count (same, _) j beyond =
      ap (λ (state : SharedState W). get_elem? state.drivers j) same
  Outcome-AreKept client s s' (confirmed id rating distance is_smart) n count
        (k, v, v', a, _, _, _, _) j beyond =
      let (_, in_use, _, _) = choice-IsFree s (is_vip_client client) k a.chosen in
      let below : k < n = rw count at in_use in
      rw a.drivers_set (AreKept-set s.drivers n k v' below j beyond)

  pub ride-IsRunning :
      (o : IsOrdered W) (exact : HasExactFares W) (client : ℤ) (rand1 rand2 : ℕ) (s : SharedState W)
      → IsRunning s
      → (r : SharedState W × Reply W) × (handle_ride_request_logic client rand1 rand2 s ≡ done r)
        × IsRunning r.0
  ride-IsRunning o exact client rand1 rand2 s running =
      let ((s', reply), e, outcome, sized) =
        handle_ride_request_logic-Outcome o exact s running.well.sized client rand1 rand2 in
      (
        (s', reply),
        e,
        IsRunning-kept running (Outcome-IsWell client s (s', reply) running.well sized outcome)
            (Outcome-driver_count client s s' reply outcome)
            (Outcome-AreKept client s s' reply running.drivers running.count outcome),
      )

  -- The loop over the drivers writes none of the places after them.
  tick_drivers-AreKept :
      (grid_map : Grid) (rolls : ℕ → Rolls) (left i : ℕ) (drivers drivers' : List (Driver W))
      → tick_drivers grid_map rolls left i drivers ≡ done drivers'
      → AreKept (i + left) drivers drivers'
  unfolding tick_drivers
  tick_drivers-AreKept grid_map rolls zero i drivers drivers' e j beyond = cc
  tick_drivers-AreKept grid_map rolls (suc left) i drivers drivers' e j beyond =
      let (v, _, after) = >>=-eq_done (read drivers i) _ e in
      let (v', _, rest) = >>=-eq_done (tick_driver grid_map (rolls i) v) _ after in
      tick_drivers-AreKept grid_map rolls left (i + 1) (set drivers i v') drivers' rest j
        (omega arith)
      ∙ get_elem?-set_ne drivers i j v' (omega arith)

  pub tick-IsRunning :
      (grid_map : Grid) (fits : IsGrid grid_map) (rolls : ℕ → Rolls) (s : SharedState W)
      → IsRunning s
      → (s' : SharedState W) × (tick grid_map rolls s ≡ done s') × IsRunning s'
  unfolding tick
  tick-IsRunning grid_map fits rolls s r =
      let (s', e', well) = tick-IsWell grid_map fits rolls s r.well in
      let (drivers', e, same) =
        >>=-eq_done (tick_drivers grid_map rolls (pos_part s.driver_count) 0 s.drivers) _ e' in
      let below = rw r.count at (tick_drivers-AreKept grid_map rolls _ 0 s.drivers drivers' e) in
      let is_set : record s { drivers = drivers' } ≡ s' = cc in
      (
        s',
        e',
        IsRunning-kept r well (sym (ap (λ (m : SharedState W). m.driver_count) is_set)) λ j beyond.
            sym (ap (λ (m : SharedState W). get_elem? m.drivers j) is_set) ∙ below j (omega arith),
      )
