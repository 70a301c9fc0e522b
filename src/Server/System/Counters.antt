-- ===== src/Server/System/Counters.antt =====
-- The critical sections other than the limiter of src/server/resource_service.c leave its counters.
use ride_hailing_system.Prelude.{
  ℕ, zero, suc, ◌≤◌, ◌≡◌, sym, ap, inl, inr, List, length, done, >>=-eq_done, ℤ,
}
use ride_hailing_system.Server.Double.{Double}
use ride_hailing_system.Server.State.{SharedState}
use ride_hailing_system.Server.RateLimit.Window.{HasCalled}
use ride_hailing_system.Server.Ride.{Reply, confirmed, no_drivers}
use ride_hailing_system.Server.Ride.Assign.{Outcome}
use ride_hailing_system.Server.Coordinator.{process_driver_join}
use ride_hailing_system.Server.Coordinator.Join.{IsJoined, process_driver_join-IsJoined}
use ride_hailing_system.Server.Pathfinding.{Grid}
use ride_hailing_system.Server.MapMonitor.{Rolls, tick, tick_drivers}
use ride_hailing_system.Server.System.Memory.{IsRunning}

module _ {W : Type 0} where
  pub HasCalled-same :
      (c now k : ℕ) (s s' : SharedState W)
      → s'.client_last_seen ≡ s.client_last_seen
      → s'.client_req_count ≡ s.client_req_count
      → HasCalled c now k s
      → HasCalled c now k s'
  HasCalled-same c now zero s s' seen count called = rw seen called
  HasCalled-same c now (suc k) s s' seen count called = rw (seen, count) called

  -- The two arrays of the limiter are as before.
  abbrev pub AreCountersKept : SharedState W → SharedState W → Type 0
  AreCountersKept s s' =
      (s'.client_last_seen ≡ s.client_last_seen) × (s'.client_req_count ≡ s.client_req_count)

  joined_counters : (id n : ℕ) (s s' : SharedState W) → IsJoined id n s s' → AreCountersKept s s'
  joined_counters id n s s' (inr (full, same)) = (
    ap (λ (m : SharedState W). m.client_last_seen) same,
    ap (λ (m : SharedState W). m.client_req_count) same,
  )
  joined_counters id n s s' (inl (room, v, was, e)) = (
    ap (λ (m : SharedState W). m.client_last_seen) e,
    ap (λ (m : SharedState W). m.client_req_count) e,
  )

  pub join_counters :
      (body : List ℕ) (s s' : SharedState W)
      → 4 ≤ length body
      → IsRunning s
      → process_driver_join body s ≡ done s'
      → AreCountersKept s s'
  join_counters body s s' long r e =
      let (id, t, _, et, joined, _, _, _) =
        process_driver_join-IsJoined body s r.drivers long r.well.sized r.count in
      let same : t ≡ s' = cc in joined_counters id r.drivers s s' (rw same at joined)

module _ {W : Type 0} ⦃d : Double W⦄ where
  pub ride_counters :
      (client : ℤ) (s s' : SharedState W) (reply : Reply W)
      → Outcome client s (s', reply)
      → AreCountersKept s s'
  ride_counters client s s' no_drivers (same, _) = (
    ap (λ (m : SharedState W). m.client_last_seen) same,
    ap (λ (m : SharedState W). m.client_req_count) same,
  )
  ride_counters client s s' (confirmed id rating distance is_smart) (k, v, v', a, _, _, _, _) = (
    ap (λ (m : SharedState W). m.client_last_seen) a.rest,
    ap (λ (m : SharedState W). m.client_req_count) a.rest,
  )

  pub tick_counters :
      (grid_map : Grid) (rolls : ℕ → Rolls) (s s' : SharedState W)
      → tick grid_map rolls s ≡ done s'
      → AreCountersKept s s'
  unfolding tick
  tick_counters grid_map rolls s s' e =
      let (drivers', _, same) = >>=-eq_done (tick_drivers grid_map rolls _ 0 s.drivers) _ e in
      let is_set : record s { drivers = drivers' } ≡ s' = cc in
      (
        sym (ap (λ (m : SharedState W). m.client_last_seen) is_set),
        sym (ap (λ (m : SharedState W). m.client_req_count) is_set),
      )
