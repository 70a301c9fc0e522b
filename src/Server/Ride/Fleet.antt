-- ===== src/Server/Ride/Fleet.antt =====
-- Sequences of ride requests, and the drivers that are left.
use ride_hailing_system.Prelude.{
  ℕ, zero, suc, ◌+◌, ◌≡◌, ◌∙◌, ap, arith, true, false, if◌then◌else◌, List, [], ◌∷◌, some,
  get_elem?, set, Exec, done, ◌>>=◌, ℤ,
}
use ride_hailing_system.Server.Double.{Double, IsOrdered, HasExactFares}
use ride_hailing_system.Server.State.{Driver, SharedState, IsSized}
use ride_hailing_system.Server.Dispatch.{is_free}
use ride_hailing_system.Server.Ride.{Reply, confirmed, no_drivers, handle_ride_request_logic}
use ride_hailing_system.Server.Ride.Assign.{IsEnRoute, Outcome, handle_ride_request_logic-Outcome}

-- A request as it reaches the service: the client, and the two values that `rand()` returns.
pub record Request : Type 0 where
  pub client_id : ℤ
  pub rand1 : ℕ
  pub rand2 : ℕ

module _ {W : Type 0} ⦃d : Double W⦄ where
  abbrev pub confirmations : Reply W → ℕ
  confirmations (confirmed _ _ _ _) = 1
  confirmations no_drivers = 0

  -- Requests of any workers, in the order in which they get the mutex, with the rides confirmed.
  unfoldable pub run_requests : List Request → SharedState W → ℕ → Exec (SharedState W × ℕ)
  run_requests [] s rides = done (s, rides)
  run_requests (q ∷ qs) s rides = handle_ride_request_logic q.client_id q.rand1 q.rand2 s >>= λ r.
      run_requests qs r.0 (rides + confirmations r.1)

module _ {W : Type 0} where
  abbrev pub free_count : List (Driver W) → ℕ
  free_count [] = 0
  free_count (v ∷ drivers) = (if is_free v then 1 else 0) + free_count drivers

  free_count-set :
      (drivers : List (Driver W)) (k : ℕ) (v' : Driver W) {v : Driver W}
      → get_elem? drivers k ≡ some v
      → is_free v ≡ true
      → is_free v' ≡ false
      → free_count (set drivers k v') + 1 ≡ free_count drivers
  free_count-set [] k v' e h h' = ground arith
  free_count-set (u ∷ drivers) zero v' {v} e h h' =
      let same : u ≡ v = cc in ground (arith, ap is_free same)
  free_count-set (u ∷ drivers) (suc k) v' e h h' = omega (arith, free_count-set drivers k v' e h h')

module _ {W : Type 0} ⦃d : Double W⦄ where
  en_route_busy : (v v' : Driver W) → IsEnRoute v v' → is_free v' ≡ false
  en_route_busy v v' e = ap is_free e

  -- What a request does to the free drivers, by its outcome.
  pub used :
      (q : Request) (s : SharedState W) (r : SharedState W × Reply W)
      → Outcome q.client_id s r
      → confirmations r.1 + free_count r.0.drivers ≡ free_count s.drivers
  used q s (s', no_drivers) (same, _) = rw same (omega arith)
  used q s (s', confirmed id rating distance is_smart) (k, v, v', a, _, _, _, _) = omega (
    arith,
    ap free_count a.drivers_set,
    free_count-set s.drivers k v' a.was a.was_free (en_route_busy v v' a.en_route),
  )

module _ {W : Type 0} ⦃d : Double W⦄ (o : IsOrdered W) (exact : HasExactFares W) where
  -- One request: a confirmed ride takes one free driver, a refusal none.
  request_uses_driver :
      (s : SharedState W) (q : Request)
      → IsSized W s
      → (r : SharedState W × Reply W) × (handle_ride_request_logic q.client_id q.rand1 q.rand2 s
          ≡ done r)
        × (confirmations r.1 + free_count r.0.drivers ≡ free_count s.drivers)
        × IsSized W r.0
  request_uses_driver s q sized =
      let (r, e, outcome, sized') =
        handle_ride_request_logic-Outcome o exact s sized q.client_id q.rand1 q.rand2 in
      (r, e, used q s r outcome, sized')

  run_requests_lem :
      (qs : List Request) (s : SharedState W) (rides : ℕ)
      → IsSized W s
      → (s' : SharedState W) × (taken : ℕ) × (run_requests qs s rides ≡ done (s', rides + taken))
        × (taken + free_count s'.drivers ≡ free_count s.drivers)
        × IsSized W s'
  unfolding run_requests
  run_requests_lem [] s rides sized =
      (s, 0, ap (λ (n : ℕ). done (s, n)) (omega arith), omega arith, sized)
  run_requests_lem (q ∷ qs) s rides sized =
      let (r, e, use_one, sized') = request_uses_driver s q sized in
      let (s', taken, e', use_rest, sized'') =
        run_requests_lem qs r.0 (rides + confirmations r.1) sized' in
      (
        s',
        confirmations r.1 + taken,
        rw e (e' ∙ ap (λ (n : ℕ). done (s', n)) (omega arith)),
        omega arith,
        sized'',
      )

  -- Any sequence of ride requests, in the order in which they get the mutex, ends on a state of the
  -- right sizes with an ordered `double` that adds the fares
  -- exactly; and the number of confirmed rides plus the number of
  -- drivers that are still free is the number of drivers that were free before: no driver is given
  -- two rides.
  pub run_requests-free_count :
      (qs : List Request) (s : SharedState W)
      → IsSized W s
      → (s' : SharedState W) × (rides : ℕ) × (run_requests qs s 0 ≡ done (s', rides))
        × (rides + free_count s'.drivers ≡ free_count s.drivers)
        × IsSized W s'
  run_requests-free_count qs s sized =
      let (s', rides, e, use_all, sized') = run_requests_lem qs s 0 sized in
      (s', rides, e ∙ ap (λ (n : ℕ). done (s', n)) (omega arith), use_all, sized')
