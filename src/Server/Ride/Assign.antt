-- ===== src/Server/Ride/Assign.antt =====
-- What a ride request does to the shared state.
use ride_hailing_system.Prelude.{
  ℕ, ◌+◌, ◌%◌, ◌^◌, ◌<◌, ◌≡◌, refl, ◌∙◌, Bool, true, false, if◌then◌else◌, Bool-cases, inl, inr,
  Option, none, some, get_elem?, set, length-set, done, ℤ, pos, eqb_ℤ, pos_part, add_i64, inc_i32,
  ◌-ℤ◌, ap, and_true,
}
use ride_hailing_system.Server.Double.{Double, IsOrdered, HasExactFares}
use ride_hailing_system.Server.State.{Driver, SharedState, IsSized}
use ride_hailing_system.Server.Dispatch.{is_free, pickup_distance}
use ride_hailing_system.Server.Dispatch.Nearest.{IsNearest, find_driver_basic-IsNearest}
use ride_hailing_system.Server.Dispatch.Smart.{IsSmartChoice, find_driver_smart-IsSmartChoice}
use ride_hailing_system.Server.Ride.{
  Reply, confirmed, no_drivers, is_vip_client, take_ride, fare_of, assign, serve, find_driver,
  handle_ride_request_logic,
}

module _ {W : Type 0} ⦃d : Double W⦄ where
  -- The choice that the dispatch mode asks for: by distance, or by rating first for a VIP.
  abbrev pub IsChoice : SharedState W → Bool → Option ℕ → Type 0
  IsChoice s is_vip found =
      if eqb_ℤ s.dispatch_mode (pos 0)
      then IsNearest is_free s.drivers (pos_part s.driver_count) found
      else IsSmartChoice s is_vip found

  -- The driver `v` has become `v'`: busy, with a target, one ride more and one unit of fuel less,
  -- and otherwise the same.
  abbrev pub IsEnRoute : Driver W → Driver W → Type 0
  IsEnRoute v v' = v' ≡ record v {
    is_available = false;
    rides_count = inc_i32 v.rides_count;
    fuel = v.fuel -ℤ pos 1;
    has_target = true;
    target_lat = v'.target_lat;
    target_lon = v'.target_lon;
  }

  -- Driver `k`, who was `v` and free, has taken the ride as `v'`; every other driver is as before,
  -- both totals have gone up by one, the revenue by the fare, and the rest of the state is the same.
  pub record IsAssigned (is_vip : Bool) (s s' : SharedState W) (k : ℕ) (v v' : Driver W)
      : Type 0 where
    pub was : get_elem? s.drivers k ≡ some v
    pub was_free : is_free v ≡ true
    pub chosen : IsChoice s is_vip (some k)
    pub en_route : IsEnRoute v v'
    pub drivers_set : s'.drivers ≡ set s.drivers k v'
    pub handled : s'.total_requests_handled ≡ (s.total_requests_handled + 1) % 2 ^ 64
    pub succeeded : s'.total_success_requests ≡ (s.total_success_requests + 1) % 2 ^ 64
    pub earned : s'.total_revenue ≡ add_i64 s.total_revenue (if is_vip then pos 150 else pos 100)
    pub rest : s' ≡ record s {
      drivers = s'.drivers;
      total_requests_handled = s'.total_requests_handled;
      total_success_requests = s'.total_success_requests;
      total_revenue = s'.total_revenue;
    }

  -- Both outcomes of a request: no driver and nothing changed, or an assigned driver.
  abbrev pub Outcome : ℤ → SharedState W → SharedState W × Reply W → Type 0
  Outcome client s (s', no_drivers) = (s' ≡ s) × IsChoice s (is_vip_client client) none
  Outcome client s (s', confirmed id rating distance is_smart) =
      (k : ℕ) × (v : Driver W) × (v' : Driver W) × IsAssigned (is_vip_client client) s s' k v v'
      × (id ≡ v.driver_id)
      × (rating ≡ v.rating)
      × (distance ≡ pickup_distance v)
      × (is_smart ≡ eqb_ℤ s.dispatch_mode (pos 1))

module _ {W : Type 0} ⦃d : Double W⦄ where
  take_ride-IsEnRoute : (rand1 rand2 : ℕ) (v : Driver W) → IsEnRoute v (take_ride rand1 rand2 v)
  unfolding take_ride
  take_ride-IsEnRoute rand1 rand2 v = refl

  fare_of_lem :
      HasExactFares W → (is_vip : Bool) → fare_of W is_vip ≡ (if is_vip then pos 150 else pos 100)
  fare_of_lem exact true = exact.vip_fare
  fare_of_lem exact false = exact.standard_fare

module _ {W : Type 0} ⦃d : Double W⦄ (o : IsOrdered W) (s : SharedState W)
    (sized : IsSized W s) where
  find_driver-IsChoice :
      (is_vip : Bool)
      → (found : Option ℕ) × (find_driver is_vip s ≡ done found) × IsChoice s is_vip found
  unfolding find_driver
  find_driver-IsChoice is_vip = elim (Bool-cases (eqb_ℤ s.dispatch_mode (pos 0))) [
    | inl basic ↦ rw basic (find_driver_basic-IsNearest o s sized)
    | inr smart ↦ rw smart (find_driver_smart-IsSmartChoice o s sized is_vip)
  ]

module _ {W : Type 0} ⦃d : Double W⦄ (s : SharedState W) where
  -- The chosen driver is one of the first `driver_count`, and free.
  abbrev pub IsFree : ℕ → Type 0
  IsFree k =
      (v : Driver W) × (k < pos_part s.driver_count)
      × (get_elem? s.drivers k ≡ some v)
      × (is_free v ≡ true)

  near-IsFree : {k : ℕ} → IsNearest is_free s.drivers (pos_part s.driver_count) (some k) → IsFree k
  near-IsFree (v, lt_n, c, _, _) = (v, lt_n, c.0, c.1)

  smart-IsFree : (is_vip : Bool) (k : ℕ) → IsSmartChoice s is_vip (some k) → IsFree k
  smart-IsFree false k near = near-IsFree near
  smart-IsFree true k (inr (_, near)) = near-IsFree near
  smart-IsFree true k (inl (k', e, near)) =
      let (v, lt_n, c, _, _) = near in
      let same : k ≡ k' = cc in (v, rw same lt_n, rw same c.0, (and_true (is_free v) c.1).0)

  pub choice-IsFree : (is_vip : Bool) (k : ℕ) → IsChoice s is_vip (some k) → IsFree k
  choice-IsFree is_vip k choice = elim (Bool-cases (eqb_ℤ s.dispatch_mode (pos 0))) [
    | inl basic ↦ near-IsFree (rw basic at choice)
    | inr smart ↦ smart-IsFree is_vip k (rw smart at choice)
  ]

  serve-Outcome :
      (client : ℤ) (rand1 rand2 : ℕ) (found : Option ℕ)
      → HasExactFares W
      → IsSized W s
      → IsChoice s (is_vip_client client) found
      → (r : SharedState W × Reply W) × (serve (is_vip_client client) rand1 rand2 s found ≡ done r)
        × Outcome client s r
        × IsSized W r.0
  unfolding serve
  serve-Outcome client rand1 rand2 none exact sized choice =
      ((s, no_drivers), refl, (refl, choice), sized)
  serve-Outcome client rand1 rand2 (some k) exact sized choice =
      let (v, lt_n, ev, free) = choice-IsFree (is_vip_client client) k choice in
      (
        assign (is_vip_client client) rand1 rand2 s k v,
        rw ev refl,
        (
          k,
          v,
          take_ride rand1 rand2 v,
          record {
            was = ev;
            was_free = free;
            chosen = choice;
            en_route = take_ride-IsEnRoute rand1 rand2 v;
            drivers_set = refl;
            handled = refl;
            succeeded = refl;
            earned = ap (λ f. add_i64 s.total_revenue f) (fare_of_lem exact (is_vip_client client));
            rest = refl;
          },
          unfold take_ride in refl,
          unfold take_ride in refl,
          unfold take_ride in refl,
          refl,
        ),
        record {
          drivers_size = length-set s.drivers k _ ∙ sized.drivers_size;
          last_seen_size = sized.last_seen_size;
          req_count_size = sized.req_count_size;
          count_fits = sized.count_fits;
        },
      )

module _ {W : Type 0} ⦃d : Double W⦄ (o : IsOrdered W) (exact : HasExactFares W) (s : SharedState W)
    (sized : IsSized W s) where
  -- A ride request on a state of the right sizes, with an ordered `double` that adds the fares exactly,
  -- ends and leaves the sizes as they are. Either no driver meets the choice of the dispatch mode, and the state is
  -- unchanged; or the chosen driver was free and is now busy and on its way with one unit of fuel
  -- less, every other driver is as before, both totals have grown by 1, the revenue by the fare,
  -- the rest of the state is the same, and the reply has that driver's number, rating and distance.
  pub handle_ride_request_logic-Outcome :
      (client : ℤ) (rand1 rand2 : ℕ)
      → (r : SharedState W × Reply W) × (handle_ride_request_logic client rand1 rand2 s ≡ done r)
        × Outcome client s r
        × IsSized W r.0
  unfolding handle_ride_request_logic
  handle_ride_request_logic-Outcome client rand1 rand2 =
      let (found, e, choice) = find_driver-IsChoice o s sized (is_vip_client client) in
      rw e (serve-Outcome s client rand1 rand2 found exact sized choice)

-- A ride request leaves the count of drivers as it is.
pub Outcome-driver_count :
    {W : Type 0} ⦃d : Double W⦄ (client : ℤ) (s s' : SharedState W) (reply : Reply W)
    → Outcome client s (s', reply)
    → s'.driver_count ≡ s.driver_count
Outcome-driver_count client s s' no_drivers (same, _) = ap (λ state. state.driver_count) same
Outcome-driver_count client s s' (confirmed id rating distance is_smart)
      (k, v, v', assigned, _, _, _, _) =
    ap (λ state. state.driver_count) assigned.rest
