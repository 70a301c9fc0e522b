-- ===== src/Server/MapMonitor/Modes.antt =====
-- A driver's three flags and its fuel over a round of the monitor.
use ride_hailing_system.Prelude.{
  ℕ, zero, suc, ◌≡◌, refl, arith, Bool, true, false, not, ◌&&◌, ◌||◌, if◌then◌else◌, Bool-cases,
  inl, inr, done, ℤ, pos, negsuc, ltb, ltb_ℤ, eqb_ℤ, and_true, ◌%◌, leb_ℤ, ◌+ℤ◌, ◌-ℤ◌,
}
use ride_hailing_system.Server.Double.{Double}
use ride_hailing_system.Server.State.{Driver}
use ride_hailing_system.Server.Pathfinding.{Grid, Point, in_map, grid_x, grid_y}
use ride_hailing_system.Server.Pathfinding.Grid.{IsGrid, is_obstacle_done}
use ride_hailing_system.Server.Pathfinding.Step.{get_next_step_astar-Lands}
use ride_hailing_system.Server.MapMonitor.{
  Rolls, reset, unstick, has_arrived, arrive, burn, start_refueling, refuel, free_idle, navigate,
  drive, wander, move, tick_driver,
}

-- Exactly one of the flags is set: available, refuelling, or on the way to a target.
abbrev pub is_one : Bool → Bool → Bool → Bool
is_one true refueling target = not refueling && not target
is_one false true target = not target
is_one false false target = target

-- 0 to 11 units of fuel.
abbrev pub is_tank : ℤ → Bool
is_tank (pos n) = ltb n 12
is_tank (negsuc n) = false

module _ {W : Type 0} where
  -- A driver in one of its three modes, with a fuel level that the program can reach.
  pub record IsSound (v : Driver W) : Type 0 where
    pub mode : is_one v.is_available v.is_refueling v.has_target ≡ true
    pub tank : is_tank v.fuel ≡ true

unset_target : (a t : Bool) → is_one a true t ≡ true → is_one true false t ≡ true
unset_target a t h = ground arith

-- A sound driver is never idle, so the failsafe leaves it as it is.
never_idle : (a r t : Bool) → is_one a r t ≡ true → (not a && (not r && not t)) ≡ false
never_idle a r t h = ground arith

stop_mode : (a r t : Bool) → is_one a r t ≡ true → (t && not r) ≡ true → is_one true r false ≡ true
stop_mode a r t h g = ground arith

-- A property of both branches, each under what the test says.
either_way :
    {A : Type 0} (P : A → Type 0) (b : Bool) {x y : A}
    → (b ≡ true → P x)
    → (b ≡ false → P y)
    → P (if b then x else y)
either_way P true f g = f refl
either_way P false f g = g refl

pub tank_less : (f : ℤ) → is_tank f ≡ true → ltb_ℤ (pos 0) f ≡ true → is_tank (f -ℤ pos 1) ≡ true
unfolding ◌-ℤ◌
tank_less (pos zero) h g = ground arith
tank_less (pos (suc n)) h g = ground arith
tank_less (negsuc n) h g = ground arith

tank_more : (f : ℤ) → is_tank f ≡ true → ltb_ℤ f (pos 10) ≡ true → is_tank (f +ℤ pos 2) ≡ true
unfolding ◌+ℤ◌
tank_more (pos n) h g = ground arith
tank_more (negsuc n) h g = ground arith

module _ {W : Type 0} where
  burn-IsSound : (roll : ℕ) (v : Driver W) → IsSound v → IsSound (burn roll v)
  unfolding burn
  burn-IsSound roll v s = elim (Bool-cases (ltb_ℤ (pos 0) v.fuel && ltb (roll % 100) 10)) [
    | inl burns ↦ rw burns (record {
      mode = s.mode;
      tank = tank_less v.fuel s.tank (and_true (ltb_ℤ (pos 0) v.fuel) burns).0;
    })
    | inr keeps ↦ rw keeps s
  ]

  start_refueling-IsSound : (v : Driver W) → IsSound v → IsSound (start_refueling v)
  unfolding start_refueling
  start_refueling-IsSound v s =
      elim (Bool-cases (v.is_available && (leb_ℤ v.fuel (pos 0) && not v.is_refueling))) [
        | inl starts ↦ rw starts (record { mode = refl; tank = s.tank })
        | inr goes_on ↦ rw goes_on s
      ]

  refuel-IsSound : (v : Driver W) → IsSound v → IsSound (refuel v)
  unfolding refuel
  refuel-IsSound v s =
      either_way IsSound v.is_refueling
        (λ refuels.
          either_way IsSound (ltb_ℤ v.fuel (pos 10))
            (λ low. record { mode = s.mode; tank = tank_more v.fuel s.tank low })
            (λ full. record {
              mode = unset_target v.is_available v.has_target (rw refuels at s.mode);
              tank = s.tank;
            }))
        (λ _. s)

  pub free_idle_same : (v : Driver W) → IsSound v → free_idle v ≡ v
  unfolding free_idle
  free_idle_same v s = rw (never_idle v.is_available v.is_refueling v.has_target s.mode)

module _ {W : Type 0} ⦃d : Double W⦄ where
  reset-IsSound : (v : Driver W) → IsSound v → IsSound (reset v)
  unfolding reset
  reset-IsSound v s = record { mode = refl; tank = s.tank }

  arrive-IsSound : (v : Driver W) → IsSound v → IsSound (arrive v)
  unfolding arrive
  arrive-IsSound v s = record { mode = refl; tank = s.tank }

  navigate-IsSound : (rolls : Rolls) (v : Driver W) → IsSound v → IsSound (navigate rolls v)
  unfolding navigate
  navigate-IsSound rolls v s =
      either_way IsSound v.has_target
        (λ under_way.
          burn-IsSound rolls.consumption _
            (either_way IsSound (has_arrived rolls.arrival v) (λ _. arrive-IsSound v s) (λ _. s)))
        (λ _. s)

  module _ (grid_map : Grid) (fits : IsGrid grid_map) where
    unstick-IsSound :
        (v : Driver W) → IsSound v → (u : Driver W) × (unstick grid_map v ≡ done u) × IsSound u
    unfolding unstick
    unstick-IsSound v s =
        let (b, eb) = is_obstacle_done grid_map (grid_x v.lon) (grid_y v.lat) fits in
        elim (Bool-cases (b || not (in_map (grid_x v.lon) (grid_y v.lat)))) [
          | inl stuck ↦ (reset v, rw (eb, stuck), reset-IsSound v s)
          | inr well ↦ (v, rw (eb, well), s)
        ]

    wander-IsSound :
        (rolls : Rolls) (v : Driver W)
        → IsSound v
        → (u : Driver W) × (wander grid_map rolls v ≡ done u) × IsSound u
    unfolding wander
    wander-IsSound rolls v s =
        let lat' = d.add v.lat (d.mul (d.of_int (pos (rolls.north % 3) -ℤ pos 1)) (d.lit 5 4)) in
        let lon' = d.add v.lon (d.mul (d.of_int (pos (rolls.east % 3) -ℤ pos 1)) (d.lit 5 4)) in
        let (b, eb) = is_obstacle_done grid_map (grid_x lon') (grid_y lat') fits in
        elim (Bool-cases b) [
          | inl blocked ↦ (v, rw (eb, blocked), s)
          | inr free ↦ (
            record v { lat = lat'; lon = lon' },
            rw (eb, free),
            record { mode = s.mode; tank = s.tank },
          )
        ]

    drive-IsSound :
        (gx gy : ℤ) (v : Driver W) (next : Point)
        → IsSound v
        → (v.has_target && not v.is_refueling) ≡ true
        → IsSound (drive gx gy v next)
    unfolding drive
    drive-IsSound gx gy v next s h = elim (Bool-cases (eqb_ℤ next.x gx && eqb_ℤ next.y gy)) [
      | inl stays ↦ rw stays (record {
        mode = stop_mode v.is_available v.is_refueling v.has_target s.mode h;
        tank = s.tank;
      })
      | inr moves ↦ rw moves (record { mode = s.mode; tank = s.tank })
    ]

    move-IsSound :
        (gx gy : ℤ) (rolls : Rolls) (v : Driver W)
        → IsSound v
        → (u : Driver W) × (move grid_map gx gy rolls v ≡ done u) × IsSound u
    unfolding move
    move-IsSound gx gy rolls v s = elim (Bool-cases (v.has_target && not v.is_refueling)) [
      | inl under_way ↦
          let (next, e, _) =
            get_next_step_astar-Lands grid_map fits v.lat v.lon v.target_lat v.target_lon in
          (drive gx gy v next, rw (under_way, e), drive-IsSound gx gy v next s under_way)
      | inr idle ↦ elim (Bool-cases (v.is_available || v.is_refueling)) [
        | inl walks ↦ rw (idle, walks) (wander-IsSound rolls v s)
        | inr stays ↦ (v, rw (idle, stays), s)
      ]
    ]

    -- On a grid of the right size, a round of the monitor for one driver ends, whatever `rand()`
    -- returns. If before it exactly one of the driver's three flags was set (available, refuelling,
    -- on the way to a target) and it had 0 to 11 units of fuel, the same holds after it.
    pub tick_driver-IsSound :
        (rolls : Rolls) (v : Driver W)
        → IsSound v
        → (u : Driver W) × (tick_driver grid_map rolls v ≡ done u) × IsSound u
    unfolding tick_driver
    tick_driver-IsSound rolls v s =
        let (u, e, su) = unstick-IsSound v s in
        let w = refuel (start_refueling (navigate rolls u)) in
        let sw : IsSound w =
          refuel-IsSound _ (start_refueling-IsSound _ (navigate-IsSound rolls u su)) in
        rw (e, free_idle_same w sw) (move-IsSound (grid_x v.lon) (grid_y v.lat) rolls w sw)
