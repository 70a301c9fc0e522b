-- ===== src/Server/MapMonitor.antt =====
-- The drivers in `map_monitor_thread` of src/server/map_monitor.c: one round of its loop over the
-- drivers, run under the mutex. The values of `rand()` are arguments: one for each call in the text.
pub mod Modes
pub mod Events
use ride_hailing_system.Prelude.{
  ℕ, zero, suc, ◌+◌, ◌%◌, Bool, true, false, not, ◌&&◌, ◌||◌, ltb, if◌then◌else◌, List, Exec, done,
  ◌>>=◌, read, set, ℤ, pos, ◌+ℤ◌, ◌-ℤ◌, ltb_ℤ, leb_ℤ, eqb_ℤ, rounds,
}
use ride_hailing_system.Server.Double.{Double}
use ride_hailing_system.Server.State.{Driver, SharedState}
use ride_hailing_system.Server.Pathfinding.{
  Grid, Point, in_map, is_obstacle, grid_x, grid_y, get_next_step_astar,
}

-- What the calls of `rand()` for one driver return, where they are made.
pub record Rolls : Type 0 where
  pub arrival : ℕ
  pub consumption : ℕ
  pub north : ℕ
  pub east : ℕ

module _ {W : Type 0} ⦃d : Double W⦄ where
  open d use {lit, add, sub, mul, div, sqrt, pow, lt, of_int}

  -- 1. Back to the base.
  pub reset : Driver W → Driver W
  reset v = record v {
    lat = lit 250330 4;
    lon = lit 1215654 4;
    has_target = false;
    is_available = true;
    is_refueling = false;
  }

  pub unstick : Grid → Driver W → Exec (Driver W)
  unstick grid_map v = do
    blocked ← is_obstacle grid_map (grid_x v.lon) (grid_y v.lat)
    done (if blocked || not (in_map (grid_x v.lon) (grid_y v.lat)) then reset v else v)

  -- 2. On the way: near the target, or by chance, the trip is over.
  pub has_arrived : ℕ → Driver W → Bool
  has_arrived roll v =
      let dist =
        sqrt
          (add (pow (sub v.lat v.target_lat) (lit 2 0)) (pow (sub v.lon v.target_lon) (lit 2 0))) in
      lt dist (lit 1 2) || ltb (roll % 100) 20

  pub arrive : Driver W → Driver W
  arrive v = record v {
    has_target = false;
    is_available = true;
    is_refueling = false;
    lat = v.target_lat;
    lon = v.target_lon;
  }

module _ {W : Type 0} where
  pub burn : ℕ → Driver W → Driver W
  burn roll v =
      if ltb_ℤ (pos 0) v.fuel && ltb (roll % 100) 10 then record v { fuel = v.fuel -ℤ pos 1 } else v

  -- 3. Refuelling: begun by an available driver with no fuel, ended with 10 units.
  pub start_refueling : Driver W → Driver W
  start_refueling v =
      if v.is_available && (leb_ℤ v.fuel (pos 0) && not v.is_refueling)
      then record v { is_refueling = true; is_available = false; has_target = false }
      else v

  pub refuel : Driver W → Driver W
  refuel v =
      if v.is_refueling
      then (if ltb_ℤ v.fuel (pos 10)
          then record v { fuel = v.fuel +ℤ pos 2 }
          else record v { is_refueling = false; is_available = true })
      else v

  -- 4. A busy driver with no target.
  pub free_idle : Driver W → Driver W
  free_idle v =
      if not v.is_available && (not v.is_refueling && not v.has_target)
      then record v { is_available = true }
      else v

module _ {W : Type 0} ⦃d : Double W⦄ where
  open d use {lit, add, mul, div, of_int}

  pub navigate : Rolls → Driver W → Driver W
  navigate rolls v =
      if v.has_target
      then burn rolls.consumption (if has_arrived rolls.arrival v then arrive v else v)
      else v

  -- 5. The step of a driver with a target; `gx` and `gy` are its cell at the start of the round.
  pub drive : ℤ → ℤ → Driver W → Point → Driver W
  drive gx gy v next =
      if eqb_ℤ next.x gx && eqb_ℤ next.y gy
      then record v { has_target = false; is_available = true }
      else record v {
        lat = add (lit 250330 4) (div (of_int next.y) (of_int (pos 2000)));
        lon = add (lit 1215654 4) (div (of_int next.x) (of_int (pos 2000)));
      }

  -- A random step, taken back if it leads to an obstacle.
  pub wander : Grid → Rolls → Driver W → Exec (Driver W)
  wander grid_map rolls v = do
    let lat' = add v.lat (mul (of_int (pos (rolls.north % 3) -ℤ pos 1)) (lit 5 4))
    let lon' = add v.lon (mul (of_int (pos (rolls.east % 3) -ℤ pos 1)) (lit 5 4))
    blocked ← is_obstacle grid_map (grid_x lon') (grid_y lat')
    done (if blocked then v else record v { lat = lat'; lon = lon' })

  pub move : Grid → ℤ → ℤ → Rolls → Driver W → Exec (Driver W)
  move grid_map gx gy rolls v =
      let step = get_next_step_astar grid_map v.lat v.lon v.target_lat v.target_lon >>= λ next.
      done (drive gx gy v next) in
      if v.has_target && not v.is_refueling
      then step
      else (if v.is_available || v.is_refueling then wander grid_map rolls v else done v)

  -- The body of the loop, for one driver.
  pub tick_driver : Grid → Rolls → Driver W → Exec (Driver W)
  tick_driver grid_map rolls v = do
    u ← unstick grid_map v
    move grid_map (grid_x v.lon) (grid_y v.lat) rolls
        (free_idle (refuel (start_refueling (navigate rolls u))))

  unfoldable pub tick_drivers :
      Grid → (ℕ → Rolls) → ℕ → ℕ → List (Driver W) → Exec (List (Driver W))
  tick_drivers grid_map rolls zero i drivers = done drivers
  tick_drivers grid_map rolls (suc left) i drivers = do
    v ← read drivers i
    v' ← tick_driver grid_map (rolls i) v
    tick_drivers grid_map rolls left (i + 1) (set drivers i v')

  unfoldable pub tick : Grid → (ℕ → Rolls) → SharedState W → Exec (SharedState W)
  tick grid_map rolls state = do
    drivers' ← tick_drivers grid_map rolls (rounds state.driver_count) 0 state.drivers
    done (record state { drivers = drivers' })
