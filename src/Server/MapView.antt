-- ===== src/Server/MapView.antt =====
-- The drawing of the map in `map_monitor_thread` of src/server/map_monitor.c, up to the characters in
-- the array `map`, from one state: the code reads it after it has unlocked the mutex.
pub mod Picture
pub mod Places
use ride_hailing_system.Prelude.{
  ℕ, zero, suc, ◌+◌, Bool, if◌then◌else◌, List, [], ◌∷◌, Exec, done, ◌>>=◌, read, ℤ, pos, ltb_ℤ,
  rounds,
}
use ride_hailing_system.Server.Double.{Double}
use ride_hailing_system.Server.State.{Driver, SharedState}
use ride_hailing_system.Server.Pathfinding.{
  map_width, map_height, Grid, write_cell, in_map, is_obstacle, grid_x, grid_y,
}

-- The first loop: an obstacle, or a free cell.
abbrev pub ground_char : Bool → ℕ
ground_char blocked = if blocked then b'#' else b'.'

pub draw_row : Grid → ℕ → ℕ → ℕ → Grid → Exec Grid
draw_row grid_map zero x y map = done map
draw_row grid_map (suc n) x y map = do
  blocked ← is_obstacle grid_map (pos x) (pos y)
  map' ← write_cell map (pos x) (pos y) (ground_char blocked)
  draw_row grid_map n (x + 1) y map'

pub draw_ground : Grid → ℕ → ℕ → Grid → Exec Grid
draw_ground grid_map zero y map = done map
draw_ground grid_map (suc m) y map =
    draw_row grid_map map_width 0 y map >>= draw_ground grid_map m (y + 1)

-- The second loop: the drivers on the map, each over the ones before it.
abbrev pub driver_char : {W : Type 0} → Driver W → ℕ
driver_char v =
    if v.has_target
    then b'>'
    else (if v.is_refueling then b'F' else (if v.is_available then b'D' else b'X'))

module _ {W : Type 0} ⦃d : Double W⦄ where
  pub draw_driver : Driver W → Grid → Exec Grid
  draw_driver v map =
      if in_map (grid_x v.lon) (grid_y v.lat)
      then write_cell map (grid_x v.lon) (grid_y v.lat) (driver_char v)
      else done map

  pub draw_drivers : ℕ → ℕ → List (Driver W) → Grid → Exec Grid
  draw_drivers zero i drivers map = done map
  draw_drivers (suc n) i drivers map = do
    v ← read drivers i
    map' ← draw_driver v map
    draw_drivers n (i + 1) drivers map'

  -- `map` is the old memory of the array.
  unfoldable pub draw_map : Grid → SharedState W → Grid → Exec Grid
  draw_map grid_map state map =
      draw_ground grid_map map_height 0 map
      >>= draw_drivers (rounds state.driver_count) 0 state.drivers
