-- ===== src/Examples/Map.antt =====
-- Examples for the map.
use ride_hailing_system.Prelude.{◌≡◌, refl, done, pos}
use ride_hailing_system.Server.Double.Fixed.{fixed}
use ride_hailing_system.Server.Pathfinding.{Point, next_step, is_obstacle}
use ride_hailing_system.Server.Pathfinding.Obstacles.{
  obstacle_map, obstacle_map-IsGrid, is_blocked, is_obstacle-is_blocked,
}
use ride_hailing_system.Server.Pathfinding.Step.{IsStep, next_step-IsStep}

is_obstacle-is_blocked_example :
    is_obstacle obstacle_map (pos 20) (pos 7) ≡ done (is_blocked (pos 20) (pos 7))
is_obstacle-is_blocked_example = is_obstacle-is_blocked (pos 20) (pos 7)

next_step-IsStep_example :
    (r : Point) × (next_step obstacle_map (pos 30) (pos 7) (pos 19) (pos 7) ≡ done r)
    × IsStep obstacle_map obstacle_map-IsGrid (pos 30) (pos 7) (pos 19) (pos 7) r
next_step-IsStep_example =
    next_step-IsStep obstacle_map obstacle_map-IsGrid (pos 30) (pos 7) (pos 19) (pos 7) refl
