-- ===== src/Server/Screen/Drawn.antt =====
-- The map as it is drawn and then printed (src/server/map_monitor.c).
use mathlib.Core.Path.{subst}
use ride_hailing_system.Prelude.{
  ℕ, ◌≡◌, refl, arith, Bool, true, false, ◌&&◌, if◌then◌else◌, List, [], ◌∷◌, get_elem?-lt, take,
  drop, All, All-at, All-get_elem?, done, pos, eqb_ℤ, pos_part,
}
use ride_hailing_system.Server.Double.{Double}
use ride_hailing_system.Server.State.{Driver, SharedState, IsSized}
use ride_hailing_system.Server.Pathfinding.{map_height, Grid, grid_x, grid_y}
use ride_hailing_system.Server.Pathfinding.Grid.{IsGrid, IsRow}
use ride_hailing_system.Server.Pathfinding.Cells.{at_done}
use ride_hailing_system.Server.Pathfinding.Obstacles.{is_blocked, obstacle_map}
use ride_hailing_system.Server.MapView.{ground_char, driver_char, draw_map}
use ride_hailing_system.Server.MapView.Picture.{ground_at, draw_ground-AreRowsDrawn}
use ride_hailing_system.Server.MapView.Places.{shown, draw_drivers-shown}
use ride_hailing_system.Server.Screen.{map_text}
use ride_hailing_system.Server.Screen.Rows.{plain, IsVisible, map_shown, map_text-map_shown}

ground_char-IsVisible : (blocked : Bool) → IsVisible (ground_char blocked)
ground_char-IsVisible true = refl
ground_char-IsVisible false = refl

either_char : (b : Bool) (c c' : ℕ) → IsVisible c → IsVisible c' → IsVisible (if b then c else c')
either_char true c c' h h' = h
either_char false c c' h h' = h'

module _ {W : Type 0} ⦃d : Double W⦄ where
  driver_char-IsVisible : (v : Driver W) → IsVisible (driver_char v)
  driver_char-IsVisible v =
      either_char v.has_target _ _ refl
        (either_char v.is_refueling _ _ refl (either_char v.is_available _ _ refl refl))

  shown-IsVisible :
      (drivers : List (Driver W)) (x y c : ℕ) → IsVisible c → IsVisible (shown drivers x y c)
  unfolding shown
  shown-IsVisible [] x y c h = h
  shown-IsVisible (v ∷ drivers) x y c h =
      let here = eqb_ℤ (grid_x v.lon) (pos x) && eqb_ℤ (grid_y v.lat) (pos y) in
      shown-IsVisible drivers x y (if here then driver_char v else c)
        (either_char here _ c (driver_char-IsVisible v) h)

  -- On a state and an array of the right sizes, the drawn map is printed without a crash, and the
  -- text without its escape sequences is that map as it is shown.
  pub draw_map-map_text :
      (s : SharedState W) (map : Grid)
      → IsSized W s
      → IsGrid map
      → (map' : Grid) × (text : List ℕ) × (draw_map obstacle_map s map ≡ done map')
        × (map_text map_height map' ≡ done text)
        × (plain false text ≡ map_shown map_height map')
  unfolding draw_map
  draw_map-map_text s map sized g =
      let (map1, e1, r) = draw_ground-AreRowsDrawn map_height 0 map g (omega arith) in
      let n = pos_part s.driver_count in
      let (map2, e2, g2, cells) =
        draw_drivers-shown n 0 s.drivers map1 r.grid (omega (arith, sized)) in
      let visible : All (All IsVisible) map2 = All-at (All IsVisible) map2 λ j row er.
        All-at IsVisible row λ i c ec.
          let wide = All-get_elem? IsRow map2 j g2.width er in
          let high = get_elem?-lt map2 j er in
          let below = get_elem?-lt row i ec in
          let drawn =
            cells i j (ground_at i j) (omega arith) (omega (arith, g2.height))
              (r.drawn i j (omega arith) (omega arith) (omega (arith, g2.height))) in
          let same : shown (take n (drop 0 s.drivers)) i j (ground_at i j) ≡ c =
            cc (drawn, at_done map2 i j c er ec) in
          subst IsVisible same (
            shown-IsVisible (take n (drop 0 s.drivers)) i j (ground_at i j)
              (ground_char-IsVisible (is_blocked (pos i) (pos j)))) in
      let (text, et, plain_text) =
        map_text-map_shown map_height map2 (omega (arith, g2.height)) visible in
      (map2, text, rw (e1, e2) refl, et, plain_text)
