-- ===== src/Server/MapView/Places.antt =====
-- The drivers on the map.
use mathlib.Core.Path.{subst}
use ride_hailing_system.Prelude.{
  drop-get_elem?, ℕ, zero, suc, ◌+◌, ◌<◌, ◌≤◌, ◌≡◌, refl, sym, ap, ◌∙◌, arith, Bool, true, false,
  ◌&&◌, ◌==◌, if◌then◌else◌, Bool-cases, inl, inr, List, [], ◌∷◌, length, take, drop,
  get_elem?-some, Exec, done, ◌>>=◌, ℤ, pos, negsuc, pos_part, eqb_ℤ,
}
use ride_hailing_system.Server.Double.{Double}
use ride_hailing_system.Server.State.{Driver, SharedState, IsSized}
use ride_hailing_system.Server.Pathfinding.{
  map_width, map_height, Grid, write_cell, in_map, grid_x, grid_y,
}
use ride_hailing_system.Server.Pathfinding.Grid.{IsGrid, in_map_pos}
use ride_hailing_system.Server.Pathfinding.Cells.{at, write_cell-IsWritten}
use ride_hailing_system.Server.Pathfinding.Obstacles.{obstacle_map}
use ride_hailing_system.Server.MapView.{driver_char, draw_driver, draw_drivers, draw_map}
use ride_hailing_system.Server.MapView.Picture.{ground_at, draw_ground-AreRowsDrawn}

-- A write to a cell that may be outside the map, and what cell `i`, `j` of the map shows then.
plot :
    (gx gy : ℤ) (v : ℕ) (map : Grid)
    → IsGrid map
    → (map' : Grid) × ((if in_map gx gy then write_cell map gx gy v else done map) ≡ done map')
      × IsGrid map'
      × ((i j : ℕ)
          → i < map_width
          → j < map_height
          → at map' i j ≡ (if eqb_ℤ gx (pos i) && eqb_ℤ gy (pos j) then done v else at map i j))
plot (pos a) (pos b) v map g = elim (Bool-cases (in_map (pos a) (pos b))) [
  | inl within ↦
      let (a_fits, b_fits) = in_map_pos a b within in
      let (map', e, w) = write_cell-IsWritten map a b v g a_fits b_fits in
      (
        map',
        rw within e,
        w.grid,
        λ i j wide high.
            let same : (eqb_ℤ (pos a) (pos i) && eqb_ℤ (pos b) (pos j)) ≡ (a == i && b == j) =
              ground arith in
            w.cells i j ∙ rw same,
      )
  | inr out ↦ (
    map,
    rw out,
    g,
    λ i j wide high.
        let elsewhere : (eqb_ℤ (pos a) (pos i) && eqb_ℤ (pos b) (pos j)) ≡ false = ground arith in
        rw elsewhere,
  )
]
plot (pos a) (negsuc b) v map g =
    let out : in_map (pos a) (negsuc b) ≡ false = ground arith in
    (
      map,
      rw out,
      g,
      λ i j wide high.
          let elsewhere : (eqb_ℤ (pos a) (pos i) && eqb_ℤ (negsuc b) (pos j)) ≡ false =
            ground arith in
          rw elsewhere,
    )
plot (negsuc a) gy v map g =
    let out : in_map (negsuc a) gy ≡ false = ground arith in
    (
      map,
      rw out,
      g,
      λ i j wide high.
          let elsewhere : (eqb_ℤ (negsuc a) (pos i) && eqb_ℤ gy (pos j)) ≡ false = ground arith in
          rw elsewhere,
    )

pick :
    (b : Bool) (m : Exec ℕ) (v c : ℕ)
    → m ≡ done c
    → (if b then done v else m) ≡ done (if b then v else c)
pick true m v c e = refl
pick false m v c e = e

module _ {W : Type 0} ⦃d : Double W⦄ where
  -- The character of the last of the drivers in the cell; `c` if there is none.
  unfoldable pub shown : List (Driver W) → ℕ → ℕ → ℕ → ℕ
  shown [] x y c = c
  shown (v ∷ drivers) x y c =
      let here = eqb_ℤ (grid_x v.lon) (pos x) && eqb_ℤ (grid_y v.lat) (pos y) in
      shown drivers x y (if here then driver_char v else c)

  pub draw_drivers-shown :
      (n i : ℕ) (drivers : List (Driver W)) (map : Grid)
      → IsGrid map
      → i + n ≤ length drivers
      → (map' : Grid) × (draw_drivers n i drivers map ≡ done map')
        × IsGrid map'
        × ((x y c : ℕ)
            → x < map_width
            → y < map_height
            → at map x y ≡ done c
            → at map' x y ≡ done (shown (take n (drop i drivers)) x y c))
  unfolding draw_drivers draw_driver shown
  draw_drivers-shown zero i drivers map g h = (map, refl, g, λ x y c wide high e. e)
  draw_drivers-shown (suc n) i drivers map g h =
      let (v, ev) = get_elem?-some drivers i (omega arith) in
      let (map1, e1, g1, cells1) = plot (grid_x v.lon) (grid_y v.lat) (driver_char v) map g in
      let (map2, e2, g2, cells2) = draw_drivers-shown n (i + 1) drivers map1 g1 (omega arith) in
      (
        map2,
        rw (ev, e1, e2),
        g2,
        λ x y c wide high e.
            let here = eqb_ℤ (grid_x v.lon) (pos x) && eqb_ℤ (grid_y v.lat) (pos y) in
            let first = ap (take (suc n)) (drop-get_elem? drivers i ev) in
            subst (λ l. at map2 x y ≡ done (shown l x y c)) (sym first)
              (cells2 x y (if here then driver_char v else c) wide high
                (cells1 x y wide high ∙ pick here (at map x y) (driver_char v) c e)),
      )

  -- On a state and an array of the right sizes, the drawing ends, and each cell of the map shows
  -- the last of the drivers in use that stands there, by what it does; or an obstacle or a free
  -- cell where none does.
  pub draw_map-shown :
      (s : SharedState W) (map : Grid) (x y : ℕ)
      → IsSized W s
      → IsGrid map
      → x < map_width
      → y < map_height
      → (draw_map obstacle_map s map >>= λ m. at m x y)
        ≡ done (shown (take (pos_part s.driver_count) s.drivers) x y (ground_at x y))
  unfolding draw_map
  draw_map-shown s map x y sized g wide high =
      let (map1, e1, r) = draw_ground-AreRowsDrawn map_height 0 map g (omega arith) in
      let (map2, e2, _, cells) =
        draw_drivers-shown (pos_part s.driver_count) 0 s.drivers map1 r.grid
          (omega (arith, sized)) in
      rw (e1, e2)
        (cells x y (ground_at x y) wide high (r.drawn x y wide (omega arith) (omega arith)))
