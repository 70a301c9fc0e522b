-- ===== src/Server/Pathfinding/Grid.antt =====
-- Cells of a 40 by 20 grid: reads and writes on the map.
use ride_hailing_system.Prelude.{
  ℕ, ◌<◌, ◌≡◌, refl, ◌∙◌, arith, Bool, true, not, ◌==◌, Bool-cases, inl, inr, some, List, length,
  get_elem?, get_elem?-some, set, length-set, All, All-set, All-get_elem?, done, ℤ, pos, negsuc,
}
use ride_hailing_system.Server.Pathfinding.{
  map_width, map_height, Grid, cell, write_cell, in_map, is_obstacle, zero_grid,
}

abbrev pub IsRow : List ℕ → Type 0
IsRow row = length row ≡ map_width

pub record IsGrid (grid : Grid) : Type 0 where
  pub height : length grid ≡ map_height
  pub width : All IsRow grid

pub zero_grid-IsGrid : IsGrid zero_grid
zero_grid-IsGrid = record { height = refl; width = omega arith }

-- What the test on the coordinates says of the array indices.
pub in_map_pos : (x y : ℕ) → in_map (pos x) (pos y) ≡ true → (x < map_width) × (y < map_height)
in_map_pos x y h = ground arith

pub IsRow-of :
    (grid : Grid) (y : ℕ)
    → IsGrid grid
    → y < map_height
    → (row : List ℕ) × (get_elem? grid y ≡ some row) × IsRow row
IsRow-of grid y g h =
    let (row, e) = get_elem?-some grid y (omega (arith, g)) in
    (row, e, All-get_elem? IsRow grid y g.width e)

pub cell_done :
    (grid : Grid) (x y : ℤ) → IsGrid grid → in_map x y ≡ true → (v : ℕ) × (cell grid x y ≡ done v)
unfolding cell
cell_done grid (pos x) (pos y) g h =
    let (x_fits, y_fits) = in_map_pos x y h in
    let (row, er, wide) = IsRow-of grid y g y_fits in
    let (v, ev) = get_elem?-some row x (omega arith) in (v, rw (er, ev))
cell_done grid (pos x) (negsuc y) g h = absurd (ground arith)
cell_done grid (negsuc x) y g h = absurd (ground arith)

pub write_cell_done :
    (grid : Grid) (x y : ℤ) (v : ℕ)
    → IsGrid grid
    → in_map x y ≡ true
    → (grid' : Grid) × (write_cell grid x y v ≡ done grid') × IsGrid grid'
unfolding write_cell
write_cell_done grid (pos x) (pos y) v g h =
    let (x_fits, y_fits) = in_map_pos x y h in
    let (row, er, wide) = IsRow-of grid y g y_fits in
    let (old, eo) = get_elem?-some row x (omega arith) in
    (
      set grid y (set row x v),
      rw (er, eo),
      record {
        height = length-set grid y (set row x v) ∙ g.height;
        width = All-set IsRow grid y (set row x v) g.width (length-set row x v ∙ wide);
      },
    )
write_cell_done grid (pos x) (negsuc y) v g h = absurd (ground arith)
write_cell_done grid (negsuc x) y v g h = absurd (ground arith)

pub is_obstacle_done :
    (grid : Grid) (x y : ℤ) → IsGrid grid → (b : Bool) × (is_obstacle grid x y ≡ done b)
unfolding is_obstacle
is_obstacle_done grid x y g = elim (Bool-cases (in_map x y)) [
  | inl within ↦ let (v, e) = cell_done grid x y g within in (not (v == 0), rw (within, e))
  | inr out ↦ (true, rw out)
]
