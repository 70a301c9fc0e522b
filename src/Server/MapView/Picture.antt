-- ===== src/Server/MapView/Picture.antt =====
-- What the map shows: each cell by itself.
use mathlib.Core.Path.{subst}
use ride_hailing_system.Prelude.{
  ℕ, zero, suc, ◌+◌, ◌<◌, ◌≤◌, ◌≡◌, ◌≢◌, ◌⊎◌, refl, ◌∙◌, arith, true, false, ◌&&◌, ◌==◌, inl, inr,
  done, pos,
}
use native.Mathlib.Decide.{dec_lt}
use ride_hailing_system.Server.Pathfinding.{map_width, map_height, Grid}
use ride_hailing_system.Server.Pathfinding.Grid.{IsGrid}
use ride_hailing_system.Server.Pathfinding.Cells.{at, IsWritten, write_cell-IsWritten}
use ride_hailing_system.Server.Pathfinding.Obstacles.{
  is_blocked, obstacle_map, is_obstacle-is_blocked,
}
use ride_hailing_system.Server.MapView.{ground_char, draw_row, draw_ground}

-- The map without drivers.
abbrev pub ground_at : ℕ → ℕ → ℕ
ground_at x y = ground_char (is_blocked (pos x) (pos y))

module _ (x y v : ℕ) (map map' : Grid) (w : IsWritten x y v map map') where
  written_there : at map' x y ≡ done v
  written_there = let same : (x == x && y == y) ≡ true = ground arith in w.cells x y ∙ rw same

  written_elsewhere : (i j : ℕ) → (y ≢ j) ⊎ (i < x) → at map' i j ≡ at map i j
  written_elsewhere i j (inl ne) =
      let other : (x == i && y == j) ≡ false = ground arith in w.cells i j ∙ rw other
  written_elsewhere i j (inr less) =
      let other : (x == i && y == j) ≡ false = ground arith in w.cells i j ∙ rw other

out_next : (x y i j : ℕ) → (y ≢ j) ⊎ (i < x) → (y ≢ j) ⊎ (i < x + 1)
out_next x y i j (inl ne) = inl ne
out_next x y i j (inr less) = inr (omega arith)

-- `map'` is `map` with the ground drawn in `n` cells of row `y`, from `x` on.
pub record IsRowDrawn (n x y : ℕ) (map map' : Grid) : Type 0 where
  grid : IsGrid map'
  drawn : (i : ℕ) → x ≤ i → i < x + n → at map' i y ≡ done (ground_at i y)
  kept : (i j : ℕ) → (y ≢ j) ⊎ (i < x) → at map' i j ≡ at map i j

draw_row-IsRowDrawn :
    (n x y : ℕ) (map : Grid)
    → IsGrid map
    → x + n ≤ map_width
    → y < map_height
    → (map' : Grid) × (draw_row obstacle_map n x y map ≡ done map') × IsRowDrawn n x y map map'
unfolding draw_row
draw_row-IsRowDrawn zero x y map g wide high = (
  map,
  refl,
  record { grid = g; drawn = λ i from_x to_end. absurd (omega arith); kept = λ i j out. refl },
)
draw_row-IsRowDrawn (suc n) x y map g wide high =
    let (map1, e1, w) = write_cell-IsWritten map x y (ground_at x y) g (omega arith) high in
    let (map2, e2, r) = draw_row-IsRowDrawn n (x + 1) y map1 w.grid (omega arith) high in
    (
      map2,
      rw (is_obstacle-is_blocked (pos x) (pos y), e1) e2,
      record {
        grid = r.grid;
        drawn = λ i from_x to_end. elim (dec_lt x i) [
          | yes later ↦ r.drawn i (omega arith) (omega arith)
          | no first ↦
              let same : x ≡ i = omega arith in
              subst (λ k. at map2 k y ≡ done (ground_at k y)) same
                (r.kept x y (inr (omega arith)) ∙ written_there x y (ground_at x y) map map1 w)
        ];
        kept = λ i j out.
            r.kept i j (out_next x y i j out)
            ∙ written_elsewhere x y (ground_at x y) map map1 w i j out;
      },
    )

-- `map'` is `map` with the ground drawn in `m` rows, from `y` on.
pub record AreRowsDrawn (m y : ℕ) (map map' : Grid) : Type 0 where
  pub grid : IsGrid map'
  pub drawn : (i j : ℕ) → i < map_width → y ≤ j → j < y + m → at map' i j ≡ done (ground_at i j)
  pub kept : (i j : ℕ) → j < y → at map' i j ≡ at map i j

pub draw_ground-AreRowsDrawn :
    (m y : ℕ) (map : Grid)
    → IsGrid map
    → y + m ≤ map_height
    → (map' : Grid) × (draw_ground obstacle_map m y map ≡ done map') × AreRowsDrawn m y map map'
unfolding draw_ground
draw_ground-AreRowsDrawn zero y map g high = (
  map,
  refl,
  record {
    grid = g;
    drawn = λ i j wide from_y to_end. absurd (omega arith);
    kept = λ i j above. refl;
  },
)
draw_ground-AreRowsDrawn (suc m) y map g high =
    let (map1, e1, w) = draw_row-IsRowDrawn map_width 0 y map g (omega arith) (omega arith) in
    let (map2, e2, r) = draw_ground-AreRowsDrawn m (y + 1) map1 w.grid (omega arith) in
    (
      map2,
      rw e1 e2,
      record {
        grid = r.grid;
        drawn = λ i j wide from_y to_end. elim (dec_lt y j) [
          | yes later ↦ r.drawn i j wide (omega arith) (omega arith)
          | no first ↦
              let same : y ≡ j = omega arith in
              subst (λ k. at map2 i k ≡ done (ground_at i k)) same
                (r.kept i y (omega arith) ∙ w.drawn i (omega arith) (omega arith))
        ];
        kept = λ i j above. r.kept i j (omega arith) ∙ w.kept i j (inl (omega arith));
      },
    )
