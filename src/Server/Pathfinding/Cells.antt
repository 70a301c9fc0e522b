-- ===== src/Server/Pathfinding/Cells.antt =====
-- What a write to one cell of the map does to every cell.
use mathlib.Core.Path.{subst}
use ride_hailing_system.Prelude.{
  ℕ, ◌<◌, ◌≡◌, ◌≢◌, refl, sym, ap, ◌>>=◌, ◌∙◌, arith, Bool, true, false, ◌&&◌, ◌==◌, if◌then◌else◌,
  Bool-cases, inl, inr, List, length, some, get_elem?, get_elem?-some, get_elem?-set_self,
  get_elem?-set_ne, set, length-set, All-set, Exec, done, read, pos,
}
use ride_hailing_system.Server.Pathfinding.{map_width, map_height, Grid, cell, write_cell}
use ride_hailing_system.Server.Pathfinding.Grid.{IsGrid, IsRow, IsRow-of}

-- The cell at two natural numbers.
abbrev pub at : Grid → ℕ → ℕ → Exec ℕ
at map x y = cell map (pos x) (pos y)

-- `map'` is `map` with `v` at one cell.
pub record IsWritten (x y v : ℕ) (map map' : Grid) : Type 0 where
  pub grid : IsGrid map'
  pub cells : (i j : ℕ) → at map' i j ≡ (if x == i && y == j then done v else at map i j)

-- A cell of the row that is written.
row_cell :
    (row : List ℕ) (x v i : ℕ)
    → x < length row
    → read (set row x v) i ≡ (if x == i then done v else read row i)
row_cell row x v i h = elim (Bool-cases (x == i)) [
  | inl same ↦
      let e : x ≡ i = ground arith in
      rw (same) (ap (λ k. read (set row x v) k) (sym e) ∙ rw (get_elem?-set_self row x v h))
  | inr other ↦ let ne : x ≢ i = ground arith in rw (other, get_elem?-set_ne row x i v ne)
]

and-true : (a : Bool) → (a && true) ≡ a
and-true true = refl
and-true false = refl

and-false : (a : Bool) → (a && false) ≡ false
and-false true = refl
and-false false = refl

pub write_cell-IsWritten :
    (map : Grid) (x y v : ℕ)
    → IsGrid map
    → x < map_width
    → y < map_height
    → (map' : Grid) × (write_cell map (pos x) (pos y) v ≡ done map') × IsWritten x y v map map'
unfolding write_cell cell
write_cell-IsWritten map x y v g x_fits y_fits =
    let (row, er, wide) = IsRow-of map y g y_fits in
    let (old, eo) = get_elem?-some row x (omega arith) in
    let row' = set row x v in
    (
      set map y row',
      rw (er, eo),
      record {
        grid = record {
          height = length-set map y row' ∙ g.height;
          width = All-set IsRow map y row' g.width (length-set row x v ∙ wide);
        };
        cells = λ i j. elim (Bool-cases (y == j)) [
          | inl same_row ↦
              let e : y ≡ j = ground arith in
              rw (same_row, and-true (x == i))
                (subst
                  (λ k.
                    (read (set map y row') k >>= λ r. read r i)
                    ≡ (if x == i then done v else (read map k >>= λ r. read r i)))
                  e
                  (rw (get_elem?-set_self map y row' (omega (arith, g)), er)
                    (row_cell row x v i (omega arith))))
          | inr other_row ↦
              let ne : y ≢ j = ground arith in
              rw (other_row, and-false (x == i), get_elem?-set_ne map y j row' ne)
        ];
      },
    )

pub at_done :
    (map : Grid) (x y c : ℕ) {row : List ℕ}
    → get_elem? map y ≡ some row
    → get_elem? row x ≡ some c
    → at map x y ≡ done c
unfolding cell
at_done map x y c er ec = rw (er, ec) refl
