-- ===== src/Server/Pathfinding/Obstacles.antt =====
-- The map that `init_map_obstacles` draws, as rectangles.
use native.Mathlib.Nat.{add-zero, zero-add}
use ride_hailing_system.Prelude.{
  and_true, ◌+◌, ℕ, zero, suc, ◌<◌, ◌≡◌, refl, arith, Bool, true, false, not, ◌&&◌, ◌||◌, ◌==◌, ltb,
  leb, if◌then◌else◌, Bool-cases, inl, inr, Exec, done, crash, ◌>>=◌, [], ℤ, pos, negsuc,
}
use ride_hailing_system.Server.Pathfinding.{
  Grid, cell, write_cell, fill_row, fill_rect, init_map_obstacles, in_map, is_obstacle,
}
use ride_hailing_system.Server.Pathfinding.Grid.{IsGrid, in_map_pos}

-- The cells from (x0, y0) on, `w` wide and `h` high.
abbrev pub in_rect : ℕ → ℕ → ℕ → ℕ → ℕ → ℕ → Bool
in_rect x0 y0 x1 y1 x y = (leb x0 x && ltb x x1) && (leb y0 y && ltb y y1)

-- The river at column 20, and two buildings.
abbrev pub is_wall : ℕ → ℕ → Bool
is_wall x y = in_rect 20 5 21 15 x y || (in_rect 5 3 10 7 x y || in_rect 30 12 35 16 x y)

-- Everything outside the map is an obstacle, and inside it the walls are.
abbrev pub is_blocked : ℤ → ℤ → Bool
is_blocked (pos x) (pos y) = if in_map (pos x) (pos y) then is_wall x y else true
is_blocked (pos x) (negsuc y) = true
is_blocked (negsuc x) y = true

-- Does a test hold for the `count` numbers from `start` on?
holds_from : (ℕ → Bool) → ℕ → ℕ → Bool
holds_from test start zero = true
holds_from test start (suc count) = test start && holds_from test (start + 1) count

holds_at :
    (test : ℕ → Bool) (start count k : ℕ)
    → holds_from test start count ≡ true
    → k < count
    → test (start + k) ≡ true
unfolding holds_from
holds_at test start zero k held less = absurd (omega arith)
holds_at test start (suc count) zero held less = rw (add-zero start) (and_true (test start) held).0
holds_at test start (suc count) (suc k) held less =
    let same_place : start + suc k ≡ start + 1 + k = omega arith in
    rw same_place (holds_at test (start + 1) count k (and_true (test start) held).1 (omega arith))

abbrev same : Bool → Bool → Bool
same true b = b
same false b = not b

same_eq : (a b : Bool) → same a b ≡ true → a ≡ b
same_eq true true h = refl
same_eq true false h = cc
same_eq false true h = cc
same_eq false false h = refl

-- The grid that the drawing leaves.
drawn : Exec Grid → Grid
drawn crash = []
drawn (done grid) = grid

pub obstacle_map : Grid
unfolding drawn init_map_obstacles
obstacle_map = drawn init_map_obstacles

-- What a check of one cell compares.
agrees : Exec ℕ → Bool → Bool
agrees crash wall = false
agrees (done c) wall = same (not (c == 0)) wall

agrees_done :
    (m : Exec ℕ) (wall : Bool) → agrees m wall ≡ true → (m >>= λ c. done (not (c == 0))) ≡ done wall
unfolding agrees
agrees_done crash wall h = cc
agrees_done (done c) wall h = rw (same_eq (not (c == 0)) wall h)

table :
    holds_from
      (λ y. holds_from (λ x. agrees (cell obstacle_map (pos x) (pos y)) (is_wall x y)) 0 40)
      0
      20
    ≡ true
unfolding holds_from agrees obstacle_map fill_rect fill_row write_cell cell
table = refl

map_table :
    (x y : ℕ) → x < 40 → y < 20 → agrees (cell obstacle_map (pos x) (pos y)) (is_wall x y) ≡ true
map_table x y x_fits y_fits =
    let row = rw (zero-add y) at (holds_at _ 0 20 y table y_fits) in
    rw (zero-add x) at (holds_at _ 0 40 x row x_fits)

-- Drawing stays inside the array.
pub init_map_obstacles_done : init_map_obstacles ≡ done obstacle_map
unfolding obstacle_map fill_rect fill_row write_cell
init_map_obstacles_done = refl

pub obstacle_map-IsGrid : IsGrid obstacle_map
unfolding obstacle_map fill_rect fill_row write_cell
obstacle_map-IsGrid = record { height = refl; width = omega arith }

above_map : (x y : ℕ) → in_map (pos x) (negsuc y) ≡ false
above_map x y = ground arith

left_of_map : (x : ℕ) (y : ℤ) → in_map (negsuc x) y ≡ false
left_of_map x y = ground arith

-- On the map that `init_map_obstacles` draws, for any two integers, `is_obstacle` ends without an
-- access outside the array and answers 1 exactly outside the 40 by 20 map, on the river (column 20,
-- rows 5 to 14) and on the two buildings (columns 5 to 9 of rows 3 to 6, columns 30 to 34 of rows
-- 12 to 15).
pub is_obstacle-is_blocked : (x y : ℤ) → is_obstacle obstacle_map x y ≡ done (is_blocked x y)
unfolding is_obstacle
is_obstacle-is_blocked (pos x) (pos y) = elim (Bool-cases (in_map (pos x) (pos y))) [
  | inl within ↦
      let (x_fits, y_fits) = in_map_pos x y within in
      rw within (
        agrees_done (cell obstacle_map (pos x) (pos y)) (is_wall x y) (map_table x y x_fits y_fits))
  | inr out ↦ rw out
]
is_obstacle-is_blocked (pos x) (negsuc y) = rw (above_map x y)
is_obstacle-is_blocked (negsuc x) y = rw (left_of_map x y)
