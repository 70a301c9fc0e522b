-- ===== src/Server/Pathfinding.antt =====
-- src/server/pathfinding.c: the map and its obstacles, the search, and the step that is returned.
-- An `int` is an integer. `open_list` is the list of the entries below `open_count`; a write past
-- its 4000 entries, and any access outside a grid, is a crash.
pub mod Grid
pub mod Cells
pub mod Obstacles
pub mod Search
pub mod Step
use ride_hailing_system.Prelude.{
  ℕ, zero, suc, ◌+◌, ◌-◌, Bool, true, false, not, ◌&&◌, ◌||◌, ◌==◌, ltb, leb, if◌then◌else◌, Option,
  none, some, List, [], ◌∷◌, ◌++◌, length, replicate, set, Exec, done, crash, ◌>>=◌, read, write, ℤ,
  pos, negsuc, ◌+ℤ◌, ◌-ℤ◌, ltb_ℤ, leb_ℤ, eqb_ℤ, nat_abs,
}
use ride_hailing_system.Server.Double.{Double}

abbrev pub map_width : ℕ
map_width = 40

abbrev pub map_height : ℕ
map_height = 20

abbrev pub Grid : Type 0
Grid = List (List ℕ)

pub record Point : Type 0 where
  pub x : ℤ
  pub y : ℤ

pub record Node : Type 0 where
  pub x : ℤ
  pub y : ℤ
  pub g_cost : ℕ
  pub h_cost : ℕ
  pub f_cost : ℕ
  pub parent_index : ℤ

-- `grid[y][x]`.
pub cell : Grid → ℤ → ℤ → Exec ℕ
cell grid (pos x) (pos y) = read grid y >>= λ row. read row x
cell grid (pos x) (negsuc y) = crash
cell grid (negsuc x) y = crash

-- `grid[y][x] = value`.
pub write_cell : Grid → ℤ → ℤ → ℕ → Exec Grid
write_cell grid (pos x) (pos y) value = do
  row ← read grid y
  row' ← write row x value
  write grid y row'
write_cell grid (pos x) (negsuc y) value = crash
write_cell grid (negsuc x) y value = crash

-- `memset(grid, 0, sizeof(grid))`.
abbrev pub zero_grid : Grid
zero_grid = replicate map_height (replicate map_width 0)

-- `for (int x = x0; x < x0 + n; x++) grid_map[y][x] = 1;`
pub fill_row : ℕ → ℕ → ℕ → Grid → Exec Grid
fill_row zero x y grid = done grid
fill_row (suc n) x y grid = write_cell grid (pos x) (pos y) 1 >>= fill_row n (x + 1) y

-- The same for `m` rows.
pub fill_rect : ℕ → ℕ → ℕ → ℕ → Grid → Exec Grid
fill_rect zero n x y grid = done grid
fill_rect (suc m) n x y grid = fill_row n x y grid >>= fill_rect m n x (y + 1)

-- The river, and two buildings.
pub init_map_obstacles : Exec Grid
init_map_obstacles = do
  river ← fill_rect 10 1 20 5 zero_grid
  building ← fill_rect 4 5 5 3 river
  fill_rect 4 5 30 12 building

abbrev pub in_map : ℤ → ℤ → Bool
in_map x y =
    leb_ℤ (pos 0) x && (ltb_ℤ x (pos map_width) && (leb_ℤ (pos 0) y && ltb_ℤ y (pos map_height)))

pub is_obstacle : Grid → ℤ → ℤ → Exec Bool
is_obstacle grid_map x y =
    if in_map x y then (cell grid_map x y >>= λ c. done (not (c == 0))) else done true

pub calculate_h : ℤ → ℤ → ℤ → ℤ → ℕ
calculate_h x y tx ty = nat_abs (x -ℤ tx) + nat_abs (y -ℤ ty)

-- `dx[i]` and `dy[i]`, for i from 0 to 3.
abbrev pub directions : List Point
directions =
    record { x = pos 0; y = negsuc 0 }
    ∷ record { x = pos 0; y = pos 1 }
    ∷ record { x = negsuc 0; y = pos 0 }
    ∷ record { x = pos 1; y = pos 0 }
    ∷ []

abbrev pub max_open_nodes : ℕ
max_open_nodes = 4000

-- The entry with the lowest `f_cost` below `lowest_f`, the first of several; -1 is `none`.
pub lowest : List Node → ℕ → ℕ → Option ℕ → Option ℕ
lowest [] i lowest_f current_index = current_index
lowest (n ∷ open_list) i lowest_f current_index =
    lowest open_list (i + 1) (if ltb n.f_cost lowest_f then n.f_cost else lowest_f)
      (if ltb n.f_cost lowest_f then some i else current_index)

-- The list without its last entry: `open_count--`.
pub shorten : List Node → List Node
shorten [] = []
shorten (n ∷ []) = []
shorten (n ∷ (m ∷ rest)) = n ∷ shorten (m ∷ rest)

-- `open_list[current_index] = open_list[open_count - 1]; open_count--`.
pub remove : List Node → ℕ → Exec (List Node)
remove open_list current_index = do
  last ← read open_list (length open_list - 1)
  moved ← write open_list current_index last
  done (shorten moved)

abbrev pub node_at : ℤ → ℤ → ℕ → ℕ → Node
node_at x y g h = record {
  x = x;
  y = y;
  g_cost = g;
  h_cost = h;
  f_cost = g + h;
  parent_index = negsuc 0;
}

-- `open_list[open_count] = node; open_count++`.
pub push : List Node → Node → Exec (List Node)
push open_list node =
    if ltb (length open_list) max_open_nodes then done (open_list ++ (node ∷ [])) else crash

-- `&&` and `||` do not evaluate their second operand where the first decides.
abbrev pub or_else : Exec Bool → Exec Bool → Exec Bool
or_else a b = a >>= λ t. if t then done true else b

-- The start, or the cell in the direction that was found.
abbrev pub move_by : ℤ → ℤ → Option Point → Point
move_by sx sy none = record { x = sx; y = sy }
move_by sx sy (some p) = record { x = sx +ℤ p.x; y = sy +ℤ p.y }

module _ (grid_map : Grid) (target_x target_y : ℤ) where
  -- A neighbour that is neither an obstacle nor closed, while the list is not full.
  pub add_open : ℤ → ℤ → ℕ → List Node → Exec (List Node)
  add_open nx ny g open_list =
      push open_list (node_at nx ny g (calculate_h nx ny target_x target_y))

  -- `is_obstacle(nx, ny) || closed_list[ny][nx]`.
  pub is_skipped : Grid → ℤ → ℤ → Exec Bool
  is_skipped closed nx ny =
      or_else (is_obstacle grid_map nx ny) (cell closed nx ny >>= λ c. done (not (c == 0)))

  -- The loop over the directions, for the node `current`; a full list ends it.
  pub expand : List Point → Node → Grid → List Node → Exec (List Node)
  expand [] current closed open_list = done open_list
  expand (p ∷ dirs) current closed open_list =
      let nx = current.x +ℤ p.x in
      let ny = current.y +ℤ p.y in
      let next = expand dirs current closed open_list in
      let grow = add_open nx ny (current.g_cost + 1) open_list >>= expand dirs current closed in
      let visit = is_skipped closed nx ny >>= λ skip.
      if skip
      then next
      else (if leb max_open_nodes (length open_list) then done open_list else grow) in
      if in_map nx ny then visit else next

  -- The `while` loop, with the steps that are left.
  pub search_loop : ℕ → Grid → List Node → Exec (List Node)
  search_loop zero closed open_list = done open_list
  search_loop (suc max_steps) closed open_list = elim (lowest open_list 0 999999 none) [
    | none ↦ done open_list
    | some current_index ↦ read open_list current_index >>= λ current.
        remove open_list current_index >>= λ rest.
        write_cell closed current.x current.y 1 >>= λ closed'.
        if eqb_ℤ current.x target_x && eqb_ℤ current.y target_y
        then done rest
        else (expand directions current closed' rest >>= search_loop max_steps closed')
  ]

  -- The greedy loop over the directions around the start.
  pub greedy : List Point → ℤ → ℤ → ℕ → Option Point → Exec (Option Point)
  greedy [] sx sy min_score best_dir = done best_dir
  greedy (p ∷ dirs) sx sy min_score best_dir =
      let nx = sx +ℤ p.x in
      let ny = sy +ℤ p.y in
      let score = calculate_h nx ny target_x target_y in
      let next = greedy dirs sx sy min_score best_dir in
      let visit = is_obstacle grid_map nx ny >>= λ blocked.
      (let better = not blocked && ltb score min_score in
        greedy dirs sx sy (if better then score else min_score)
          (if better then some p else best_dir)) in
      if in_map nx ny then visit else next

  -- From two cells on the map.
  pub next_step : ℤ → ℤ → Exec Point
  next_step sx sy =
      if eqb_ℤ sx target_x && eqb_ℤ sy target_y then done (record { x = sx; y = sy }) else do
        _ ← search_loop 3000 zero_grid (node_at sx sy 0 (calculate_h sx sy target_x target_y) ∷ [])
        best_dir ← greedy directions sx sy 999999 none
        done (move_by sx sy best_dir)

-- `if (v < 0) v = 0; if (v >= size) v = size - 1;`
pub clamp : ℕ → ℤ → ℤ
clamp size (negsuc n) = pos 0
clamp size (pos n) = if leb size n then pos (size - 1) else pos n

module _ {W : Type 0} ⦃d : Double W⦄ where
  open d use {lit, sub, mul, of_int, to_int}

  -- `(int)((lat - BASE_LAT) * SCALE_FACTOR)`, and the same for a longitude.
  pub grid_y : W → ℤ
  grid_y lat = to_int (mul (sub lat (lit 250330 4)) (of_int (pos 2000)))

  pub grid_x : W → ℤ
  grid_x lon = to_int (mul (sub lon (lit 1215654 4)) (of_int (pos 2000)))

  pub get_next_step_astar : Grid → W → W → W → W → Exec Point
  get_next_step_astar grid_map start_lat start_lon target_lat target_lon =
      next_step grid_map (clamp map_width (grid_x target_lon))
        (clamp map_height (grid_y target_lat)) (clamp map_width (grid_x start_lon))
        (clamp map_height (grid_y start_lat))
