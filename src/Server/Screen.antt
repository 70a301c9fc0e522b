-- ===== src/Server/Screen.antt =====
-- What `map_monitor_thread` of src/server/map_monitor.c prints: the rows of the map with their
-- colours and the legend, and the table of the drivers. The columns that `printf` makes of numbers
-- are left as numbers.
pub mod Rows
pub mod Table
pub mod Drawn
pub mod Round
use ride_hailing_system.Prelude.{
  ℕ, zero, suc, ◌+◌, ltb, ◌==◌, if◌then◌else◌, Option, none, some, List, [], ◌∷◌, ◌++◌, Exec, done,
  ◌>>=◌, read, ℤ, pos, ltb_ℤ, ◌-ℤ◌, eqb_ℤ, rounds, Bool,
}
use ride_hailing_system.Server.Double.{Double}
use ride_hailing_system.Server.State.{Driver, SharedState}
use ride_hailing_system.Server.Pathfinding.{map_height, Grid}
use ride_hailing_system.Server.MapMonitor.{Rolls, tick}
use ride_hailing_system.Server.MapView.{draw_map}

-- The characters between the escape sequence of a colour and the one that ends it.
abbrev pub coloured : ℕ → List ℕ → List ℕ
coloured colour text =
    27 ∷ b'[' ∷ b'1' ∷ b';' ∷ b'3' ∷ colour ∷ b'm' ∷ (text ++ (27 ∷ b'[' ∷ b'0' ∷ b'm' ∷ []))

-- The full block, in UTF-8.
abbrev pub block : List ℕ
block = 226 ∷ 150 ∷ 136 ∷ []

unfoldable pub cell_text : ℕ → List ℕ
cell_text c =
    if c == b'#'
    then coloured b'0' block
    else (if c == b'>'
        then coloured b'3' (c ∷ [])
        else (if c == b'D'
            then coloured b'2' (c ∷ [])
            else (if c == b'X'
                then coloured b'1' (c ∷ [])
                else (if c == b'F' then coloured b'4' (c ∷ []) else coloured b'0' (c ∷ [])))))

unfoldable pub cells_text : List ℕ → List ℕ
cells_text [] = []
cells_text (c ∷ row) = cell_text c ++ cells_text row

-- The words of the legend.
abbrev pub legend_title : List ℕ
legend_title = b' ' ∷ b' ' ∷ b'[' ∷ b'L' ∷ b'E' ∷ b'G' ∷ b'E' ∷ b'N' ∷ b'D' ∷ b']' ∷ []

abbrev pub legend_moving : List ℕ
legend_moving = b':' ∷ b' ' ∷ b'M' ∷ b'o' ∷ b'v' ∷ b'i' ∷ b'n' ∷ b'g' ∷ []

abbrev pub legend_available : List ℕ
legend_available = b':' ∷ b' ' ∷ b'A' ∷ b'v' ∷ b'a' ∷ b'i' ∷ b'l' ∷ b'a' ∷ b'b' ∷ b'l' ∷ b'e' ∷ []

abbrev pub legend_busy : List ℕ
legend_busy = b':' ∷ b' ' ∷ b'B' ∷ b'u' ∷ b's' ∷ b'y' ∷ []

abbrev pub legend_refueling : List ℕ
legend_refueling =
    b':' ∷ b' ' ∷ b'R' ∷ b'e' ∷ b'f' ∷ b'u' ∷ b'e' ∷ b'l' ∷ b'i' ∷ b'n' ∷ b'g' ∷ b' ' ∷ b'(' ∷ b'F'
    ∷ b'u' ∷ b'e' ∷ b'l' ∷ b'=' ∷ b'0' ∷ b')' ∷ []

-- What stands right of row `y`.
unfoldable pub legend : ℕ → List ℕ
legend y =
    if y + 1 == map_height
    then legend_title
    else (if y + 2 == map_height
        then b' ' ∷ b' ' ∷ (coloured b'3' (b'>' ∷ []) ++ legend_moving)
        else (if y + 3 == map_height
            then b' ' ∷ b' ' ∷ (coloured b'2' (b'D' ∷ []) ++ legend_available)
            else (if y + 4 == map_height
                then b' ' ∷ b' ' ∷ (coloured b'1' (b'X' ∷ []) ++ legend_busy)
                else (if y + 5 == map_height
                    then b' ' ∷ b' ' ∷ (coloured b'4' (b'F' ∷ []) ++ legend_refueling)
                    else []))))

unfoldable pub row_text : ℕ → List ℕ → List ℕ
row_text y row = b' ' ∷ b' ' ∷ (cells_text row ++ (legend y ++ (10 ∷ [])))

-- The rows below `y`, from the highest down.
unfoldable pub map_text : ℕ → Grid → Exec (List ℕ)
map_text zero map = done []
map_text (suc y) map = do row ← read map y; rest ← map_text y map; done (row_text y row ++ rest)

-- The table.
pub data DriverStatus : Type 0 where
  navigating refuels is_free is_busy : DriverStatus

-- `status_str`, without its colour.
pub record TableRow (W : Type 0) : Type 0 where
  pub driver_id : ℕ
  pub status : DriverStatus
  pub fuel_bar : List ℕ
  pub rating : W
  pub target : Option (W × W)

-- The cells of the bar from `k` on.
unfoldable pub fuel_cells : ℕ → ℕ → ℤ → List ℕ
fuel_cells zero k fuel = []
fuel_cells (suc n) k fuel = (if ltb_ℤ (pos k) fuel then b'#' else b'.') ∷ fuel_cells n (k + 1) fuel

module _ {W : Type 0} where
  unfoldable pub table_row : Driver W → TableRow W
  table_row v = record {
    driver_id = v.driver_id;
    status =
        if v.has_target
        then navigating
        else (if v.is_refueling then refuels else (if v.is_available then is_free else is_busy));
    fuel_bar = fuel_cells 10 0 v.fuel;
    rating = v.rating;
    target = if v.has_target then some (v.target_lat, v.target_lon) else none;
  }

  -- The rows of the table, and the number of the drivers left out, if any.
  unfoldable pub table_rows : ℕ → ℕ → ℤ → List (Driver W) → Exec (List (TableRow W) × Option ℤ)
  table_rows zero i driver_count drivers = done ([], none)
  table_rows (suc left) i driver_count drivers =
      let shown = read drivers i >>= λ v.
      table_rows left (i + 1) driver_count drivers >>= λ t. done (table_row v ∷ t.0, t.1) in
      if ltb i 10 then shown else done ([], some (driver_count -ℤ pos 10))

  unfoldable pub driver_table : SharedState W → Exec (List (TableRow W) × Option ℤ)
  driver_table state = table_rows (rounds state.driver_count) 0 state.driver_count state.drivers

-- The whole screen: the mode and the totals of its second line, the map, and the table.
pub record Screen (W : Type 0) : Type 0 where
  pub is_smart : Bool
  pub deals : ℕ
  pub revenue : ℤ
  pub map : List ℕ
  pub rows : List (TableRow W)
  pub left_out : Option ℤ

-- What the reads of the shared memory after the unlock give: for the drawing, for the second line of
-- the screen, and for the table. Workers may write the memory meanwhile, also between the reads of
-- one of these parts, so that none of the three needs to be a state that the memory has had.
pub record Reads (W : Type 0) : Type 0 where
  pub for_map : SharedState W
  pub for_title : SharedState W
  pub for_table : SharedState W

module _ {W : Type 0} ⦃d : Double W⦄ where
  -- One round of the thread: the drivers move under the mutex, and then the screen is printed; `map`
  -- is the old memory of the array. The result has the shared memory as it is at the unlock.
  unfoldable pub monitor_round :
      Grid → (ℕ → Rolls) → SharedState W → Reads W → Grid → Exec (SharedState W × Screen W)
  monitor_round grid_map rolls state later map = do
    state' ← tick grid_map rolls state
    drawn ← draw_map grid_map later.for_map map
    text ← map_text map_height drawn
    t ← driver_table later.for_table
    done (
      state',
      record {
        is_smart = eqb_ℤ later.for_title.dispatch_mode (pos 1);
        deals = later.for_title.total_success_requests;
        revenue = later.for_title.total_revenue;
        map = text;
        rows = t.0;
        left_out = t.1;
      },
    )
