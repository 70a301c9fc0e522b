-- ===== src/Server/Screen/Table.antt =====
-- The printed table of the drivers (src/server/map_monitor.c) of a state of the right sizes.
use ride_hailing_system.Prelude.{
  ℕ, zero, suc, ◌+◌, ◌-◌, ◌≤◌, ◌≡◌, refl, arith, Bool, true, false, ltb, if◌then◌else◌, Bool-cases,
  inl, inr, List, [], ◌∷◌, ◌++◌, length, get_elem?-some, drop-get_elem?, take, drop, replicate,
  Option, none, some, done, ℤ, pos, negsuc, ltb_ℤ, pos_part, ◌-ℤ◌,
}
use ride_hailing_system.Prelude.Pairs.{All2}
use ride_hailing_system.Server.State.{IsSized, Driver, SharedState, max_drivers}
use ride_hailing_system.Server.MapMonitor.Modes.{is_one}
use ride_hailing_system.Server.Screen.{
  DriverStatus, navigating, refuels, is_free, is_busy, TableRow, fuel_cells, table_row, table_rows,
  driver_table,
}

-- The flags that a status tells: available, refuelling, on the way.
abbrev pub flags_of : DriverStatus → Bool × Bool × Bool
flags_of navigating = (false, false, true)
flags_of refuels = (false, true, false)
flags_of is_free = (true, false, false)
flags_of is_busy = (false, false, false)

-- The units of fuel that the bar has room for.
abbrev pub units : ℤ → ℕ
units fuel = if ltb 10 (pos_part fuel) then 10 else pos_part fuel

module _ {W : Type 0} where
  -- The row is of driver `v`: its number and rating, its flags if exactly one is set, a bar of ten cells with one sign for
  -- each unit of fuel, and the target of a driver on its way.
  pub record IsRowOf (v : Driver W) (r : TableRow W) : Type 0 where
    pub number : r.driver_id ≡ v.driver_id
    pub rated : r.rating ≡ v.rating
    pub flags :
        is_one v.is_available v.is_refueling v.has_target ≡ true
        → flags_of r.status ≡ (v.is_available, v.is_refueling, v.has_target)
    pub bar : r.fuel_bar ≡ replicate (units v.fuel) b'#' ++ replicate (10 - units v.fuel) b'.'
    pub target : r.target ≡ (if v.has_target then some (v.target_lat, v.target_lon) else none)

flags_of_lem :
    (a r t : Bool)
    → is_one a r t ≡ true
    → flags_of (if t then navigating else (if r then refuels else (if a then is_free else is_busy)))
      ≡ (a, r, t)
flags_of_lem true false false h = refl
flags_of_lem false true false h = refl
flags_of_lem false false true h = refl
flags_of_lem true true r h = cc
flags_of_lem true false true h = cc
flags_of_lem false true true h = cc
flags_of_lem false false false h = cc

fuel_cells_full :
    (n k : ℕ) (fuel : ℤ) → k + n ≤ pos_part fuel → fuel_cells n k fuel ≡ replicate n b'#'
unfolding fuel_cells
fuel_cells_full zero k fuel h = refl
fuel_cells_full (suc n) k (negsuc f) h = ground arith
fuel_cells_full (suc n) k (pos f) h =
    let filled : ltb_ℤ (pos k) (pos f) ≡ true = ground arith in
    rw (filled, fuel_cells_full n (k + 1) (pos f) (omega arith)) refl

fuel_cells_empty : (n k : ℕ) (fuel : ℤ) → pos_part fuel ≤ k → fuel_cells n k fuel ≡ replicate n b'.'
unfolding fuel_cells
fuel_cells_empty zero k fuel h = refl
fuel_cells_empty (suc n) k (negsuc f) h =
    let unfilled : ltb_ℤ (pos k) (negsuc f) ≡ false = ground arith in
    rw (unfilled, fuel_cells_empty n (k + 1) (negsuc f) (omega arith)) refl
fuel_cells_empty (suc n) k (pos f) h =
    let unfilled : ltb_ℤ (pos k) (pos f) ≡ false = ground arith in
    rw (unfilled, fuel_cells_empty n (k + 1) (pos f) (omega arith)) refl

fuel_cells-append :
    (a b k : ℕ) (fuel : ℤ)
    → fuel_cells (a + b) k fuel ≡ fuel_cells a k fuel ++ fuel_cells b (k + a) fuel
unfolding fuel_cells
fuel_cells-append zero b k fuel =
    let e1 : 0 + b ≡ b = omega arith in let e2 : k + 0 ≡ k = omega arith in rw (e1, e2) refl
fuel_cells-append (suc a) b k fuel =
    let e1 : suc a + b ≡ suc (a + b) = omega arith in
    let e2 : k + suc a ≡ k + 1 + a = omega arith in
    rw (e1, e2, fuel_cells-append a b (k + 1) fuel) refl

-- The bar has ten cells, filled up to the fuel.
fuel_bar_lem :
    (fuel : ℤ)
    → fuel_cells 10 0 fuel ≡ replicate (units fuel) b'#' ++ replicate (10 - units fuel) b'.'
fuel_bar_lem fuel = elim (Bool-cases (ltb 10 (pos_part fuel))) [
  | inl full ↦ rw (full) (fuel_cells_full 10 0 fuel (ground arith))
  | inr part ↦
      let f = pos_part fuel in
      let size : f + (10 - f) ≡ 10 = ground arith in
      let e0 : 0 + f ≡ f = omega arith in
      let filled = fuel_cells_full f 0 fuel (omega arith) in
      let unfilled = fuel_cells_empty (10 - f) f fuel (omega arith) in
      rw part (rw (size, e0, filled, unfilled) at (fuel_cells-append f (10 - f) 0 fuel))
]

-- The number of the drivers that the table leaves out.
abbrev pub left_out : ℕ → Option ℤ
left_out n = if ltb 10 n then some (pos n -ℤ pos 10) else none

module _ {W : Type 0} where
  table_row-IsRowOf : (v : Driver W) → IsRowOf v (table_row v)
  unfolding table_row
  table_row-IsRowOf v = record {
    number = refl;
    rated = refl;
    flags = flags_of_lem v.is_available v.is_refueling v.has_target;
    bar = fuel_bar_lem v.fuel;
    target = refl;
  }

  take_nil : (n : ℕ) → take {A = Driver W} n [] ≡ []
  take_nil zero = refl
  take_nil (suc n) = refl

  -- The rows from place `i` on.
  table_rows_lem :
      (left i n : ℕ) (drivers : List (Driver W))
      → i ≤ 10
      → i + left ≡ n
      → n ≤ length drivers
      → (rows : List (TableRow W)) × (table_rows left i (pos n) drivers ≡ done (rows, left_out n))
        × All2 IsRowOf (take (10 - i) (take left (drop i drivers))) rows
  unfolding table_rows
  table_rows_lem zero i n drivers shown e fits =
      let few : ltb 10 n ≡ false = ground arith in ([], rw few refl, rw (take_nil (10 - i)) tt)
  table_rows_lem (suc left) i n drivers shown e fits = elim (Bool-cases (ltb i 10)) [
    | inr last ↦
        let many : ltb 10 n ≡ true = ground arith in
        let none_left : 10 - i ≡ 0 = ground arith in ([], rw (last, many) refl, rw none_left tt)
    | inl room ↦
        let (v, ev) = get_elem?-some drivers i (omega arith) in
        let (rows, er, listed) =
          table_rows_lem left (i + 1) n drivers (ground arith) (omega arith) fits in
        let one_more : 10 - i ≡ suc (10 - (i + 1)) = ground arith in
        (
          table_row v ∷ rows,
          rw (room, ev, er) refl,
          rw (one_more, drop-get_elem? drivers i ev) (table_row-IsRowOf v, listed),
        )
  ]

  -- On a state of the right sizes, the table ends with a row for each of the first ten drivers in use.
  pub table-AreRows :
      (s : SharedState W) (n : ℕ)
      → s.driver_count ≡ pos n
      → IsSized W s
      → (rows : List (TableRow W)) × (driver_table s ≡ done (rows, left_out n))
        × All2 IsRowOf (take 10 (take n s.drivers)) rows
  unfolding driver_table
  table-AreRows s n count sized =
      let room : n ≤ max_drivers = rw count at sized.count_fits in
      rw count
        (table_rows_lem n 0 n s.drivers (omega arith) (omega arith) (omega (arith, room, sized)))
