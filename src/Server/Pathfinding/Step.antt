-- ===== src/Server/Pathfinding/Step.antt =====
-- The step that `get_next_step_astar` returns.
use mathlib.Core.Bool.{false≢true}
use ride_hailing_system.Prelude.{
  ℕ, ◌+◌, ◌-◌, ◌<◌, ◌≤◌, ◌≡◌, refl, ◌∙◌, sym, ap, arith, Bool, true, false, not, ◌&&◌, ltb, leb,
  Bool-cases, ◌⊎◌, inl, inr, Option, none, some, List, [], ◌∷◌, All, done, ℤ, pos, negsuc, nat_abs,
  ◌+ℤ◌, ◌-ℤ◌, eqb_ℤ, and_true, not-true,
}
use ride_hailing_system.Server.Double.{Double}
use ride_hailing_system.Server.Pathfinding.{
  Grid, Point, map_width, map_height, in_map, is_obstacle, calculate_h, directions, greedy, move_by,
  next_step, clamp, grid_x, grid_y, get_next_step_astar,
}
use ride_hailing_system.Server.Pathfinding.Grid.{IsGrid, is_obstacle_done}
use ride_hailing_system.Server.Pathfinding.Search.{search_done}

worse_bound :
    (blocked : Bool) {score bound : ℕ}
    → done blocked ≡ done false
    → (not blocked && ltb score bound) ≡ false
    → bound ≤ score
worse_bound true e h = cc
worse_bound false e h = ground arith

-- One cell along one axis.
abbrev pub IsUnitStep : Point → Type 0
IsUnitStep p = nat_abs p.x + nat_abs p.y ≡ 1

back_one : (a p : ℤ) → nat_abs (a +ℤ p -ℤ a) ≡ nat_abs p
unfolding ◌+ℤ◌ ◌-ℤ◌
back_one a p = ground arith

-- A step away is as far as the step is long.
back_h : (sx sy px py : ℤ) → calculate_h (sx +ℤ px) (sy +ℤ py) sx sy ≡ nat_abs px + nat_abs py
unfolding calculate_h
back_h sx sy px py = omega (arith, back_one sx px, back_one sy py)

module _ (grid : Grid) (grid_fits : IsGrid grid) (tx ty sx sy : ℤ) where
  -- A step to a neighbour, in direction `p`, that stays on the map and off the obstacles.
  pub record IsFreeStep (p : Point) : Type 0 where
    pub unit : IsUnitStep p
    pub inside : in_map (sx +ℤ p.x) (sy +ℤ p.y) ≡ true
    pub free : is_obstacle grid (sx +ℤ p.x) (sy +ℤ p.y) ≡ done false

  abbrev pub score_of : Point → ℕ
  score_of p = calculate_h (sx +ℤ p.x) (sy +ℤ p.y) tx ty

  -- No direction of the list is free and closer to the target than `bound`.
  abbrev pub NoneCloser : List Point → ℕ → Type 0
  NoneCloser [] bound = Unit
  NoneCloser (p ∷ dirs) bound = (IsFreeStep p → bound ≤ score_of p) × NoneCloser dirs bound

  -- What the loop over `dirs` chooses, from a best direction so far: a free step that no
  -- direction of the list beats, or nothing where no free step is below `bound`.
  abbrev pub IsBest : List Point → ℕ → Option Point → Option Point → Type 0
  IsBest dirs bound before none = (before ≡ none) × NoneCloser dirs bound
  IsBest dirs bound before (some p) =
      ((before ≡ some p) × NoneCloser dirs bound)
      ⊎ (IsFreeStep p × (score_of p < bound) × NoneCloser dirs (score_of p))

  NoneCloser-le : (dirs : List Point) (a b : ℕ) → a ≤ b → NoneCloser dirs b → NoneCloser dirs a
  NoneCloser-le [] a b h n = tt
  NoneCloser-le (p ∷ dirs) a b h (here, later) =
      (λ f. omega (arith, here f), NoneCloser-le dirs a b h later)

  -- A direction that does not improve on the bound can be put in front.
  skip_one :
      (p : Point) (dirs : List Point) (bound : ℕ) (before found : Option Point)
      → (IsFreeStep p → bound ≤ score_of p)
      → IsBest dirs bound before found
      → IsBest (p ∷ dirs) bound before found
  skip_one p dirs bound before none h (same, n) = (same, (h, n))
  skip_one p dirs bound before (some q) h (inl (same, n)) = inl (same, (h, n))
  skip_one p dirs bound before (some q) h (inr (f, less, n)) =
      inr (f, less, (λ g. omega (arith, h g), n))

  take_one :
      (p : Point) (dirs : List Point) (bound : ℕ) (before found : Option Point)
      → IsFreeStep p
      → score_of p < bound
      → IsBest dirs (score_of p) (some p) found
      → IsBest (p ∷ dirs) bound before found
  take_one p dirs bound before none f less (same, n) = cc
  take_one p dirs bound before (some q) f less (inl (same, n)) =
      let e : p ≡ q = cc in rw (← e) (inr (f, less, (λ g. omega arith, n)))
  take_one p dirs bound before (some q) f less (inr (fq, less_q, n)) =
      inr (fq, omega arith, (λ g. omega arith, n))

  pub greedy-IsBest :
      (dirs : List Point) (bound : ℕ) (before : Option Point)
      → All IsUnitStep dirs
      → (found : Option Point) × (greedy grid tx ty dirs sx sy bound before ≡ done found)
        × IsBest dirs bound before found
  unfolding greedy
  greedy-IsBest [] bound none units = (none, refl, (refl, tt))
  greedy-IsBest [] bound (some p) units = (some p, refl, inl (refl, tt))
  greedy-IsBest (p ∷ dirs) bound before units = elim (Bool-cases (in_map (sx +ℤ p.x) (sy +ℤ p.y))) [
    | inr out ↦
        let (found, e, best) = greedy-IsBest dirs bound before units.1 in
        (
          found,
          rw out e,
          skip_one p dirs bound before found (λ f. absurd (false≢true (sym out ∙ f.inside))) best,
        )
    | inl inside ↦
        let (blocked, eb) = is_obstacle_done grid (sx +ℤ p.x) (sy +ℤ p.y) grid_fits in
        elim (Bool-cases (not blocked && ltb (score_of p) bound)) [
          | inl better ↦
              let (found, e, best) = greedy-IsBest dirs (score_of p) (some p) units.1 in
              let (open_cell, less) = and_true (not blocked) better in
              (
                found,
                rw (inside, eb, better) e,
                take_one p dirs bound before found
                    (record {
                      unit = units.0;
                      inside = inside;
                      free = eb ∙ ap done (not-true blocked open_cell);
                    })
                    (ground arith) best,
              )
          | inr worse ↦
              let (found, e, best) = greedy-IsBest dirs bound before units.1 in
              (
                found,
                rw (inside, eb, worse) e,
                skip_one p dirs bound before found
                    (λ f. worse_bound blocked (sym eb ∙ f.free) worse) best,
              )
        ]
  ]

  -- The result of the whole function, on cells of the map: the start itself where it is the target
  -- or where every neighbour is blocked or too far; else the neighbour that is best.
  abbrev pub IsStep : Point → Type 0
  IsStep r =
      ((sx ≡ tx) × (sy ≡ ty) × (r ≡ record { x = sx; y = sy }))
      ⊎ ((best : Option Point) × (r ≡ move_by sx sy best) × IsBest directions 999999 none best)

  eqb_ℤ_eq : (a b : ℤ) → eqb_ℤ a b ≡ true → a ≡ b
  eqb_ℤ_eq a b h = ground arith

  -- On a grid of the right size and from a cell of the map, the function ends, whatever the search
  -- loop finds, and the result is the start if that is the target; otherwise it is a cell beside
  -- the start, on the map and free, that is below 999999 steps from the target and that no other
  -- free neighbour is closer than, or the start if every free neighbour is 999999 steps away or more.
  pub next_step-IsStep :
      in_map sx sy ≡ true → (r : Point) × (next_step grid tx ty sx sy ≡ done r) × IsStep r
  unfolding next_step
  next_step-IsStep inside = elim (Bool-cases (eqb_ℤ sx tx && eqb_ℤ sy ty)) [
    | inl there ↦
        let (ex, ey) = and_true (eqb_ℤ sx tx) there in
        (record { x = sx; y = sy }, rw there, inl (eqb_ℤ_eq sx tx ex, eqb_ℤ_eq sy ty ey, refl))
    | inr away ↦
        let (l, es, _) =
          search_done grid grid_fits tx ty sx sy 3000 (calculate_h sx sy tx ty) inside in
        let (best, eg, is_best) = greedy-IsBest directions 999999 none (omega arith) in
        (move_by sx sy best, rw (away, es, eg), inr (best, refl, is_best))
  ]

  -- The cell that a step leads to is on the map; it is the start, or free and beside it.
  abbrev pub Lands : Point → Type 0
  Lands r =
      (in_map r.x r.y ≡ true)
      × ((r ≡ record { x = sx; y = sy })
          ⊎ ((is_obstacle grid r.x r.y ≡ done false) × (calculate_h r.x r.y sx sy ≡ 1)))

  best_Lands :
      (best : Option Point)
      → in_map sx sy ≡ true
      → IsBest directions 999999 none best
      → Lands (move_by sx sy best)
  best_Lands none inside b = (inside, inl refl)
  best_Lands (some p) inside (inl (same, _)) = absurd (cc)
  best_Lands (some p) inside (inr (f, _, _)) =
      (f.inside, inr (f.free, back_h sx sy p.x p.y ∙ f.unit))

  IsStep-Lands : (r : Point) → in_map sx sy ≡ true → IsStep r → Lands r
  IsStep-Lands r inside (inl (_, _, e)) = rw e (inside, inl refl)
  IsStep-Lands r inside (inr (best, e, b)) = rw e (best_Lands best inside b)

clamp_fits : (size : ℕ) (v : ℤ) → 0 < size → (n : ℕ) × (clamp size v ≡ pos n) × (n < size)
unfolding clamp
clamp_fits size (negsuc v) h = (0, refl, h)
clamp_fits size (pos v) h = elim (Bool-cases (leb size v)) [
  | inl past ↦ (size - 1, rw past, omega arith)
  | inr within ↦ (v, rw within, ground arith)
]

cell_in_map : (x y : ℕ) → x < map_width → y < map_height → in_map (pos x) (pos y) ≡ true
cell_in_map x y hx hy = ground arith

clamped_in_map : (x y : ℤ) → in_map (clamp map_width x) (clamp map_height y) ≡ true
clamped_in_map x y =
    let (a, ea, ha) = clamp_fits map_width x (omega arith) in
    let (b, eb, hb) = clamp_fits map_height y (omega arith) in rw (ea, eb) (cell_in_map a b ha hb)

-- On a grid of the right size, for any four coordinates, `get_next_step_astar` ends; the cell that
-- it returns is on the map, and is the (clamped) start cell itself, or a free cell exactly one step
-- away.
pub get_next_step_astar-Lands :
    {W : Type 0} ⦃d : Double W⦄ (grid : Grid)
    → (fits : IsGrid grid) → (lat lon target_lat target_lon : W)
    → let sx = clamp map_width (grid_x lon) in
      let sy = clamp map_height (grid_y lat) in
      (r : Point) × (get_next_step_astar grid lat lon target_lat target_lon ≡ done r)
      × Lands grid fits
          (clamp map_width (grid_x target_lon))
          (clamp map_height (grid_y target_lat))
          sx
          sy
          r
unfolding get_next_step_astar
get_next_step_astar-Lands ⦃d⦄ grid fits lat lon target_lat target_lon =
    let sx = clamp map_width (grid_x lon) in
    let sy = clamp map_height (grid_y lat) in
    let tx = clamp map_width (grid_x target_lon) in
    let ty = clamp map_height (grid_y target_lat) in
    let inside = clamped_in_map (grid_x lon) (grid_y lat) in
    let (r, e, s) = next_step-IsStep grid fits tx ty sx sy inside in
    (r, e, IsStep-Lands grid fits tx ty sx sy r inside s)
