-- ===== src/Server/Pathfinding/Search.antt =====
-- The search loop and its arrays.
use ride_hailing_system.Prelude.{
  ℕ, zero, suc, ◌+◌, ◌-◌, ◌<◌, ◌≤◌, ◌≡◌, refl, arith, Bool, true, false, not, ◌&&◌, ◌==◌, ltb, leb,
  Bool-cases, inl, inr, Option, none, some, Option-cases, ltb→lt, List, [], ◌∷◌, ◌++◌, length,
  length-append, length-set, get_elem?-some, set, All, All-append, All-set, All-get_elem?, done,
  read, ℤ, ◌+ℤ◌, eqb_ℤ,
}
use ride_hailing_system.Server.Pathfinding.{
  Grid, Point, Node, in_map, calculate_h, directions, max_open_nodes, lowest, shorten, remove,
  node_at, push, add_open, is_skipped, expand, search_loop, zero_grid,
}
use ride_hailing_system.Server.Pathfinding.Grid.{
  IsGrid, cell_done, write_cell_done, is_obstacle_done, zero_grid-IsGrid,
}

abbrev pub InMap : Node → Type 0
InMap n = in_map n.x n.y ≡ true

-- The open list: cells on the map, and room for all of them.
pub record IsOpen (open_list : List Node) : Type 0 where
  pub inside : All InMap open_list
  pub fits : length open_list ≤ max_open_nodes

abbrev Below : ℕ → Option ℕ → Type 0
Below n none = Unit {0}
Below n (some k) = k < n

lowest-Below :
    (l : List Node) (i n lowest_f : ℕ) (current : Option ℕ)
    → i + length l ≡ n
    → Below n current
    → Below n (lowest l i lowest_f current)
unfolding lowest
lowest-Below [] i n f current e b = b
lowest-Below (m ∷ l) i n f current e b = elim (Bool-cases (ltb m.f_cost f)) [
  | inl less ↦ rw less (lowest-Below l (i + 1) n m.f_cost (some i) (omega arith) (omega arith))
  | inr not_less ↦ rw not_less (lowest-Below l (i + 1) n f current (omega arith) b)
]

All-shorten : (l : List Node) → All InMap l → All InMap (shorten l)
unfolding shorten
All-shorten [] h = tt
All-shorten (n ∷ []) h = tt
All-shorten (n ∷ (m ∷ l)) h = (h.0, All-shorten (m ∷ l) h.1)

length-shorten : (l : List Node) → length (shorten l) ≤ length l
unfolding shorten
length-shorten [] = omega arith
length-shorten (n ∷ []) = omega arith
length-shorten (n ∷ (m ∷ l)) = omega (arith, length-shorten (m ∷ l))

remove_done :
    (l : List Node) (k : ℕ)
    → IsOpen l
    → k < length l
    → (n : Node) × (rest : List Node) × (read l k ≡ done n)
      × InMap n
      × (remove l k ≡ done rest)
      × IsOpen rest
unfolding remove
remove_done l k o h =
    let (n, en) = get_elem?-some l k h in
    let (last, el) = get_elem?-some l (length l - 1) (omega arith) in
    (
      n,
      shorten (set l k last),
      rw en,
      All-get_elem? InMap l k o.inside en,
      rw (el, en),
      record {
        inside =
            All-shorten (set l k last)
              (All-set InMap l k last o.inside (All-get_elem? InMap l (length l - 1) o.inside el));
        fits = omega (arith, length-shorten (set l k last), length-set l k last, o);
      },
    )

module _ (grid : Grid) (grid_fits : IsGrid grid) (tx ty : ℤ) where
  add_open_done :
      (nx ny : ℤ) (g : ℕ) (l : List Node)
      → in_map nx ny ≡ true
      → leb max_open_nodes (length l) ≡ false
      → IsOpen l
      → (l' : List Node) × (add_open grid tx ty nx ny g l ≡ done l') × IsOpen l'
  unfolding add_open push
  add_open_done nx ny g l inside room o =
      let node = node_at nx ny g (calculate_h nx ny tx ty) in
      let short : ltb (length l) max_open_nodes ≡ true = ground arith in
      (
        l ++ (node ∷ []),
        rw short,
        record {
          inside = All-append InMap l (node ∷ []) o.inside (inside, tt);
          fits = omega (arith, ltb→lt (length l) max_open_nodes short, length-append l (node ∷ []));
        },
      )

  is_skipped_done :
      (closed : Grid) (nx ny : ℤ)
      → IsGrid closed
      → in_map nx ny ≡ true
      → (b : Bool) × (is_skipped grid tx ty closed nx ny ≡ done b)
  unfolding is_skipped
  is_skipped_done closed nx ny g inside =
      let (c, ec) = cell_done closed nx ny g inside in
      let (b, eb) = is_obstacle_done grid nx ny grid_fits in
      elim (Bool-cases b) [
        | inl blocked ↦ (true, rw (eb, blocked))
        | inr free ↦ (not (c == 0), rw (eb, free, ec))
      ]

  expand_done :
      (dirs : List Point) (current : Node) (closed : Grid) (l : List Node)
      → IsGrid closed
      → IsOpen l
      → (l' : List Node) × (expand grid tx ty dirs current closed l ≡ done l') × IsOpen l'
  unfolding expand
  expand_done [] current closed l g o = (l, refl, o)
  expand_done (p ∷ dirs) current closed l g o =
      elim (Bool-cases (in_map (current.x +ℤ p.x) (current.y +ℤ p.y))) [
        | inr out ↦ rw out (expand_done dirs current closed l g o)
        | inl inside ↦
            let nx = current.x +ℤ p.x in
            let ny = current.y +ℤ p.y in
            let (skip, es) = is_skipped_done closed nx ny g inside in
            elim (Bool-cases skip) [
              | inl skipped ↦ rw (inside, es, skipped) (expand_done dirs current closed l g o)
              | inr kept ↦ elim (Bool-cases (leb max_open_nodes (length l))) [
                | inl full ↦ (l, rw (inside, es, kept, full), o)
                | inr room ↦
                    let (l', el, o') = add_open_done nx ny (current.g_cost + 1) l inside room o in
                    rw (inside, es, kept, room, el) (expand_done dirs current closed l' g o')
              ]
            ]
      ]

  pub search_loop_done :
      (max_steps : ℕ) (closed : Grid) (l : List Node)
      → IsGrid closed
      → IsOpen l
      → (l' : List Node) × (search_loop grid tx ty max_steps closed l ≡ done l') × IsOpen l'
  unfolding search_loop
  search_loop_done zero closed l g o = (l, refl, o)
  search_loop_done (suc steps) closed l g o = elim (Option-cases (lowest l 0 999999 none)) [
    | inl nothing ↦ (l, rw (nothing, search_loop), o)
    | inr (k, ek) ↦
        let below : k < length l =
          rw ek at (lowest-Below l 0 (length l) 999999 none (omega arith) tt) in
        let (n, rest, en, inside, er, o') = remove_done l k o below in
        let (closed', ec, g') = write_cell_done closed n.x n.y 1 g inside in
        elim (Bool-cases (eqb_ℤ n.x tx && eqb_ℤ n.y ty)) [
          | inl there ↦ (rest, rw (ek, search_loop, en, er, ec, there), o')
          | inr on ↦
              let (l', el, o'') = expand_done directions n closed' rest g' o' in
              rw (ek, search_loop, en, er, ec, on, el) (search_loop_done steps closed' l' g' o'')
        ]
  ]

  -- The search from a cell of the map, on a grid of the right size, with any target, number of
  -- steps and first cost, ends without an access outside the open list, the closed map or the grid,
  -- and at the end the open list holds only cells of the map, at most 4000 of them.
  pub search_done :
      (sx sy : ℤ) (steps h : ℕ)
      → in_map sx sy ≡ true
      → (l : List Node) × (search_loop grid tx ty steps zero_grid (node_at sx sy 0 h ∷ []) ≡ done l)
        × IsOpen l
  search_done sx sy steps h inside =
      search_loop_done steps zero_grid (node_at sx sy 0 h ∷ []) zero_grid-IsGrid
        (record { inside = (inside, tt); fits = omega arith })
