-- ===== src/Server/Screen/Rows.antt =====
-- The printed map (src/server/map_monitor.c), without its colours.
use mathlib.Core.List.{append_assoc}
use ride_hailing_system.Prelude.{
  ℕ, zero, suc, ◌+◌, ◌≤◌, ◌≡◌, refl, arith, Bool, true, false, ◌==◌, if◌then◌else◌, Bool-cases, inl,
  inr, List, [], ◌∷◌, ◌++◌, length, get_elem?, get_elem?-some, All, All-get_elem?, Option, none,
  some, done,
}
use ride_hailing_system.Server.Pathfinding.{map_height, Grid}
use ride_hailing_system.Server.Screen.{
  block, cell_text, cells_text, legend_title, legend_moving, legend_available, legend_busy,
  legend_refueling, legend, row_text, map_text,
}

-- What a terminal shows: escape sequences go from the escape character to the next `m`.
abbrev pub plain : Bool → List ℕ → List ℕ
plain inside [] = []
plain false (c ∷ text) =
    let rest = plain false text in
    let after = plain true text in if c == 27 then after else c ∷ rest
plain true (c ∷ text) =
    let rest = plain true text in let after = plain false text in if c == b'm' then after else rest

-- A cell on the screen: obstacles are blocks.
abbrev pub cell_shown : ℕ → List ℕ
cell_shown c = if c == b'#' then block else c ∷ []

abbrev pub row_shown : List ℕ → List ℕ
row_shown [] = []
row_shown (c ∷ row) = cell_shown c ++ row_shown row

abbrev get_or_empty : Option (List ℕ) → List ℕ
get_or_empty none = []
get_or_empty (some row) = row

-- Not the escape character.
abbrev pub IsVisible : ℕ → Type 0
IsVisible c = (c == 27) ≡ false

plain-cell_text :
    (c : ℕ) (rest : List ℕ)
    → IsVisible c
    → plain false (cell_text c ++ rest) ≡ cell_shown c ++ plain false rest
unfolding cell_text
plain-cell_text c rest visible = elim (Bool-cases (c == b'#')) [
  | inl wall ↦ rw wall refl
  | inr free ↦ elim (Bool-cases (c == b'>')) [
    | inl goes ↦ rw (free, goes, visible) refl
    | inr stands ↦ elim (Bool-cases (c == b'D')) [
      | inl waits ↦ rw (free, stands, waits, visible) refl
      | inr works ↦ elim (Bool-cases (c == b'X')) [
        | inl serves ↦ rw (free, stands, works, serves, visible) refl
        | inr rests ↦ elim (Bool-cases (c == b'F')) [
          | inl fills ↦ rw (free, stands, works, rests, fills, visible) refl
          | inr other ↦ rw (free, stands, works, rests, other, visible) refl
        ]
      ]
    ]
  ]
]

plain-cells_text :
    (row : List ℕ) (rest : List ℕ)
    → All IsVisible row
    → plain false (cells_text row ++ rest) ≡ row_shown row ++ plain false rest
unfolding cells_text
plain-cells_text [] rest all = refl
plain-cells_text (c ∷ row) rest all =
    rw
      (
        append_assoc (cell_text c) (cells_text row) rest,
        plain-cell_text c (cells_text row ++ rest) all.0,
        plain-cells_text row rest all.1,
        append_assoc (cell_shown c) (row_shown row) (plain false rest),
      )
      refl

-- The legend on the screen.
abbrev pub legend_shown : ℕ → List ℕ
legend_shown y =
    if y + 1 == map_height
    then legend_title
    else (if y + 2 == map_height
        then b' ' ∷ b' ' ∷ b'>' ∷ legend_moving
        else (if y + 3 == map_height
            then b' ' ∷ b' ' ∷ b'D' ∷ legend_available
            else (if y + 4 == map_height
                then b' ' ∷ b' ' ∷ b'X' ∷ legend_busy
                else (if y + 5 == map_height then b' ' ∷ b' ' ∷ b'F' ∷ legend_refueling else []))))

plain-legend :
    (y : ℕ) (rest : List ℕ) → plain false (legend y ++ rest) ≡ legend_shown y ++ plain false rest
unfolding legend
plain-legend y rest = elim (Bool-cases (y + 1 == map_height)) [
  | inl first ↦ rw first refl
  | inr below1 ↦ elim (Bool-cases (y + 2 == map_height)) [
    | inl second ↦ rw (below1, second) refl
    | inr below2 ↦ elim (Bool-cases (y + 3 == map_height)) [
      | inl third ↦ rw (below1, below2, third) refl
      | inr below3 ↦ elim (Bool-cases (y + 4 == map_height)) [
        | inl fourth ↦ rw (below1, below2, below3, fourth) refl
        | inr below4 ↦ elim (Bool-cases (y + 5 == map_height)) [
          | inl fifth ↦ rw (below1, below2, below3, below4, fifth) refl
          | inr none_left ↦ rw (below1, below2, below3, below4, none_left) refl
        ]
      ]
    ]
  ]
]

-- The rows below `y` on the screen.
abbrev pub map_shown : ℕ → Grid → List ℕ
map_shown zero map = []
map_shown (suc y) map =
    b' '
    ∷ b' '
    ∷ (row_shown (get_or_empty (get_elem? map y)) ++ (legend_shown y ++ (10 ∷ map_shown y map)))

-- A map with no escape character in its cells is printed without a crash, and the text without its
-- escape sequences is the map as it is shown, from the highest row down, with the legend.
pub map_text-map_shown :
    (y : ℕ) (map : Grid)
    → y ≤ length map
    → All (All IsVisible) map
    → (text : List ℕ) × (map_text y map ≡ done text) × (plain false text ≡ map_shown y map)
unfolding map_text row_text
map_text-map_shown zero map fits all = ([], refl, refl)
map_text-map_shown (suc y) map fits all =
    let (row, e) = get_elem?-some map y (omega arith) in
    let (rest, er, shown) = map_text-map_shown y map (omega arith) all in
    (
      row_text y row ++ rest,
      rw (e, er) refl,
      rw
          (
            append_assoc (cells_text row) (legend y ++ (10 ∷ [])) rest,
            plain-cells_text row ((legend y ++ (10 ∷ [])) ++ rest)
                (All-get_elem? (All IsVisible) map y all e),
            append_assoc (legend y) (10 ∷ []) rest,
            plain-legend y (10 ∷ rest),
            shown,
            e,
          )
          refl,
    )
