-- ===== src/Disctools/Grid.antt =====
-- disctools.c, the columns of `ls`: the names go down the first column, then down the next. `dirFunc`
-- has this code twice, for files and for the entries of a directory.
pub mod Cells
use iocsh_utilities.Base.{
  ℕ, zero, suc, ◌+◌, ◌-◌, ◌*◌, ◌/◌, ◌==◌, leb, if◌then◌else◌, none, some, List, [], ◌∷◌, ◌++◌, map,
  Text, length, get_elem?, replicate,
}

-- `printf("%-*s", maxlen, name)`.
abbrev pub padded : ℕ → Text → Text
padded width s = s ++ replicate (width - length s) b' '

abbrev pub name_at : List Text → ℕ → Text
name_at names i = elim (get_elem? names i) [ none ↦ [] | some s ↦ s ]

-- One line: the names at `r + c * rows`, with `rounds` columns to go from `c` on.
unfoldable pub row_cells : ℕ → ℕ → ℕ → ℕ → ℕ → List Text → List Text
row_cells zero c r rows n names = []
row_cells (suc rounds) c r rows n names =
    let rest = row_cells rounds (c + 1) r rows n names in
    if leb n (r + c * rows) then rest else name_at names (r + c * rows) ∷ rest

-- `cols`, with the length of the longest name; if no column fits there is one.
unfoldable pub columns_of : ℕ → ℕ → ℕ
columns_of width maxlen = if width / (maxlen + 2) == 0 then 1 else width / (maxlen + 2)

unfoldable pub cell_width : ℕ → ℕ → ℕ
cell_width width maxlen = if width / (maxlen + 2) == 0 then 0 else maxlen + 2

unfoldable pub rows_of : ℕ → ℕ → ℕ
rows_of n cols = (n - 1) / cols + 1

-- The lines from `r` on.
unfoldable pub grid_from : ℕ → ℕ → ℕ → ℕ → ℕ → List Text → List (List Text)
unfolding row_cells
grid_from zero r cols rows n names = []
grid_from (suc rounds) r cols rows n names =
    row_cells cols 0 r rows n names ∷ grid_from rounds (r + 1) cols rows n names

-- The two nested loops, for the first `n` names.
unfoldable pub grid : ℕ → ℕ → List Text → List (List Text)
unfolding grid_from columns_of rows_of
grid cols n names = grid_from (rows_of n cols) 0 cols (rows_of n cols) n names

unfoldable pub columns : ℕ → ℕ → ℕ → List Text → List (List Text)
unfolding grid columns_of cell_width
columns width maxlen n names =
    map (map (padded (cell_width width maxlen))) (grid (columns_of width maxlen) n names)

-- `if (!longformat && maxlen)`.
unfoldable pub numbered_columns : ℕ → ℕ → ℕ → List Text → List (List Text)
unfolding columns
numbered_columns width zero n names = []
numbered_columns width (suc maxlen) n names = columns width (suc maxlen) n names
