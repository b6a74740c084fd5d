-- ===== src/Disctools/Tests.antt =====
-- ls and ll of disctools.c with a few files: their theorem and some runs.
use iocsh_utilities.Base.{
  ℕ, ◌%◌, ◌/◌, ◌<◌, ◌↔◌, ◌≡◌, refl, true, false, none, some, List, [], ◌∷◌, Text, codes, text_eq,
  arith,
}
use iocsh_utilities.Disctools.Grid.{name_at, grid, rows_of}
use iocsh_utilities.Disctools.Grid.Cells.{cell, grid_cells}
use iocsh_utilities.Disctools.Dir.{
  Files, found, line, header, blank, long_line, error_for, dir_func,
}

abbrev letters : List Text
letters = codes "a" ∷ codes "b" ∷ codes "c" ∷ codes "d" ∷ codes "e" ∷ []

down_first :
    grid 3 5 letters ≡ (codes "a" ∷ codes "c" ∷ codes "e" ∷ []) ∷ (codes "b" ∷ codes "d" ∷ []) ∷ []
unfolding grid
down_first = refl

grid_cells_example : (cell (grid 3 5 letters) 1 1 ≡ some (codes "d")) ↔ (
    (i : ℕ) × (i < 5)
    × (1 ≡ i % rows_of 5 3)
    × (1 ≡ i / rows_of 5 3)
    × (some (name_at letters i) ≡ some (codes "d")))
grid_cells_example = grid_cells 3 5 letters 1 1 (codes "d") (omega arith)

-- The directory `d` with the file `x` stands between the files `a` and `e`.
abbrev files : Files
files = record {
  glob_here = some (codes "a" ∷ codes "d" ∷ codes "e" ∷ []);
  glob = λ s dirs_only. (found, s ∷ []);
  is_dir = λ s. text_eq s (codes "d");
  scandir = λ s. elim (text_eq s (codes "d")) [ true ↦ some (codes "x" ∷ []) | false ↦ none ];
}

-- The grid takes as many names as there are files, from the first on: the directory is among them, and
-- the last file is then taken for a directory.
ls_mixed :
    dir_func files (codes "ls") (codes "a" ∷ codes "d" ∷ codes "e" ∷ []) 0
    ≡ line (codes "a  " ∷ codes "d  " ∷ [])
      ∷ blank
      ∷ header (codes "e")
      ∷ error_for (codes "e")
      ∷ []
unfolding dir_func
ls_mixed = refl

ll_mixed :
    dir_func files (codes "ll") (codes "a" ∷ codes "d" ∷ codes "e" ∷ []) 0
    ≡ long_line none (codes "a")
      ∷ long_line none (codes "e")
      ∷ blank
      ∷ header (codes "d")
      ∷ long_line (some (codes "d")) (codes "x")
      ∷ []
unfolding dir_func
ll_mixed = refl
