-- ===== src/Disctools/Grid/Cells.antt =====
-- Where the grid of `ls` in disctools.c has each name.
use iocsh_utilities.Base.{
  ℕ, zero, suc, ◌+◌, ◌-◌, ◌*◌, ◌/◌, ◌%◌, ◌≤◌, ◌<◌, ltb, leb, leb→le, leb→lt, leb-le, ltb-lt, ltb-ge,
  ltb→lt, if◌then◌else◌, ◌≡◌, refl, sym, ◌∙◌, ap, true, ◌&&◌, Option, none, some, List, [], Text,
  get_elem?, arith, Bool-cases, inl, inr, ◌↔◌, if-some, and-right,
}
use native.Mathlib.Nat.{
  add-mul, mod-lt, mod-add-div', lt-mul-div-succ, div-lt_iff_lt-mul, add-mul-mod_self_right,
  add-mul-div_right, div-eq_of_lt, mod-eq_of_lt,
}
use iocsh_utilities.Disctools.Grid.{name_at, row_cells, rows_of, grid_from, grid}

further : (r c j rows n : ℕ) → n ≤ r + c * rows → n ≤ r + (c + j) * rows
further r c j rows n h = omega (arith, add-mul c j rows)

-- No cell is behind the last name.
row_cells-end :
    (k c r rows n : ℕ) (names : List Text) → n ≤ r + c * rows → row_cells k c r rows n names ≡ []
unfolding row_cells
row_cells-end zero c r rows n names h = refl
row_cells-end (suc k) c r rows n names h =
    rw (leb-le n (r + c * rows) h) (row_cells-end k (c + 1) r rows n names (further r c 1 rows n h))

-- What column `j` of `k` columns holds, if that is the name at `i`.
abbrev cell_of : ℕ → ℕ → ℕ → ℕ → List Text → Option Text
cell_of k j i n names = if ltb j k && ltb i n then some (name_at names i) else none

cell_of-end : (k j i n : ℕ) (names : List Text) → n ≤ i → cell_of k j i n names ≡ none
cell_of-end k j i n names h = elim (Bool-cases (ltb j k)) [
  | inl e ↦ rw (e, ltb-ge i n h) refl
  | inr e ↦ rw e refl
]

cell_of-suc :
    (k j i n : ℕ) (names : List Text) → cell_of k j i n names ≡ cell_of (suc k) (suc j) i n names
cell_of-suc k j i n names = ground arith

cell_of-zero :
    (k i n : ℕ) (names : List Text) → i < n → cell_of (suc k) 0 i n names ≡ some (name_at names i)
cell_of-zero k i n names h = rw (ltb-lt 0 (suc k) (omega arith), ltb-lt i n h) refl

row_cells-past :
    (k c r rows n : ℕ) (names : List Text) (j : ℕ)
    → leb n (r + c * rows) ≡ true
    → get_elem? (row_cells (suc k) c r rows n names) j
      ≡ cell_of (suc k) j (r + (c + j) * rows) n names
row_cells-past k c r rows n names j e =
    let h : n ≤ r + c * rows = leb→le n (r + c * rows) e in
    rw (row_cells-end (suc k) c r rows n names h)
      (sym (cell_of-end (suc k) j (r + (c + j) * rows) n names (further r c j rows n h)))

row_cells-at :
    (k c r rows n : ℕ) (names : List Text) (j : ℕ)
    → get_elem? (row_cells k c r rows n names) j ≡ cell_of k j (r + (c + j) * rows) n names
unfolding row_cells
row_cells-at zero c r rows n names zero = refl
row_cells-at zero c r rows n names (suc j) = rw (ltb-ge (suc j) 0 (omega arith)) refl
row_cells-at (suc k) c r rows n names zero = elim (Bool-cases (leb n (r + c * rows))) [
  | inl e ↦ row_cells-past k c r rows n names zero e
  | inr e ↦ rw e (
      sym (cell_of-zero k (r + c * rows) n names (leb→lt n (r + c * rows) e))
      ∙ ap (λ x. cell_of (suc k) 0 (r + x * rows) n names) (omega arith))
]
row_cells-at (suc k) c r rows n names (suc j) = elim (Bool-cases (leb n (r + c * rows))) [
  | inl e ↦ row_cells-past k c r rows n names (suc j) e
  | inr e ↦ rw e (
      row_cells-at k (c + 1) r rows n names j
      ∙ ap (λ x. cell_of k j (r + x * rows) n names) (omega arith)
      ∙ cell_of-suc k j (r + (c + suc j) * rows) n names)
]

-- The name in a line and a column of the output.
abbrev pub cell : List (List Text) → ℕ → ℕ → Option Text
cell g r c = elim (get_elem? g r) [ none ↦ none | some row ↦ get_elem? row c ]

first_line : (k : ℕ) (o : Option Text) → (if ltb 0 (suc k) then o else none) ≡ o
first_line k o = rw (ltb-lt 0 (suc k) (omega arith)) refl

grid_from-at :
    (k s cols rows n : ℕ) (names : List Text) (r c : ℕ)
    → cell (grid_from k s cols rows n names) r c
      ≡ (if ltb r k then cell_of cols c (s + r + c * rows) n names else none)
unfolding grid_from
grid_from-at zero s cols rows n names zero c = refl
grid_from-at zero s cols rows n names (suc r) c = rw (ltb-ge (suc r) 0 (omega arith)) refl
grid_from-at (suc k) s cols rows n names zero c =
    let at_start : s + (0 + c) * rows ≡ s + 0 + c * rows = omega arith in
    row_cells-at cols 0 s rows n names c
    ∙ ap (λ x. cell_of cols c x n names) at_start
    ∙ sym (first_line k (cell_of cols c (s + 0 + c * rows) n names))
grid_from-at (suc k) s cols rows n names (suc r) c =
    grid_from-at k (s + 1) cols rows n names r c
    ∙ ap (λ x. if ltb r k then cell_of cols c (x + c * rows) n names else none) (omega arith)
    ∙ ap (λ b. if b then cell_of cols c (s + suc r + c * rows) n names else none) (ground arith)

enough_rows : (n cols : ℕ) → 0 < cols → n ≤ cols * rows_of n cols
unfolding rows_of
enough_rows n cols h = omega (arith, lt-mul-div-succ (n - 1) h)

column-lt : (n cols i : ℕ) → 0 < cols → i < n → i / rows_of n cols < cols
unfolding rows_of
column-lt n cols i h l =
    let both : (i / rows_of n cols < cols) ↔ (i < cols * rows_of n cols) =
      div-lt_iff_lt-mul (omega arith) in
    let (_, back) = both in back (omega (arith, enough_rows n cols h))

grid-at_place :
    (cols n : ℕ) (names : List Text) (r c : ℕ)
    → cell (grid cols n names) r c
      ≡ (if ltb r (rows_of n cols) then cell_of cols c (r + c * rows_of n cols) n names else none)
unfolding grid
grid-at_place cols n names r c =
    let rows = rows_of n cols in
    grid_from-at rows 0 cols rows n names r c
    ∙ ap (λ x. if ltb r rows then cell_of cols c (x + c * rows) n names else none) (omega arith)

grid-at :
    (cols n : ℕ) (names : List Text) (i : ℕ)
    → 0 < cols
    → i < n
    → cell (grid cols n names) (i % rows_of n cols) (i / rows_of n cols) ≡ some (name_at names i)
unfolding rows_of
grid-at cols n names i h l =
    let rows = rows_of n cols in
    grid-at_place cols n names (i % rows) (i / rows)
    ∙ rw
        (
          ltb-lt (i % rows) rows (mod-lt i (omega arith)),
          ltb-lt (i / rows) cols (column-lt n cols i h l),
        )
        (ap (λ x. if true && ltb x n then some (name_at names x) else none) (mod-add-div' i rows)
          ∙ rw (ltb-lt i n l) refl)

cell_of-some :
    (k j i n : ℕ) (names : List Text) (s : Text)
    → cell_of k j i n names ≡ some s
    → (i < n) × (some (name_at names i) ≡ some s)
cell_of-some k j i n names s e =
    let (b, x) = if-some (ltb j k && ltb i n) (some (name_at names i)) s e in
    (ltb→lt i n (and-right (ltb j k) (ltb i n) b), x)

-- Where a cell is, its number leads back to.
place : (r c rows : ℕ) → r < rows → (r ≡ (r + c * rows) % rows) × (c ≡ (r + c * rows) / rows)
place r c rows h = (
  sym (add-mul-mod_self_right r c rows ∙ mod-eq_of_lt h),
  sym (add-mul-div_right r c (omega arith) ∙ ap (λ x. x + c) (div-eq_of_lt h) ∙ omega arith),
)

grid-names :
    (cols n : ℕ) (names : List Text) (r c : ℕ) (s : Text)
    → cell (grid cols n names) r c ≡ some s
    → (i : ℕ) × (i < n)
      × (r ≡ i % rows_of n cols)
      × (c ≡ i / rows_of n cols)
      × (some (name_at names i) ≡ some s)
grid-names cols n names r c s e =
    let rows = rows_of n cols in
    let (b, x) =
      if-some (ltb r rows) (cell_of cols c (r + c * rows) n names) s
        (sym (grid-at_place cols n names r c) ∙ e) in
    let (l, y) = cell_of-some cols c (r + c * rows) n names s x in
    let (p, q) = place r c rows (ltb→lt r rows b) in (r + c * rows, l, p, q, y)

-- The columns of `ls` lay out the names down the columns and lose none: for `n` names in at least
-- one column, a cell holds a name exactly if the name has the number `i` below `n` whose remainder
-- by the number of lines is the cell's line and whose quotient is its column.
pub grid_cells :
    (cols n : ℕ) (names : List Text) (r c : ℕ) (s : Text)
    → 0 < cols
    → (cell (grid cols n names) r c ≡ some s) ↔ (
        (i : ℕ) × (i < n)
        × (r ≡ i % rows_of n cols)
        × (c ≡ i / rows_of n cols)
        × (some (name_at names i) ≡ some s))
grid_cells cols n names r c s h =
    (grid-names cols n names r c s, λ (i, l, p, q, e). rw (p, q) (grid-at cols n names i h l ∙ e))
