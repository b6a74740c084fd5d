-- ===== src/Disctools/Dir.antt =====
-- disctools.c, `dirFunc`: the commands dir, ll and ls. What the file system answers to `glob`,
-- `lstat` and `scandir` is the parameter `Files`; a name that is marked as done is the empty text, as
-- in the source. What `llOut` prints about one file is one line of the output here.
use iocsh_utilities.Base.{
  ℕ, zero, suc, ◌+◌, ◌==◌, ltb, if◌then◌else◌, Bool, true, false, not, ◌||◌, Option, none, some,
  List, [], ◌∷◌, ◌++◌, map, Text, codes, length, take, drop, text_eq,
}
use iocsh_utilities.Disctools.Grid.{numbered_columns}

pub data GlobStatus : Type 0 where
  found no_match : GlobStatus
  -- Another error, and whether it sets `errno`.
  glob_error : Bool → GlobStatus

pub record Files : Type 0 where
  -- `glob("./", 0, ...)`, and `glob` of a pattern that is for directories only, or not.
  pub glob_here : Option (List Text)
  pub glob : Text → Bool → GlobStatus × List Text
  -- `lstat(...) || S_ISDIR(...)`.
  pub is_dir : Text → Bool
  -- The names that do not begin with a dot, sorted.
  pub scandir : Text → Option (List Text)

pub data Output : Type 0 where
  line : List Text → Output
  long_line : Option Text → Text → Output
  header : Text → Output
  blank : Output
  error_for : Text → Output

abbrev pub max_of : ℕ → ℕ → ℕ
max_of len maxlen = if ltb maxlen len then len else maxlen

unfoldable pub longest : List Text → ℕ → ℕ
longest [] maxlen = maxlen
longest (s ∷ names) maxlen = longest names (max_of (length s) maxlen)

abbrev pub ends_in_slash : Text → Bool
ends_in_slash [] = false
ends_in_slash (c ∷ []) = c == b'/'
ends_in_slash (c ∷ d ∷ s) = ends_in_slash (d ∷ s)

-- The loop over the names from `offs` on: those that are no directories are marked. Whether one is.
unfoldable pub keep_dirs : List Text → Bool × List Text
keep_dirs [] = (false, [])
keep_dirs (s ∷ names) =
    let (any, rest) = keep_dirs names in
    if ends_in_slash s then (true, s ∷ rest) else (any, [] ∷ rest)

unfoldable pub keep_dirs_from : ℕ → List Text → Bool × List Text
unfolding keep_dirs
keep_dirs_from zero names = keep_dirs names
keep_dirs_from (suc n) [] = (false, [])
keep_dirs_from (suc n) (s ∷ names) = let (any, rest) = keep_dirs_from n names in (any, s ∷ rest)

abbrev pub glob_message : GlobStatus → Text → List Output
glob_message found arg = []
glob_message no_match arg = error_for arg ∷ []
glob_message (glob_error true) arg = error_for arg ∷ []
glob_message (glob_error false) arg = []

-- The names that the grid has printed are marked.
unfoldable pub mark_done : ℕ → List Text → List Text
mark_done n names = map (λ s. []) (take n names) ++ drop n names

module _ (files : Files) where
  -- The loop over the arguments, with `offs` and the names so far.
  unfoldable pub glob_dirs : Text → ℕ → List Text → GlobStatus → ℕ × List Text × List Output
  unfolding keep_dirs_from
  glob_dirs arg offs names found =
      let (any, kept) = keep_dirs_from offs names in
      (length names, kept, glob_message (if any then found else no_match) arg)
  glob_dirs arg offs names status = (offs, names, glob_message status arg)

  unfoldable pub glob_arg : Text → ℕ → List Text → ℕ × List Text × List Output
  unfolding glob_dirs
  glob_arg arg offs names =
      let (status, more) = files.glob arg (ends_in_slash arg) in
      if ends_in_slash arg
      then glob_dirs arg offs (names ++ more) status
      else (offs, names ++ more, glob_message status arg)

  unfoldable pub glob_args : List Text → ℕ → List Text → List Text × List Output
  unfolding glob_arg
  glob_args [] offs names = (names, [])
  glob_args (arg ∷ args) offs names =
      let (next, more, out) = glob_arg arg offs names in
      let (all, rest) = glob_args args next more in (all, out ++ rest)

  abbrev pub is_file : Text → Bool
  is_file [] = false
  is_file (c ∷ s) = not (files.is_dir (c ∷ s))

  -- The first pass over the names: the files, how many there are and the longest.
  unfoldable pub count_files : List Text → ℕ
  count_files [] = 0
  count_files (s ∷ names) = (if is_file s then 1 else 0) + count_files names

  unfoldable pub longest_file : List Text → ℕ → ℕ
  longest_file [] maxlen = maxlen
  longest_file (s ∷ names) maxlen =
      longest_file names (if is_file s then max_of (length s) maxlen else maxlen)

  unfoldable pub long_files : List Text → List Text × List Output
  long_files [] = ([], [])
  long_files (s ∷ names) =
      let (rest, out) = long_files names in
      if is_file s then ([] ∷ rest, long_line none s ∷ out) else (s ∷ rest, out)

  -- The files: each on a line of its own, or as many of the names in a grid as there are files.
  unfoldable pub show_files : Bool → ℕ → List Text → List Text × List Output
  unfolding long_files numbered_columns mark_done longest_file count_files
  show_files true width names = long_files names
  show_files false width names =
      let maxlen = longest_file names 0 in
      let n = count_files names in
      (
        if maxlen == 0 then names else mark_done n names,
        map line (numbered_columns width maxlen n names),
      )

  -- The entries of one directory.
  unfoldable pub show_entries : Bool → ℕ → Text → Option (List Text) → List Output
  unfolding numbered_columns longest
  show_entries long width dir none = error_for dir ∷ []
  show_entries true width dir (some entries) = map (λ e. long_line (some dir) e) entries
  show_entries false width dir (some entries) =
      map line (numbered_columns width (longest entries 0) (length entries) entries)

  -- The last pass: the directories, with a header if there are several names.
  unfoldable pub show_dirs : Bool → ℕ → Bool → ℕ → List Text → List Output
  unfolding show_entries
  show_dirs long width several n_files [] = []
  show_dirs long width several n_files ([] ∷ names) = show_dirs long width several n_files names
  show_dirs long width several n_files ((c ∷ s) ∷ names) =
      (if several then (if ltb 0 n_files then blank ∷ [] else []) ++ (header (c ∷ s) ∷ []) else [])
      ++ (show_entries long width (c ∷ s) (files.scandir (c ∷ s))
          ++ show_dirs long width several n_files names)

  unfoldable pub show_names : Bool → ℕ → List Text → List Output
  unfolding show_files show_dirs count_files
  show_names long width names =
      let (rest, out) = show_files long width names in
      out ++ show_dirs long width (ltb 1 (length names)) (count_files names) rest

  abbrev pub show_here : Bool → ℕ → Option (List Text) → List Output
  show_here long width none = error_for (codes ".") ∷ []
  show_here long width (some names) = show_names long width names

  -- `dirFunc`, with the name of the command, its arguments and the width of the terminal, if known.
  unfoldable pub dir_func : Text → List Text → ℕ → List Output
  unfolding show_names glob_args
  dir_func command args columns =
      let long = not (text_eq command (codes "ls")) in
      let width = if long || columns == 0 then 80 else columns in
      elim args [
        | [] ↦ show_here long width files.glob_here
        | arg ∷ rest ↦
            let (names, out) = glob_args (arg ∷ rest) 0 [] in out ++ show_names long width names
      ]
