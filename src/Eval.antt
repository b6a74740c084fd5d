-- ===== src/Eval.antt =====
-- eval.c, `evalFunc`: a command line is run with its output in memory, and the output without the
-- blanks at its end is run as a command line again. What a command line prints is the parameter
-- `output_of`, the bytes that `open_memstream` collects.
mod Lines
mod Tests
use iocsh_utilities.Base.{
  ℕ, zero, suc, ◌+◌, leb, if◌then◌else◌, Bool, true, false, Option, none, some, List, [], ◌∷◌, ◌++◌,
  Text, codes, length, take, get_elem?,
}
use iocsh_utilities.Clib.{is_space}

-- The loop over the arguments. `none`: command line too long.
unfoldable pub add_words : Text → List Text → Option Text
add_words line [] = some line
add_words line (arg ∷ args) =
    let rest = add_words (line ++ (codes " \"" ++ (arg ++ codes "\""))) args in
    if leb 1024 (length line + length arg + 4) then none else rest

abbrev pub is_space_at : Option ℕ → Bool
is_space_at none = false
is_space_at (some c) = is_space c

-- `while (isspace(buffer[buffersize-1])) buffer[--buffersize] = 0;`, the size that is left. `none`: the
-- byte before the buffer is read.
unfoldable pub trim_size : Text → ℕ → Option ℕ
trim_size buffer zero = none
trim_size buffer (suc n) =
    let rest = trim_size buffer n in if is_space_at (get_elem? buffer n) then rest else some (suc n)

-- The two command lines that are run, or only the first with a read before the buffer of its output.
pub data Outcome : Type 0 where
  ran : Text → Text → Outcome
  underrun : Text → Outcome
  too_long : Outcome

abbrev pub second_run : Text → Text → Option ℕ → Outcome
second_run line buffer none = underrun line
second_run line buffer (some n) = ran line (take n buffer)

module _ (output_of : Text → Text) where
  unfoldable pub run_line : Option Text → Outcome
  unfolding trim_size
  run_line none = too_long
  run_line (some line) =
      second_run line (output_of line) (trim_size (output_of line) (length (output_of line)))

  unfoldable pub eval_func : List Text → Outcome
  unfolding run_line add_words
  eval_func words = run_line (add_words [] words)
