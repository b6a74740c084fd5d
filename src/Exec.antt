-- ===== src/Exec.antt =====
-- exec.c, `execFunc`: the command line that `system` gets, in a buffer of 1024 bytes, and what is
-- reported about the exit status. The buffer is the text in it up to its NUL and the number
-- `p - commandline`. The file descriptors and what `system` returns are arguments.
pub mod Words
pub mod Line
pub mod Expand
mod Tests
use iocsh_utilities.Base.{
  ℕ, ◌+◌, ◌-◌, ◌/◌, ◌%◌, ◌==◌, ltb, leb, if◌then◌else◌, Bool, true, false, not, ◌&&◌, ◌||◌, Option,
  none, some, List, [], ◌∷◌, ◌++◌, Text, codes, length, take,
}
use iocsh_utilities.Threads.Affinity.{decimal}

-- A `|`, `;` or `&` at the end of a word stands outside its quotes.
unfoldable pub is_special : ℕ → Bool
is_special c = c == b'|' || c == b';' || c == b'&'

-- The word without its special byte, and that byte.
unfoldable pub split_special : Text → Text × Option ℕ
unfolding is_special
split_special [] = ([], none)
split_special (c ∷ []) = if is_special c then ([], some c) else (c ∷ [], none)
split_special (c ∷ d ∷ arg) = let (word, special) = split_special (d ∷ arg) in (c ∷ word, special)

unfoldable pub special_text : Option ℕ → Text
special_text none = []
special_text (some c) = c ∷ []

unfoldable pub quote : Text × Option ℕ → Text
unfolding special_text
quote (word, special) = codes " \"" ++ (word ++ (codes "\"" ++ special_text special))

-- The loop over the arguments. `none`: command line too long.
unfoldable pub add_words : Text → List Text → Option Text
unfolding split_special quote
add_words line [] = some line
add_words line (arg ∷ args) =
    let split = split_special arg in
    let rest = add_words (line ++ quote split) args in
    if leb 1024 (length line + length split.0 + 4) then none else rest

-- `commandline` with `p`, or a write behind its end.
pub data Buffer : Type 0 where
  written : Text → ℕ → Buffer
  behind : Buffer

-- `p += snprintf(p, sizeof(commandline) - (p - commandline), ...)`: for a `p` behind the end the size
-- wraps around, and for the end itself it is 0 and nothing is written.
unfoldable pub print_at : Text → Buffer → Buffer
print_at text behind = behind
print_at text (written line p) =
    if ltb 1024 p then behind else written (line ++ take (1023 - p) text) (p + length text)

unfoldable pub redirect : Bool → Text → ℕ → Buffer → Buffer
unfolding print_at
redirect needed operator fd buffer =
    if needed then print_at (operator ++ decimal fd) buffer else buffer

unfoldable pub redirect_all : ℕ → ℕ → ℕ → Text → Buffer
unfolding redirect
redirect_all in_fd out_fd err_fd line = redirect (not (err_fd == 2)) (codes " 2>&") err_fd (
    redirect (not (out_fd == 1)) (codes " >&") out_fd
      (redirect (not (in_fd == 0)) (codes " <&") in_fd (written line (length line))))

-- What `system` returns: -1, or the status of the child.
pub data Status : Type 0 where
  failed : Status
  status_of : ℕ → Status

pub data Report : Type 0 where
  system_failed : Report
  killed_by : ℕ → Report
  exit_status : ℕ → Report

-- WIFSIGNALED, WTERMSIG and WEXITSTATUS of Linux.
abbrev pub wifsignaled : ℕ → Bool
wifsignaled status = ltb 0 (status % 128) && ltb (status % 128) 127

abbrev pub wexitstatus : ℕ → ℕ
wexitstatus status = (status / 256) % 256

unfoldable pub reports : Status → List Report
reports failed = system_failed ∷ []
reports (status_of s) =
    (if wifsignaled s then killed_by (s % 128) ∷ [] else [])
    ++ (if wexitstatus s == 0 then [] else exit_status (wexitstatus s) ∷ [])

pub data Outcome : Type 0 where
  ran : Text → List Report → Outcome
  too_long overrun : Outcome

module _ (system : Text → Status) where
  unfoldable pub run_buffer : Buffer → Outcome
  unfolding reports
  run_buffer behind = overrun
  run_buffer (written line p) = ran line (reports (system line))

  -- Without a command: the shell of the environment variable SHELL, or /bin/sh.
  unfoldable pub run_shell : ℕ → ℕ → ℕ → Option Text → Outcome
  unfolding run_buffer print_at
  run_shell in_fd out_fd err_fd shell = run_buffer (
      print_at
        ((elim shell [ none ↦ codes "/bin/sh" | some s ↦ s ])
          ++ (codes " <&"
              ++ (decimal in_fd
                  ++ (codes " >&" ++ (decimal out_fd ++ (codes " 2>" ++ decimal err_fd))))))
        (written [] 0))

  unfoldable pub run_line : ℕ → ℕ → ℕ → Option Text → Outcome
  unfolding run_buffer redirect_all
  run_line in_fd out_fd err_fd none = too_long
  run_line in_fd out_fd err_fd (some line) = run_buffer (redirect_all in_fd out_fd err_fd line)

  -- `execFunc` with the words of the command, `args[1].aval`.
  unfoldable pub exec_func : ℕ → ℕ → ℕ → Option Text → List Text → Outcome
  unfolding run_shell run_line add_words
  exec_func in_fd out_fd err_fd shell [] = run_shell in_fd out_fd err_fd shell
  exec_func in_fd out_fd err_fd shell (w ∷ words) =
      run_line in_fd out_fd err_fd (add_words [] (w ∷ words))
