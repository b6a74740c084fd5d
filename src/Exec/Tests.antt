-- ===== src/Exec/Tests.antt =====
-- The theorems about exec.c at concrete inputs, and runs of its functions.
use iocsh_utilities.Base.{◌≡◌, refl, none, List, [], ◌∷◌, ◌++◌, Text, codes, replicate, arith}
use iocsh_utilities.Threads.Affinity.{decimal}
use iocsh_utilities.Exec.{
  Status, status_of, killed_by, exit_status, reports, ran, overrun, add_words, is_special,
  split_special, special_text, quote, run_shell, run_buffer, print_at, exec_func,
}
use iocsh_utilities.Exec.Words.{Built, quoted_words, add_words-Built}
use iocsh_utilities.Exec.Line.{exec_func-with_redirections, exec_func-overrun}

abbrev succeeds : Text → Status
succeeds line = status_of 0

abbrev words : List Text
words = codes "ls" ∷ codes "a b;" ∷ codes "date" ∷ []

quoted : quoted_words [] words ≡ codes " \"ls\" \"a b\"; \"date\""
unfolding quote split_special special_text is_special
quoted = refl

signal_9 : reports (status_of 9) ≡ killed_by 9 ∷ []
unfolding reports
signal_9 = refl

exit_3 : reports (status_of 768) ≡ exit_status 3 ∷ []
unfolding reports
exit_3 = refl

-- Without a command, standard error of the shell goes to a file named `2`.
shell_only : exec_func succeeds 0 1 2 none [] ≡ ran (codes "/bin/sh <&0 >&1 2>2") []
unfolding exec_func run_shell run_buffer print_at reports decimal
shell_only = refl

add_words-Built_example : Built [] words (add_words [] words)
add_words-Built_example = add_words-Built [] words (omega arith)

exec_func-with_redirections_example :
    exec_func succeeds 0 5 2 none words ≡ ran (codes " \"ls\" \"a b\"; \"date\" >&5") []
unfolding quote split_special special_text is_special reports decimal
exec_func-with_redirections_example =
    exec_func-with_redirections 0 5 2 succeeds none (codes "ls") (codes "a b;" ∷ codes "date" ∷ [])
      (omega arith)

exec_func-overrun_example : exec_func succeeds 7 8 2 none (replicate 1019 b'x' ∷ []) ≡ overrun
unfolding add_words quote split_special special_text is_special decimal
exec_func-overrun_example =
    exec_func-overrun 7 8 2 succeeds none (replicate 1019 b'x') []
      (codes " \"" ++ (replicate 1019 b'x' ++ codes "\"")) refl (λ e. omega arith)
      (λ e. omega arith) (omega arith)
