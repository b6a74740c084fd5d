-- ===== src/Eval/Tests.antt =====
-- The theorems about eval.c at concrete inputs.
use iocsh_utilities.Base.{◌≡◌, refl, List, [], ◌∷◌, ◌++◌, Text, codes}
use iocsh_utilities.Clib.{is_space}
use iocsh_utilities.Eval.{ran, underrun, eval_func}
use iocsh_utilities.Eval.Lines.{Evaluates, eval_func-Evaluates}

abbrev words : List Text
words = codes "echo" ∷ codes "date" ∷ []

abbrev prints_date : Text → Text
prints_date line = codes "date" ++ (10 ∷ 32 ∷ [])

abbrev prints_nothing : Text → Text
prints_nothing line = []

eval_func-Evaluates_example :
    Evaluates
      (codes " \"echo\" \"date\"")
      (codes "date" ++ (10 ∷ 32 ∷ []))
      (eval_func prints_date words)
eval_func-Evaluates_example = eval_func-Evaluates prints_date words

date_run : eval_func prints_date words ≡ ran (codes " \"echo\" \"date\"") (codes "date")
unfolding eval_func is_space
date_run = refl

nothing_run : eval_func prints_nothing words ≡ underrun (codes " \"echo\" \"date\"")
unfolding eval_func
nothing_run = refl
