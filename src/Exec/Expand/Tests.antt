-- ===== src/Exec/Expand/Tests.antt =====
-- The macros and sleeps of exec.c: the theorem and some runs.
use iocsh_utilities.Base.{
  ℕ, ◌+◌, ◌-◌, ◌≡◌, refl, false, true, none, some, [], ◌∷◌, Text, codes, length, take, replicate,
  arith,
}
use iocsh_utilities.Base.Int.{pos}
use iocsh_utilities.Exec.Expand.{Macros, text, expand, exec, interrupted, slept, sleep_loop}
use iocsh_utilities.Exec.Expand.Whole.{MacroLaws, expand-whole}

-- Every text expands to the same 200 bytes.
abbrev whole : Text
whole = replicate 200 b'x'

abbrev macros : Macros
macros = record {
  create_ok = true;
  expand_string =
      λ src capacity. (pos (length (take (capacity - 1) whole)), take (capacity - 1) whole);
  malloc_ok = λ n. true;
}

plus_zero : (n : ℕ) → n + 0 ≡ n
plus_zero n = omega arith

laws : MacroLaws macros (codes "$X") whole
laws = record {
  expand-text = λ capacity. refl;
  expand-length = λ capacity. plus_zero (length (take (capacity - 1) whole));
}

expand-whole_example : expand macros 201 (some (codes "$X")) ≡ text (replicate 200 b'x')
expand-whole_example = expand-whole macros (codes "$X") whole laws (λ n. refl) refl refl

two_rounds : expand macros 2 (some (codes "$X")) ≡ text whole
unfolding expand
two_rounds = refl

nothing_run : exec macros (λ s. 7) 1 (some []) ≡ (none, 0)
unfolding exec
nothing_run = refl

-- A signal comes after three of five units.
two_sleeps : sleep_loop (interrupted 2 ∷ slept ∷ []) 5 ≡ (5 ∷ 2 ∷ [], false)
unfolding sleep_loop
two_sleeps = refl
