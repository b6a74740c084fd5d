-- ===== src/AfterInit/Tests.antt =====
-- The theorems about afterInit.c at concrete inputs, and runs of its functions.
use iocsh_utilities.Base.{
  ℕ, ◌≡◌, refl, true, false, some, List, [], ◌∷◌, codes, take, text_eq, replicate, arith,
}
use iocsh_utilities.AfterInit.Hooks.{
  Hook, ioc_pause, after_ioc_paused, interrupt_accept, lower, Names, hook_name_to_number,
}
use iocsh_utilities.AfterInit.CommandText.{
  command_text, needs_quotes, cut_word, word_text, append_words,
}
use iocsh_utilities.AfterInit.{
  link_item, fill_item, register_hook, shell, State, stored, overrun, initial, after_init_hook,
  at_init_stage_iocsh,
}
use iocsh_utilities.AfterInit.Order.{Call, in_order, register_all, after_init_hook-register_all}
use iocsh_utilities.AfterInit.HookNames.{init_hook_at, hook_name_to_number-accepts}
use iocsh_utilities.AfterInit.CommandLine.{
  at_init_stage_iocsh-whole_line, at_init_stage_iocsh-overrun,
}

-- Numbers in the order of EPICS, for the hooks that the tests use.
abbrev numbers : Hook → ℕ
numbers ioc_pause = 20
numbers after_ioc_paused = 23
numbers interrupt_accept = 31
numbers _ = 17

abbrev by_lower : Names
by_lower = record {
  case_eq = λ a b. text_eq (lower a) (lower b);
  case_eq_n = λ a b n. text_eq (take n (lower a)) (take n (lower b));
  case_eq_lower = λ a b. refl;
  case_eq_n_lower = λ a b n. refl;
}

abbrev three_calls : List Call
three_calls =
    (23, codes "first", [])
    ∷ (17, codes "second", codes "two words" ∷ [])
    ∷ (23, codes "third", [])
    ∷ []

at_17 : in_order numbers 17 three_calls ≡ shell (codes "second 'two words'") ∷ []
unfolding command_text append_words word_text needs_quotes cut_word
at_17 = refl

at_23 : in_order numbers 23 three_calls ≡ shell (codes "third") ∷ shell (codes "first") ∷ []
unfolding command_text append_words word_text needs_quotes cut_word
at_23 = refl

after_init_hook-register_all_example :
    (t : State) × (register_all numbers three_calls initial ≡ stored t)
    × ((state : ℕ) → after_init_hook t state ≡ some (in_order numbers state three_calls))
unfolding command_text append_words word_text needs_quotes cut_word
after_init_hook-register_all_example =
    after_init_hook-register_all numbers three_calls (omega arith, (omega arith, (omega arith, tt)))

hook_name_to_number-accepts_example :
    hook_name_to_number by_lower numbers (some (codes "INITHOOKatIocPaused")) ≡ some 23
hook_name_to_number-accepts_example =
    (hook_name_to_number-accepts by_lower numbers 20 (codes "AfterIocPaused") after_ioc_paused
        init_hook_at (codes "INITHOOKatIocPaused") refl).1
      refl (λ e. ground (arith, e)) refl

at_init_stage_iocsh-whole_line_example :
    at_init_stage_iocsh numbers false true 17 (codes "second" ∷ codes "two words" ∷ []) initial
    ≡ stored (
        fill_item 0
          (shell (codes "second 'two words'"))
          (link_item numbers 17 0 (register_hook initial)))
unfolding register_hook needs_quotes
at_init_stage_iocsh-whole_line_example =
    at_init_stage_iocsh-whole_line numbers 17 initial (codes "second") (codes "two words" ∷ [])
      (omega arith)

at_init_stage_iocsh-overrun_example :
    at_init_stage_iocsh numbers false true 17 (replicate 300 b'x' ∷ codes "y" ∷ []) initial
    ≡ overrun
at_init_stage_iocsh-overrun_example =
    at_init_stage_iocsh-overrun numbers 17 initial (replicate 300 b'x') (codes "y") [] (omega arith)
