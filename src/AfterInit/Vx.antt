-- ===== src/AfterInit/Vx.antt =====
-- afterInit.c, the functions for the shell of vxWorks: a command is the address of a function, which is
-- called with eleven arguments. NULL is 0.
use iocsh_utilities.Base.{ℕ, zero, suc, Bool, Option, none, some, List, [], ◌∷◌, ◌++◌, Text}
use iocsh_utilities.AfterInit.Hooks.{Hook, after_ioc_running, beginning, Names, hook_name_to_number}
use iocsh_utilities.AfterInit.{
  call, State, Outcome, stored, refused, usage, unknown_hook, fill_item, new_item,
}

-- Behind `newItem`.
abbrev pub fill_call : ℕ → List ℕ → Option ℕ × State → Outcome
fill_call cmd arguments (none, s) = refused s
fill_call cmd arguments (some a, s) = stored (fill_item a (call (cmd ∷ arguments)) s)

module _ (hooks : Hook → ℕ) (accept malloc_ok : Bool) where
  -- `atInitStageVx`, with its eleven arguments.
  unfoldable pub at_init_stage_vx : ℕ → ℕ → List ℕ → State → Outcome
  unfolding new_item fill_item
  at_init_stage_vx when cmd arguments s =
      fill_call cmd arguments (new_item hooks accept malloc_ok when s)

  abbrev pub unless_null : ℕ → Outcome → Outcome
  unless_null zero done = usage
  unless_null (suc cmd) done = done

  -- `atInitStage`, with ten arguments; the eleventh is NULL.
  unfoldable pub at_init_stage : Names → Option Text → ℕ → List ℕ → State → Outcome
  unfolding at_init_stage_vx hook_name_to_number
  at_init_stage names hook cmd arguments s = elim (hook_name_to_number names hooks hook) [
    | none ↦ unknown_hook
    | some when ↦ unless_null cmd (at_init_stage_vx when cmd (arguments ++ (0 ∷ [])) s)
  ]

  -- `afterInit` and `atInit`.
  unfoldable pub after_init : ℕ → List ℕ → State → Outcome
  unfolding at_init_stage_vx
  after_init cmd arguments s =
      unless_null cmd (at_init_stage_vx (hooks after_ioc_running) cmd arguments s)

  unfoldable pub at_init : ℕ → List ℕ → State → Outcome
  unfolding at_init_stage_vx
  at_init cmd arguments s = unless_null cmd (at_init_stage_vx (hooks beginning) cmd arguments s)
