-- ===== src/AfterInit/Registers.antt =====
-- What one call of `atInitStageIocsh` of afterInit.c registers, and what the init hook runs of a list.
use iocsh_utilities.Base.{
  ℕ, zero, suc, ◌≤◌, ◌<◌, ◌==◌, ltb, if◌then◌else◌, ◌≡◌, refl, ◌∙◌, ap, Bool, true, false, Option,
  some, List, [], ◌∷◌, Text, length, arith, Bool-cases, inl, inr,
}
use iocsh_utilities.AfterInit.Hooks.{Hook}
use iocsh_utilities.AfterInit.CommandText.{command_text}
use iocsh_utilities.AfterInit.{
  Command, shell, Item, State, register_hook, link_item, new_item, fill_item, store_command,
  Outcome, stored, refused, overrun, at_init_stage_iocsh, hook_loop, after_init_hook,
}
use iocsh_utilities.AfterInit.Chain.{Segment, Entry, view}
use iocsh_utilities.AfterInit.View.{Holds, place, Holds-register, Holds-link}

-- The commands for one hook, in the order of the list.
abbrev pub selected : ℕ → List Entry → List Command
selected state [] = []
selected state ((when, c) ∷ es) = if when == state then c ∷ selected state es else selected state es

hook_loop-selected :
    (fuel : ℕ) (heap : ℕ → Item) (state : ℕ) (p : Option ℕ) (xs : List ℕ)
    → Segment heap p xs
    → length xs ≤ fuel
    → hook_loop fuel heap state p ≡ some (selected state (view heap xs))
unfolding hook_loop
hook_loop-selected zero heap state p [] e h = rw e
hook_loop-selected (suc fuel) heap state p [] e h = rw e
hook_loop-selected zero heap state p (a ∷ xs) (e, s) h = absurd (omega arith)
hook_loop-selected (suc fuel) heap state p (a ∷ xs) (e, s) h =
    rw (e, hook_loop, hook_loop-selected fuel heap state (heap a).next xs s (omega arith))

-- In a state that holds a list of commands, the init hook ends and runs the commands of its hook,
-- and no others, in the order of the list.
pub after_init_hook-selected :
    (s : State) (entries : List Entry) (state : ℕ)
    → Holds s entries
    → after_init_hook s state ≡ some (selected state entries)
unfolding after_init_hook
after_init_hook-selected s entries state h =
    hook_loop-selected s.fresh s.heap state s.cmdlist h.items h.inv.linked
      (omega (arith, h.inv.count))
    ∙ ap (λ es. some (selected state es)) h.seen

module _ (hooks : Hook → ℕ) where
  -- What a call of `atInitStageIocsh` comes to.
  pub data Registers (when : ℕ) (w : Text) (words : List Text) (entries : List Entry) (r : Outcome)
      : Type 0 where
    registered :
        (s : State)
        → r ≡ stored s
        → length (command_text w words) < 256
        → Holds s (place hooks when (shell (command_text w words)) entries)
        → Registers when w words entries r
    too_long : r ≡ overrun → 256 ≤ length (command_text w words) → Registers when w words entries r

  -- A command of at least one word, given before interrupts are accepted and with memory at hand, is
  -- added to the list that the state holds: before the others if its hook is one of a pause or
  -- shutdown, behind them otherwise. Otherwise its text has 256 bytes or more, and the buffer of the
  -- item is overrun.
  pub at_init_stage_iocsh-Registers :
      (when : ℕ) (w : Text) (words : List Text) (s : State) (entries : List Entry)
      → Holds s entries
      → Registers when w words entries (at_init_stage_iocsh hooks false true when (w ∷ words) s)
  unfolding at_init_stage_iocsh new_item store_command
  at_init_stage_iocsh-Registers when w words s entries h =
      let text = command_text w words in
      let t = register_hook s in
      elim (Bool-cases (ltb (length text) 256)) [
        | inl k ↦ rw k (
            registered (fill_item t.fresh (shell text) (link_item hooks when t.fresh t)) refl
              (ground arith)
              (Holds-link hooks when (shell text) t entries (Holds-register s entries h)))
        | inr k ↦ rw k (too_long refl (ground arith))
      ]

  -- Refused calls, after interrupts are accepted or without memory, leave the list as it was.
  pub at_init_stage_iocsh_refused :
      (malloc_ok : Bool) (when : ℕ) (words : List Text) (s : State) (entries : List Entry)
      → Holds s entries
      → (at_init_stage_iocsh hooks true malloc_ok when words s ≡ refused s)
        × (t : State) × (at_init_stage_iocsh hooks false false when words s ≡ refused t)
        × Holds t entries
  unfolding at_init_stage_iocsh new_item store_command
  at_init_stage_iocsh_refused malloc_ok when words s entries h =
      (refl, register_hook s, refl, Holds-register s entries h)
