-- ===== src/Exec/Expand.antt =====
-- exec.c, `expand` and `exec` for vxWorks, and `sleepFunc`. The macro library of EPICS base is the
-- parameter `Macros`; the shell of vxWorks and `nanosleep` are parameters as well.
pub mod Whole
mod Tests
use iocsh_utilities.Base.{
  ℕ, zero, suc, ◌+◌, ◌-◌, ◌*◌, leb, if◌then◌else◌, Bool, true, false, not, ◌&&◌, Option, none, some,
  List, [], ◌∷◌, Text, length, has_byte,
}
use iocsh_utilities.Base.Int.{ℤ, pos_part, neg_part}

pub record Macros : Type 0 where
  -- Whether macCreateHandle succeeds.
  pub create_ok : Bool
  -- macExpandString into a buffer of the given capacity: what it returns, which is negative where a
  -- macro is not defined, and what it writes.
  pub expand_string : Text → ℕ → ℤ × Text
  -- Whether there is memory for so many bytes.
  pub malloc_ok : ℕ → Bool

-- `labs`.
abbrev pub absolute : ℤ → ℕ
absolute z = pos_part z + neg_part z

-- NULL, the text that was given, or a new text; `no_fuel` where the fuel is used up.
pub data Expanded : Type 0 where
  null no_fuel : Expanded
  text : Text → Expanded

module _ (macros : Macros) where
  -- The loop, with `expanded` of `linesize` bytes if there was memory for it.
  unfoldable pub expand_loop : ℕ → Text → ℕ → Expanded
  expand_loop zero src linesize = no_fuel
  expand_loop (suc fuel) src linesize =
      let (len, written) = macros.expand_string src (linesize - 1) in
      let rest = expand_loop fuel src (linesize * 2) in
      if not (macros.malloc_ok linesize)
      then null
      else if leb (linesize - 2) (absolute len)
      then rest
      else text written

  -- `expand`.
  unfoldable pub expand : ℕ → Option Text → Expanded
  unfolding expand_loop
  expand fuel none = null
  expand fuel (some src) =
      let expanded = expand_loop fuel src 128 in
      if not (has_byte b'$' src) then text src else if macros.create_ok then expanded else null

  -- Behind `expand` in `exec`: what is run, if anything is.
  abbrev pub line_of : Expanded → Option Text
  line_of null = none
  line_of no_fuel = none
  line_of (text []) = none
  line_of (text (c ∷ s)) = some (c ∷ s)

  module _ (evaluate : Text → ℕ) where
    -- `exec`: the line that is printed and run, if there is one, and the result.
    unfoldable pub exec : ℕ → Option Text → Option Text × ℕ
    unfolding expand
    exec fuel cmd = elim (line_of (expand fuel cmd)) [
      | none ↦ (none, 0)
      | some s ↦ (some s, evaluate s)
    ]

-- The answers of `nanosleep`: the time is over, a signal came and so much is left, or an error.
pub data Slept : Type 0 where
  slept sleep_failed : Slept
  interrupted : ℕ → Slept

-- The loop of `sleepFunc` in nanoseconds, for the answers that come: the times for which it sleeps, and
-- whether an error is reported. Where the answers end it still sleeps.
unfoldable pub sleep_loop : List Slept → ℕ → List ℕ × Bool
sleep_loop [] time = (time ∷ [], false)
sleep_loop (slept ∷ answers) time = (time ∷ [], false)
sleep_loop (sleep_failed ∷ answers) time = (time ∷ [], true)
sleep_loop (interrupted left ∷ answers) time =
    let (times, failed) = sleep_loop answers left in (time ∷ times, failed)
