-- ===== src/Threads/Priority.antt =====
-- threads.c, the priorities: `epicsThreadStrToPrio`, `epicsThreadGetIdFromNameOrNumber` and
-- `epicsThreadSetPriorityFunc`. What EPICS base supplies is the parameter `Threads`: its thread
-- table, its priority levels and its comparison of texts without case. A thread id is the number of
-- its pointer, and NULL is 0.
pub mod Shift
pub mod Range
use iocsh_utilities.Base.{
  ℕ, zero, suc, ◌+◌, ◌-◌, ◌*◌, ◌%◌, ◌^◌, ◌==◌, ltb, if◌then◌else◌, Bool, true, false, not, ◌&&◌,
  ◌||◌, Option, none, some, List, [], ◌∷◌, Text, codes,
}
use iocsh_utilities.Base.Int.{ℤ, pos, negsuc, pos_part, neg_part, ltb_ℤ}
use iocsh_utilities.Clib.{strtol, strtoull}

-- The levels that the source names.
pub data Level : Type 0 where
  min low medium high ca_server_low ca_server_high scan_low scan_high iocsh base_max : Level

pub record Threads : Type 0 where
  pub level : Level → ℕ
  pub level_below : ℕ → ℕ
  pub level_above : ℕ → ℕ
  pub get_id : Text → ℕ
  pub get_priority : ℕ → ℕ
  pub case_eq : Text → Text → Bool

-- The source's own `epicsThreadPriorityMax`.
abbrev pub priority_max : ℕ
priority_max = 100

-- The conversion from `long` to a 32-bit `int`.
unfoldable pub to_int : ℤ → ℤ
to_int z =
    let w = (pos_part z + (2 ^ 63 - neg_part z)) % 2 ^ 32 in
    if ltb w (2 ^ 31) then pos w else negsuc (2 ^ 32 - w - 1)

abbrev pub level_names : List (Text × Level)
level_names =
    (codes "Low", low)
    ∷ (codes "Medium", medium)
    ∷ (codes "High", high)
    ∷ (codes "CAServerLow", ca_server_low)
    ∷ (codes "CAServerHigh", ca_server_high)
    ∷ (codes "ScanLow", scan_low)
    ∷ (codes "ScanHigh", scan_high)
    ∷ (codes "Iocsh", iocsh)
    ∷ (codes "BaseMax", base_max)
    ∷ []

module _ (threads : Threads) where
  open threads use {level, level_below, level_above, get_id, get_priority, case_eq}

  -- `while (diff++ < 0 && priority > epicsThreadPriorityMin)`, for `diff` = -(d + 1), with the value
  -- that `diff` has behind the loop.
  unfoldable pub lower : ℕ → ℕ → ℤ × ℕ
  lower zero p = if ltb (level min) p then (pos 1, level_below p) else (pos 0, p)
  lower (suc d) p =
      let rest = lower d (level_below p) in if ltb (level min) p then rest else (negsuc d, p)

  -- `diff++` overflows at the greatest `int`, and then wraps around to the least.
  unfoldable pub lower_loop : ℤ → ℕ → ℤ × ℕ
  unfolding lower to_int
  lower_loop (pos d) p = (to_int (pos (d + 1)), p)
  lower_loop (negsuc d) p = lower d p

  -- `while (diff-- > 0 && priority < 100)`.
  unfoldable pub raise : ℕ → ℕ → ℕ
  raise zero p = p
  raise (suc d) p = let rest = raise d (level_above p) in if ltb p 100 then rest else p

  unfoldable pub raise_loop : ℤ → ℕ → ℕ
  unfolding raise
  raise_loop (pos d) p = raise d p
  raise_loop (negsuc d) p = p

  -- Both loops. The parameter `diff` is an `int`.
  unfoldable pub shift : ℤ → ℕ → ℕ
  unfolding lower_loop raise_loop to_int
  shift diff p = let (diff', p') = lower_loop (to_int diff) p in raise_loop diff' p'

  unfoldable pub find_level : List (Text × Level) → Text → Option ℕ
  find_level [] s = none
  find_level ((name, l) ∷ names) s = if case_eq s name then some (level l) else find_level names s

  -- The level of another thread, for a text that names no level.
  unfoldable pub thread_level : Text → Option ℕ
  thread_level s = let other = get_id s in if other == 0 then none else some (get_priority other)

  unfoldable pub named_priority : Text → Option ℕ
  unfolding find_level thread_level
  named_priority s =
      if case_eq s (codes "Min")
      then some (level min)
      else if case_eq s (codes "Max")
      then some priority_max
      else elim (find_level level_names s) [ some p ↦ some p | none ↦ thread_level s ]

  unfoldable pub numeric_priority : ℤ → Option ℕ
  numeric_priority p =
      if ltb_ℤ p (pos (level min)) || ltb_ℤ (pos priority_max) p then none else some (pos_part p)

  unfoldable pub shifted : ℤ → Option ℕ → Option ℕ
  unfolding shift
  shifted diff none = none
  shifted diff (some p) = some (shift diff p)

  -- Behind `strtol`, which has read the value and left the text `end`.
  unfoldable pub prio_at : Text → ℤ → Text → ℤ → Option ℕ
  unfolding named_priority numeric_priority shifted to_int
  prio_at [] value s diff = numeric_priority (to_int value)
  prio_at (_ ∷ _) value s diff = shifted diff (named_priority s)

  -- `epicsThreadStrToPrio`, where `none` is the return of -1 behind a message.
  unfoldable pub str_to_prio : Text → ℤ → Option ℕ
  unfolding prio_at
  str_to_prio s diff = prio_at (strtol s).1 (strtol s).0 s diff

  -- `epicsThreadGetIdFromNameOrNumber`.
  unfoldable pub id_from_name_or_number : Text → ℕ
  id_from_name_or_number s =
      let (id, end) = strtoull s in
      elim end [ [] ↦ if id == 0 then get_id s else id | _ ∷ _ ↦ get_id s ]

  pub data Outcome : Type 0 where
    usage no_thread bad_priority : Outcome
    -- `epicsThreadSetPriority(id, priority)`, with the value of `errVerbose` during the call.
    set_priority : ℕ → ℕ → ℕ → Outcome

  abbrev pub given : Option Text → Option Text
  given none = none
  given (some []) = none
  given (some (c ∷ s)) = some (c ∷ s)

  unfoldable pub set_checked : Text → Text → ℤ → Outcome
  unfolding str_to_prio id_from_name_or_number
  set_checked thread prio diff =
      let id = id_from_name_or_number thread in
      if id == 0
      then no_thread
      else elim (str_to_prio prio diff) [ none ↦ bad_priority | some p ↦ set_priority id p 1 ]

  -- `epicsThreadSetPriorityFunc`: what it does, and `errVerbose` behind it.
  unfoldable pub set_priority_func : Option Text → Option Text → ℤ → ℕ → Outcome × ℕ
  unfolding set_checked
  set_priority_func thread prio diff err_verbose = (
    elim (given thread) [
      | none ↦ usage
      | some t ↦ elim (given prio) [ none ↦ usage | some p ↦ set_checked t p diff ]
    ],
    err_verbose,
  )
