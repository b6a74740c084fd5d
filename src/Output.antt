-- ===== src/Output.antt =====
-- listRecords.c and echo.c: what goes to which output. The streams, `dbl` and dbTranslateEscape of EPICS
-- base are parameters.
mod Tests
use iocsh_utilities.Base.{
  ℕ, if◌then◌else◌, Bool, true, false, Option, none, some, List, [], ◌∷◌, ◌++◌, Text,
}

pub record Streams : Type 1 where
  pub State : Type 0
  pub Stream : Type 0
  pub open_to_write : State → Text → Option (Stream × State)
  -- `errno` after a failing `fopen`.
  pub errno : State → ℕ
  pub close : State → Stream → State
  pub get_thread_stdout : State → Stream
  pub set_thread_stdout : State → Stream → State
  pub dbl : State → Option Text → State

module _ (streams : Streams) where
  -- `dbl` with another standard output.
  abbrev pub dbl_into : streams.Stream → Option Text → streams.State → streams.State
  dbl_into new fields s =
      let old = streams.get_thread_stdout s in
      let t = streams.dbl (streams.set_thread_stdout s new) fields in
      streams.set_thread_stdout (streams.close t new) old

  -- `listRecords`: what it returns, and whether it says that it cannot open the file.
  unfoldable pub list_records : Option Text → Option Text → streams.State → ℕ × Bool × streams.State
  list_records none fields s = (0, false, streams.dbl s fields)
  list_records (some []) fields s = (0, false, streams.dbl s fields)
  list_records (some (c ∷ filename)) fields s = elim (streams.open_to_write s (c ∷ filename)) [
    | none ↦ (streams.errno s, true, s)
    | some (new, t) ↦ (0, false, dbl_into new fields t)
  ]

-- `echo`, with dbTranslateEscape.
abbrev pub echo : (Text → Text) → Option Text → Text
echo translate none = 10 ∷ []
echo translate (some s) = translate s ++ (10 ∷ [])
