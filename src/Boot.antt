-- ===== src/Boot.antt =====
-- bootNotify.c, for vxWorks: the command in its buffer of 256 bytes and the version number. The rest is
-- one call of `rsh`, a parameter.
pub mod Command
mod Tests
use iocsh_utilities.Base.{
  ℕ, ◌+◌, ◌-◌, ◌==◌, leb, ltb, if◌then◌else◌, Bool, true, false, ◌&&◌, Option, none, some, List, [],
  ◌∷◌, ◌++◌, Text, length, take,
}

pub data Written : Type 0 where
  written : Text → Written
  overrun : Written

-- `"/%.*s"` with what is left of the buffer as the precision. A negative precision is none at all.
abbrev pub second_text : ℕ → Text → Text
second_text n script2 = b'/' ∷ (if leb n 254 then take (254 - n) script2 else script2)

unfoldable pub command_text : Text → Option Text → Written
command_text script none = written (take 255 script)
command_text script (some script2) =
    let first = take 255 script in
    let s = first ++ second_text (length first) script2 in
    if leb 256 (length s) then overrun else written s

abbrev pub is_digit : ℕ → Bool
is_digit c = leb b'0' c && leb c b'9'

-- The loop over `vxver`. `none`: it goes behind the end of the text.
unfoldable pub strip_version : Text → Option Text
strip_version [] = none
strip_version (c ∷ s) = if is_digit c then some (c ∷ s) else strip_version s

pub data Outcome : Type 0 where
  usage bad_read bad_write : Outcome
  -- The command, the version of vxWorks (NULL if there is none) and what `rsh` returns.
  called : Text → Option Text → ℕ → Outcome

module _ (rsh : Text → Option Text → ℕ) where
  abbrev pub call_rsh : Text → Option Text → Outcome
  call_rsh command version = called command version (rsh command version)

  abbrev pub with_version : Text → Option Text → Outcome
  with_version command none = call_rsh command none
  with_version command (some version) = elim (strip_version version) [
    | none ↦ bad_read
    | some v ↦ call_rsh command (some v)
  ]

  -- `bootNotify`, with `vxWorksVersion`.
  unfoldable pub boot_notify : Option Text → Option Text → Option Text → Outcome
  unfolding command_text strip_version
  boot_notify vxver none script2 = usage
  boot_notify vxver (some script) script2 = elim (command_text script script2) [
    | overrun ↦ bad_write
    | written command ↦ with_version command vxver
  ]
