-- ===== src/MenuConvert.antt =====
-- updateMenuConvert.c, `updateMenuConvert`: the breakpoint tables of the database that the menu
-- menuConvert does not have are added to it. A menu is the list of its choices, name and value, and
-- stands for the two arrays of `nChoice` pointers.
pub mod Menu
mod Tests
use iocsh_utilities.Base.{
  if◌then◌else◌, Bool, true, false, ◌||◌, List, [], ◌∷◌, ◌++◌, Text, codes, text_eq,
}

abbrev pub Choice : Type 0
Choice = Text × Text

-- `found`: a choice has the name of the breakpoint table as its value.
unfoldable pub found : List Choice → Text → Bool
found [] table = false
found ((name, value) ∷ menu) table = text_eq value table || found menu table

unfoldable pub new_choice : Text → Choice
new_choice table = (codes "menuConvert" ++ table, table)

-- The first loop: the list `missing`.
unfoldable pub missing : List Choice → List Text → List Choice
unfolding found new_choice
missing menu [] = []
missing menu (table ∷ tables) =
    let rest = missing menu tables in if found menu table then rest else new_choice table ∷ rest

-- What the function returns, with the menu that it leaves.
pub data Outcome : Type 0 where
  too_late nothing_to_add : List Choice → Outcome
  updated : List Choice → Outcome

-- `if (ellCount(&missing))`.
unfoldable pub add_missing : List Choice → List Choice → Outcome
add_missing menu [] = nothing_to_add menu
add_missing menu (c ∷ cs) = updated (menu ++ (c ∷ cs))

-- `updateMenuConvert`, with `interruptAccept`.
unfoldable pub update_menu_convert : Bool → List Choice → List Text → Outcome
unfolding missing add_missing
update_menu_convert accept menu tables =
    if accept then too_late menu else add_missing menu (missing menu tables)
