-- ===== src/MenuConvert/Tests.antt =====
-- The theorem about updateMenuConvert.c at a concrete menu.
use iocsh_utilities.Base.{◌≡◌, refl, false, List, [], ◌∷◌, ◌++◌, Text, codes}
use iocsh_utilities.MenuConvert.{
  Choice, found, new_choice, missing, add_missing, update_menu_convert, nothing_to_add, updated,
}
use iocsh_utilities.MenuConvert.Menu.{menu_of, AllValues, AllNew, update_menu_convert-AllValues}

abbrev linear : List Choice
linear = (codes "menuConvertLINEAR", codes "LINEAR") ∷ []

abbrev tables : List Text
tables = codes "typeKdegF" ∷ codes "LINEAR" ∷ []

adds_one :
    update_menu_convert false linear tables
    ≡ updated (linear ++ ((codes "menuConverttypeKdegF", codes "typeKdegF") ∷ []))
unfolding update_menu_convert missing add_missing found new_choice
adds_one = refl

update_menu_convert-AllValues_example :
    let after = menu_of (update_menu_convert false linear tables) in
    ((added : List Choice) × (after ≡ linear ++ added) × AllNew linear added)
    × AllValues after tables
    × (update_menu_convert false after tables ≡ nothing_to_add after)
update_menu_convert-AllValues_example = update_menu_convert-AllValues linear tables
