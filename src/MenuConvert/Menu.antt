-- ===== src/MenuConvert/Menu.antt =====
-- The menu that `updateMenuConvert` of updateMenuConvert.c leaves.
use iocsh_utilities.Base.{
  ◌≡◌, ◌≢◌, refl, sym, ap, text_eq, text_eq→≡, text_eq_iff, or-right, true, false, ◌||◌, List, [],
  ◌∷◌, ◌++◌, append-nil, Text, codes, text_eq_refl, arith, Bool-cases, inl, inr,
}
use mathlib.Core.Path.{subst}
use iocsh_utilities.MenuConvert.{
  Choice, found, new_choice, missing, Outcome, too_late, nothing_to_add, updated, add_missing,
  update_menu_convert,
}

-- The menu that a call leaves.
abbrev pub menu_of : Outcome → List Choice
menu_of (too_late menu) = menu
menu_of (nothing_to_add menu) = menu
menu_of (updated menu) = menu

-- One of the choices has this value.
abbrev pub HasValue : Text → List Choice → Type 0
HasValue table menu =
    (xs : List Choice) × (c : Choice) × (ys : List Choice) × (menu ≡ xs ++ (c ∷ ys)) × (c.1 ≡ table)

abbrev pub AllValues : List Choice → List Text → Type 0
AllValues menu [] = Unit {0}
AllValues menu (table ∷ tables) = HasValue table menu × AllValues menu tables

-- No choice has this value.
abbrev pub LacksValue : Text → List Choice → Type 0
LacksValue table [] = Unit {0}
LacksValue table (c ∷ menu) = (c.1 ≢ table) × LacksValue table menu

abbrev AllFound : List Choice → List Text → Type 0
AllFound menu [] = Unit {0}
AllFound menu (table ∷ tables) = (found menu table ≡ true) × AllFound menu tables

found-HasValue : (menu : List Choice) (table : Text) → found menu table ≡ true → HasValue table menu
unfolding found
found-HasValue [] table h = ground (arith, h)
found-HasValue ((name, value) ∷ menu) table h = elim (Bool-cases (text_eq value table)) [
  | inl e ↦ ([], (name, value), menu, refl, text_eq→≡ value table e)
  | inr e ↦
      let (xs, c, ys, m, same) = found-HasValue menu table (ground (arith, h, e)) in
      ((name, value) ∷ xs, c, ys, ap (λ x. (name, value) ∷ x) m, same)
]

found-LacksValue :
    (menu : List Choice) (table : Text) → found menu table ≡ false → LacksValue table menu
unfolding found
found-LacksValue [] table h = tt
found-LacksValue ((name, value) ∷ menu) table h = (
  λ e. ground (arith, h, (text_eq_iff value table).1 e),
  found-LacksValue menu table (or-right (text_eq value table) (found menu table) h),
)

AllFound-AllValues :
    (menu : List Choice) (tables : List Text) → AllFound menu tables → AllValues menu tables
AllFound-AllValues menu [] h = tt
AllFound-AllValues menu (table ∷ tables) (e, h) =
    (found-HasValue menu table e, AllFound-AllValues menu tables h)

-- Each of these choices has the prefix before its value as its name, and a value that the menu has not.
abbrev pub AllNew : List Choice → List Choice → Type 0
AllNew menu [] = Unit {0}
AllNew menu (c ∷ cs) = ((c.0 ≡ codes "menuConvert" ++ c.1) × LacksValue c.1 menu) × AllNew menu cs

found-append :
    (xs ys : List Choice) (table : Text) → found (xs ++ ys) table ≡ found xs table || found ys table
unfolding found
found-append [] ys table = refl
found-append ((name, value) ∷ xs) ys table = ground (arith, found-append xs ys table)

found-new_choice : (table : Text) (cs : List Choice) → found (new_choice table ∷ cs) table ≡ true
unfolding found new_choice
found-new_choice table cs = rw (text_eq_refl table) refl

AllFound-mono :
    (m n : List Choice) (tables : List Text)
    → ((table : Text) → found m table ≡ true → found n table ≡ true)
    → AllFound m tables
    → AllFound n tables
AllFound-mono m n [] f h = tt
AllFound-mono m n (table ∷ tables) f (e, h) = (f table e, AllFound-mono m n tables f h)

found-left :
    (xs ys : List Choice) (table : Text) → found xs table ≡ true → found (xs ++ ys) table ≡ true
found-left xs ys table h = ground (arith, found-append xs ys table)

found-right :
    (xs ys : List Choice) (table : Text) → found ys table ≡ true → found (xs ++ ys) table ≡ true
found-right xs ys table h = ground (arith, found-append xs ys table)

found-more :
    (menu : List Choice) (c : Choice) (cs : List Choice) (table : Text)
    → found (menu ++ cs) table ≡ true
    → found (menu ++ (c ∷ cs)) table ≡ true
unfolding found
found-more menu c cs table h =
    ground (arith, found-append menu cs table, found-append menu (c ∷ cs) table)

missing-found :
    (menu : List Choice) (table : Text) (tables : List Text)
    → found menu table ≡ true
    → missing menu (table ∷ tables) ≡ missing menu tables
unfolding missing
missing-found menu table tables e = rw e refl

missing-new :
    (menu : List Choice) (table : Text) (tables : List Text)
    → found menu table ≡ false
    → missing menu (table ∷ tables) ≡ new_choice table ∷ missing menu tables
unfolding missing
missing-new menu table tables e = rw e refl

missing-AllFound :
    (menu : List Choice) (tables : List Text) → AllFound (menu ++ missing menu tables) tables
unfolding missing
missing-AllFound menu [] = tt
missing-AllFound menu (table ∷ tables) = elim (Bool-cases (found menu table)) [
  | inl e ↦
      subst (λ cs. AllFound (menu ++ cs) (table ∷ tables)) (sym (missing-found menu table tables e))
        (found-left menu (missing menu tables) table e, missing-AllFound menu tables)
  | inr e ↦
      subst (λ cs. AllFound (menu ++ cs) (table ∷ tables)) (sym (missing-new menu table tables e))
        (
          found-right menu (new_choice table ∷ missing menu tables) table
              (found-new_choice table (missing menu tables)),
          AllFound-mono (menu ++ missing menu tables)
              (menu ++ (new_choice table ∷ missing menu tables)) tables
              (found-more menu (new_choice table) (missing menu tables))
              (missing-AllFound menu tables),
        )
]

missing-AllNew : (menu : List Choice) (tables : List Text) → AllNew menu (missing menu tables)
unfolding missing new_choice
missing-AllNew menu [] = tt
missing-AllNew menu (table ∷ tables) = elim (Bool-cases (found menu table)) [
  | inl e ↦ rw e (missing-AllNew menu tables)
  | inr e ↦ rw e ((refl, found-LacksValue menu table e), missing-AllNew menu tables)
]

missing-none :
    (menu : List Choice) (tables : List Text) → AllFound menu tables → missing menu tables ≡ []
unfolding missing
missing-none menu [] h = refl
missing-none menu (table ∷ tables) (e, h) = rw e (missing-none menu tables h)

add_missing-menu : (menu cs : List Choice) → menu_of (add_missing menu cs) ≡ menu ++ cs
unfolding add_missing
add_missing-menu menu [] = sym (append-nil menu)
add_missing-menu menu (c ∷ cs) = refl

-- Before interrupts are accepted, `updateMenuConvert` keeps the choices of the menu at their places
-- and adds others behind them, with values that no choice of the menu had and names made of the prefix
-- and the value, and then the name of each breakpoint table of the database is the value of a choice. A
-- second call finds nothing to add.
pub update_menu_convert-AllValues :
    (menu : List Choice) (tables : List Text)
    → let after = menu_of (update_menu_convert false menu tables) in
      ((added : List Choice) × (after ≡ menu ++ added) × AllNew menu added)
      × AllValues after tables
      × (update_menu_convert false after tables ≡ nothing_to_add after)
unfolding update_menu_convert add_missing
update_menu_convert-AllValues menu tables = rw (add_missing-menu menu (missing menu tables)) (
  (missing menu tables, refl, missing-AllNew menu tables),
  AllFound-AllValues (menu ++ missing menu tables) tables (missing-AllFound menu tables),
  rw (missing-none (menu ++ missing menu tables) tables (missing-AllFound menu tables)) refl,
)
