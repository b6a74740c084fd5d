-- ===== src/AddScan.antt =====
-- addScan.c, `addScan` and `rmScan`: a rate is put into the menu menuScan before iocInit, or taken out
-- of it. The menu is the list of its choices, for the two arrays of `nChoice` pointers. The numbers of
-- type `double` and how C reads and compares them are the parameter `Rates`, and the index of the
-- first periodic choice, SCAN_1ST_PERIODIC, is the parameter `first`. What vxWorks does to the system
-- clock is left out.
pub mod Order
mod Tests
use iocsh_utilities.Base.{
  ℕ, zero, suc, ◌==◌, if◌then◌else◌, ◌≡◌, Bool, true, false, not, ◌&&◌, Option, none, some, List,
  [], ◌∷◌, ◌++◌, Text, codes,
}

-- `strtod`, and the number that `sscanf(s, "%lf%c", ...)` reads if it converts only the first item.
-- The comparisons are those of C, where a value that is no number (NaN) compares false.
pub record Rates : Type 1 where
  pub Rate : Type 0
  pub strtod : Text → Rate
  pub scan_rate : Text → Option Rate
  pub not_positive : Rate → Bool
  pub eq : Rate → Rate → Bool
  pub lt : Rate → Rate → Bool
  pub is_number : Rate → Bool
  pub eq_refl : (a : Rate) → is_number a ≡ true → eq a a ≡ true
  pub connected :
      (a b : Rate)
      → is_number a ≡ true
      → is_number b ≡ true
      → eq a b ≡ false
      → lt a b ≡ false
      → lt b a ≡ true

-- The name, which can be the null pointer, and the value.
abbrev pub Choice : Type 0
Choice = Option Text × Text

-- `while (name[0]=='0') name++;`.
unfoldable pub skip_zeros : Text → Text
skip_zeros [] = []
skip_zeros (c ∷ s) = let rest = skip_zeros s in if c == b'0' then rest else c ∷ s

-- The new choice. Its name is never set.
unfoldable pub new_choice : Text → Choice
unfolding skip_zeros
new_choice ratestr = (none, skip_zeros ratestr ++ codes " second")

-- What becomes of the menu: as it is because the argument is refused, because the rate is there or
-- because it is not there, changed, or read and written out of its range.
pub data Outcome : Type 0 where
  refused available missing : Outcome
  changed : List Choice → Outcome
  out_of_range : Outcome

abbrev pub behind : Choice → Outcome → Outcome
behind c (changed menu) = changed (c ∷ menu)
behind c o = o

module _ (rates : Rates) where
  -- The loop of `addScan` over the periodic choices, and the copies into the new arrays.
  unfoldable pub insert_rate : rates.Rate → Choice → List Choice → Outcome
  insert_rate rate new [] = changed (new ∷ [])
  insert_rate rate new ((name, value) ∷ menu) =
      let rest = insert_rate rate new menu in
      let r = rates.strtod value in
      if rates.eq r rate
      then available
      else if rates.lt r rate
      then changed (new ∷ (name, value) ∷ menu)
      else behind (name, value) rest

  -- The loop of `rmScan`.
  unfoldable pub remove_rate : rates.Rate → List Choice → Outcome
  remove_rate rate [] = missing
  remove_rate rate ((name, value) ∷ menu) =
      let rest = remove_rate rate menu in
      if rates.eq (rates.strtod value) rate then changed menu else behind (name, value) rest

  -- The choices before the first periodic one stay. `addScan` copies them all, also those that a menu
  -- without any periodic choice lacks.
  unfoldable pub insert_from : ℕ → rates.Rate → Choice → List Choice → Outcome
  unfolding insert_rate
  insert_from zero rate new menu = insert_rate rate new menu
  insert_from (suc n) rate new [] = out_of_range
  insert_from (suc n) rate new (c ∷ menu) = behind c (insert_from n rate new menu)

  unfoldable pub remove_from : ℕ → rates.Rate → List Choice → Outcome
  unfolding remove_rate
  remove_from zero rate menu = remove_rate rate menu
  remove_from (suc n) rate [] = missing
  remove_from (suc n) rate (c ∷ menu) = behind c (remove_from n rate menu)

  -- `sscanf(...) != 1 || rate <= 0`.
  abbrev pub checked : Option rates.Rate → Option rates.Rate
  checked none = none
  checked (some rate) = if rates.not_positive rate then none else some rate

  abbrev pub with_rate : Option rates.Rate → (rates.Rate → Outcome) → Outcome
  with_rate none next = refused
  with_rate (some rate) next = next rate

  -- `addScan` and `rmScan`, with `interruptAccept` and the argument, which can be the null pointer.
  unfoldable pub add_scan : ℕ → Bool → Option Text → List Choice → Outcome
  unfolding insert_from new_choice
  add_scan first accept none menu = refused
  add_scan first accept (some s) menu =
      if accept
      then refused
      else with_rate (checked (rates.scan_rate s))
          (λ rate. insert_from first rate (new_choice s) menu)

  unfoldable pub rm_scan : ℕ → Bool → Option Text → List Choice → Outcome
  unfolding remove_from
  rm_scan first accept none menu = refused
  rm_scan first accept (some s) menu =
      if accept
      then refused
      else with_rate (checked (rates.scan_rate s)) (λ rate. remove_from first rate menu)
