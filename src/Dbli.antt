-- ===== src/Dbli.antt =====
-- dbli.c and dbla.c: the info items and the aliases of a database that match patterns. The database is
-- read through a `DBENTRY` of EPICS base, the parameter `Entry`; a function of it tells whether its
-- status is 0.
pub mod Places
pub mod Pending
mod Tests
use iocsh_utilities.Base.{
  ℕ, zero, suc, if◌then◌else◌, Bool, true, false, not, ◌||◌, Option, none, some, List, [], ◌∷◌,
  ◌++◌, Text, codes,
}

-- What dbGetRecordName, dbGetInfoName, dbGetInfoString and dbGetInfoPointer tell of the current item;
-- the pointer is the text that `%p` prints, if it is not NULL.
pub record Info : Type 0 where
  pub record_name : Text
  pub name : Text
  pub value : Text
  pub pointer : Option Text

pub record Entry : Type 1 where
  pub State : Type 0
  pub has_record_type : State → Bool
  pub first_record_type : State → Bool × State
  pub next_record_type : State → Bool × State
  pub first_record : State → Bool × State
  pub next_record : State → Bool × State
  pub first_info : State → Bool × State
  pub next_info : State → Bool × State
  pub info : State → Info

abbrev pub line : Info → Text
line i =
    i.record_name
    ++ (b'.'
        ∷ (i.name
            ++ (codes " \""
                ++ (i.value ++ (b'"' ∷ elim i.pointer [ none ↦ [] | some p ↦ b' ' ∷ p ])))))

module _ (glob_match : Text → Text → Bool) where
  -- The list of patterns is empty, or one of them matches.
  abbrev pub any_matches : Text → List Text → Bool
  any_matches name [] = false
  any_matches name (pattern ∷ patterns) = glob_match name pattern || any_matches name patterns

  abbrev pub accepted : List Text → Info → Bool
  accepted [] i = true
  accepted (pattern ∷ patterns) i = any_matches i.name (pattern ∷ patterns)

-- Where a loop stops: at an entry, at the end of the database, or for want of fuel.
pub data Found (E : Type 0) : Type 0 where
  at : E → Found E
  stopped no_fuel : Found E

module _ (entry : Entry) where
  -- The innermost loop, behind a `dbNextRecord` that failed.
  unfoldable pub find_record : ℕ → entry.State → Found entry.State
  find_record zero e = no_fuel
  find_record (suc fuel) e =
      let (more, t) = entry.next_record_type e in
      let (ok, r) = entry.first_record t in
      let rest = find_record fuel r in if not more then stopped else if ok then at r else rest

  unfoldable pub to_record : ℕ → entry.State → Found entry.State
  unfolding find_record
  to_record limit e = let (ok, r) = entry.next_record e in if ok then at r else find_record limit r

  -- At a record: its first item, or the loop goes on with `again`.
  abbrev pub first_or : (entry.State → Found entry.State) → Found entry.State → Found entry.State
  first_or again (at r) = let (ok, i) = entry.first_info r in if ok then at i else again i
  first_or again stopped = stopped
  first_or again no_fuel = no_fuel

  -- The loop around it, behind a `dbNextInfo` that failed.
  unfoldable pub find_info : ℕ → ℕ → entry.State → Found entry.State
  unfolding to_record
  find_info limit zero e = no_fuel
  find_info limit (suc fuel) e = first_or (find_info limit fuel) (to_record limit e)

  unfoldable pub to_info : ℕ → entry.State → Found entry.State
  unfolding find_info
  to_info limit e = let (ok, i) = entry.next_info e in if ok then at i else find_info limit limit i

  module _ (glob_match : Text → Text → Bool) (patterns : List Text) where
    abbrev pub match_or : (entry.State → Found entry.State) → Found entry.State → Found entry.State
    match_or again (at i) = if accepted glob_match patterns (entry.info i) then at i else again i
    match_or again stopped = stopped
    match_or again no_fuel = no_fuel

    -- `while(1)`.
    unfoldable pub match_loop : ℕ → ℕ → entry.State → Found entry.State
    unfolding to_info
    match_loop limit zero e = no_fuel
    match_loop limit (suc fuel) e = match_or (match_loop limit fuel) (to_info limit e)

    -- `dbNextMatchingInfo`.
    unfoldable pub next_matching_info : ℕ → entry.State → Found entry.State
    unfolding match_loop
    next_matching_info limit e =
        let (ok, t) = entry.first_record_type e in
        if entry.has_record_type e
        then match_loop limit limit e
        else if ok
        then match_loop limit limit t
        else stopped

    abbrev pub line_or : (entry.State → Option (List Text)) → Found entry.State → Option (List Text)
    line_or again (at i) = elim (again i) [
      | none ↦ none
      | some lines ↦ some (line (entry.info i) ∷ lines)
    ]
    line_or again stopped = some []
    line_or again no_fuel = none

    unfoldable pub list_lines : ℕ → ℕ → entry.State → Option (List Text)
    unfolding next_matching_info
    list_lines limit zero e = none
    list_lines limit (suc fuel) e = line_or (list_lines limit fuel) (next_matching_info limit e)

    -- `dblilist`, the lines that it prints.
    unfoldable pub dblilist : ℕ → entry.State → Option (List Text)
    unfolding list_lines
    dblilist limit e = list_lines limit limit e

-- dbla.c: the records of all types, as name, real name and whether it is an alias.
pub record Named : Type 0 where
  pub record_name : Text
  pub real_name : Text
  pub is_alias : Bool

module _ (glob_match : Text → Text → Bool) where
  abbrev pub alias_accepted : Option Text → Named → Bool
  alias_accepted none r = true
  alias_accepted (some match) r = glob_match r.real_name match || glob_match r.record_name match

  abbrev pub alias_line : Named → Text
  alias_line r = r.record_name ++ (codes " -> " ++ r.real_name)

  -- The loop over the records of one type, and over the types.
  unfoldable pub list_aliases : Option Text → List Named → List Text
  list_aliases match [] = []
  list_aliases match (r ∷ records) =
      let rest = list_aliases match records in
      if not r.is_alias then rest else if alias_accepted match r then alias_line r ∷ rest else rest

  -- `dbla`, over the record types of the database.
  unfoldable pub dbla : Option Text → List (List Named) → List Text
  unfolding list_aliases
  dbla match [] = []
  dbla match (records ∷ types) = list_aliases match records ++ dbla match types
