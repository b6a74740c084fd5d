-- ===== src/Dbli/Tests.antt =====
-- dbli.c and dbla.c on a database of two record types: the theorem and some runs.
use iocsh_utilities.Base.{
  ◌≡◌, refl, ap, true, false, none, some, List, [], ◌∷◌, map, Text, codes, text_eq, arith,
}
use iocsh_utilities.Dbli.{Info, line, Entry, accepted, dblilist, dbla}
use iocsh_utilities.Dbli.Places.{
  concat, tail, has_some, View, in_type, in_record, at_info, EntryLaws,
}
use iocsh_utilities.Dbli.Pending.{keep, dblilist-matching}

abbrev item : Text → Text → Info
item r n = record { record_name = r; name = n; value = codes "v"; pointer = none }

-- Each type has one record.
abbrev db : List (List (List Info))
db =
    ((item (codes "r") (codes "n") ∷ []) ∷ [])
    ∷ ((item (codes "s") (codes "m") ∷ item (codes "s") (codes "n") ∷ []) ∷ [])
    ∷ []

abbrev State : Type 0
State = View × Info

abbrev first_of : Info → List Info → Info
first_of i [] = i
first_of i (j ∷ is) = j

abbrev entry : Entry
entry = record {
  State = State;
  has_record_type = λ e. e.0.has_type;
  first_record_type = λ e. (has_some db, (in_type db, e.1));
  next_record_type = λ e. (has_some e.0.types, (in_type e.0.types, e.1));
  first_record = λ e. (has_some e.0.of_type, (in_record e.0.of_type e.0, e.1));
  next_record = λ e. (has_some e.0.records, (in_record e.0.records e.0, e.1));
  first_info =
      λ e. (has_some e.0.of_record, (at_info e.0.of_record e.0, first_of e.1 e.0.of_record));
  next_info = λ e. (has_some e.0.infos, (at_info e.0.infos e.0, first_of e.1 e.0.infos));
  info = λ e. e.1;
}

abbrev laws : EntryLaws entry db
laws = record {
  view = λ e. e.0;
  has_type-view = λ e. refl;
  first_type-ok = λ e. refl;
  first_type-view = λ e. refl;
  next_type-ok = λ e. refl;
  next_type-view = λ e. refl;
  first_record-ok = λ e. refl;
  first_record-view = λ e. refl;
  next_record-ok = λ e. refl;
  next_record-view = λ e. refl;
  first_info-ok = λ e. refl;
  first_info-view = λ e. refl;
  first_info-info = λ e i is h. ap (first_of e.1) h;
  next_info-ok = λ e. refl;
  next_info-view = λ e. refl;
  next_info-info = λ e i is h. ap (first_of e.1) h;
}

abbrev fresh : State
fresh = (in_type [], item [] [])

abbrev patterns : List Text
patterns = codes "n" ∷ []

dblilist-matching_example :
    dblilist entry text_eq patterns 4 fresh
    ≡ some (map line (keep (accepted text_eq patterns) (concat (concat (tail db)))))
dblilist-matching_example =
    dblilist-matching entry db laws 4 text_eq patterns fresh refl (omega arith) (omega arith)
      (omega arith)

-- `r.n` of the first record type is missing.
listed : dblilist entry text_eq patterns 4 fresh ≡ some (codes "s.n \"v\"" ∷ [])
unfolding dblilist
listed = refl

aliases :
    dbla text_eq (some (codes "x")) (
      (record { record_name = codes "y"; real_name = codes "x"; is_alias = true }
        ∷ record { record_name = codes "x"; real_name = codes "x"; is_alias = false }
        ∷ [])
      ∷ [])
    ≡ codes "y -> x" ∷ []
unfolding dbla
aliases = refl
