-- ===== src/Dbll/Tests.antt =====
-- The theorems about dbll.c at concrete patterns and filters, and a run of `dbll`.
use iocsh_utilities.Base.{◌≡◌, refl, ◌↔◌, Bool, true, false, none, some, List, [], ◌∷◌, Text, codes}
use mathlib.Core.List.{cons≢nil, tail-eq_of_cons-eq}
use iocsh_utilities.Glob.{Outcome, answer, match}
use iocsh_utilities.Glob.Relation.{Matches}
use iocsh_utilities.Glob.Decides.{match-Matches}
use iocsh_utilities.Dbll.{Entry, db_link, ca_link, inlink, outlink, read_query, accepts, dbll}
use iocsh_utilities.Dbll.Pattern.{is_default, accepts-record, accepts-field}

abbrev is_true : Outcome → Bool
is_true (answer b) = b
is_true _ = false

-- A concrete glob matching.
abbrev glob : Text → Text → Bool
glob s p = is_true (match s p)

glob_iff : (s p : Text) → (glob s p ≡ true) ↔ Matches p s
glob_iff s p = let (b, e, q) = match-Matches s p in rw e q

accepts-record_example :
    ((accepts glob (read_query (some (codes "a*"))) (codes "abc") ≡ true)
      ↔ Matches (codes "a*") (codes "abc"))
    × ((accepts glob (read_query (some (codes "a*"))) (codes "abc.INP") ≡ true)
        ↔ Matches (codes "a*") (codes "abc"))
accepts-record_example =
    accepts-record glob glob_iff (codes "a*") (codes "abc") (codes "INP") refl refl refl cons≢nil
      (λ e. cons≢nil (tail-eq_of_cons-eq e))

accepts-field_example :
    ((accepts glob (read_query (some (codes "a*.VAL"))) (codes "abc.INP") ≡ true)
      ↔ (Matches (codes "a*") (codes "abc") × Matches (codes "VAL") (codes "INP")))
    × ((accepts glob (read_query (some (codes "a*.VAL"))) (codes "abc") ≡ true)
        ↔ ((is_default (codes "VAL") ≡ true) × Matches (codes "a*") (codes "abc")))
accepts-field_example =
    accepts-field glob glob_iff (codes "a*") (codes "VAL") (codes "abc") (codes "INP") refl refl
      refl

abbrev two_records : List Entry
two_records =
    record {
      name = codes "abc";
      is_alias = false;
      links =
          record {
            field = codes "INP";
            target = some (codes "x.VAL");
            link_type = db_link;
            field_type = inlink;
            opt_pp = true;
            text = codes "x.VAL PP";
          }
          ∷ record {
            field = codes "OUT";
            target = some (codes "y");
            link_type = ca_link;
            field_type = outlink;
            opt_pp = false;
            text = codes "y CA";
          }
          ∷ [];
    }
    ∷ record { name = codes "def"; is_alias = true; links = [] }
    ∷ []

links_to_x : dbll glob (some (codes "x")) none two_records ≡ codes "abc.INP <=p x.VAL PP" ∷ []
unfolding dbll match
links_to_x = refl
