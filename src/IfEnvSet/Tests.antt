-- ===== src/IfEnvSet/Tests.antt =====
-- Runs of `ifEnvSet`, and its theorems at concrete calls.
use iocsh_utilities.Base.{
  ◌≡◌, refl, ◌↔◌, ◌⊎◌, Bool, true, false, none, some, [], ◌∷◌, codes, text_eq,
}
use iocsh_utilities.Clib.{strtol}
use iocsh_utilities.Glob.{match}
use iocsh_utilities.Glob.Relation.{Matches}
use iocsh_utilities.Environ.{putenv, epics_env_unset}
use iocsh_utilities.Environ.Tests.{putting}
use iocsh_utilities.IfEnvSet.{assigned, unassigned, needs_numbers, are_numbers, if_env_set}
use iocsh_utilities.IfEnvSet.Condition.{above, below, same, spell, compares, negated}
use iocsh_utilities.IfEnvSet.Judge.{SameNumber}
use iocsh_utilities.IfEnvSet.Results.{if_env_set_numbers, if_env_set_texts, if_env_set_glob}
use iocsh_utilities.IfEnvSet.Effects.{Leaves, if_env_set-Leaves}

sets_on_match :
    if_env_set putenv
      (some (codes "129.129.1.2"))
      (some (codes "~129.129.*"))
      (some (codes "A"))
      (some (codes "x"))
      none
      []
    ≡ record {
      result = true;
      env = (codes "A", codes "x") ∷ [];
      notice = assigned (codes "A") (codes "x");
    }
unfolding if_env_set match strtol putenv
sets_on_match = refl

unsets_without_value :
    if_env_set putenv
      (some (codes "0x10"))
      (some (codes "!<16"))
      (some (codes "A"))
      none
      none
      ((codes "A", codes "x") ∷ [])
    ≡ record { result = true; env = []; notice = unassigned (codes "A") }
unfolding if_env_set match strtol epics_env_unset
unsets_without_value = refl

-- An empty argument is the number 0 for the code, since `strtol` stops at its end.
empty_is_zero : (if_env_set putenv (some []) (some (codes "<5")) none none none []).result ≡ true
unfolding if_env_set match strtol
empty_is_zero = refl

if_env_set_numbers_example :
    (if_env_set putenv
      (some (codes "12"))
      (some (spell 1 (below ∷ same ∷ []) (codes "0x0c")))
      none
      none
      none
      []).result
    ≡ negated 1 (compares (below ∷ same ∷ []) (strtol (codes "12")).0 (strtol (codes "0x0c")).0)
unfolding are_numbers strtol
if_env_set_numbers_example =
    if_env_set_numbers putenv 1 (below ∷ same ∷ []) (codes "12") (codes "0x0c") none none none []
      refl refl

if_env_set_texts_example :
    (true ≡ true
      → if_env_set putenv
          (some (codes "ab"))
          (some (spell 1 (above ∷ []) (codes "aa")))
          none
          none
          none
          []
        ≡ record { result = false; env = []; notice = needs_numbers })
    × (true ≡ false
        → (if_env_set putenv
            (some (codes "ab"))
            (some (spell 1 (above ∷ []) (codes "aa")))
            none
            none
            none
            []).result
          ≡ negated 1 (text_eq (codes "ab") (codes "aa")))
unfolding are_numbers strtol
if_env_set_texts_example =
    if_env_set_texts putenv 1 (above ∷ []) (codes "ab") (codes "aa") none none none [] refl refl

if_env_set_glob_example :
    (b : Bool) × ((if_env_set putenv
        (some (codes "abc"))
        (some (codes "!~a*"))
        none
        none
        none
        []).result
      ≡ negated 1 b)
    × ((b ≡ true) ↔ (Matches (codes "a*") (codes "abc") ⊎ SameNumber (codes "abc") (codes "a*")))
if_env_set_glob_example = if_env_set_glob putenv 1 (codes "abc") (codes "a*") none none none []

if_env_set-Leaves_example : Leaves (codes "A") (some (codes "x")) none [] (
    if_env_set putting.set
      (some (codes "3"))
      (some (codes ">2"))
      (some (codes "A"))
      (some (codes "x"))
      none
      [])
if_env_set-Leaves_example =
    if_env_set-Leaves putting (codes "3") (codes ">2") (codes "A") (some (codes "x")) none []
