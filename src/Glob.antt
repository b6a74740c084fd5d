-- ===== src/Glob.antt =====
-- ifEnvSet.c, function `match`: glob matching with `*` and `?` by going back to the last star.
-- `str`, `pattern`, `mp` and `cp` are the rests of the texts that they point into; a pointer that
-- is NULL, or that stands past the terminating NUL, is `none`, and reading through it is a fault.
pub mod Relation
pub mod Decides
pub mod Append
mod Tests
use iocsh_utilities.Base.{
  ℕ, zero, suc, ◌+◌, ◌*◌, Bool, true, false, ◌||◌, Option, none, some, List, [], ◌∷◌, Text, length,
  ◌==◌, if◌then◌else◌,
}

abbrev pub star : ℕ
star = b'*'

abbrev pub question : ℕ
question = b'?'

-- `*pattern == *str || *pattern == '?'`.
pub fits : ℕ → ℕ → Bool
fits q c = q == c || q == question

-- The end of a run. `fault` is a read through a bad pointer, `no_fuel` belongs to the model only.
pub data Outcome : Type 0 where
  answer : Bool → Outcome
  fault : Outcome
  no_fuel : Outcome

-- The first loop. `none` is its `return 0`.
pub skip_plain : Text → Text → Option (Text × Text)
skip_plain [] pattern = some ([], pattern)
skip_plain (c ∷ str) [] = none
skip_plain (c ∷ str) (q ∷ pattern) =
    if q == star
    then some (c ∷ str, q ∷ pattern)
    else if fits q c
    then skip_plain str pattern
    else none

-- The last loop and the final test.
pub only_stars : Text → Bool
only_stars [] = true
only_stars (q ∷ pattern) = if q == star then only_stars pattern else false

-- `p + 1` for a pointer `p` that does not stand behind the NUL.
pub advance : Text → Option Text
advance [] = none
advance (_ ∷ s) = some s

abbrev pub Round : Type 0
Round = Text → Text → Option Text → Option Text → Outcome

-- `pattern = mp; str = cp++;`, and the next round.
pub resume : Option Text → Option Text → Round → Outcome
resume (some mp) (some str) next = next str mp (some mp) (advance str)
resume none _ next = fault
resume (some mp) none next = fault

-- The branch for a star: `if (!*++pattern) return 1; mp = pattern; cp = str + 1;`.
pub enter_star : Text → Text → Option Text → Round → Outcome
enter_star str [] cp next = answer true
enter_star str (q ∷ p) cp next = next str (q ∷ p) (some (q ∷ p)) cp

-- The second loop.
pub scan : ℕ → Round
scan zero str pattern mp cp = no_fuel
scan (suc fuel) [] pattern mp cp = answer (only_stars pattern)
scan (suc fuel) (c ∷ str) [] mp cp = resume mp cp (scan fuel)
scan (suc fuel) (c ∷ str) (q ∷ pattern) mp cp =
    let onward = scan fuel str pattern mp cp in
    if q == star
    then enter_star (c ∷ str) pattern (some str) (scan fuel)
    else if fits q c
    then onward
    else resume mp cp (scan fuel)

-- More rounds than the second loop can make.
abbrev pub enough : Text → Text → ℕ
enough str pattern = suc ((length str + 1) * (length pattern + 1))

pub after_plain : Option (Text × Text) → Outcome
after_plain none = answer false
after_plain (some (str, pattern)) = scan (enough str pattern) str pattern none none

unfoldable pub match : Text → Text → Outcome
unfolding skip_plain after_plain scan enter_star resume advance only_stars fits
match str pattern = after_plain (skip_plain str pattern)
