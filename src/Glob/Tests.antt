-- ===== src/Glob/Tests.antt =====
-- Runs of the glob matcher, and its theorems at concrete texts.
use iocsh_utilities.Base.{◌≡◌, refl, ◌↔◌, Bool, true, false, codes}
use iocsh_utilities.Glob.{answer, match}
use iocsh_utilities.Glob.Relation.{Matches}
use iocsh_utilities.Glob.Decides.{match-Matches}

backtracks : match (codes "129.129.130.255") (codes "129.*.25?") ≡ answer true
unfolding match
backtracks = refl

last_star_gives_up : match (codes "axbxa") (codes "a*x*b") ≡ answer false
unfolding match
last_star_gives_up = refl

match-Matches_example :
    (b : Bool) × (match (codes "a.tt") (codes "*.t?") ≡ answer b)
    × ((b ≡ true) ↔ Matches (codes "*.t?") (codes "a.tt"))
match-Matches_example = match-Matches (codes "a.tt") (codes "*.t?")
