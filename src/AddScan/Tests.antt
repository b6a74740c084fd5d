-- ===== src/AddScan/Tests.antt =====
-- The theorem about addScan.c at concrete rates: whole numbers of seconds stand for `double`.
use iocsh_utilities.Base.{
  ℕ, ◌+◌, ◌*◌, ◌-◌, ◌==◌, ==_refl, ltb, leb, if◌then◌else◌, ◌≡◌, refl, Bool, true, false, ◌&&◌,
  none, some, List, [], ◌∷◌, ◌++◌, Text, codes, arith,
}
use iocsh_utilities.AddScan.{
  Rates, Choice, skip_zeros, new_choice, changed, available, insert_rate, insert_from, add_scan,
}
use iocsh_utilities.AddScan.Order.{Scanned, add_scan-Scanned}

abbrev is_digit : ℕ → Bool
is_digit c = leb b'0' c && leb c b'9'

-- The number at the front of a text, and whether it is the whole text.
abbrev number_at : ℕ → Text → ℕ
number_at acc [] = acc
number_at acc (c ∷ s) = if is_digit c then number_at (10 * acc + (c - b'0')) s else acc

abbrev all_digits : Text → Bool
all_digits [] = true
all_digits (c ∷ s) = is_digit c && all_digits s

ltb-connected : (a b : ℕ) → (a == b) ≡ false → ltb a b ≡ false → ltb b a ≡ true
ltb-connected a b e l = ground arith

abbrev seconds : Rates
seconds = record {
  Rate = ℕ;
  strtod = number_at 0;
  scan_rate = λ s. if all_digits s then some (number_at 0 s) else none;
  not_positive = λ r. r == 0;
  eq = ◌==◌;
  lt = ltb;
  is_number = λ r. true;
  eq_refl = λ a h. ==_refl a;
  connected = λ a b h k e l. ltb-connected a b e l;
}

abbrev skipped : List Choice
skipped = (some (codes "menuScanPassive"), codes "Passive") ∷ []

abbrev periodic : List Choice
periodic =
    (some (codes "menuScan10_second"), codes "10 second")
    ∷ (some (codes "menuScan1_second"), codes "1 second")
    ∷ []

adds_5 :
    add_scan seconds 1 false (some (codes "05")) (skipped ++ periodic)
    ≡ changed (
        (some (codes "menuScanPassive"), codes "Passive")
        ∷ (some (codes "menuScan10_second"), codes "10 second")
        ∷ (none, codes "5 second")
        ∷ (some (codes "menuScan1_second"), codes "1 second")
        ∷ [])
unfolding add_scan insert_from insert_rate new_choice skip_zeros
adds_5 = refl

-- A rate that is there, behind a bigger one.
finds_1 : add_scan seconds 1 false (some (codes "1")) (skipped ++ periodic) ≡ available
unfolding add_scan insert_from insert_rate new_choice skip_zeros
finds_1 = refl

add_scan-Scanned_example :
    Scanned seconds
      (codes "05")
      5
      refl
      refl
      skipped
      periodic
      (add_scan seconds 1 false (some (codes "05")) (skipped ++ periodic))
unfolding new_choice skip_zeros
add_scan-Scanned_example =
    add_scan-Scanned seconds (codes "05") 5 refl refl skipped periodic refl refl (refl, (refl, tt))
      (refl, tt)
