-- ===== src/Threads/Tests.antt =====
-- Runs of the affinity lists and the priorities, and their theorems at concrete inputs.
use iocsh_utilities.Base.{
  ℕ, ◌+◌, ◌-◌, ◌==◌, ◌≤◌, ltb, if◌then◌else◌, ◌≡◌, ◌≢◌, refl, Bool, true, false, ◌&&◌, ◌||◌, some,
  List, [], ◌∷◌, codes, text_eq, arith,
}
use iocsh_utilities.Base.Int.{pos, negsuc}
use iocsh_utilities.Clib.{strtol}
use iocsh_utilities.Threads.Affinity.{
  CpuSet, parsed, unset_first, no_fuel, print_affinity_list, parse_affinity_list,
}
use iocsh_utilities.Threads.Affinity.RoundTrip.{parse-print_affinity_list}
use iocsh_utilities.Threads.Affinity.Ends.{parse_affinity_list-ends, parse_affinity_list-blank}
use iocsh_utilities.Threads.Priority.{Threads, Level, named_priority, str_to_prio}
use iocsh_utilities.Threads.Priority.Shift.{climb, descend, can_descend, str_to_prio_shifts}
use iocsh_utilities.Threads.Priority.Range.{Documented, Allowed, str_to_prio-Allowed}

abbrev evens : CpuSet
evens i = i == 0 || i == 2 || i == 3 || i == 7

prints_ranges : print_affinity_list 8 evens ≡ codes "0,2-3,7"
unfolding print_affinity_list
prints_ranges = refl

-- The members of a parsed set below 6.
members : CpuSet → List Bool
members s = s 0 ∷ s 1 ∷ s 2 ∷ s 3 ∷ s 4 ∷ s 5 ∷ []

removes_range :
    (s : CpuSet) × (parse_affinity_list 6 (codes "-1-2;+5") (λ i. ltb i 4) ≡ parsed s [])
    × (members s ≡ true ∷ false ∷ false ∷ true ∷ false ∷ true ∷ [])
unfolding parse_affinity_list members
removes_range = (_, refl, refl)

parse-print_affinity_list_example :
    parse_affinity_list 8 (print_affinity_list 8 evens) (λ _. true)
    ≡ parsed (λ i. ltb i 8 && evens i) []
parse-print_affinity_list_example =
    parse-print_affinity_list 8 evens (λ _. true) 3 (omega arith) (omega arith) refl

parse_affinity_list-ends_example : parse_affinity_list 8 (codes "+-3,;x") evens ≢ no_fuel
parse_affinity_list-ends_example = parse_affinity_list-ends 8 (codes "+-3,;x") evens

parse_affinity_list-blank_example : parse_affinity_list 8 (codes "  ") evens ≡ unset_first
unfolding parse_affinity_list
parse_affinity_list-blank_example =
    parse_affinity_list-blank 8 (codes "  ") evens (refl, (refl, tt))

-- Levels one apart from 0 to 100, and no other threads.
abbrev levels : Level → ℕ
levels Level.min = 0
levels Level.low = 10
levels Level.medium = 50
levels Level.high = 90
levels Level.ca_server_low = 20
levels Level.ca_server_high = 40
levels Level.scan_low = 60
levels Level.scan_high = 70
levels Level.iocsh = 91
levels Level.base_max = 91

abbrev plain : Threads
plain = record {
  level = levels;
  level_below = λ p. p - 1;
  level_above = λ p. p + 1;
  get_id = λ _. 0;
  get_priority = λ _. 50;
  case_eq = text_eq;
}

plain-Documented : Documented plain
plain-Documented = record {
  levels = levels_in;
  below = λ p h k. omega arith;
  above = λ p h k. omega arith;
  others = λ id. omega arith;
}
  where
    levels_in : (l : Level) → (0 ≤ levels l) × (levels l ≤ 100)
    levels_in Level.min = omega arith
    levels_in _ = omega arith

low_is_eleven : str_to_prio plain (codes "Low") (pos 0) ≡ some 11
unfolding str_to_prio strtol
low_is_eleven = refl

-- Beyond the greatest `int` the difference is negative.
greatest_is_none : str_to_prio plain (codes "Low") (pos 2147483647) ≡ some 10
unfolding str_to_prio strtol
greatest_is_none = refl

str_to_prio_shifts_example :
    (str_to_prio plain (codes "Low") (pos 2) ≡ some (climb plain 3 10))
    × (str_to_prio plain (codes "Low") (negsuc 2)
        ≡ some (
            if can_descend plain 3 10
            then climb plain 1 (descend plain 3 10)
            else descend plain 3 10))
unfolding named_priority strtol
str_to_prio_shifts_example =
    str_to_prio_shifts plain (codes "Low") 10 2 (λ e. cc) refl (omega arith)

str_to_prio-Allowed_example : Allowed plain (str_to_prio plain (codes "High") (pos 30))
str_to_prio-Allowed_example = str_to_prio-Allowed plain plain-Documented (codes "High") (pos 30)
