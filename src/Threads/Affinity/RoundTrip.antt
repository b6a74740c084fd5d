-- ===== src/Threads/Affinity/RoundTrip.antt =====
-- The parser reads back what the printer prints.
use iocsh_utilities.Base.{
  ℕ, ◌^◌, ◌≤◌, ◌<◌, ltb, ◌≡◌, refl, ◌∙◌, ap, true, false, ◌&&◌, none, [], ◌∷◌, ◌++◌, length,
  length-append, arith,
}
use mathlib.Core.Path.{fun_ext}
use iocsh_utilities.Threads.Affinity.{
  CpuSet, decimal, start, parsed, parse_affinity_list, print_affinity_list,
}
use iocsh_utilities.Threads.Affinity.Ranges.{
  Ranges, upto_text, more_text, ranges_text, covers, AllBelow, runs, print_affinity_list-runs,
  covers-runs, runs-AllBelow,
}
use iocsh_utilities.Threads.Affinity.Parse.{number_front, paint, paint-covers, parse_loop-ranges}

length-more_text : (rs : Ranges) → length rs ≤ length (more_text rs)
length-more_text [] = omega arith
length-more_text ((a, b) ∷ rs) = omega (
  arith,
  length-append (decimal a) (upto_text a b ++ more_text rs),
  length-append (upto_text a b) (more_text rs),
  length-more_text rs,
)

length-range :
    (a b : ℕ) (rs : Ranges) → length rs ≤ length (decimal a ++ (upto_text a b ++ more_text rs))
length-range a b rs = omega (
  arith,
  length-append (decimal a) (upto_text a b ++ more_text rs),
  length-append (upto_text a b) (more_text rs),
  length-more_text rs,
)

module _ (size : ℕ) where
  parse-ranges :
      (a b : ℕ) (rs : Ranges) (old : CpuSet)
      → size ≤ 2 ^ 32
      → AllBelow size ((a, b) ∷ rs)
      → parse_affinity_list size (ranges_text ((a, b) ∷ rs)) old
        ≡ parsed (paint size ((a, b) ∷ rs) (λ _. false)) []
  unfolding parse_affinity_list start
  parse-ranges a b rs old big all =
      rw ((number_front a (upto_text a b ++ more_text rs)).2, start)
        (parse_loop-ranges size _
          (record {
            sign = 0;
            first = none;
            set = λ _. false;
            rest = decimal a ++ (upto_text a b ++ more_text rs);
          })
          a b rs (omega (arith, length-range a b rs)) big refl refl all)

  parse-ranges_text :
      (rs : Ranges) (set old : CpuSet) (m : ℕ)
      → size ≤ 2 ^ 32
      → AllBelow size rs
      → ((i : ℕ) → covers rs i ≡ (ltb i size && set i))
      → m < size
      → set m ≡ true
      → parse_affinity_list size (ranges_text rs) old ≡ parsed (λ i. ltb i size && set i) []
  parse-ranges_text [] set old m big all c h member = absurd (ground (arith, c m))
  parse-ranges_text ((a, b) ∷ rs) set old m big all c h member =
      parse-ranges a b rs old big all ∙ ap (λ s. parsed s []) (fun_ext λ i. same i)
    where
      same : (i : ℕ) → paint size ((a, b) ∷ rs) (λ _. false) i ≡ (ltb i size && set i)
      same i = ground (arith, paint-covers size ((a, b) ∷ rs) (λ _. false) i all, c i)

  -- For at most 2^32 processors and a set with a member below CPU_SETSIZE: what is printed for the
  -- set is parsed, whatever the set was before, as the members of the set below CPU_SETSIZE and no
  -- others, with no rubbish left behind the list and no variable read before it is set.
  pub parse-print_affinity_list :
      (set old : CpuSet) (m : ℕ)
      → size ≤ 2 ^ 32
      → m < size
      → set m ≡ true
      → parse_affinity_list size (print_affinity_list size set) old
        ≡ parsed (λ i. ltb i size && set i) []
  parse-print_affinity_list set old m big h member = rw (print_affinity_list-runs size set) (
      parse-ranges_text (runs size set) set old m big (runs-AllBelow size set)
        (covers-runs size set) h member)
