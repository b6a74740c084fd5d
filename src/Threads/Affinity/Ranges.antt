-- ===== src/Threads/Affinity/Ranges.antt =====
-- The printed list is a list of ranges, which hold exactly the members of the set.
use iocsh_utilities.Base.{
  ℕ, zero, suc, ◌+◌, ◌-◌, ◌≤◌, ◌<◌, ltb, leb, if◌then◌else◌, ◌≡◌, refl, sym, ap, Bool, false, ◌&&◌,
  ◌||◌, List, [], ◌∷◌, ◌++◌, Text, arith, Bool-cases, inl, inr,
}
use iocsh_utilities.Threads.Affinity.{
  CpuSet, decimal, First, fresh, closed, opened, close_run, open_run, print_loop,
  print_affinity_list,
}

abbrev pub Ranges : Type 0
Ranges = List (ℕ × ℕ)

-- The end of a range, which is left out where the range is one number.
abbrev pub upto_text : ℕ → ℕ → Text
upto_text a b = if ltb a b then b'-' ∷ decimal b else []

abbrev pub more_text : Ranges → Text
more_text [] = []
more_text ((a, b) ∷ rs) = b',' ∷ (decimal a ++ (upto_text a b ++ more_text rs))

abbrev pub ranges_text : Ranges → Text
ranges_text [] = []
ranges_text ((a, b) ∷ rs) = decimal a ++ (upto_text a b ++ more_text rs)

-- What is left to print of the ranges once the start of the first is printed.
abbrev rest_text : Ranges → Text
rest_text [] = []
rest_text ((a, b) ∷ rs) = upto_text a b ++ more_text rs

abbrev pub covers : Ranges → ℕ → Bool
covers [] i = false
covers ((a, b) ∷ rs) i = (leb a i && leb i b) || covers rs i

abbrev ended : First → ℕ → Ranges → Ranges
ended (opened f) cpu rs = (f, cpu - 1) ∷ rs
ended fresh cpu rs = rs
ended closed cpu rs = rs

module _ (size : ℕ) where
  abbrev pub AllBelow : Ranges → Type 0
  AllBelow [] = Unit {0}
  AllBelow ((a, b) ∷ rs) = (a ≤ b) × (b < size) × AllBelow rs

  -- The ranges that the printer goes through, from the same loop.
  pub ranges : ℕ → ℕ → First → CpuSet → Ranges
  ranges zero cpu first set = []
  ranges (suc rounds) cpu first set =
      let inside = ranges rounds (cpu + 1) (open_run first cpu).1 set in
      let outside = ranges rounds (cpu + 1) (close_run first cpu).1 set in
      if ltb cpu size && set cpu then inside else ended first cpu outside

  -- The texts that the three states still owe.
  abbrev owes : First → Ranges → Text
  owes fresh rs = ranges_text rs
  owes closed rs = more_text rs
  owes (opened f) rs = rest_text rs

  -- The run that is open is the first range.
  abbrev Opens : First → Ranges → Type 0
  Opens (opened f) [] = ⊥
  Opens (opened f) ((a, b) ∷ rs) = a ≡ f
  Opens fresh rs = Unit {0}
  Opens closed rs = Unit {0}

  ranges-Opens :
      (rounds cpu : ℕ) (first : First) (set : CpuSet)
      → cpu + rounds ≡ size + 1
      → cpu ≤ size
      → Opens first (ranges rounds cpu first set)
  unfolding ranges open_run close_run
  ranges-Opens zero cpu first set e h = absurd (omega arith)
  ranges-Opens (suc r) cpu (opened f) set e h = elim (Bool-cases (ltb cpu size && set cpu)) [
    | inl k ↦ rw k (ranges-Opens r (cpu + 1) (opened f) set (omega arith) (ground arith))
    | inr k ↦ rw k refl
  ]
  ranges-Opens (suc r) cpu fresh set e h = tt
  ranges-Opens (suc r) cpu closed set e h = tt

  rest_text-opened :
      (f : ℕ) (rs : Ranges)
      → Opens (opened f) rs
      → (ranges_text rs ≡ decimal f ++ rest_text rs)
        × (more_text rs ≡ b',' ∷ (decimal f ++ rest_text rs))
  rest_text-opened f [] o = absurd o
  rest_text-opened f ((a, b) ∷ rs) o = (
    ap (λ k. decimal k ++ (upto_text a b ++ more_text rs)) o,
    ap (λ k. b',' ∷ (decimal k ++ (upto_text a b ++ more_text rs))) o,
  )

  print_loop-ranges :
      (rounds cpu : ℕ) (first : First) (set : CpuSet)
      → cpu + rounds ≡ size + 1
      → print_loop size rounds cpu first set ≡ owes first (ranges rounds cpu first set)
  unfolding print_loop ranges open_run close_run
  print_loop-ranges zero cpu fresh set e = refl
  print_loop-ranges zero cpu closed set e = refl
  print_loop-ranges zero cpu (opened f) set e = refl
  print_loop-ranges (suc r) cpu fresh set e = elim (Bool-cases (ltb cpu size && set cpu)) [
    | inl k ↦
        rw (k, print_loop-ranges r (cpu + 1) (opened cpu) set (omega arith))
          (sym
            (rest_text-opened cpu _
              (ranges-Opens r (cpu + 1) (opened cpu) set (omega arith) (ground arith))).0)
    | inr k ↦ rw k (print_loop-ranges r (cpu + 1) fresh set (omega arith))
  ]
  print_loop-ranges (suc r) cpu closed set e = elim (Bool-cases (ltb cpu size && set cpu)) [
    | inl k ↦
        rw (k, print_loop-ranges r (cpu + 1) (opened cpu) set (omega arith))
          (sym
            (rest_text-opened cpu _
              (ranges-Opens r (cpu + 1) (opened cpu) set (omega arith) (ground arith))).1)
    | inr k ↦ rw k (print_loop-ranges r (cpu + 1) closed set (omega arith))
  ]
  print_loop-ranges (suc r) cpu (opened f) set e = elim (Bool-cases (ltb cpu size && set cpu)) [
    | inl k ↦ rw k (print_loop-ranges r (cpu + 1) (opened f) set (omega arith))
    | inr k ↦ rw k (
        ap (λ t. upto_text f (cpu - 1) ++ t)
          (print_loop-ranges r (cpu + 1) closed set (omega arith)))
  ]

  abbrev pub runs : CpuSet → Ranges
  runs = ranges (size + 1) 0 fresh

  pub print_affinity_list-runs :
      (set : CpuSet) → print_affinity_list size set ≡ ranges_text (runs set)
  unfolding print_affinity_list
  print_affinity_list-runs set = print_loop-ranges (size + 1) 0 fresh set (omega arith)

  -- The members that are still to come, and those of the run that is open.
  abbrev pending : First → ℕ → CpuSet → ℕ → Bool
  pending (opened f) cpu set i = (leb f i && ltb i cpu) || (leb cpu i && ltb i size && set i)
  pending fresh cpu set i = leb cpu i && ltb i size && set i
  pending closed cpu set i = leb cpu i && ltb i size && set i

  -- A run that is open has begun before `cpu`.
  abbrev Started : First → ℕ → Type 0
  Started (opened f) cpu = (f < cpu) × (cpu ≤ size)
  Started fresh cpu = Unit {0}
  Started closed cpu = Unit {0}

  covers-ranges :
      (rounds cpu : ℕ) (first : First) (set : CpuSet) (i : ℕ)
      → cpu + rounds ≡ size + 1
      → Started first cpu
      → covers (ranges rounds cpu first set) i ≡ pending first cpu set i
  unfolding ranges open_run close_run
  covers-ranges zero cpu fresh set i e s = ground arith
  covers-ranges zero cpu closed set i e s = ground arith
  covers-ranges zero cpu (opened f) set i e s = absurd (omega arith)
  covers-ranges (suc r) cpu fresh set i e s = elim (Bool-cases (ltb cpu size && set cpu)) [
    | inl k ↦ rw k (ground (arith, covers-ranges r (cpu + 1) (opened cpu) set i))
    | inr k ↦ rw k (ground (arith, covers-ranges r (cpu + 1) fresh set i))
  ]
  covers-ranges (suc r) cpu closed set i e s = elim (Bool-cases (ltb cpu size && set cpu)) [
    | inl k ↦ rw k (ground (arith, covers-ranges r (cpu + 1) (opened cpu) set i))
    | inr k ↦ rw k (ground (arith, covers-ranges r (cpu + 1) closed set i))
  ]
  covers-ranges (suc r) cpu (opened f) set i e s = elim (Bool-cases (ltb cpu size && set cpu)) [
    | inl k ↦ rw k (ground (arith, covers-ranges r (cpu + 1) (opened f) set i))
    | inr k ↦ rw k (ground (arith, covers-ranges r (cpu + 1) closed set i))
  ]

  -- The printed ranges hold the members of the set below CPU_SETSIZE and nothing else.
  pub covers-runs : (set : CpuSet) (i : ℕ) → covers (runs set) i ≡ (ltb i size && set i)
  covers-runs set i = ground (arith, covers-ranges (size + 1) 0 fresh set i)

  AllBelow-ranges :
      (rounds cpu : ℕ) (first : First) (set : CpuSet)
      → cpu + rounds ≡ size + 1
      → Started first cpu
      → AllBelow (ranges rounds cpu first set)
  unfolding ranges open_run close_run
  AllBelow-ranges zero cpu first set e s = tt
  AllBelow-ranges (suc r) cpu fresh set e s = elim (Bool-cases (ltb cpu size && set cpu)) [
    | inl k ↦ rw k (AllBelow-ranges r (cpu + 1) (opened cpu) set (omega arith) (ground arith))
    | inr k ↦ rw k (AllBelow-ranges r (cpu + 1) fresh set (omega arith) tt)
  ]
  AllBelow-ranges (suc r) cpu closed set e s = elim (Bool-cases (ltb cpu size && set cpu)) [
    | inl k ↦ rw k (AllBelow-ranges r (cpu + 1) (opened cpu) set (omega arith) (ground arith))
    | inr k ↦ rw k (AllBelow-ranges r (cpu + 1) closed set (omega arith) tt)
  ]
  AllBelow-ranges (suc r) cpu (opened f) set e s = elim (Bool-cases (ltb cpu size && set cpu)) [
    | inl k ↦ rw k (AllBelow-ranges r (cpu + 1) (opened f) set (omega arith) (ground arith))
    | inr k ↦
        rw k (omega arith, omega arith, AllBelow-ranges r (cpu + 1) closed set (omega arith) tt)
  ]

  pub runs-AllBelow : (set : CpuSet) → AllBelow (runs set)
  runs-AllBelow set = AllBelow-ranges (size + 1) 0 fresh set (omega arith) tt
