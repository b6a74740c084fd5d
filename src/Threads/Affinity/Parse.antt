-- ===== src/Threads/Affinity/Parse.antt =====
-- What the parser makes of a list of ranges.
use iocsh_utilities.Base.{
  ℕ, zero, suc, ◌+◌, ◌-◌, ◌^◌, ◌≤◌, ◌<◌, ◌==◌, ltb, leb, if◌then◌else◌, ◌≡◌, refl, ◌∙◌, ap, Bool,
  true, false, ◌&&◌, ◌||◌, some, [], ◌∷◌, ◌++◌, Text, length, arith, Bool-cases, inl, inr,
}
use iocsh_utilities.Clib.{is_space, skip_space}
use iocsh_utilities.Threads.Affinity.{
  CpuSet, assign, decimal, miss, hit, skip_bytes, is_separator, scan_signs, scan_separators,
  scan_unsigned, scan_upto, last_of, State, parsed, range_loop, read_range, take_signs, take_range,
  parse_loop,
}
use iocsh_utilities.Threads.Affinity.Decimal.{ends_number, scan_unsigned-decimal, decimal-cons}
use iocsh_utilities.Threads.Affinity.Ranges.{Ranges, upto_text, more_text, covers, AllBelow}

-- A number at the front stops every scan for spaces, separators and signs.
pub number_front :
    (a : ℕ) (s : Text)
    → (skip_space (decimal a ++ s) ≡ decimal a ++ s)
      × (skip_bytes is_separator (decimal a ++ s) ≡ decimal a ++ s)
      × (scan_signs (decimal a ++ s) ≡ miss)
unfolding skip_space is_space skip_bytes scan_signs
number_front a s =
    let (c, ds, e, lo, hi) = decimal-cons a in rw e (ground arith, ground arith, ground arith)

more_text-front :
    (rs : Ranges) → (ends_number (more_text rs) ≡ true) × (skip_space (more_text rs) ≡ more_text rs)
unfolding skip_space is_space
more_text-front [] = (refl, refl)
more_text-front ((a, b) ∷ rs) = (refl, refl)

upto_text-front :
    (a b : ℕ) (rs : Ranges)
    → (ends_number (upto_text a b ++ more_text rs) ≡ true)
      × (skip_space (upto_text a b ++ more_text rs) ≡ upto_text a b ++ more_text rs)
unfolding skip_space is_space
upto_text-front a b rs = elim (Bool-cases (ltb a b)) [
  | inl k ↦ rw k (refl, refl)
  | inr k ↦ rw k (more_text-front rs)
]

-- Behind the start of a range its end is read, or is the start.
scan_upto-range :
    (a b : ℕ) (rs : Ranges)
    → a ≤ b
    → b < 2 ^ 32
    → last_of (scan_upto (upto_text a b ++ more_text rs)) a (upto_text a b ++ more_text rs)
      ≡ (b, more_text rs)
unfolding scan_upto
scan_upto-range a b rs h small = elim (Bool-cases (ltb a b)) [
  | inl k ↦ rw (
    k,
    scan_upto,
    scan_unsigned-decimal b (more_text rs) small (more_text-front rs).0,
    (more_text-front rs).1,
  )
  | inr k ↦ rw k (single (ground arith) rs)
]
  where
    single :
        a ≡ b
        → (rs : Ranges) → last_of (scan_upto (more_text rs)) a (more_text rs) ≡ (b, more_text rs)
    single e [] = ground arith
    single e ((c, d) ∷ rs) = ground arith

take_signs-none : (st : State) → scan_signs st.rest ≡ miss → take_signs st ≡ st
unfolding take_signs
take_signs-none st e = rw (e, take_signs)

-- A number is read at the front of a range.
scan_unsigned-range :
    (a b : ℕ) (rs : Ranges)
    → a < 2 ^ 32
    → scan_unsigned (decimal a ++ (upto_text a b ++ more_text rs))
      ≡ hit a (upto_text a b ++ more_text rs)
scan_unsigned-range a b rs h =
    let (ends, front) = upto_text-front a b rs in
    scan_unsigned-decimal a (upto_text a b ++ more_text rs) h ends ∙ ap (hit a) front

module _ (size : ℕ) where
  -- One round reads one range.
  round :
      (st : State) (a b : ℕ) (rs : Ranges)
      → (st.sign == b'-') ≡ false
      → st.rest ≡ decimal a ++ (upto_text a b ++ more_text rs)
      → a ≤ b
      → b < 2 ^ 32
      → take_range size (take_signs st)
        ≡ some (record {
          sign = st.sign;
          first = some a;
          set = range_loop size (size - a) true a b st.set;
          rest = more_text rs;
        })
  unfolding take_range take_signs read_range
  round st a b rs plus e h small =
      rw (take_signs-none st (rw e (number_front a (upto_text a b ++ more_text rs)).2)) (
        ground (arith, e, scan_unsigned-range a b rs (omega arith), scan_upto-range a b rs h small))

  -- The sets after each range of a list.
  pub paint : Ranges → CpuSet → CpuSet
  paint [] set = set
  paint ((a, b) ∷ rs) set = paint rs (range_loop size (size - a) true a b set)

  -- A list of ranges without a dash in front adds its ranges one by one, and leaves no rubbish.
  pub parse_loop-ranges :
      (fuel : ℕ) (st : State) (a b : ℕ) (rs : Ranges)
      → length rs < fuel
      → size ≤ 2 ^ 32
      → (st.sign == b'-') ≡ false
      → st.rest ≡ decimal a ++ (upto_text a b ++ more_text rs)
      → AllBelow size ((a, b) ∷ rs)
      → parse_loop size fuel st ≡ parsed (paint ((a, b) ∷ rs) st.set) []
  unfolding parse_loop paint scan_separators
  parse_loop-ranges zero st a b rs f big plus e (h, below, all) = absurd (omega arith)
  parse_loop-ranges (suc fuel) st a b [] f big plus e (h, below, all) =
      rw (parse_loop, round st a b [] plus e h (omega arith))
  parse_loop-ranges (suc fuel) st a b ((c, d) ∷ rs) f big plus e (h, below, all) =
      let (spaces, separators, _) = number_front c (upto_text c d ++ more_text rs) in
      rw (parse_loop, round st a b ((c, d) ∷ rs) plus e h (omega arith), separators, spaces)
        (parse_loop-ranges fuel
          (record {
            sign = st.sign;
            first = some a;
            set = range_loop size (size - a) true a b st.set;
            rest = decimal c ++ (upto_text c d ++ more_text rs);
          })
          c d rs (omega arith) big plus refl all)

  range_loop-closed :
      (rounds : ℕ) (member : Bool) (cpu last : ℕ) (set : CpuSet) (i : ℕ)
      → size ≤ cpu + rounds
      → range_loop size rounds member cpu last set i
        ≡ (if leb cpu i && leb i last && ltb i size then member else set i)
  unfolding range_loop
  range_loop-closed zero m cpu last set i h = ground arith
  range_loop-closed (suc r) m cpu last set i h =
      ground (arith, range_loop-closed r m (cpu + 1) last (assign m cpu set) i)

  pub paint-covers :
      (rs : Ranges) (set : CpuSet) (i : ℕ)
      → AllBelow size rs
      → paint rs set i ≡ (covers rs i || set i)
  unfolding paint
  paint-covers [] set i h = refl
  paint-covers ((a, b) ∷ rs) set i (h, below, all) = ground (
    arith,
    paint-covers rs (range_loop size (size - a) true a b set) i all,
    range_loop-closed (size - a) true a b set i,
  )
