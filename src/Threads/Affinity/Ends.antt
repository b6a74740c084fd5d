-- ===== src/Threads/Affinity/Ends.antt =====
-- The parser ends for every text, and what it does to a text without a number.
use iocsh_utilities.Base.{
  ℕ, zero, suc, ◌+◌, ◌*◌, ◌≤◌, ◌<◌, ◌==◌, ◌≡◌, ◌≢◌, refl, Bool, true, false, Option, none, some,
  Option-cases, [], ◌∷◌, Text, length, arith, Bool-cases, inl, inr,
}
use mathlib.Core.Path.{subst}
use mathlib.Core.Option.{some-injective}
use native.Mathlib.Nat.{le_refl, le_trans}
use native.Mathlib.Numerals.{add-one}
use iocsh_utilities.Clib.{is_space, skip_space, digit, read_digits}
use iocsh_utilities.Threads.Affinity.{
  CpuSet, Scan, eof, miss, hit, skip_bytes, is_sign, is_separator, signs_at, unsigned_at,
  scan_signs, scan_separators, scan_digits, scan_unsigned, scan_upto, last_of, State, Parsed,
  unset_first, no_fuel, read_range, range_again, range_at, take_signs, take_range, parse_loop,
  after_separators, after_range, start, parse_affinity_list,
}

length-skip_space : (s : Text) → length (skip_space s) ≤ length s
unfolding skip_space
length-skip_space [] = omega arith
length-skip_space (c ∷ s) = ground (arith, length-skip_space s)

length-skip_bytes : (p : ℕ → Bool) (s : Text) → length (skip_bytes p s) ≤ length s
unfolding skip_bytes
length-skip_bytes p [] = omega arith
length-skip_bytes p (c ∷ s) = ground (arith, length-skip_bytes p s)

length-read_digits : (base acc : ℕ) (s : Text) → length (read_digits base acc s).1 ≤ length s
unfolding read_digits
length-read_digits base acc [] = omega arith
length-read_digits base acc (c ∷ s) = elim (Option-cases (digit base c)) [
  | inl e ↦ rw (e, read_digits) (omega arith)
  | inr (v, e) ↦ rw (e, read_digits) (omega (arith, length-read_digits base (acc * base + v) s))
]

-- What a match leaves is no longer than `n`.
abbrev Within : ℕ → Scan → Type 0
Within n (hit c t) = length t ≤ n
Within n _ = Unit {0}

Within-le : {m n : ℕ} (r : Scan) → Within m r → m ≤ n → Within n r
Within-le (hit c t) h k = omega arith
Within-le _ h k = tt

scan_digits-Within : (minus : Bool) (s : Text) → Within (length s) (scan_digits minus s)
unfolding scan_digits
scan_digits-Within minus [] = tt
scan_digits-Within minus (c ∷ s) = elim (Option-cases (digit 10 c)) [
  | inl e ↦ rw (e, scan_digits) tt
  | inr (v, e) ↦
      rw (e, scan_digits)
        (omega (arith, length-skip_space (read_digits 10 v s).1, length-read_digits 10 v s))
]

signs_at-Within : (s : Text) → Within (length s) (signs_at s)
unfolding signs_at
signs_at-Within [] = tt
signs_at-Within (c ∷ s) = ground (arith, length-skip_bytes is_sign s)

scan_signs-Within : (s : Text) → Within (length s) (scan_signs s)
unfolding scan_signs
scan_signs-Within s = Within-le _ (signs_at-Within (skip_space s)) (length-skip_space s)

unsigned_at-Within : (s : Text) → Within (length s) (unsigned_at s)
unfolding unsigned_at
unsigned_at-Within [] = tt
unsigned_at-Within (c ∷ s) = elim (Bool-cases (is_sign c)) [
  | inl e ↦ rw e (Within-le _ (scan_digits-Within (c == b'-') s) (omega arith))
  | inr e ↦ rw e (scan_digits-Within false (c ∷ s))
]

scan_unsigned-Within : (s : Text) → Within (length s) (scan_unsigned s)
unfolding scan_unsigned
scan_unsigned-Within s = Within-le _ (unsigned_at-Within (skip_space s)) (length-skip_space s)

length-last_of :
    (r : Scan) (a : ℕ) (s : Text) → Within (length s) r → length (last_of r a s).1 ≤ length s
length-last_of (hit b t) a s h = h
length-last_of eof a s h = omega arith
length-last_of miss a s h = omega arith

scan_upto-Within : (s : Text) → Within (length s) (scan_upto s)
unfolding scan_upto
scan_upto-Within [] = tt
scan_upto-Within (c ∷ s) = elim (Bool-cases (c == b'-')) [
  | inl e ↦ rw e (Within-le _ (scan_unsigned-Within s) (omega arith))
  | inr e ↦ rw e tt
]

-- A separator is a byte that is read.
scan_separators-lt : (s t : Text) (c : ℕ) → scan_separators s ≡ hit c t → length t < length s
unfolding scan_separators
scan_separators-lt [] t c h = cc
scan_separators-lt (d ∷ s) t c h =
    ground (arith, length-skip_space (skip_bytes is_separator s), length-skip_bytes is_separator s)

length-take_signs : (st : State) → length (take_signs st).rest ≤ length st.rest
unfolding take_signs
length-take_signs st = ground (arith, scan_signs-Within st.rest)

after_separators-ends :
    (r : Scan) (st : State) (next : State → Parsed)
    → ((t : Text) (c : ℕ) → r ≡ hit c t → next (record st { rest = t }) ≢ no_fuel)
    → after_separators r st next ≢ no_fuel
unfolding after_separators
after_separators-ends (hit c t) st next k q = k t c refl q
after_separators-ends eof st next k q = cc
after_separators-ends miss st next k q = cc

after_range-ends :
    (o : Option State) (next : State → Parsed)
    → ((st : State)
        → o ≡ some st
        → (t : Text) (c : ℕ) → scan_separators st.rest ≡ hit c t
        → next (record st { rest = t }) ≢ no_fuel)
    → after_range o next ≢ no_fuel
unfolding after_range
after_range-ends none next k q = cc
after_range-ends (some st) next k q =
    after_separators-ends (scan_separators st.rest) st next (k st refl) q

module _ (size : ℕ) where
  length-read_range :
      (st : State) (a : ℕ) (s : Text) → length (read_range size st a s).rest ≤ length s
  unfolding read_range
  length-read_range st a s = length-last_of (scan_upto s) a s (scan_upto-Within s)

  length-range_again :
      (o : Option ℕ) (st st' : State)
      → range_again size o st ≡ some st'
      → length st'.rest ≤ length st.rest
  unfolding range_again
  length-range_again none st st' h = cc
  length-range_again (some a) st st' h =
      subst (λ s. length s.rest ≤ length st.rest) (some-injective _ _ h)
        (length-read_range st a st.rest)

  length-range_at :
      (r : Scan) (st st' : State)
      → Within (length st.rest) r
      → range_at size r st ≡ some st'
      → length st'.rest ≤ length st.rest
  unfolding range_at
  length-range_at (hit a t) st st' w h =
      subst (λ s. length s.rest ≤ length st.rest) (some-injective _ _ h)
        (le_trans (length-read_range st a t) w)
  length-range_at miss st st' w h =
      subst (λ s. length s.rest ≤ length st.rest) (some-injective _ _ h) (le_refl (length st.rest))
  length-range_at eof st st' w h = length-range_again st.first st st' h

  length-take_range :
      (st st' : State) → take_range size st ≡ some st' → length st'.rest ≤ length st.rest
  unfolding take_range
  length-take_range st st' h =
      length-range_at (scan_unsigned st.rest) st st' (scan_unsigned-Within st.rest) h

  parse_loop-ends :
      (fuel : ℕ) (st : State) → length st.rest < fuel → parse_loop size fuel st ≢ no_fuel
  unfolding parse_loop
  parse_loop-ends zero st h = absurd (omega arith)
  parse_loop-ends (suc fuel) st h =
      after_range-ends (take_range size (take_signs st)) (parse_loop size fuel) λ st' e t c g.
        parse_loop-ends fuel (record st' { rest = t })
          (omega (
            arith,
            length-take_range (take_signs st) st' e,
            length-take_signs st,
            scan_separators-lt st'.rest t c g,
          ))

  length-start : (s : Text) (set : CpuSet) → length (start s set).rest ≤ length s
  unfolding start
  length-start s set = ground (arith, scan_signs-Within s)

  -- For every text and set the parser ends: it makes no more rounds than the text has bytes, and one.
  pub parse_affinity_list-ends :
      (cpulist : Text) (set : CpuSet) → parse_affinity_list size cpulist set ≢ no_fuel
  unfolding parse_affinity_list
  parse_affinity_list-ends s set =
      parse_loop-ends (length s + 1) (start s set) (omega (arith, length-start s set))

-- Every byte is a blank.
abbrev pub IsBlank : Text → Type 0
IsBlank [] = Unit {0}
IsBlank (c ∷ s) = (is_space c ≡ true) × IsBlank s

skip_space-IsBlank : (s : Text) → IsBlank s → skip_space s ≡ []
unfolding skip_space
skip_space-IsBlank [] h = refl
skip_space-IsBlank (c ∷ s) (b, h) = rw b (skip_space-IsBlank s h)

scans-IsBlank : (s : Text) → IsBlank s → (scan_signs s ≡ eof) × (scan_unsigned s ≡ eof)
unfolding scan_signs scan_unsigned
scans-IsBlank s h = (rw (skip_space-IsBlank s h), rw (skip_space-IsBlank s h))

blank_round :
    (size fuel : ℕ) (s : Text) (set : CpuSet)
    → scan_signs s ≡ eof
    → scan_unsigned s ≡ eof
    → parse_loop size (suc fuel) (start s set) ≡ unset_first
unfolding parse_loop take_signs take_range range_at range_again start
blank_round size fuel s set e u = ground arith

-- For a text of blanks only the parser uses the variable `first` before it is set: at the end of a
-- text `sscanf` returns EOF, which the test of its result takes for a match.
pub parse_affinity_list-blank :
    (size : ℕ) (cpulist : Text) (set : CpuSet)
    → IsBlank cpulist
    → parse_affinity_list size cpulist set ≡ unset_first
unfolding parse_affinity_list
parse_affinity_list-blank size s set h =
    let (e, u) = scans-IsBlank s h in rw add-one (blank_round size (length s) s set e u)
