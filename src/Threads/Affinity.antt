-- ===== src/Threads/Affinity.antt =====
-- threads.c, the affinity lists: `epicsThreadPrintAffinityList` and `epicsThreadParseAffinityList`.
-- A `cpu_set_t` is its membership test, and `CPU_SETSIZE` is the parameter `size`.
-- Each `sscanf` of the parser is a function into `Scan`: the end of the text before the first
-- conversion (EOF, which is true for C), no match (0), or a match with the rest behind it.
-- `sign` and `c` are variables of one byte into which `%[` writes a text: the model stores the
-- first byte, and takes what is written behind it to hit no variable of the function.
pub mod Decimal
pub mod Ranges
pub mod Parse
pub mod RoundTrip
pub mod Ends
use iocsh_utilities.Base.{
  ℕ, zero, suc, ◌+◌, ◌-◌, ◌*◌, ◌/◌, ◌%◌, ◌^◌, ◌==◌, ltb, leb, if◌then◌else◌, Bool, true, false, not,
  ◌&&◌, ◌||◌, Option, none, some, List, [], ◌∷◌, ◌++◌, Text, length, get_elem?,
}
use iocsh_utilities.Clib.{is_space, skip_space, digit, read_digits}

abbrev pub CpuSet : Type 0
CpuSet = ℕ → Bool

-- `CPU_SET` and `CPU_CLR`.
abbrev pub assign : Bool → ℕ → CpuSet → CpuSet
assign member cpu set i = if i == cpu then member else set i

-- `%u` of a number in printf.
unfoldable pub decimal_digits : ℕ → ℕ → Text
decimal_digits zero n = []
decimal_digits (suc fuel) n =
    let front = decimal_digits fuel (n / 10) in
    if ltb n 10 then (b'0' + n) ∷ [] else front ++ ((b'0' + n % 10) ∷ [])

unfoldable pub decimal : ℕ → Text
unfolding decimal_digits
decimal n = decimal_digits (suc n) n

-- The variable `first` of the printer: -2, -1, or the number at which a run was opened.
pub data First : Type 0 where
  fresh closed : First
  opened : ℕ → First

-- What is printed where a run ends before `cpu`.
unfoldable pub close_run : First → ℕ → Text × First
close_run (opened f) cpu = (if ltb f (cpu - 1) then b'-' ∷ decimal (cpu - 1) else [], closed)
close_run fresh cpu = ([], fresh)
close_run closed cpu = ([], closed)

-- What is printed where `cpu` is in the set.
unfoldable pub open_run : First → ℕ → Text × First
open_run (opened f) cpu = ([], opened f)
open_run fresh cpu = (decimal cpu, opened cpu)
open_run closed cpu = (b',' ∷ decimal cpu, opened cpu)

module _ (size : ℕ) where
  -- The loop of the printer, with `rounds` rounds to go from `cpu` on.
  pub print_loop : ℕ → ℕ → First → CpuSet → Text
  print_loop zero cpu first set = []
  print_loop (suc rounds) cpu first set =
      let (out, next) =
        if ltb cpu size && set cpu then open_run first cpu else close_run first cpu in
      out ++ print_loop rounds (cpu + 1) next set

  -- `epicsThreadPrintAffinityList`, without the line end that it prints last.
  unfoldable pub print_affinity_list : CpuSet → Text
  unfolding print_loop open_run close_run decimal
  print_affinity_list set = print_loop (size + 1) 0 fresh set

-- What a call of `sscanf` with one conversion returns, with the text behind a match.
pub data Scan : Type 0 where
  eof miss : Scan
  hit : ℕ → Text → Scan

pub skip_bytes : (ℕ → Bool) → Text → Text
skip_bytes p [] = []
skip_bytes p (c ∷ s) = if p c then skip_bytes p s else c ∷ s

abbrev pub is_sign : ℕ → Bool
is_sign c = c == b'+' || c == b'-'

abbrev pub is_separator : ℕ → Bool
is_separator c = c == b',' || c == b';'

pub signs_at : Text → Scan
signs_at [] = eof
signs_at (c ∷ s) = if is_sign c then hit c (skip_bytes is_sign s) else miss

-- `" %[+-]%n"`.
pub scan_signs : Text → Scan
unfolding signs_at
scan_signs s = signs_at (skip_space s)

-- `"%[,;] %n"`.
pub scan_separators : Text → Scan
scan_separators [] = eof
scan_separators (c ∷ s) =
    if is_separator c then hit c (skip_space (skip_bytes is_separator s)) else miss

abbrev pub ulong_max : ℕ
ulong_max = 2 ^ 64 - 1

-- The number that `%u` stores: the value of `strtoul`, cut to 32 bits.
abbrev pub to_unsigned : Bool → ℕ → ℕ
to_unsigned minus n =
    if ltb ulong_max n
    then ulong_max % 2 ^ 32
    else if minus
    then (2 ^ 64 - n) % 2 ^ 32
    else n % 2 ^ 32

pub scan_digits : Bool → Text → Scan
scan_digits minus [] = miss
scan_digits minus (c ∷ s) = elim (digit 10 c) [
  | none ↦ miss
  | some v ↦ let (n, rest) = read_digits 10 v s in hit (to_unsigned minus n) (skip_space rest)
]

pub unsigned_at : Text → Scan
unsigned_at [] = eof
unsigned_at (c ∷ s) = if is_sign c then scan_digits (c == b'-') s else scan_digits false (c ∷ s)

-- `"%u %n"`.
pub scan_unsigned : Text → Scan
unfolding unsigned_at
scan_unsigned s = unsigned_at (skip_space s)

-- `"-%u %n"`.
pub scan_upto : Text → Scan
scan_upto [] = eof
scan_upto (c ∷ s) = if c == b'-' then scan_unsigned s else miss

pub record State : Type 0 where
  pub sign : ℕ
  pub first : Option ℕ
  pub set : CpuSet
  pub rest : Text

-- `last = first`, or the number behind the dash, and the text behind it.
abbrev pub last_of : Scan → ℕ → Text → ℕ × Text
last_of (hit b t) a s = (b, t)
last_of eof a s = (a, s)
last_of miss a s = (a, s)

-- How the parser ends. `unset_first` is a read of the variable `first` before it is set, `no_fuel`
-- belongs to the model only.
pub data Parsed : Type 0 where
  parsed : CpuSet → Text → Parsed
  unset_first no_fuel : Parsed

pub take_signs : State → State
take_signs st = elim (scan_signs st.rest) [
  | hit c t ↦ record st { sign = c; rest = t }
  | eof ↦ st
  | miss ↦ st
]

-- What stands before the loop: without a sign the set is emptied.
pub start : Text → CpuSet → State
start cpulist set = elim (scan_signs cpulist) [
  | hit c t ↦ record { sign = c; first = none; set = set; rest = t }
  | eof ↦ record { sign = 0; first = none; set = λ _. false; rest = cpulist }
  | miss ↦ record { sign = 0; first = none; set = λ _. false; rest = cpulist }
]

-- The end of the loop's body: the next round, or the end of the function.
pub after_separators : Scan → State → (State → Parsed) → Parsed
after_separators (hit c t) st next = next (record st { rest = t })
after_separators eof st next = parsed st.set st.rest
after_separators miss st next = parsed st.set st.rest

pub after_range : Option State → (State → Parsed) → Parsed
unfolding after_separators
after_range none next = unset_first
after_range (some st) next = after_separators (scan_separators st.rest) st next

module _ (size : ℕ) where
  -- The `for` loop over a range, with `rounds` numbers below CPU_SETSIZE to go.
  pub range_loop : ℕ → Bool → ℕ → ℕ → CpuSet → CpuSet
  range_loop zero member cpu last set = set
  range_loop (suc rounds) member cpu last set =
      let onward = range_loop rounds member (cpu + 1) last (assign member cpu set) in
      if leb cpu last && ltb cpu size then onward else set

  -- The block behind a number, which is entered with the old `first` at the end of the text.
  pub read_range : State → ℕ → Text → State
  read_range st a s =
      let (last, rest) = last_of (scan_upto s) a s in
      record {
        sign = st.sign;
        first = some a;
        set = range_loop (size - a) (not (st.sign == b'-')) a last st.set;
        rest = rest;
      }

  -- At the end of the text. `none`: the variable `first` is read before it is set.
  pub range_again : Option ℕ → State → Option State
  range_again none st = none
  range_again (some a) st = some (read_range st a st.rest)

  pub range_at : Scan → State → Option State
  unfolding range_again
  range_at (hit a t) st = some (read_range st a t)
  range_at miss st = some st
  range_at eof st = range_again st.first st

  pub take_range : State → Option State
  unfolding range_at
  take_range st = range_at (scan_unsigned st.rest) st

  -- The `do … while (c)` loop.
  pub parse_loop : ℕ → State → Parsed
  unfolding after_range
  parse_loop zero st = no_fuel
  parse_loop (suc fuel) st = after_range (take_range (take_signs st)) (parse_loop fuel)

  -- `epicsThreadParseAffinityList`: the new set and the rubbish at the end of the list.
  unfoldable pub parse_affinity_list : Text → CpuSet → Parsed
  unfolding start parse_loop take_range take_signs read_range range_loop scan_signs scan_unsigned
      scan_separators scan_digits scan_upto skip_bytes skip_space is_space digit read_digits
  parse_affinity_list cpulist set = parse_loop (length cpulist + 1) (start cpulist set)
