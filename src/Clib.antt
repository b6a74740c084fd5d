-- ===== src/Clib.antt =====
-- The parts of the C library that the sources call: character classes, `strtol` with base 0 on a
-- machine with a 64-bit `long`, and the comparison of texts without case.
use iocsh_utilities.Base.{
  ℕ, ◌+◌, ◌-◌, ◌*◌, ◌%◌, ◌^◌, ◌==◌, ltb, leb, if◌then◌else◌, Bool, true, false, ◌&&◌, ◌||◌, Option,
  none, some, [], ◌∷◌, Text,
}
use iocsh_utilities.Base.Int.{ℤ, pos, negsuc, neg_ℕ}

-- `isspace` in the C locale.
unfoldable pub is_space : ℕ → Bool
is_space c = c == b' ' || (leb 9 c && leb c 13)

unfoldable pub skip_space : Text → Text
unfolding is_space
skip_space [] = []
skip_space (c ∷ s) = if is_space c then skip_space s else c ∷ s

-- The value of a digit of any base up to 36.
unfoldable pub digit_value : ℕ → Option ℕ
digit_value c =
    if leb b'0' c && leb c b'9'
    then some (c - b'0')
    else if leb b'a' c && leb c b'z'
    then some (c - b'a' + 10)
    else if leb b'A' c && leb c b'Z'
    then some (c - b'A' + 10)
    else none

unfoldable pub digit : ℕ → ℕ → Option ℕ
unfolding digit_value
digit base c = elim (digit_value c) [ none ↦ none | some v ↦ if ltb v base then some v else none ]

-- The digits at the front of a text, and the rest. `strtol` reads them all, also past an overflow.
unfoldable pub read_digits : ℕ → ℕ → Text → ℕ × Text
unfolding digit
read_digits base acc [] = (acc, [])
read_digits base acc (c ∷ s) = elim (digit base c) [
  | none ↦ (acc, c ∷ s)
  | some v ↦ read_digits base (acc * base + v) s
]

-- At least one digit, or `none`.
unfoldable pub read_number : ℕ → Text → Option (ℕ × Text)
unfolding read_digits
read_number base [] = none
read_number base (c ∷ s) = elim (digit base c) [
  | none ↦ none
  | some v ↦ some (read_digits base v s)
]

-- Behind a leading `0`: `0x` opens a hexadecimal number if a digit follows.
unfoldable pub read_prefixed : Text → Option (ℕ × Text)
unfolding read_number
read_prefixed [] = some (0, [])
read_prefixed (x ∷ s) =
    if x == b'x' || x == b'X'
    then elim (read_number 16 s) [ none ↦ some (0, x ∷ s) | some r ↦ some r ]
    else some (read_digits 8 0 (x ∷ s))

unfoldable pub read_base0 : Text → Option (ℕ × Text)
unfolding read_prefixed read_number
read_base0 [] = none
read_base0 (c ∷ s) = if c == b'0' then read_prefixed s else read_number 10 (c ∷ s)

abbrev pub long_max : ℕ
long_max = 2 ^ 63 - 1

-- The value in the range of `long`, or the nearer end of it.
unfoldable pub to_long : Bool → ℕ → ℤ
to_long false n = if ltb long_max n then pos long_max else pos n
to_long true n = if ltb long_max n then negsuc long_max else neg_ℕ n

unfoldable pub read_sign : Text → Bool × Text
read_sign [] = (false, [])
read_sign (c ∷ s) =
    if c == b'-' then (true, s) else if c == b'+' then (false, s) else (false, c ∷ s)

-- `strtol(s, &end, 0)`: the value and the text at `end`, which is `s` where there is no number.
unfoldable pub strtol : Text → ℤ × Text
unfolding skip_space read_sign read_base0 to_long
strtol s =
    let (minus, t) = read_sign (skip_space s) in
    elim (read_base0 t) [ none ↦ (pos 0, s) | some (n, end) ↦ (to_long minus n, end) ]

abbrev pub ullong_max : ℕ
ullong_max = 2 ^ 64 - 1

-- The value of `strtoul` and `strtoull` in 64 bits: a sign wraps the number around.
unfoldable pub to_ulong : Bool → ℕ → ℕ
to_ulong minus n =
    if ltb ullong_max n then ullong_max else if minus then (2 ^ 64 - n) % 2 ^ 64 else n

-- `strtoull(s, &end, 0)`.
unfoldable pub strtoull : Text → ℕ × Text
unfolding skip_space read_sign read_base0 to_ulong
strtoull s =
    let (minus, t) = read_sign (skip_space s) in
    elim (read_base0 t) [ none ↦ (0, s) | some (n, end) ↦ (to_ulong minus n, end) ]
