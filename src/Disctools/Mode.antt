-- ===== src/Disctools/Mode.antt =====
-- disctools.c: the commands umask, chmod, mkdir and rmdir, and the letters that `llOut` prints for the
-- mode of a file. The calls of the system are the parameter `Calls`; they tell whether they failed.
pub mod RoundTrip
mod Tests
use iocsh_utilities.Base.{
  ℕ, zero, suc, ◌+◌, ◌-◌, ◌/◌, ◌%◌, ◌^◌, ◌==◌, ltb, if◌then◌else◌, Bool, true, false, Option, none,
  some, List, [], ◌∷◌, ◌++◌, Text, length, replicate,
}
use iocsh_utilities.Clib.{skip_space, read_sign, read_number, to_ulong}

pub record Calls : Type 1 where
  pub State : Type 0
  pub mkdir : State → Text → ℕ → Bool × State
  pub rmdir : State → Text → Bool × State
  pub chmod : State → Option Text → ℕ → Bool × State

pub data Output : Type 0 where
  missing_name : Output
  error_for : Option Text → Output
  mask_line not_recognized : Text → Output

module _ (calls : Calls) where
  abbrev pub report : Text → Bool × calls.State → calls.State × List Output
  report name (failed, s) = (s, (if failed then error_for (some name) ∷ [] else []))

  -- `mkdirFunc`.
  unfoldable pub mkdir_func : Option Text → calls.State → calls.State × List Output
  mkdir_func none s = (s, missing_name ∷ [])
  mkdir_func (some dirname) s = report dirname (calls.mkdir s dirname 511)

  -- `rmdirFunc`.
  unfoldable pub rmdir_func : Option Text → calls.State → calls.State × List Output
  rmdir_func none s = (s, missing_name ∷ [])
  rmdir_func (some dirname) s = report dirname (calls.rmdir s dirname)

  -- `chmodFunc`; the argument is an `int` and is given by its 32 bits.
  unfoldable pub chmod_func : ℕ → Option Text → calls.State → calls.State × List Output
  chmod_func mode path s =
      let (failed, t) = calls.chmod s path (mode % 2 ^ 32) in
      (t, (if failed then error_for path ∷ [] else []))

-- `%03o`: eleven digits are enough for 32 bits.
unfoldable pub octal_digits : ℕ → ℕ → Text
octal_digits zero n = []
octal_digits (suc fuel) n =
    let front = octal_digits fuel (n / 8) in
    if ltb n 8 then (b'0' + n) ∷ [] else front ++ ((b'0' + n % 8) ∷ [])

unfoldable pub octal3 : ℕ → Text
unfolding octal_digits
octal3 n = replicate (3 - length (octal_digits 11 n)) b'0' ++ octal_digits 11 n

-- `sscanf(s, "%o", &mask)` into an `unsigned int`.
unfoldable pub scan_octal : Text → Option ℕ
unfolding skip_space read_sign read_number to_ulong
scan_octal s =
    let (minus, t) = read_sign (skip_space s) in
    elim (read_number 8 t) [ none ↦ none | some (n, rest) ↦ some (to_ulong minus n % 2 ^ 32) ]

-- `umask`, which keeps the nine lowest bits: the mask before, and the new one.
abbrev pub umask : ℕ → ℕ → ℕ × ℕ
umask mask before = (before, mask % 2 ^ 9)

-- `umaskFunc`, with the mask of the process.
unfoldable pub umask_func : Option Text → ℕ → ℕ × List Output
unfolding octal3 scan_octal
umask_func none process =
    let (mask, cleared) = umask 0 process in
    let (_, restored) = umask mask cleared in (restored, mask_line (octal3 mask) ∷ [])
umask_func (some s) process = elim (scan_octal s) [
  | none ↦ (process, not_recognized s ∷ [])
  | some mask ↦ ((umask mask process).1, [])
]

-- Whether a bit of the mode is set, by its value.
abbrev pub bit : ℕ → ℕ → Bool
bit mode value = (mode / value) % 2 == 1

-- `type` in `llOut`.
unfoldable pub type_letter : ℕ → ℕ
type_letter mode =
    let kind = (mode / 4096) % 16 in
    if kind == 8
    then b'-'
    else if kind == 4
    then b'd'
    else if kind == 2
    then b'c'
    else if kind == 6
    then b'b'
    else if kind == 1
    then b'p'
    else if kind == 10
    then b'l'
    else if kind == 12
    then b's'
    else b'?'

abbrev pub letter_if : Bool → ℕ → ℕ → ℕ
letter_if b c d = if b then c else d

unfoldable pub mode_letters : ℕ → Text
unfolding type_letter
mode_letters mode =
    type_letter mode
    ∷ letter_if (bit mode 256) b'r' b'-'
    ∷ letter_if (bit mode 128) b'w' b'-'
    ∷ letter_if (bit mode 2048) b's' (letter_if (bit mode 64) b'x' b'-')
    ∷ letter_if (bit mode 32) b'r' b'-'
    ∷ letter_if (bit mode 16) b'w' b'-'
    ∷ letter_if (bit mode 1024) b's' (letter_if (bit mode 8) b'x' b'-')
    ∷ letter_if (bit mode 4) b'r' b'-'
    ∷ letter_if (bit mode 2) b'w' b'-'
    ∷ letter_if (bit mode 512) b't' (letter_if (bit mode 1) b'x' b'-')
    ∷ []
