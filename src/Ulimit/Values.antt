-- ===== src/Ulimit/Values.antt =====
-- The limits that `ulimitFunc` of ulimit.c prints, and how it reads them again.
use iocsh_utilities.Base.{
  ℕ, zero, suc, ◌+◌, ◌-◌, ◌*◌, ◌/◌, ◌%◌, ◌^◌, ◌≤◌, ◌<◌, ◌==◌, ltb, leb, ltb-ge, if◌then◌else◌, ◌≡◌,
  refl, ◌∙◌, ap, false, ◌&&◌, some, [], ◌∷◌, ◌++◌, append-nil, Text, codes, text_eq, arith,
  Bool-cases, inl, inr,
}
use mathlib.Core.Path.{subst}
use native.Mathlib.Nat.{div-le_self, mul-div-le, mul_comm}
use iocsh_utilities.Clib.{
  is_space, skip_space, read_sign, read_base0, read_number, read_digits, to_ulong, strtoull,
}
use iocsh_utilities.Threads.Affinity.{decimal_digits, decimal}
use iocsh_utilities.Threads.Affinity.Decimal.{
  value, Digits, digit-ten, read_digits-append, value-decimal_digits, decimal_digits-Digits,
  decimal-cons,
}
use iocsh_utilities.AfterInit.Hooks.{lower}
use iocsh_utilities.Ulimit.{infinity, padded, print_value, shift_number, new_limit}

-- A printed number other than 0 does not begin with 0.
decimal_digits-first :
    (fuel n : ℕ)
    → 0 < n
    → n < fuel
    → (c : ℕ) × (ds : Text) × (decimal_digits fuel n ≡ c ∷ ds) × (b'1' ≤ c)
unfolding decimal_digits
decimal_digits-first zero n h k = absurd (omega arith)
decimal_digits-first (suc fuel) n h k = elim (Bool-cases (ltb n 10)) [
  | inl e ↦ (b'0' + n, [], rw e refl, omega arith)
  | inr e ↦
      let (c, ds, q, lo) = decimal_digits-first fuel (n / 10) (ground arith) (ground arith) in
      (c, ds ++ ((b'0' + n % 10) ∷ []), rw (e, q) refl, lo)
]

strtoull-zero : strtoull (decimal 0) ≡ (0, [])
unfolding strtoull decimal decimal_digits
strtoull-zero = refl

skip_space-digit : (c : ℕ) (ds : Text) → b'1' ≤ c → c ≤ b'9' → skip_space (c ∷ ds) ≡ c ∷ ds
unfolding skip_space is_space
skip_space-digit c ds lo hi = ground arith

read_sign-digit : (c : ℕ) (ds : Text) → b'1' ≤ c → c ≤ b'9' → read_sign (c ∷ ds) ≡ (false, c ∷ ds)
unfolding read_sign
read_sign-digit c ds lo hi = ground arith

read_digits-all : (ds : Text) (acc : ℕ) → Digits ds → read_digits 10 acc ds ≡ (value acc ds, [])
read_digits-all ds acc h = rw (append-nil ds) at (read_digits-append ds [] acc h refl)

read_base0-Digits :
    (c : ℕ) (ds : Text)
    → b'1' ≤ c
    → Digits (c ∷ ds)
    → read_base0 (c ∷ ds) ≡ some (value 0 (c ∷ ds), [])
unfolding read_base0 read_number value
read_base0-Digits c ds lo (_, hi, h) =
    let n : (c == b'0') ≡ false = ground arith in
    rw (n, read_number, digit-ten c (omega arith) hi, read_digits-all ds (c - b'0') h)
      (ap (λ a. some (value a ds, [])) (omega arith))

-- What `strtoull` makes of a text of digits that does not begin with 0.
strtoull-Digits :
    (c : ℕ) (ds : Text)
    → b'1' ≤ c
    → Digits (c ∷ ds)
    → value 0 (c ∷ ds) ≤ infinity
    → strtoull (c ∷ ds) ≡ (value 0 (c ∷ ds), [])
unfolding strtoull to_ulong
strtoull-Digits c ds lo (l, hi, h) k =
    rw
      (
        strtoull,
        skip_space-digit c ds lo hi,
        read_sign-digit c ds lo hi,
        read_base0-Digits c ds lo (l, hi, h),
        skip_space-digit c ds lo hi,
        read_sign-digit c ds lo hi,
        ltb-ge infinity (value 0 (c ∷ ds)) k,
      )
      refl

pub strtoull-decimal : (n : ℕ) → n ≤ infinity → strtoull (decimal n) ≡ (n, [])
unfolding decimal
strtoull-decimal zero h = strtoull-zero
strtoull-decimal (suc n) h =
    let (c, ds, e, lo) = decimal_digits-first (suc (suc n)) (suc n) (omega arith) (omega arith) in
    let v : value 0 (c ∷ ds) ≡ suc n =
      subst (λ t. value 0 t ≡ suc n) e (value-decimal_digits (suc (suc n)) (suc n) (omega arith)) in
    let d : Digits (c ∷ ds) = subst Digits e (decimal_digits-Digits (suc (suc n)) (suc n)) in
    rw e (strtoull-Digits c ds lo d (rw v h) ∙ ap (λ x. (x, [])) v)

not_word :
    (c : ℕ) (s : Text)
    → b'0' ≤ c
    → c ≤ b'9'
    → text_eq ((if leb b'A' c && leb c b'Z' then c + 32 else c) ∷ s) (codes "unlimited") ≡ false
not_word c s lo hi =
    let n : leb b'A' c ≡ false = ground arith in
    let m : (c == b'u') ≡ false = ground arith in rw (n, m) refl

-- A printed number is not the word.
decimal-not_unlimited : (n : ℕ) → text_eq (lower (decimal n)) (codes "unlimited") ≡ false
decimal-not_unlimited n =
    let (c, ds, e, lo, hi) = decimal-cons n in rw e (not_word c (lower ds) lo hi)

small : (n : ℕ) → n ≤ infinity → n % 2 ^ 64 ≡ n
small n h = omega arith

shift_number-exact :
    (n shift : ℕ) → n * 2 ^ shift ≤ infinity → shift_number shift (n, []) ≡ some (n * 2 ^ shift)
unfolding shift_number
shift_number-exact n shift h = ap some (small (n * 2 ^ shift) h)

-- The limit, rounded down to the unit in which it is printed.
abbrev pub rounded : ℕ → ℕ → ℕ
rounded limit shift = if limit == infinity then infinity else limit / 2 ^ shift * 2 ^ shift

-- For each limit of 64 bits and each power of two as the unit there is a text that is printed for it, filled
-- up with blanks to nine bytes, and this text given as the limit stands for the limit rounded down to a
-- multiple of the unit, or for no limit where there is none.
pub new_limit-print_value :
    (limit shift : ℕ)
    → limit ≤ infinity
    → (t : Text) × (print_value limit shift ≡ padded 9 t)
      × (new_limit t shift ≡ some (rounded limit shift))
unfolding print_value new_limit
new_limit-print_value limit shift h = elim (Bool-cases (limit == infinity)) [
  | inl e ↦ (codes "unlimited", rw e refl, rw e refl)
  | inr e ↦
      let n = limit / 2 ^ shift in
      (
        decimal n,
        rw e refl,
        rw
            (
              e,
              decimal-not_unlimited n,
              strtoull-decimal n (omega (arith, div-le_self limit (2 ^ shift), h)),
            )
            (shift_number-exact n shift
              (omega (arith, mul-div-le limit (2 ^ shift), mul_comm n (2 ^ shift), h))),
      )
]
