-- ===== src/Threads/Affinity/Decimal.antt =====
-- Printing a number in decimal and reading it again by `%u`.
use iocsh_utilities.Base.{
  ℕ, zero, suc, ◌+◌, ◌-◌, ◌*◌, ◌/◌, ◌%◌, ◌^◌, ◌≤◌, ◌<◌, ltb, leb, if◌then◌else◌, ◌≡◌, ◌≢◌, refl,
  ◌∙◌, ap, Bool, true, false, ◌&&◌, some, [], ◌∷◌, ◌++◌, Text, arith, Bool-cases, inl, inr,
}
use iocsh_utilities.Clib.{is_space, skip_space, digit, read_digits}
use iocsh_utilities.Threads.Affinity.{decimal_digits, decimal, scan_digits, scan_unsigned, hit}

-- The value of decimal digits behind what was read already.
unfoldable pub value : ℕ → Text → ℕ
value acc [] = acc
value acc (c ∷ s) = value (acc * 10 + (c - b'0')) s

abbrev pub Digits : Text → Type 0
Digits [] = Unit {0}
Digits (c ∷ s) = (b'0' ≤ c) × (c ≤ b'9') × Digits s

-- No digit stands at the front.
abbrev pub ends_number : Text → Bool
ends_number [] = true
ends_number (c ∷ s) = if leb b'0' c && leb c b'9' then false else true

pub digit-ten : (c : ℕ) → b'0' ≤ c → c ≤ b'9' → digit 10 c ≡ some (c - b'0')
unfolding digit
digit-ten c h k = ground arith

digit-none : (s : Text) (acc : ℕ) → ends_number s ≡ true → read_digits 10 acc s ≡ (acc, s)
unfolding read_digits digit
digit-none [] acc h = refl
digit-none (c ∷ s) acc h = ground arith

pub read_digits-append :
    (ds rest : Text) (acc : ℕ)
    → Digits ds
    → ends_number rest ≡ true
    → read_digits 10 acc (ds ++ rest) ≡ (value acc ds, rest)
unfolding value read_digits
read_digits-append [] rest acc h e = digit-none rest acc e
read_digits-append (c ∷ ds) rest acc (lo, hi, h) e =
    rw (read_digits, digit-ten c lo hi) (read_digits-append ds rest (acc * 10 + (c - b'0')) h e)

value-append :
    (acc : ℕ) (ds : Text) (c : ℕ) → value acc (ds ++ (c ∷ [])) ≡ value acc ds * 10 + (c - b'0')
unfolding value
value-append acc [] c = refl
value-append acc (d ∷ ds) c = value-append (acc * 10 + (d - b'0')) ds c

Digits-append : (ds : Text) (c : ℕ) → Digits ds → b'0' ≤ c → c ≤ b'9' → Digits (ds ++ (c ∷ []))
Digits-append [] c h lo hi = (lo, hi, tt)
Digits-append (d ∷ ds) c (l, k, h) lo hi = (l, k, Digits-append ds c h lo hi)

pub decimal_digits-Digits : (fuel n : ℕ) → Digits (decimal_digits fuel n)
unfolding decimal_digits
decimal_digits-Digits zero n = tt
decimal_digits-Digits (suc fuel) n = elim (Bool-cases (ltb n 10)) [
  | inl h ↦ rw h (ground arith)
  | inr h ↦ rw h (
      Digits-append (decimal_digits fuel (n / 10)) (b'0' + n % 10)
        (decimal_digits-Digits fuel (n / 10)) (omega arith) (omega arith))
]

pub value-decimal_digits : (fuel n : ℕ) → n < fuel → value 0 (decimal_digits fuel n) ≡ n
unfolding decimal_digits value
value-decimal_digits zero n h = absurd (omega arith)
value-decimal_digits (suc fuel) n h = elim (Bool-cases (ltb n 10)) [
  | inl k ↦ rw k (omega arith)
  | inr k ↦
      rw (k, value-append 0 (decimal_digits fuel (n / 10)) (b'0' + n % 10))
        (omega (arith, value-decimal_digits fuel (n / 10) (ground arith)))
]

append-ne-nil : (ds : Text) (c : ℕ) → (ds ++ (c ∷ [])) ≢ []
append-ne-nil [] c h = cc
append-ne-nil (d ∷ ds) c h = cc

decimal_digits-ne-nil : (fuel n : ℕ) → decimal_digits (suc fuel) n ≢ []
unfolding decimal_digits
decimal_digits-ne-nil fuel n h = elim (Bool-cases (ltb n 10)) [
  | inl k ↦ ground arith
  | inr k ↦ append-ne-nil (decimal_digits fuel (n / 10)) (b'0' + n % 10) (rw k at h)
]

-- A text of digits is read as its value, if that fits in 32 bits.
scan_unsigned-Digits :
    (ds rest : Text)
    → Digits ds
    → ds ≢ []
    → ends_number rest ≡ true
    → value 0 ds < 2 ^ 32
    → scan_unsigned (ds ++ rest) ≡ hit (value 0 ds) (skip_space rest)
unfolding scan_unsigned scan_digits value skip_space is_space
scan_unsigned-Digits [] rest h ne e small = absurd (ne refl)
scan_unsigned-Digits (c ∷ ds) rest h ne e small =
    ground (arith, digit-ten c h.0 h.1, read_digits-append ds rest (c - b'0') h.2)

-- `%u` reads back what `%u` prints, with any text behind it that does not begin with a digit, and
-- skips the spaces behind the number.
pub scan_unsigned-decimal :
    (n : ℕ) (rest : Text)
    → n < 2 ^ 32
    → ends_number rest ≡ true
    → scan_unsigned (decimal n ++ rest) ≡ hit n (skip_space rest)
unfolding decimal
scan_unsigned-decimal n rest small e =
    let v = value-decimal_digits (suc n) n (omega arith) in
    scan_unsigned-Digits (decimal_digits (suc n) n) rest (decimal_digits-Digits (suc n) n)
      (decimal_digits-ne-nil n n) e (rw v small)
    ∙ ap (λ k. hit k (skip_space rest)) v

-- A printed number begins with a digit.
pub decimal-cons : (n : ℕ) → (c : ℕ) × (ds : Text) × (decimal n ≡ c ∷ ds) × (b'0' ≤ c) × (c ≤ b'9')
unfolding decimal
decimal-cons n =
    first (decimal_digits (suc n) n) (decimal_digits-Digits (suc n) n) (decimal_digits-ne-nil n n)
  where
    first :
        (t : Text)
        → Digits t
        → t ≢ []
        → (c : ℕ) × (ds : Text) × (t ≡ c ∷ ds) × (b'0' ≤ c) × (c ≤ b'9')
    first [] h ne = absurd (ne refl)
    first (c ∷ ds) h ne = (c, ds, refl, h.0, h.1)
