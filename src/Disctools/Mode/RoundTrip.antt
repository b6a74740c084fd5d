-- ===== src/Disctools/Mode/RoundTrip.antt =====
-- That umask in disctools.c reads the mask that it prints.
use iocsh_utilities.Base.{
  ℕ, suc, ◌+◌, ◌-◌, ◌*◌, ◌/◌, ◌%◌, ◌^◌, ◌≤◌, ◌<◌, ltb, ltb-ge, ltb-lt, ltb→lt, ltb-false, ◌≡◌, refl,
  ap, ◌∙◌, false, none, some, [], ◌∷◌, ◌++◌, Text, arith, Bool-cases, inl, inr,
}
use native.Mathlib.Nat.{mod-eq_of_lt}
use iocsh_utilities.Clib.{
  is_space, skip_space, read_sign, read_number, read_digits, digit, digit_value, to_ulong,
}
use iocsh_utilities.Disctools.Mode.{mask_line, octal_digits, octal3, scan_octal, umask_func}

-- Three digits, the highest first.
abbrev three : ℕ → ℕ → ℕ → Text
three a b c = (b'0' + a) ∷ (b'0' + b) ∷ (b'0' + c) ∷ []

octal-one : (fuel n : ℕ) → n < 8 → octal_digits (suc fuel) n ≡ (b'0' + n) ∷ []
unfolding octal_digits
octal-one fuel n h = rw (ltb-lt n 8 h) refl

octal-more :
    (fuel n : ℕ)
    → 8 ≤ n
    → octal_digits (suc fuel) n ≡ octal_digits fuel (n / 8) ++ ((b'0' + n % 8) ∷ [])
unfolding octal_digits
octal-more fuel n h = rw (ltb-ge n 8 h) refl

three-eq : (a b c d e f : ℕ) → a ≡ d → b ≡ e → c ≡ f → three a b c ≡ three d e f
three-eq a b c d e f p q r = rw (p, q, r) refl

octal3-three : (m : ℕ) → m < 512 → octal3 m ≡ three (m / 64) (m / 8 % 8) (m % 8)
unfolding octal3
octal3-three m h = elim (Bool-cases (ltb m 8)) [
  | inl e ↦
      let l = ltb→lt m 8 e in
      rw (octal-one 10 m l)
        (three-eq 0 0 m (m / 64) (m / 8 % 8) (m % 8) (omega arith) (omega arith) (omega arith))
  | inr e ↦ elim (Bool-cases (ltb m 64)) [
    | inl e' ↦
        let l = ltb-false m 8 e in
        let l' = ltb→lt m 64 e' in
        rw (octal-more 10 m l, octal-one 9 (m / 8) (omega arith))
          (three-eq 0 (m / 8) (m % 8) (m / 64) (m / 8 % 8) (m % 8) (omega arith) (omega arith) refl)
    | inr e' ↦
        let l' = ltb-false m 64 e' in
        rw
          (
            octal-more 10 m (omega arith),
            octal-more 9 (m / 8) (omega arith),
            octal-one 8 (m / 8 / 8) (omega arith),
          )
          (three-eq (m / 8 / 8) (m / 8 % 8) (m % 8) (m / 64) (m / 8 % 8) (m % 8) (omega arith) refl
            refl)
  ]
]

digit-eight : (v : ℕ) → v < 8 → digit 8 (b'0' + v) ≡ some v
unfolding digit digit_value
digit-eight v h = ground arith

skip_space-digit : (v : ℕ) (s : Text) → v < 8 → skip_space ((b'0' + v) ∷ s) ≡ (b'0' + v) ∷ s
unfolding skip_space is_space
skip_space-digit v s h = ground arith

read_sign-digit : (v : ℕ) (s : Text) → v < 8 → read_sign ((b'0' + v) ∷ s) ≡ (false, (b'0' + v) ∷ s)
unfolding read_sign
read_sign-digit v s h = ground arith

to_ulong-small : (n : ℕ) → n < 512 → to_ulong false n % 2 ^ 32 ≡ n
unfolding to_ulong
to_ulong-small n h = rw (ltb-ge (2 ^ 64 - 1) n (omega arith)) (mod-eq_of_lt (omega arith))

read_sign-three : (a b c : ℕ) → a < 8 → read_sign (skip_space (three a b c)) ≡ (false, three a b c)
read_sign-three a b c h =
    let s = (b'0' + b) ∷ (b'0' + c) ∷ [] in
    ap read_sign (skip_space-digit a s h) ∙ read_sign-digit a s h

scan_octal-three :
    (a b c : ℕ) → a < 8 → b < 8 → c < 8 → scan_octal (three a b c) ≡ some (a * 64 + b * 8 + c)
unfolding scan_octal read_number read_digits
scan_octal-three a b c ha hb hc =
    rw
      (
        scan_octal,
        read_sign-three a b c ha,
        read_number,
        digit-eight a ha,
        read_digits,
        digit-eight b hb,
        digit-eight c hc,
        read_sign-three a b c ha,
      )
      (ap some (to_ulong-small ((a * 8 + b) * 8 + c) (omega arith) ∙ omega arith))

scan_octal3 : (m : ℕ) → m < 512 → scan_octal (octal3 m) ≡ some m
scan_octal3 m h =
    ap scan_octal (octal3-three m h)
    ∙ scan_octal-three (m / 64) (m / 8 % 8) (m % 8) (omega arith) (omega arith) (omega arith)
    ∙ ap some (omega arith)

-- umask without an argument shows the mask of the process and leaves it as it is, and where the mask
-- has no more than the nine bits that it may have, umask with what was shown sets it again, whatever
-- the mask is then, and prints nothing.
pub umask_func-umask_func :
    (mask other : ℕ)
    → mask < 512
    → (s : Text) × (umask_func none mask ≡ (mask, mask_line s ∷ []))
      × (umask_func (some s) other ≡ (mask, []))
unfolding umask_func
umask_func-umask_func mask other h = (
  octal3 mask,
  ap (λ m. (m, mask_line (octal3 mask) ∷ [])) (mod-eq_of_lt h),
  rw (umask_func, scan_octal3 mask h) (ap (λ m. (m, [])) (mod-eq_of_lt h)),
)
