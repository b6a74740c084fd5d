-- ===== src/Boot/Command.antt =====
-- The command that bootNotify.c makes of its two arguments.
use iocsh_utilities.Base.{
  ℕ, zero, suc, ◌-◌, ◌≤◌, ◌<◌, leb, if◌then◌else◌, leb-le, leb→le, leb→lt, Bool-cases, inl, inr,
  leb-gt, ◌≡◌, refl, ap, ◌∙◌, sym, some, [], ◌∷◌, ◌++◌, Text, length, take, length-append,
  length-take, take_all, arith,
}
use iocsh_utilities.Boot.{written, overrun, command_text}

take-append : (n : ℕ) (s t : Text) → length s ≤ n → take n (s ++ t) ≡ s ++ take (n - length s) t
take-append n [] t h = ap (λ m. take m t) (omega arith)
take-append zero (c ∷ s) t h = absurd (omega arith)
take-append (suc n) (c ∷ s) t h =
    ap (λ r. c ∷ r) (take-append n s t (omega arith) ∙ ap (λ m. s ++ take m t) (omega arith))

command_text-fits :
    (script script2 : Text)
    → length script ≤ 254
    → command_text script (some script2) ≡ written (take 255 (script ++ (b'/' ∷ script2)))
unfolding command_text
command_text-fits script script2 h =
    let n = length script in
    let s = script ++ (b'/' ∷ take (254 - n) script2) in
    let q : 255 - n ≡ suc (254 - n) = omega arith in
    let e : take 255 (script ++ (b'/' ∷ script2)) ≡ s =
      take-append 255 script (b'/' ∷ script2) (omega arith)
      ∙ ap (λ m. script ++ take m (b'/' ∷ script2)) q in
    let l : length s ≤ 255 = omega (
      arith,
      length-append script (b'/' ∷ take (254 - n) script2),
      length-take (254 - n) script2,
    ) in
    rw
      (
        command_text,
        take_all 255 script (omega arith),
        leb-le n 254 h,
        leb-gt 256 (length s) (omega arith),
      )
      (ap written (sym e))

command_text-overrun :
    (script script2 : Text) → 254 < length script → command_text script (some script2) ≡ overrun
unfolding command_text
command_text-overrun script script2 h =
    let first = take 255 script in
    let n : length first ≡ 255 = length-take 255 script ∙ omega arith in
    rw
      (
        command_text,
        leb-gt (length first) 254 (omega arith),
        leb-le 256 (length (first ++ (b'/' ∷ script2)))
            (omega (arith, length-append first (b'/' ∷ script2))),
      )
      refl

-- With two arguments, a first one of at most 254 bytes gives the first 255 bytes of both with a slash
-- between them, and a longer one writes behind the end of the buffer.
pub command_text-cases :
    (script script2 : Text)
    → command_text script (some script2) ≡ (
        if leb (length script) 254
        then written (take 255 (script ++ (b'/' ∷ script2)))
        else overrun)
command_text-cases script script2 = elim (Bool-cases (leb (length script) 254)) [
  | inl e ↦ rw e (command_text-fits script script2 (leb→le (length script) 254 e))
  | inr e ↦ rw e (command_text-overrun script script2 (leb→lt (length script) 254 e))
]
