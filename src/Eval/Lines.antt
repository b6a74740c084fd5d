-- ===== src/Eval/Lines.antt =====
-- The command lines that `evalFunc` of eval.c runs.
use iocsh_utilities.Base.{
  ℕ, zero, suc, ◌+◌, ◌≤◌, ◌<◌, leb, leb→le, leb→lt, ◌≡◌, refl, ap, Bool, true, false, ◌&&◌,
  and-left, and-right, none, some, List, [], ◌∷◌, ◌++◌, Text, codes, length, take, get_elem?,
  length-append, arith, Bool-cases, inl, inr,
}
use iocsh_utilities.Clib.{is_space}
use iocsh_utilities.Eval.{
  add_words, is_space_at, trim_size, Outcome, ran, underrun, too_long, run_line, eval_func,
}

abbrev pub quoted_words : Text → List Text → Text
quoted_words line [] = line
quoted_words line (arg ∷ args) = quoted_words (line ++ (codes " \"" ++ (arg ++ codes "\""))) args

quoted_words-longer :
    (line : Text) (args : List Text) → length line ≤ length (quoted_words line args)
quoted_words-longer line [] = omega arith
quoted_words-longer line (arg ∷ args) =
    let t = codes " \"" ++ (arg ++ codes "\"") in
    omega (arith, quoted_words-longer (line ++ t) args, length-append line t)

add_words-fits :
    (line : Text) (args : List Text)
    → length (quoted_words line args) ≤ 1022
    → add_words line args ≡ some (quoted_words line args)
unfolding add_words
add_words-fits line [] h = refl
add_words-fits line (arg ∷ args) h =
    let t = codes " \"" ++ (arg ++ codes "\"") in
    elim (Bool-cases (leb 1024 (length line + length arg + 4))) [
      | inl e ↦ absurd (
          omega (
            arith,
            leb→le 1024 (length line + length arg + 4) e,
            quoted_words-longer (line ++ t) args,
            length-append line t,
            length-append arg (codes "\""),
            h,
          ))
      | inr e ↦ rw e (add_words-fits (line ++ t) args h)
    ]

add_words-long :
    (line : Text) (args : List Text)
    → length line ≤ 1022
    → 1022 < length (quoted_words line args)
    → add_words line args ≡ none
unfolding add_words
add_words-long line [] k h = absurd (omega arith)
add_words-long line (arg ∷ args) k h =
    let t = codes " \"" ++ (arg ++ codes "\"") in
    elim (Bool-cases (leb 1024 (length line + length arg + 4))) [
      | inl e ↦ rw e refl
      | inr e ↦ rw e (
          add_words-long (line ++ t) args
            (omega (
              arith,
              leb→lt 1024 (length line + length arg + 4) e,
              length-append line t,
              length-append arg (codes "\""),
            ))
            h)
    ]

-- All bytes are blanks.
abbrev pub all_space : Text → Bool
all_space [] = true
all_space (c ∷ s) = is_space c && all_space s

get_elem?-append : (s : Text) (c : ℕ) (t : Text) → get_elem? (s ++ (c ∷ t)) (length s) ≡ some c
get_elem?-append [] c t = refl
get_elem?-append (a ∷ s) c t = get_elem?-append s c t

take-append_suc :
    (s : Text) (c : ℕ) (t : Text) → take (suc (length s)) (s ++ (c ∷ t)) ≡ s ++ (c ∷ [])
take-append_suc [] c t = refl
take-append_suc (a ∷ s) c t = ap (λ r. a ∷ r) (take-append_suc s c t)

all_space-at :
    (t : Text) (i : ℕ) → all_space t ≡ true → i < length t → is_space_at (get_elem? t i) ≡ true
all_space-at [] i a h = absurd (omega arith)
all_space-at (c ∷ t) zero a h = and-left (is_space c) (all_space t) a
all_space-at (c ∷ t) (suc i) a h =
    all_space-at t i (and-right (is_space c) (all_space t) a) (omega arith)

blank_behind :
    (s : Text) (c : ℕ) (t : Text) (i : ℕ)
    → all_space t ≡ true
    → length s < i
    → i < length (s ++ (c ∷ t))
    → is_space_at (get_elem? (s ++ (c ∷ t)) i) ≡ true
blank_behind [] c t zero a h k = absurd (omega arith)
blank_behind [] c t (suc i) a h k = all_space-at t i a (omega arith)
blank_behind (b ∷ s) c t zero a h k = absurd (omega arith)
blank_behind (b ∷ s) c t (suc i) a h k = blank_behind s c t i a (omega arith) (omega arith)

trim_size-blank : (t : Text) (n : ℕ) → all_space t ≡ true → n ≤ length t → trim_size t n ≡ none
unfolding trim_size
trim_size-blank t zero a h = refl
trim_size-blank t (suc n) a h =
    rw (all_space-at t n a (omega arith)) (trim_size-blank t n a (omega arith))

trim_size-last :
    (s : Text) (c : ℕ) (t : Text) (n : ℕ)
    → is_space c ≡ false
    → all_space t ≡ true
    → length s < n
    → n ≤ length (s ++ (c ∷ t))
    → trim_size (s ++ (c ∷ t)) n ≡ some (suc (length s))
unfolding trim_size
trim_size-last s c t zero e a h k = absurd (omega arith)
trim_size-last s c t (suc n) e a h k = elim (Bool-cases (leb n (length s))) [
  | inl q ↦
      let m : n ≡ length s = omega (arith, leb→le n (length s) q) in
      rw (m, get_elem?-append s c t, e) refl
  | inr q ↦
      let l : length s < n = leb→lt n (length s) q in
      rw (blank_behind s c t n a l (omega arith)) (trim_size-last s c t n e a l (omega arith))
]

-- A text is all blanks, or it has a last byte that is none.
data LastByte (s : Text) : Type 0 where
  blank_text : all_space s ≡ true → LastByte s
  last_byte :
      (t : Text) (c : ℕ) (blanks : Text)
      → s ≡ t ++ (c ∷ blanks)
      → is_space c ≡ false
      → all_space blanks ≡ true
      → LastByte s

LastByte-cons : (b : ℕ) (s : Text) → LastByte s → LastByte (b ∷ s)
LastByte-cons b s (last_byte t c blanks e n a) = last_byte (b ∷ t) c blanks (ap (λ r. b ∷ r) e) n a
LastByte-cons b s (blank_text a) = elim (Bool-cases (is_space b)) [
  | inl e ↦ blank_text (rw e a)
  | inr e ↦ last_byte [] b s refl e a
]

text-LastByte : (s : Text) → LastByte s
text-LastByte [] = blank_text refl
text-LastByte (b ∷ s) = LastByte-cons b s (text-LastByte s)

-- What is to come of a command line and of what it prints.
pub data Evaluates (line out : Text) (o : Outcome) : Type 0 where
  line_too_long : 1022 < length line → o ≡ too_long → Evaluates line out o
  only_blanks : length line ≤ 1022 → all_space out ≡ true → o ≡ underrun line → Evaluates line out o
  trimmed :
      (s : Text) (c : ℕ) (blanks : Text)
      → length line ≤ 1022
      → out ≡ s ++ (c ∷ blanks)
      → is_space c ≡ false
      → all_space blanks ≡ true
      → o ≡ ran line (s ++ (c ∷ []))
      → Evaluates line out o

module _ (output_of : Text → Text) (words : List Text) where
  abbrev line : Text
  line = quoted_words [] words

  -- Where the quoted words have at most 1022 bytes and what their command line prints ends in a byte
  -- that is no blank, and blanks behind it, `evalFunc` runs the command line and then what it printed
  -- up to that byte.
  eval_func-trimmed :
      (s : Text) (c : ℕ) (blanks : Text)
      → length (quoted_words [] words) ≤ 1022
      → is_space c ≡ false
      → all_space blanks ≡ true
      → output_of (quoted_words [] words) ≡ s ++ (c ∷ blanks)
      → eval_func output_of words ≡ ran (quoted_words [] words) (s ++ (c ∷ []))
  unfolding eval_func run_line
  eval_func-trimmed s c blanks h e a o =
      rw
        (
          add_words-fits [] words h,
          o,
          trim_size-last s c blanks (length (s ++ (c ∷ blanks))) e a
              (omega (arith, length-append s (c ∷ blanks))) (omega arith),
        )
        (ap (ran (quoted_words [] words)) (take-append_suc s c blanks))

  -- Where the quoted words have at most 1022 bytes and their command line prints nothing or only
  -- blanks, `evalFunc` reads the byte before the buffer of the output.
  eval_func-underrun :
      length (quoted_words [] words) ≤ 1022
      → all_space (output_of (quoted_words [] words)) ≡ true
      → eval_func output_of words ≡ underrun (quoted_words [] words)
  unfolding eval_func run_line
  eval_func-underrun h a =
      rw
        (
          add_words-fits [] words h,
          trim_size-blank (output_of line) (length (output_of line)) a (omega arith),
        )
        refl

  -- Where the quoted words have more than 1022 bytes, `evalFunc` runs nothing.
  eval_func-too_long : 1022 < length (quoted_words [] words) → eval_func output_of words ≡ too_long
  unfolding eval_func run_line
  eval_func-too_long h = rw (add_words-long [] words (omega arith) h) refl

  eval_func-fits :
      length line ≤ 1022
      → LastByte (output_of line)
      → Evaluates line (output_of line) (eval_func output_of words)
  eval_func-fits h (blank_text a) = only_blanks h a (eval_func-underrun h a)
  eval_func-fits h (last_byte s c blanks o e a) =
      trimmed s c blanks h o e a (eval_func-trimmed s c blanks h e a o)

  -- `evalFunc` runs nothing if the line of its quoted words has more than 1022 bytes; else it runs that
  -- line and then what the line printed up to the last byte that is no blank, or, if there is no such
  -- byte, reads the byte before the buffer of the output.
  pub eval_func-Evaluates : Evaluates line (output_of line) (eval_func output_of words)
  eval_func-Evaluates = elim (Bool-cases (leb (length line) 1022)) [
    | inl e ↦ eval_func-fits (leb→le (length line) 1022 e) (text-LastByte (output_of line))
    | inr e ↦ let h = leb→lt (length line) 1022 e in line_too_long h (eval_func-too_long h)
  ]
