-- ===== src/Exec/Words.antt =====
-- The line of quoted words that the loop of `execFunc` in exec.c makes.
use iocsh_utilities.Base.{
  ℕ, ◌+◌, ◌≤◌, leb, leb→le, leb→lt, ◌≡◌, refl, Option, none, some, List, [], ◌∷◌, ◌++◌, Text, codes,
  length, length-append, arith, Bool-cases, inl, inr,
}
use iocsh_utilities.Exec.{split_special, special_text, quote, add_words}

-- The words as they read on the command line: each in double quotes behind a blank, but for a
-- special byte at its end, which stands behind the quotes.
abbrev pub quoted_words : Text → List Text → Text
quoted_words line [] = line
quoted_words line (arg ∷ args) = quoted_words (line ++ quote (split_special arg)) args

quoted_words-longer :
    (line : Text) (args : List Text) → length line ≤ length (quoted_words line args)
quoted_words-longer line [] = omega arith
quoted_words-longer line (arg ∷ args) =
    let t = quote (split_special arg) in
    omega (arith, quoted_words-longer (line ++ t) args, length-append line t)

special_text-length : (special : Option ℕ) → length (special_text special) ≤ 1
unfolding special_text
special_text-length none = omega arith
special_text-length (some c) = omega arith

-- A quoted word has three bytes more than the word, or four with a special byte.
quote-length :
    (word : Text) (special : Option ℕ)
    → (length word + 3 ≤ length (quote (word, special)))
      × (length (quote (word, special)) ≤ length word + 4)
unfolding quote
quote-length word special =
    let l = length-append word (codes "\"" ++ special_text special) in
    let k = special_text-length special in (omega (arith, l, k), omega (arith, l, k))

-- The two outcomes of the loop.
pub data Built (line : Text) (args : List Text) (r : Option Text) : Type 0 where
  fits :
      r ≡ some (quoted_words line args) → length (quoted_words line args) ≤ 1023 → Built line args r
  refused : r ≡ none → 1023 ≤ length (quoted_words line args) → Built line args r

Built-next :
    {line : Text} {arg : Text} {args : List Text} {r : Option Text}
    → Built (line ++ quote (split_special arg)) args r
    → Built line (arg ∷ args) r
Built-next (fits e h) = fits e h
Built-next (refused e h) = refused e h

-- The loop of `execFunc` never writes behind its buffer: from a line that fits into the buffer, the
-- line of all words is made and fits too, or the words are refused because it would have 1023 bytes
-- or more.
pub add_words-Built :
    (line : Text) (args : List Text) → length line ≤ 1023 → Built line args (add_words line args)
unfolding add_words
add_words-Built line [] h = fits refl h
add_words-Built line (arg ∷ args) h =
    let split = split_special arg in
    let (lo, hi) = quote-length split.0 split.1 in
    let l = length-append line (quote split) in
    elim (Bool-cases (leb 1024 (length line + length split.0 + 4))) [
      | inl e ↦ rw e (
          refused refl (
            omega (
              arith,
              leb→le 1024 (length line + length split.0 + 4) e,
              lo,
              l,
              quoted_words-longer (line ++ quote split) args,
            )))
      | inr e ↦ rw e (
          Built-next (
            add_words-Built (line ++ quote split) args
              (omega (arith, leb→lt 1024 (length line + length split.0 + 4) e, hi, l))))
    ]
