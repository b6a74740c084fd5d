-- ===== src/AfterInit/CommandLine.antt =====
-- The command line that `atInitStageIocsh` of afterInit.c stores: when it is whole, and when it is
-- written behind the end of its buffer.
use iocsh_utilities.Base.{
  ℕ, ◌+◌, ◌-◌, ◌≤◌, leb, ltb, ltb-ge, ltb-lt, if◌then◌else◌, ◌≡◌, refl, ap, Bool, true, false, List,
  [], ◌∷◌, ◌++◌, Text, codes, length, take, length-append, length-take, take_all, arith, Bool-cases,
  inl, inr,
}
use iocsh_utilities.AfterInit.Hooks.{Hook}
use iocsh_utilities.AfterInit.CommandText.{
  needs_quotes, cut_word, word_text, append_words, command_text,
}
use iocsh_utilities.AfterInit.{
  State, shell, register_hook, link_item, new_item, fill_item, store_command, stored, overrun,
  at_init_stage_iocsh,
}

-- A word as it reads on the command line, whole.
abbrev pub quoted : Text → Text
quoted w = if needs_quotes w then codes " '" ++ (w ++ codes "'") else codes " " ++ w

abbrev pub whole_line : Text → List Text → Text
whole_line line [] = line
whole_line line (w ∷ words) = whole_line (line ++ quoted w) words

whole_line-longer : (line : Text) (words : List Text) → length line ≤ length (whole_line line words)
whole_line-longer line [] = omega arith
whole_line-longer line (w ∷ words) =
    omega (arith, whole_line-longer (line ++ quoted w) words, length-append line (quoted w))

cut_word-whole : (room n : ℕ) (w : Text) → length w ≤ room - n → cut_word room n w ≡ w
unfolding cut_word
cut_word-whole room n w h = elim (Bool-cases (leb n room)) [
  | inl e ↦ rw e (take_all (room - n) w h)
  | inr e ↦ rw e refl
]

word_text-if :
    (b : Bool) (n : ℕ) (w : Text)
    → n + length (if b then codes " '" ++ (w ++ codes "'") else codes " " ++ w) ≤ 255
    → (if b then codes " '" ++ (cut_word 252 n w ++ codes "'") else codes " " ++ cut_word 254 n w)
      ≡ (if b then codes " '" ++ (w ++ codes "'") else codes " " ++ w)
word_text-if true n w h =
    ap (λ v. codes " '" ++ (v ++ codes "'"))
      (cut_word-whole 252 n w (omega (arith, length-append w (codes "'"))))
word_text-if false n w h = ap (λ v. codes " " ++ v) (cut_word-whole 254 n w (omega arith))

word_text-whole : (n : ℕ) (w : Text) → n + length (quoted w) ≤ 255 → word_text n w ≡ quoted w
unfolding word_text
word_text-whole n w h = word_text-if (needs_quotes w) n w h

append_words-whole :
    (line : Text) (words : List Text)
    → length (whole_line line words) ≤ 255
    → append_words line words ≡ whole_line line words
unfolding append_words
append_words-whole line [] h = refl
append_words-whole line (w ∷ words) h =
    let e : word_text (length line) w ≡ quoted w =
      word_text-whole (length line) w (
        omega (arith, whole_line-longer (line ++ quoted w) words, length-append line (quoted w))) in
    rw e (append_words-whole (line ++ quoted w) words h)

command_text-whole :
    (w : Text) (words : List Text)
    → length (whole_line w words) ≤ 255
    → command_text w words ≡ whole_line w words
unfolding command_text
command_text-whole w words h =
    rw (take_all 255 w (omega (arith, whole_line-longer w words))) (append_words-whole w words h)

-- Behind a first word that fills the buffer there is no room, and nothing is cut any more.
append_words-longer :
    (line : Text) (words : List Text) → length line ≤ length (append_words line words)
unfolding append_words
append_words-longer line [] = omega arith
append_words-longer line (w ∷ words) =
    let t = word_text (length line) w in
    omega (arith, append_words-longer (line ++ t) words, length-append line t)

word_text-not_empty : (n : ℕ) (w : Text) → 1 ≤ length (word_text n w)
unfolding word_text
word_text-not_empty n w = elim (Bool-cases (needs_quotes w)) [
  | inl e ↦ rw e (omega arith)
  | inr e ↦ rw e (omega arith)
]

command_text-long :
    (w v : Text) (words : List Text) → 255 ≤ length w → 256 ≤ length (command_text w (v ∷ words))
unfolding command_text append_words
command_text-long w v words h =
    let line = take 255 w in
    let t = word_text (length line) v in
    omega (
      arith,
      length-take 255 w,
      length-append line t,
      word_text-not_empty (length line) v,
      append_words-longer (line ++ t) words,
    )

module _ (hooks : Hook → ℕ) (when : ℕ) (s : State) where
  -- Where the command as it was typed, with each word that holds a blank, a comma, a double quote or a
  -- backslash in single quotes, has at most 255 bytes, and interrupts are not yet accepted and there is
  -- memory, `atInitStageIocsh` stores it whole in a new item for the hook.
  pub at_init_stage_iocsh-whole_line :
      (w : Text) (words : List Text)
      → length (whole_line w words) ≤ 255
      → at_init_stage_iocsh hooks false true when (w ∷ words) s
        ≡ stored (
            fill_item
              (register_hook s).fresh
              (shell (whole_line w words))
              (link_item hooks when (register_hook s).fresh (register_hook s)))
  unfolding at_init_stage_iocsh new_item store_command
  at_init_stage_iocsh-whole_line w words h =
      let k : ltb (length (whole_line w words)) 256 ≡ true =
        ltb-lt (length (whole_line w words)) 256 (omega arith) in
      rw (command_text-whole w words h, k) refl

  -- Where the first word of the command has 255 bytes or more and another word follows, the buffer of
  -- 256 bytes is overrun, if interrupts are not yet accepted and there is memory.
  pub at_init_stage_iocsh-overrun :
      (w v : Text) (words : List Text)
      → 255 ≤ length w
      → at_init_stage_iocsh hooks false true when (w ∷ v ∷ words) s ≡ overrun
  unfolding at_init_stage_iocsh new_item store_command
  at_init_stage_iocsh-overrun w v words h =
      let k : ltb (length (command_text w (v ∷ words))) 256 ≡ false =
        ltb-ge (length (command_text w (v ∷ words))) 256 (command_text-long w v words h) in
      rw k refl
