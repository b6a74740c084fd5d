-- ===== src/AfterInit/CommandText.antt =====
-- afterInit.c, the command line that `atInitStageIocsh` puts together in 256 bytes.
use iocsh_utilities.Base.{
  ℕ, ◌-◌, ◌==◌, leb, if◌then◌else◌, Bool, false, ◌||◌, List, [], ◌∷◌, ◌++◌, Text, length, take,
  codes,
}

-- `strpbrk(word, " ,\"\\")`.
unfoldable pub needs_quotes : Text → Bool
needs_quotes [] = false
needs_quotes (c ∷ s) = c == b' ' || c == b',' || c == b'"' || c == b'\\' || needs_quotes s

-- `%.*s` with the precision `room - n`. C takes a negative precision as if there were none.
unfoldable pub cut_word : ℕ → ℕ → Text → Text
cut_word room n w = if leb n room then take (room - n) w else w

-- One round of the loop: the text behind the command line so far, which has `n` bytes.
unfoldable pub word_text : ℕ → Text → Text
unfolding needs_quotes cut_word
word_text n w =
    if needs_quotes w
    then codes " '" ++ (cut_word 252 n w ++ codes "'")
    else codes " " ++ cut_word 254 n w

unfoldable pub append_words : Text → List Text → Text
unfolding word_text
append_words line [] = line
append_words line (w ∷ words) = append_words (line ++ word_text (length line) w) words

-- The first word is cut to 255 bytes.
unfoldable pub command_text : Text → List Text → Text
unfolding append_words
command_text w words = append_words (take 255 w) words
