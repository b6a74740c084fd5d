-- ===== src/Disctools/Remove/Words.antt =====
-- Which words rm in disctools.c takes for options and which for files.
use iocsh_utilities.Base.{
  ℕ, ◌==◌, if◌then◌else◌, ◌≡◌, refl, sym, ap, ap₂, ◌∙◌, Bool, true, false, ◌||◌, some, List, [],
  ◌∷◌, ◌++◌, map, map-append, Text, codes, has_byte, arith, Bool-cases, inl, inr, or-left, or-right,
}
use iocsh_utilities.Disctools.Remove.{
  Disk, Flags, no_flags, Output, unknown_option, letter, letters, is_option, ends_options, tail,
  read_flags, Result, and_then, and_then-ext, rm_priv, rm_words, rm_func,
}

-- Whether a word is `--`.
abbrev pub has_dashes : List Text → Bool
has_dashes [] = false
has_dashes (w ∷ ws) = ends_options w || has_dashes ws

-- The words that do not begin with a dash.
abbrev pub operands : List Text → List Text
operands [] = []
operands (w ∷ ws) = if is_option w then operands ws else w ∷ operands ws

-- The letters behind the dashes of the others.
abbrev pub option_letters : List Text → Text
option_letters [] = []
option_letters (w ∷ ws) = if is_option w then tail w ++ option_letters ws else option_letters ws

abbrev pub unknown_letters : Text → Text
unknown_letters [] = []
unknown_letters (c ∷ s) =
    if c == b'r' || c == b'f' then unknown_letters s else c ∷ unknown_letters s

abbrev pub set_flags : Flags → Text → Flags
set_flags flags s = record { r = flags.r || has_byte b'r' s; f = flags.f || has_byte b'f' s }

or_end : (a : Bool) → a || false ≡ a
or_end a = ground arith

or_assoc : (a b c : Bool) → (a || b) || c ≡ a || (b || c)
or_assoc a b c = ground arith

has_byte-append : (c : ℕ) (s t : Text) → has_byte c s || has_byte c t ≡ has_byte c (s ++ t)
has_byte-append c [] t = refl
has_byte-append c (b ∷ s) t =
    or_assoc (b == c) (has_byte c s) (has_byte c t) ∙ ap (λ x. b == c || x) (has_byte-append c s t)

set_flags-nil : (flags : Flags) → set_flags flags [] ≡ flags
set_flags-nil flags = ap₂ (λ r f. record { r = r; f = f }) (or_end flags.r) (or_end flags.f)

set_flags-append :
    (flags : Flags) (s t : Text) → set_flags (set_flags flags s) t ≡ set_flags flags (s ++ t)
set_flags-append flags s t =
    ap₂ (λ r f. record { r = r; f = f })
      (or_assoc flags.r (has_byte b'r' s) (has_byte b'r' t)
        ∙ ap (λ x. flags.r || x) (has_byte-append b'r' s t))
      (or_assoc flags.f (has_byte b'f' s) (has_byte b'f' t)
        ∙ ap (λ x. flags.f || x) (has_byte-append b'f' s t))

unknown-append : (s t : Text) → unknown_letters s ++ unknown_letters t ≡ unknown_letters (s ++ t)
unknown-append [] t = refl
unknown-append (c ∷ s) t = elim (Bool-cases (c == b'r' || c == b'f')) [
  | inl e ↦ rw e (unknown-append s t)
  | inr e ↦ rw e (ap (λ r. c ∷ r) (unknown-append s t))
]

abbrev messages : Text → List Output
messages s = map unknown_option (unknown_letters s)

messages-append : (s t : Text) → messages s ++ messages t ≡ messages (s ++ t)
messages-append s t =
    sym (map-append unknown_option (unknown_letters s) (unknown_letters t))
    ∙ ap (map unknown_option) (unknown-append s t)

or_true : (a : Bool) → a || true ≡ true
or_true a = ground arith

r_alone : (c : ℕ) → (c == b'r') ≡ true → (c == b'f') ≡ false
r_alone c e = ground arith

letter-set_flags :
    (c : ℕ) (flags : Flags) → letter c flags ≡ (set_flags flags (c ∷ []), messages (c ∷ []))
unfolding letter
letter-set_flags c flags = elim (Bool-cases (c == b'r')) [
  | inl e ↦
      rw (e, r_alone c e)
        (ap₂ (λ r f. (record { r = r; f = f }, [])) (sym (or_true flags.r)) (sym (or_end flags.f)))
  | inr e ↦ elim (Bool-cases (c == b'f')) [
    | inl e' ↦
        rw (e, e')
          (ap₂ (λ r f. (record { r = r; f = f }, [])) (sym (or_end flags.r))
            (sym (or_true flags.f)))
    | inr e' ↦
        rw (e, e')
          (ap₂ (λ r f. (record { r = r; f = f }, unknown_option c ∷ [])) (sym (or_end flags.r))
            (sym (or_end flags.f)))
  ]
]

letters-set_flags : (s : Text) (flags : Flags) → letters s flags ≡ (set_flags flags s, messages s)
unfolding letters
letters-set_flags [] flags = ap (λ x. (x, [])) (sym (set_flags-nil flags))
letters-set_flags (c ∷ s) flags =
    rw
      (
        letter-set_flags c flags,
        letters-set_flags s (set_flags flags (c ∷ [])),
        set_flags-append flags (c ∷ []) s,
      )
      (ap (λ x. (set_flags flags (c ∷ s), x)) (messages-append (c ∷ []) s))

pub read_flags-letters :
    (ws : List Text) (flags : Flags)
    → has_dashes ws ≡ false
    → read_flags ws flags ≡ (set_flags flags (option_letters ws), messages (option_letters ws))
unfolding read_flags
read_flags-letters [] flags h = ap (λ x. (x, [])) (sym (set_flags-nil flags))
read_flags-letters (w ∷ ws) flags h = elim (Bool-cases (is_option w)) [
  | inl e ↦
      rw
        (
          e,
          or-left (ends_options w) (has_dashes ws) h,
          letters-set_flags (tail w) flags,
          read_flags-letters ws (set_flags flags (tail w))
              (or-right (ends_options w) (has_dashes ws) h),
          set_flags-append flags (tail w) (option_letters ws),
        )
        (ap (λ x. (set_flags flags (tail w ++ option_letters ws), x))
          (messages-append (tail w) (option_letters ws)))
  | inr e ↦ rw e (read_flags-letters ws flags (or-right (ends_options w) (has_dashes ws) h))
]

pub read_flags-dashes :
    (ws after : List Text) (flags : Flags)
    → has_dashes ws ≡ false
    → read_flags (ws ++ (codes "--" ∷ after)) flags ≡ read_flags ws flags
unfolding read_flags
read_flags-dashes [] after flags h = refl
read_flags-dashes (w ∷ ws) after flags h =
    let h' = or-right (ends_options w) (has_dashes ws) h in
    rw
      (
        read_flags-dashes ws after flags h',
        read_flags-dashes ws after (letters (tail w) flags).0 h',
      )
      refl

module _ (disk : Disk) where
  -- Removes each word in turn, whatever it begins with.
  abbrev pub rm_all : ℕ → Flags → List Text → disk.State → Result disk
  rm_all fuel flags [] s = some (s, [])
  rm_all fuel flags (w ∷ ws) s = and_then disk (rm_priv disk fuel flags w s) (rm_all fuel flags ws)

  rm_words-after :
      (fuel : ℕ) (flags : Flags) (ws : List Text) (s : disk.State)
      → rm_words disk fuel flags true ws s ≡ rm_all fuel flags ws s
  unfolding rm_words
  rm_words-after fuel flags [] s = refl
  rm_words-after fuel flags (w ∷ ws) s =
      and_then-ext disk (rm_priv disk fuel flags w s) (rm_words disk fuel flags true ws)
        (rm_all fuel flags ws) (λ t. rm_words-after fuel flags ws t)

  rm_words-dashes :
      (fuel : ℕ) (flags : Flags) (ws after : List Text) (s : disk.State)
      → has_dashes ws ≡ false
      → rm_words disk fuel flags false (ws ++ (codes "--" ∷ after)) s
        ≡ rm_all fuel flags (operands ws ++ after) s
  unfolding rm_words
  rm_words-dashes fuel flags [] after s h = rm_words-after fuel flags after s
  rm_words-dashes fuel flags (w ∷ ws) after s h = elim (Bool-cases (is_option w)) [
    | inl e ↦
        rw (e, or-left (ends_options w) (has_dashes ws) h)
          (rm_words-dashes fuel flags ws after s (or-right (ends_options w) (has_dashes ws) h))
    | inr e ↦ rw e (
        and_then-ext disk (rm_priv disk fuel flags w s)
          (rm_words disk fuel flags false (ws ++ (codes "--" ∷ after)))
          (rm_all fuel flags (operands ws ++ after))
          (λ t.
            rm_words-dashes fuel flags ws after t (or-right (ends_options w) (has_dashes ws) h)))
  ]

  rm_words-plain :
      (fuel : ℕ) (flags : Flags) (ws : List Text) (s : disk.State)
      → has_dashes ws ≡ false
      → rm_words disk fuel flags false ws s ≡ rm_all fuel flags (operands ws) s
  unfolding rm_words
  rm_words-plain fuel flags [] s h = refl
  rm_words-plain fuel flags (w ∷ ws) s h = elim (Bool-cases (is_option w)) [
    | inl e ↦
        rw (e, or-left (ends_options w) (has_dashes ws) h)
          (rm_words-plain fuel flags ws s (or-right (ends_options w) (has_dashes ws) h))
    | inr e ↦ rw e (
        and_then-ext disk (rm_priv disk fuel flags w s) (rm_words disk fuel flags false ws)
          (rm_all fuel flags (operands ws))
          (λ t. rm_words-plain fuel flags ws t (or-right (ends_options w) (has_dashes ws) h)))
  ]

  -- Where no word is `--`, rm reports the letters behind the dashes other than `r` and `f`, sets the
  -- flags that they name, and removes the words that begin with no dash, each in its turn; `--` and
  -- more words behind these have just these words removed as well, whatever they begin with.
  pub rm_func-words :
      (fuel : ℕ) (ws after : List Text) (s : disk.State)
      → has_dashes ws ≡ false
      → (rm_func disk fuel ws s
          ≡ and_then disk
              (some (s, messages (option_letters ws)))
              (rm_all fuel (set_flags no_flags (option_letters ws)) (operands ws)))
        × (rm_func disk fuel (ws ++ (codes "--" ∷ after)) s
            ≡ and_then disk
                (some (s, messages (option_letters ws)))
                (rm_all fuel (set_flags no_flags (option_letters ws)) (operands ws ++ after)))
  unfolding rm_func
  rm_func-words fuel ws after s h =
      let e = read_flags-letters ws no_flags h in
      let flags = set_flags no_flags (option_letters ws) in
      let out = messages (option_letters ws) in
      (
        rw e (
            and_then-ext disk (some (s, out)) (rm_words disk fuel flags false ws)
              (rm_all fuel flags (operands ws)) (λ t. rm_words-plain fuel flags ws t h)),
        rw (read_flags-dashes ws after no_flags h, e)
            (and_then-ext disk (some (s, out))
              (rm_words disk fuel flags false (ws ++ (codes "--" ∷ after)))
              (rm_all fuel flags (operands ws ++ after))
              (λ t. rm_words-dashes fuel flags ws after t h)),
      )
