-- ===== src/Disctools/Remove/Ends.antt =====
-- Runs of rm in disctools.c that come to an end, in a state of which a predicate holds.
use iocsh_utilities.Base.{
  ℕ, suc, if◌then◌else◌, ◌≡◌, refl, Bool, true, false, not, ◌&&◌, ◌||◌, some, List, [], ◌∷◌, ◌++◌,
  map, All, Text, Bool-cases, inl, inr,
}
use iocsh_utilities.Disctools.Remove.{
  Disk, Flags, no_flags, Output, glob_error, read_flags, is_option, ends_options, Result, and_then,
  after_unlink, rm_names, rm_priv, rm_words, rm_func,
}

module _ (disk : Disk) where
  -- A result, in a state that `P` holds of.
  abbrev pub Ends : (disk.State → Type 0) → Result disk → Type 0
  Ends P m = (t : disk.State) × (out : List Output) × (m ≡ some (t, out)) × P t

  module _ (P : disk.State → Type 0) where
    pub and_then-Ends :
        (m : Result disk) (g : disk.State → Result disk)
        → Ends P m
        → ((s : disk.State) → P s → Ends P (g s))
        → Ends P (and_then disk m g)
    and_then-Ends m g (s, out, e, p) f =
        let (t, more, e', q) = f s p in (t, out ++ more, rw (e, and_then, e') refl, q)

    pub if-Ends : (b : Bool) (m o : Result disk) → Ends P m → Ends P o → Ends P (if b then m else o)
    if-Ends true m o h g = h
    if-Ends false m o h g = g

    -- What is needed of one name with the way to remove what a directory holds.
    abbrev pub Handled : (Text → disk.State → Result disk) → Flags → Text → Type 0
    Handled remove flags name =
        (s : disk.State) → P s → Ends P (after_unlink disk remove flags name (disk.unlink s name))

    pub rm_names-Ends :
        (remove : Text → disk.State → Result disk) (flags : Flags) (names : List Text)
        → All (Handled remove flags) names
        → (s : disk.State) → P s
        → Ends P (rm_names disk remove flags names s)
    unfolding rm_names
    rm_names-Ends remove flags [] h s p = (s, [], refl, p)
    rm_names-Ends remove flags (name ∷ names) (h, hs) s p =
        and_then-Ends (after_unlink disk remove flags name (disk.unlink s name))
          (rm_names disk remove flags names) (h s p)
          (λ t q. rm_names-Ends remove flags names hs t q)

    abbrev pub PatternEnds : ℕ → Flags → Text → Type 0
    PatternEnds fuel flags arg = (s : disk.State) → P s → Ends P (rm_priv disk fuel flags arg s)

    rm_words-Ends :
        (fuel : ℕ) (flags : Flags) (end : Bool) (args : List Text)
        → All (PatternEnds fuel flags) args
        → (s : disk.State) → P s
        → Ends P (rm_words disk fuel flags end args s)
    unfolding rm_words
    rm_words-Ends fuel flags end [] h s p = (s, [], refl, p)
    rm_words-Ends fuel flags end (arg ∷ args) (h, hs) s p =
        elim (Bool-cases (not end && is_option arg)) [
          | inl e ↦ rw e (rm_words-Ends fuel flags (end || ends_options arg) args hs s p)
          | inr e ↦ rw e (
              and_then-Ends (rm_priv disk fuel flags arg s) (rm_words disk fuel flags end args)
                (h s p) (λ t q. rm_words-Ends fuel flags end args hs t q))
        ]

    pub rm_func-Ends :
        (fuel : ℕ) (args : List Text)
        → All (PatternEnds fuel (read_flags args no_flags).0) args
        → (s : disk.State) → P s
        → Ends P (rm_func disk fuel args s)
    unfolding rm_func
    rm_func-Ends fuel args h s p =
        let (flags, out) = read_flags args no_flags in
        and_then-Ends (some (s, out)) (rm_words disk fuel flags false args) (s, out, refl, p)
          (λ t q. rm_words-Ends fuel flags false args h t q)

    pub rm_priv-Ends :
        (fuel : ℕ) (flags : Flags) (pattern : Text) (s : disk.State)
        → All (Handled (rm_priv disk fuel flags) flags) (disk.glob s pattern).0
        → P s
        → Ends P (rm_priv disk (suc fuel) flags pattern s)
    unfolding rm_priv
    rm_priv-Ends fuel flags pattern s h p =
        let (names, errors) = disk.glob s pattern in
        let (t, out, e, q) = rm_names-Ends (rm_priv disk fuel flags) flags names h s p in
        (t, map glob_error errors ++ out, rw (and_then, e) refl, q)
