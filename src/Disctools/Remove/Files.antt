-- ===== src/Disctools/Remove/Files.antt =====
-- What rm in disctools.c keeps where no option is `-r`.
use iocsh_utilities.Base.{
  if◌then◌else◌, ◌≡◌, refl, ap, ◌∙◌, has_byte, false, some, List, [], ◌∷◌, ◌++◌, All, Text, codes,
}
use iocsh_utilities.Disctools.Remove.{
  Disk, Flags, no_flags, Output, Unlinked, removed, missing, is_directory, not_removed, error_for,
  read_flags, Result, and_then, after_unlink, remove_directory, rm_priv, rm_func,
}
use iocsh_utilities.Disctools.Remove.Words.{
  has_dashes, option_letters, read_flags-letters, read_flags-dashes,
}
use iocsh_utilities.Disctools.Remove.Ends.{Ends, Handled, PatternEnds, rm_priv-Ends, rm_func-Ends}

module _ (disk : Disk) where
  module _ (P : disk.State → Type 0)
      (kept : (s : disk.State) (name : Text) → P s → P (disk.unlink s name).1) where
    handled-keeps :
        (remove : Text → disk.State → Result disk) (flags : Flags) (name : Text)
        → flags.r ≡ false
        → (u : Unlinked × disk.State) → P u.1
        → Ends disk P (after_unlink disk remove flags name u)
    handled-keeps remove flags name r (removed, t) p = (t, [], refl, p)
    handled-keeps remove flags name r (missing, t) p = (t, _, refl, p)
    handled-keeps remove flags name r (not_removed, t) p = (t, _, refl, p)
    handled-keeps remove flags name r (is_directory, t) p = (
      t,
      error_for name ∷ [],
      ap
          (λ b.
            if b
            then and_then disk (remove (name ++ codes "/*") t) (remove_directory disk name)
            else some (t, error_for name ∷ []))
          r,
      p,
    )

    names-Handled :
        (remove : Text → disk.State → Result disk) (flags : Flags)
        → flags.r ≡ false
        → (names : List Text) → All (Handled disk P remove flags) names
    names-Handled remove flags r [] = tt
    names-Handled remove flags r (name ∷ names) = (
      λ s p. handled-keeps remove flags name r (disk.unlink s name) (kept s name p),
      names-Handled remove flags r names,
    )

    args-PatternEnds :
        (args : List Text) (flags : Flags) → flags.r ≡ false → All (PatternEnds disk P 1 flags) args
    args-PatternEnds [] flags r = tt
    args-PatternEnds (arg ∷ args) flags r = (
      λ s p.
          rm_priv-Ends disk P 0 flags arg s
            (names-Handled (rm_priv disk 0 flags) flags r (disk.glob s arg).0) p,
      args-PatternEnds args flags r,
    )

    -- What the flags say of `r` is what the words say.
    ends_with :
        (args : List Text) (s : disk.State)
        → (read_flags args no_flags).0.r ≡ false
        → P s
        → (t : disk.State) × (out : List Output) × (rm_func disk 1 args s ≡ some (t, out)) × P t
    ends_with args s r p =
        let flags = (read_flags args no_flags).0 in
        rm_func-Ends disk P 1 args (args-PatternEnds args flags r) s p

    -- Where no word is `--`, and no word that begins with a dash has the letter `r` behind it, rm of
    -- these words, and of these, `--` and whatever words behind it, comes to an end without going down
    -- into a directory, and keeps what each single `unlink` keeps.
    pub rm_func-keeps :
        (ws after : List Text) (s : disk.State)
        → has_dashes ws ≡ false
        → has_byte b'r' (option_letters ws) ≡ false
        → P s
        → ((t : disk.State) × (out : List Output) × (rm_func disk 1 ws s ≡ some (t, out)) × P t)
          × ((t : disk.State) × (out : List Output) × (rm_func disk 1 (ws ++ (codes "--" ∷ after)) s
                ≡ some (t, out))
              × P t)
    rm_func-keeps ws after s h r p =
        let e = ap (λ x. x.0.r) (read_flags-letters ws no_flags h) ∙ r in
        (
          ends_with ws s e p,
          ends_with (ws ++ (codes "--" ∷ after)) s
              (ap (λ x. x.0.r) (read_flags-dashes ws after no_flags h) ∙ e) p,
        )
