-- ===== src/Disctools/Remove/Depth.antt =====
-- That rm in disctools.c comes to an end.
use iocsh_utilities.Base.{
  ℕ, zero, suc, ◌+◌, ◌≤◌, ◌<◌, ◌==◌, if◌then◌else◌, ◌≡◌, refl, false, some, List, [], ◌∷◌, ◌++◌,
  All, All-map, Text, codes, has_byte, arith,
}
use iocsh_utilities.Disctools.Remove.{
  Disk, Flags, no_flags, Output, Unlinked, removed, missing, is_directory, not_removed, error_for,
  read_flags, and_then, after_unlink, remove_directory, rm_priv, rm_func,
}
use iocsh_utilities.Disctools.Remove.Ends.{
  Ends, Handled, PatternEnds, and_then-Ends, if-Ends, rm_priv-Ends, rm_func-Ends,
}

abbrev pub slashes : Text → ℕ
slashes [] = 0
slashes (c ∷ s) = (if c == b'/' then 1 else 0) + slashes s

-- A name without a brace, of at least `n` slashes.
abbrev pub Deep : ℕ → Text → Type 0
Deep n m = (n ≤ slashes m) × (has_byte b'{' m ≡ false)

-- The names that `glob` gives have no fewer slashes than a pattern without braces, nor a brace, since
-- no name on the disk has one; and a directory's name has fewer slashes than a path may have bytes.
pub record PathLaws (disk : Disk) (path_max : ℕ) : Type 0 where
  pub glob-deep :
      (s : disk.State) (pattern : Text)
      → has_byte b'{' pattern ≡ false
      → All (Deep (slashes pattern)) (disk.glob s pattern).0
  pub unlink-short :
      (s t : disk.State) (name : Text)
      → disk.unlink s name ≡ (is_directory, t)
      → slashes name < path_max

slashes-below : (name : Text) → slashes (name ++ codes "/*") ≡ slashes name + 1
slashes-below [] = refl
slashes-below (c ∷ s) = omega (arith, slashes-below s)

brace-below :
    (name : Text) → has_byte b'{' name ≡ false → has_byte b'{' (name ++ codes "/*") ≡ false
brace-below [] h = refl
brace-below (c ∷ s) h = ground (arith, brace-below s)

module _ (disk : Disk) where
  abbrev Anywhere : disk.State → Type 0
  Anywhere s = Unit

  module _ (path_max : ℕ) (laws : PathLaws disk path_max) (flags : Flags) where
    after_unlink-Ends :
        (fuel : ℕ) (name : Text) (s : disk.State) (u : Unlinked × disk.State)
        → disk.unlink s name ≡ u
        → ((t : disk.State)
            → slashes name < path_max
            → Ends disk Anywhere (rm_priv disk fuel flags (name ++ codes "/*") t))
        → Ends disk Anywhere (after_unlink disk (rm_priv disk fuel flags) flags name u)
    after_unlink-Ends fuel name s (removed, t) e h = (t, [], refl, tt)
    after_unlink-Ends fuel name s (missing, t) e h = (t, _, refl, tt)
    after_unlink-Ends fuel name s (not_removed, t) e h = (t, _, refl, tt)
    after_unlink-Ends fuel name s (is_directory, t) e h =
        if-Ends disk Anywhere flags.r
          (and_then disk (rm_priv disk fuel flags (name ++ codes "/*") t)
            (remove_directory disk name))
          (some (t, error_for name ∷ []))
          (and_then-Ends disk Anywhere (rm_priv disk fuel flags (name ++ codes "/*") t)
            (remove_directory disk name) (h t (laws.unlink-short s t name e))
            (λ v q. (_, _, refl, tt)))
          (t, _, refl, tt)

    pattern-Ends :
        (fuel : ℕ) (pattern : Text) (s : disk.State)
        → has_byte b'{' pattern ≡ false
        → path_max ≤ slashes pattern + fuel
        → Ends disk Anywhere (rm_priv disk (suc fuel) flags pattern s)
    pattern-Ends zero pattern s b l =
        rm_priv-Ends disk Anywhere zero flags pattern s
          (All-map (Deep (slashes pattern)) (Handled disk Anywhere (rm_priv disk zero flags) flags)
            (disk.glob s pattern).0
            (λ name (d, _) t _.
              after_unlink-Ends zero name t (disk.unlink t name) refl
                (λ v short. absurd (omega arith)))
            (laws.glob-deep s pattern b))
          tt
    pattern-Ends (suc fuel) pattern s b l =
        rm_priv-Ends disk Anywhere (suc fuel) flags pattern s
          (All-map (Deep (slashes pattern))
            (Handled disk Anywhere (rm_priv disk (suc fuel) flags) flags) (disk.glob s pattern).0
            (λ name (d, plain) t _.
              after_unlink-Ends (suc fuel) name t (disk.unlink t name) refl (λ v short.
                pattern-Ends fuel (name ++ codes "/*") v (brace-below name plain)
                  (omega (arith, slashes-below name))))
            (laws.glob-deep s pattern b))
          tt

  -- Where no word has a brace, and under the laws, rm comes to an end: it goes no deeper than a path
  -- may have bytes, and one.
  pub rm_func-ends :
      (path_max : ℕ)
      → PathLaws disk path_max
      → (args : List Text) (s : disk.State) → All (λ arg. has_byte b'{' arg ≡ false) args
      → (t : disk.State) × (out : List Output) × (rm_func disk (suc path_max) args s
          ≡ some (t, out))
  rm_func-ends path_max laws args s h =
      let flags = (read_flags args no_flags).0 in
      let (t, out, e, _) =
        rm_func-Ends disk Anywhere (suc path_max) args
          (All-map (λ arg. has_byte b'{' arg ≡ false)
            (PatternEnds disk Anywhere (suc path_max) flags) args
            (λ arg b s _. pattern-Ends path_max laws flags path_max arg s b (omega arith)) h)
          s tt in
      (t, out, e)
