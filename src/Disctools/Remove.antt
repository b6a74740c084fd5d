-- ===== src/Disctools/Remove.antt =====
-- disctools.c, `rmFunc` and `rmPriv`: the command rm. The file system is the parameter `Disk`: what
-- `glob`, `unlink` and `rmdir` do. An allocation always succeeds.
pub mod Words
mod Ends
pub mod Depth
pub mod Files
mod Tests
use iocsh_utilities.Base.{
  ℕ, zero, suc, ◌==◌, if◌then◌else◌, ◌≡◌, refl, ap, Bool, true, false, not, ◌&&◌, ◌||◌, Option,
  none, some, List, [], ◌∷◌, ◌++◌, map, Text, codes, text_eq,
}

pub data Unlinked : Type 0 where
  removed missing is_directory not_removed : Unlinked

pub record Disk : Type 1 where
  pub State : Type 0
  -- The names, and the directories that `globerr` is told of.
  pub glob : State → Text → List Text × List Text
  pub unlink : State → Text → Unlinked × State
  -- Whether the directory was empty and is gone.
  pub rmdir : State → Text → Bool × State

pub data Output : Type 0 where
  glob_error error_for : Text → Output
  unknown_option : ℕ → Output

pub record Flags : Type 0 where
  pub r : Bool
  pub f : Bool

abbrev pub no_flags : Flags
no_flags = record { r = false; f = false }

-- One letter of an option, and all of them.
unfoldable pub letter : ℕ → Flags → Flags × List Output
letter c flags =
    if c == b'r'
    then (record { r = true; f = flags.f }, [])
    else if c == b'f'
    then (record { r = flags.r; f = true }, [])
    else (flags, unknown_option c ∷ [])

unfoldable pub letters : Text → Flags → Flags × List Output
unfolding letter
letters [] flags = (flags, [])
letters (c ∷ s) flags =
    let (flags', out) = letter c flags in let (last, rest) = letters s flags' in (last, out ++ rest)

abbrev pub is_option : Text → Bool
is_option [] = false
is_option (c ∷ s) = c == b'-'

abbrev pub ends_options : Text → Bool
ends_options s = text_eq s (codes "--")

abbrev pub tail : Text → Text
tail [] = []
tail (c ∷ s) = s

-- The first loop of `rmFunc`, which stops at `--`.
unfoldable pub read_flags : List Text → Flags → Flags × List Output
unfolding letters
read_flags [] flags = (flags, [])
read_flags (arg ∷ args) flags =
    let (flags', out) = letters (tail arg) flags in
    let (last, rest) = read_flags args flags' in
    let skipped = read_flags args flags in
    if not (is_option arg)
    then skipped
    else if ends_options arg
    then (flags, [])
    else (last, out ++ rest)

module _ (disk : Disk) where
  -- The state and the messages, or `none` if the fuel is used up.
  abbrev pub Result : Type 0
  Result = Option (disk.State × List Output)

  abbrev pub and_then : Result → (disk.State → Result) → Result
  and_then none g = none
  and_then (some (s, out)) g = elim (g s) [ none ↦ none | some (t, more) ↦ some (t, out ++ more) ]

  pub and_then-ext :
      (m : Result) (g h : disk.State → Result)
      → ((s : disk.State) → g s ≡ h s)
      → and_then m g ≡ and_then m h
  and_then-ext none g h e = refl
  and_then-ext (some (s, out)) g h e =
      ap (λ m. elim m [ none ↦ none | some (t, more) ↦ some (t, out ++ more) ]) (e s)

  abbrev pub remove_directory : Text → disk.State → Result
  remove_directory name s =
      let (gone, t) = disk.rmdir s name in some (t, (if gone then [] else error_for name ∷ []))

  -- Behind a failed `unlink`; `remove` is `rmPriv` on what the directory holds.
  abbrev pub after_unlink :
      (Text → disk.State → Result) → Flags → Text → Unlinked × disk.State → Result
  after_unlink remove flags name (removed, s) = some (s, [])
  after_unlink remove flags name (missing, s) =
      some (s, (if flags.f then [] else error_for name ∷ []))
  after_unlink remove flags name (is_directory, s) =
      if flags.r
      then and_then (remove (name ++ codes "/*") s) (remove_directory name)
      else some (s, error_for name ∷ [])
  after_unlink remove flags name (not_removed, s) = some (s, error_for name ∷ [])

  unfoldable pub rm_names : (Text → disk.State → Result) → Flags → List Text → disk.State → Result
  rm_names remove flags [] s = some (s, [])
  rm_names remove flags (name ∷ names) s =
      and_then (after_unlink remove flags name (disk.unlink s name)) (rm_names remove flags names)

  -- `rmPriv`, as deep as the fuel.
  unfoldable pub rm_priv : ℕ → Flags → Text → disk.State → Result
  unfolding rm_names
  rm_priv zero flags pattern s = none
  rm_priv (suc fuel) flags pattern s =
      let (names, errors) = disk.glob s pattern in
      and_then (some (s, map glob_error errors)) (rm_names (rm_priv fuel flags) flags names)

  -- The second loop of `rmFunc`, with `endflags`.
  unfoldable pub rm_words : ℕ → Flags → Bool → List Text → disk.State → Result
  unfolding rm_priv
  rm_words fuel flags end [] s = some (s, [])
  rm_words fuel flags end (arg ∷ args) s =
      let skipped = rm_words fuel flags (end || ends_options arg) args s in
      let removed = and_then (rm_priv fuel flags arg s) (rm_words fuel flags end args) in
      if not end && is_option arg then skipped else removed

  -- `rmFunc`.
  unfoldable pub rm_func : ℕ → List Text → disk.State → Result
  unfolding read_flags rm_words
  rm_func fuel args s =
      let (flags, out) = read_flags args no_flags in
      and_then (some (s, out)) (rm_words fuel flags false args)
