-- ===== src/Disctools/Copy.antt =====
-- disctools.c: the commands cp, copy and mv. The streams of the C library and the calls of the system
-- are the parameters `Streams` and `Names`.
pub mod Whole
mod Tests
use iocsh_utilities.Base.{
  ℕ, zero, suc, ◌==◌, if◌then◌else◌, Bool, true, false, ◌&&◌, Option, none, some, List, [], ◌∷◌,
  ◌++◌, Text, codes, length, take,
}

pub record Streams : Type 1 where
  pub State : Type 0
  pub Stream : Type 0
  pub stdin : Stream
  pub stdout : Stream
  -- Open a file to read it or to write it anew.
  pub open_source : State → Text → Option (Stream × State)
  pub open_target : State → Text → Option (Stream × State)
  -- The next bytes, at most as many as given.
  pub fread : State → Stream → ℕ → Text × State
  pub fwrite : State → Stream → Text → State
  pub feof : State → Stream → Bool
  pub ferror : State → Stream → Bool
  pub close : State → Stream → State
  pub flush : State → Stream → State

pub data Output : Type 0 where
  error_for : Option Text → Output
  two_names : Output

module _ (streams : Streams) where
  -- A name, or a stream that stands for none.
  abbrev pub Opened : Type 0
  Opened = Option (streams.Stream × streams.State)

  -- Behind `fread` in the loop of `cpFunc`: whether the loop goes on.
  unfoldable pub write_chunk :
      Option Text
      → Option Text
      → streams.Stream
      → streams.Stream
      → Text × streams.State
      → Bool × streams.State × List Output
  write_chunk sourcename targetname source target (buffer, s) =
      let t = streams.fwrite s target buffer in
      if streams.ferror s source
      then (false, s, error_for sourcename ∷ [])
      else if streams.ferror t target
      then (false, t, error_for targetname ∷ [])
      else (true, t, [])

  -- The loop, with `none` where the fuel is used up.
  unfoldable pub copy_loop :
      ℕ
      → Option Text
      → Option Text
      → streams.Stream
      → streams.Stream
      → streams.State
      → Option (streams.State × List Output)
  unfolding write_chunk
  copy_loop zero sourcename targetname source target s = none
  copy_loop (suc fuel) sourcename targetname source target s =
      let (again, t, out) =
        write_chunk sourcename targetname source target (streams.fread s source 256) in
      let rest = copy_loop fuel sourcename targetname source target t in
      if streams.feof s source then some (s, []) else if again then rest else some (t, out)

  abbrev pub open_or : streams.Stream → (Text → Opened) → Option Text → streams.State → Opened
  open_or standard opener none s = some (standard, s)
  open_or standard opener (some []) s = some (standard, s)
  open_or standard opener (some (c ∷ name)) s = opener (c ∷ name)

  -- A name that is NULL or empty stands for the standard stream, which is not closed.
  abbrev pub is_standard : Option Text → Bool
  is_standard none = true
  is_standard (some []) = true
  is_standard (some (c ∷ name)) = false

  abbrev pub close_both :
      Option Text → Option Text → streams.Stream → streams.Stream → streams.State → streams.State
  close_both sourcename targetname source target s =
      let t = if is_standard sourcename then s else streams.close s source in
      if is_standard targetname then streams.flush t streams.stdout else streams.close t target

  -- `cpFunc`. Where the target cannot be opened the source stays open.
  unfoldable pub cp_func :
      ℕ → Option Text → Option Text → streams.State → Option (streams.State × List Output)
  unfolding copy_loop
  cp_func fuel sourcename targetname s =
      elim (open_or streams.stdin (streams.open_source s) sourcename s) [
        | none ↦ some (s, error_for sourcename ∷ [])
        | some (source, t) ↦ elim (open_or streams.stdout (streams.open_target t) targetname t) [
          | none ↦ some (t, error_for targetname ∷ [])
          | some (target, u) ↦ elim (copy_loop fuel sourcename targetname source target u) [
            | none ↦ none
            | some (v, out) ↦ some (close_both sourcename targetname source target v, out)
          ]
        ]
      ]

pub record Names : Type 1 where
  pub State : Type 0
  -- `!stat(...) && S_ISDIR(...)`.
  pub is_dir : State → Text → Bool
  -- Whether it failed.
  pub rename : State → Text → Text → Bool × State

module _ (names : Names) where
  -- `snprintf` into the 256 bytes of `filename`.
  unfoldable pub new_name : names.State → Text → Text → Text
  new_name s oldname newname =
      if names.is_dir s newname then take 255 (newname ++ (b'/' ∷ oldname)) else newname

  -- `mvFunc`.
  unfoldable pub mv_func : Option Text → Option Text → names.State → names.State × List Output
  unfolding new_name
  mv_func none newname s = (s, two_names ∷ [])
  mv_func (some oldname) none s = (s, two_names ∷ [])
  mv_func (some oldname) (some newname) s =
      let (failed, t) = names.rename s oldname (new_name s oldname newname) in
      (t, (if failed then error_for (some (codes "mv")) ∷ [] else []))
