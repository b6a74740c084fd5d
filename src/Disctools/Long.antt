-- ===== src/Disctools/Long.antt =====
-- disctools.c, `llOut`: the line that ll and dir print for one file. What `lstat` and the databases of
-- users and groups tell of it is the parameter `Stats`.
use iocsh_utilities.Base.{
  ℕ, ◌-◌, ◌^◌, ◌==◌, ltb, if◌then◌else◌, Bool, ◌||◌, Option, none, some, ◌∷◌, ◌++◌, Text, codes,
  length, take, replicate,
}
use iocsh_utilities.Threads.Affinity.{decimal}
use iocsh_utilities.Disctools.Grid.{padded}
use iocsh_utilities.Disctools.Mode.{mode_letters, type_letter}

pub record Stat : Type 0 where
  pub mode : ℕ
  pub n_links : ℕ
  -- The ids in 32 bits, and the names for them.
  pub uid : ℕ
  pub user : Option Text
  pub gid : ℕ
  pub group : Option Text
  pub size : ℕ
  pub major : ℕ
  pub minor : ℕ
  -- The time as `strftime` prints it.
  pub time : Text

pub data Looked : Type 0 where
  found : Stat → Looked
  no_access failed : Looked

pub record Stats : Type 0 where
  pub lstat : Text → Looked
  -- `readlink`, as far as it goes into 255 bytes.
  pub readlink : Text → Option Text

pub data Output : Type 0 where
  line : Text → Output
  -- The line of a link, and the message that its target cannot be read.
  line_and_error : Text → Text → Output
  error_for : Text → Output

-- `%4llu` and the like.
abbrev pub right : ℕ → Text → Text
right width s = replicate (width - length s) b' ' ++ s

-- `%d` of 32 bits.
abbrev pub signed : ℕ → Text
signed n = if ltb n (2 ^ 31) then decimal n else b'-' ∷ decimal (2 ^ 32 - n)

abbrev pub named : ℕ → Option Text → Text
named id none = padded 8 (signed id)
named id (some name) = padded 8 name

-- `S_ISCHR` or `S_ISBLK`.
abbrev pub is_device : ℕ → Bool
is_device mode = type_letter mode == b'c' || type_letter mode == b'b'

abbrev pub size_text : Stat → Text
size_text s =
    if is_device s.mode
    then right 3 (decimal s.major) ++ (codes ", " ++ right 3 (decimal s.minor))
    else right 8 (decimal s.size)

unfoldable pub stat_text : Stat → Text → Text
unfolding mode_letters
stat_text s filename =
    mode_letters s.mode
    ++ (b' '
        ∷ (right 4 (decimal s.n_links)
            ++ (b' '
                ∷ (named s.uid s.user
                    ++ (b' '
                        ∷ (named s.gid s.group
                            ++ (b' '
                                ∷ (size_text s ++ (b' ' ∷ (s.time ++ (b' ' ∷ filename)))))))))))

-- The 256 bytes of `fullname`.
abbrev pub full_name : Option Text → Text → Text
full_name none filename = take 255 filename
full_name (some dirname) filename = take 255 (dirname ++ (b'/' ∷ filename))

abbrev pub with_target : Text → Text → Option Text → Output
with_target text filename none = line_and_error text filename
with_target text filename (some target) = line (text ++ (codes " -> " ++ target))

module _ (stats : Stats) where
  -- `llOut`.
  unfoldable pub ll_out : Option Text → Text → Output
  unfolding stat_text
  ll_out dirname filename = elim (stats.lstat (full_name dirname filename)) [
    | found s ↦
        if type_letter s.mode == b'l'
        then with_target (stat_text s filename) filename
            (stats.readlink (full_name dirname filename))
        else line (stat_text s filename)
    | no_access ↦ line (codes "??????????    ? ?        ?               ?           ? " ++ filename)
    | failed ↦ error_for filename
  ]
