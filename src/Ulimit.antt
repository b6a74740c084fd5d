-- ===== src/Ulimit.antt =====
-- ulimit.c, `ulimitFunc`, for Linux with glibc and 64-bit numbers: the limits of the process are shown
-- or set. The kernel's part, `getrlimit` and `setrlimit`, is the parameter `System`; the resources are
-- known by the letters of their options.
pub mod Letters
pub mod Named
pub mod Values
mod Tests
use iocsh_utilities.Base.{
  ℕ, zero, suc, ◌+◌, ◌-◌, ◌*◌, ◌/◌, ◌%◌, ◌^◌, ◌==◌, ltb, if◌then◌else◌, ◌≡◌, ◌≢◌, Bool, true, false,
  not, ◌&&◌, ◌||◌, Option, none, some, List, [], ◌∷◌, ◌++◌, Text, codes, length, replicate, text_eq,
  has_byte,
}
use iocsh_utilities.Clib.{strtoull}
use iocsh_utilities.Threads.Affinity.{decimal}
use iocsh_utilities.AfterInit.Hooks.{lower}

-- `struct rlimit`.
pub record Rlimit : Type 0 where
  pub cur : ℕ
  pub max : ℕ

-- The limits that the kernel keeps. A call can fail.
pub record System : Type 1 where
  pub State : Type 0
  pub get_limit : State → ℕ → Option Rlimit
  pub set_limit : State → ℕ → Rlimit → Option State
  pub get-set :
      (s t : State) (r : ℕ) (l : Rlimit) → set_limit s r l ≡ some t → get_limit t r ≡ some l
  pub get-set_ne :
      (s t : State) (r i : ℕ) (l : Rlimit)
      → set_limit s r l ≡ some t
      → i ≢ r
      → get_limit t i ≡ get_limit s i

pub record Resource : Type 0 where
  pub option : ℕ
  pub txt : Text
  pub units : Text
  pub shift : ℕ

abbrev pub row : ℕ → Text → Text → ℕ → Resource
row option txt units shift = record { option = option; txt = txt; units = units; shift = shift }

-- `resources`, those that Linux has.
abbrev pub resources : List Resource
resources =
    row b'c' (codes "core file size") (codes "blocks") 9
    ∷ row b'd' (codes "data seg size") (codes "kbytes") 10
    ∷ row b'e' (codes "scheduling priority") [] 0
    ∷ row b'f' (codes "file size") (codes "blocks") 9
    ∷ row b'i' (codes "pending signals") [] 0
    ∷ row b'l' (codes "max locked memory") (codes "kbytes") 10
    ∷ row b'm' (codes "max memory size") (codes "kbytes") 10
    ∷ row b'n' (codes "open files") [] 0
    ∷ row b'q' (codes "POSIX message queues") (codes "bytes") 0
    ∷ row b'r' (codes "real-time priority") [] 0
    ∷ row b's' (codes "stack size") (codes "kbytes") 10
    ∷ row b't' (codes "cpu time") (codes "seconds") 0
    ∷ row b'u' (codes "max user processes") [] 0
    ∷ row b'v' (codes "virtual memory") (codes "kbytes") 10
    ∷ row b'x' (codes "file locks") [] 0
    ∷ []

abbrev pub infinity : ℕ
infinity = 2 ^ 64 - 1

-- `printf("%-*s", width, s)`.
abbrev pub padded : ℕ → Text → Text
padded width s = s ++ replicate (width - length s) b' '

-- `printValue`.
unfoldable pub print_value : ℕ → ℕ → Text
print_value limit shift =
    if limit == infinity then codes "unlimited" else padded 9 (decimal (limit / 2 ^ shift))

-- `which`.
pub record Which : Type 0 where
  pub soft : Bool
  pub hard : Bool
  pub long : Bool

abbrev pub is_empty : Text → Bool
is_empty [] = true
is_empty (_ ∷ _) = false

abbrev pub label : Resource → Text
label r =
    let empty = is_empty r.units in
    padded (if empty then 32 else 30 - length r.units) r.txt
    ++ (b'(' ∷ (r.units ++ ((if empty then [] else codes ", ") ++ (b'-' ∷ r.option ∷ codes ") "))))

-- `printLine`, without the line's end.
unfoldable pub print_line : Which → Resource → Rlimit → Text
unfolding print_value
print_line w r l =
    (if w.long then label r else [])
    ++ ((if w.soft then print_value l.cur r.shift else [])
        ++ ((if w.hard && w.soft then codes " " else [])
            ++ (if w.hard then print_value l.max r.shift else [])))

pub data Message : Type 0 where
  line : Text → Message
  unknown_option : ℕ → Message
  get_failed set_failed : Text → Message
  not_a_number : Text → Message

-- `for (i = 0; i < NELEMENTS(resources); i++) if (resources[i].option == o) break;`.
unfoldable pub find_resource : List Resource → ℕ → Option Resource
find_resource [] o = none
find_resource (r ∷ rs) o = if r.option == o then some r else find_resource rs o

-- The number of a limit, if the text is one: `<<=` drops the bits above 64.
unfoldable pub shift_number : ℕ → ℕ × Text → Option ℕ
shift_number shift (n, []) = some ((n * 2 ^ shift) % 2 ^ 64)
shift_number shift (n, _ ∷ _) = none

unfoldable pub new_limit : Text → ℕ → Option ℕ
unfolding shift_number
new_limit text shift =
    if text_eq (lower text) (codes "unlimited")
    then some infinity
    else shift_number shift (strtoull text)

-- `rlim_cur` and `rlim_max` as they are set.
unfoldable pub changed : Which → ℕ → Rlimit → Rlimit
changed w n l = record { cur = if w.soft then n else l.cur; max = if w.hard then n else l.max }

-- The first words of the options: `-` begins them, and without it the first word is the limit.
unfoldable pub split_args : Option Text → Option Text → Text × Option Text
split_args none limit = ([], none)
split_args (some []) limit = ([], some [])
split_args (some (c ∷ s)) limit = if c == b'-' then (s, limit) else ([], some (c ∷ s))

unfoldable pub which_of : Text → Which
which_of options =
    let s = has_byte b'S' options in
    let h = has_byte b'H' options in
    record {
      soft = s || not h;
      hard = h;
      long = ltb 1 (length options - (if s then 1 else 0) - (if h then 1 else 0));
    }

-- `if (i == 0) options = "f";`.
unfoldable pub letters_of : Text → Text
letters_of options =
    let s = has_byte b'S' options in
    let h = has_byte b'H' options in
    if (length options - (if s then 1 else 0) - (if h then 1 else 0)) == 0
    then codes "f"
    else options

module _ (sys : System) where
  -- What a step of the loop over the options does: go on, or return.
  pub data Step : Type 0 where
    go_on stop : sys.State → List Message → Step

  abbrev pub set_step : sys.State → Resource → Option sys.State → Step
  set_step s r none = stop s (set_failed r.txt ∷ [])
  set_step s r (some t) = go_on t []

  unfoldable pub apply_limit : Which → Resource → Rlimit → Text → Option ℕ → sys.State → Step
  unfolding changed
  apply_limit w r l text none s = stop s (not_a_number text ∷ [])
  apply_limit w r l text (some n) s = set_step s r (sys.set_limit s r.option (changed w n l))

  unfoldable pub use_limit : Which → Option Text → Resource → Option Rlimit → sys.State → Step
  unfolding apply_limit new_limit print_line
  use_limit w limit r none s = go_on s (get_failed r.txt ∷ [])
  use_limit w none r (some l) s = go_on s (line (print_line w r l) ∷ [])
  use_limit w (some text) r (some l) s = apply_limit w r l text (new_limit text r.shift) s

  unfoldable pub use_resource : Which → Option Text → ℕ → Option Resource → sys.State → Step
  unfolding use_limit
  use_resource w limit o none s = go_on s (unknown_option o ∷ [])
  use_resource w limit o (some r) s = use_limit w limit r (sys.get_limit s r.option) s

  unfoldable pub step : Which → Option Text → ℕ → sys.State → Step
  unfolding use_resource find_resource
  step w limit o s =
      if o == b'S' || o == b'H'
      then go_on s []
      else use_resource w limit o (find_resource resources o) s

  abbrev pub after_step : Step → (sys.State → sys.State × List Message) → sys.State × List Message
  after_step (stop s out) next = (s, out)
  after_step (go_on s out) next = let (t, more) = next s in (t, out ++ more)

  unfoldable pub option_loop : Which → Option Text → Text → sys.State → sys.State × List Message
  unfolding step
  option_loop w limit [] s = (s, [])
  option_loop w limit (o ∷ options) s = after_step (step w limit o s) (option_loop w limit options)

  abbrev pub shown : Which → Resource → Option Rlimit → List Message → List Message
  shown w r none rest = rest
  shown w r (some l) rest = line (print_line w r l) ∷ rest

  -- The loop of the option `a`.
  unfoldable pub show_all : Which → List Resource → sys.State → List Message
  unfolding print_line
  show_all w [] s = []
  show_all w (r ∷ rs) s = shown w r (sys.get_limit s r.option) (show_all w rs s)

  unfoldable pub run_options : Text → Option Text → sys.State → sys.State × List Message
  unfolding which_of letters_of show_all option_loop
  run_options options limit s =
      let w = which_of options in
      let letters = letters_of options in
      if has_byte b'a' letters
      then (s, show_all (record w { long = true }) resources s)
      else option_loop w limit letters s

  -- `ulimitFunc`.
  unfoldable pub ulimit_func : Option Text → Option Text → sys.State → sys.State × List Message
  unfolding split_args run_options
  ulimit_func arg0 arg1 s =
      let (options, limit) = split_args arg0 arg1 in run_options options limit s
