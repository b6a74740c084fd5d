-- ===== src/Environ.antt =====
-- The environment of the process, as the list of its variables and their values.
-- `epics_env_unset` is epicsEnvUnset.c outside vxWorks and Windows. `winunixconv` is winunixconv.c.
-- `epicsEnvSet` is a function of EPICS base: the interface `EpicsEnv` states what it does.
pub mod Laws
pub mod Tests
use iocsh_utilities.Base.{
  ℕ, ◌==◌, if◌then◌else◌, ◌≡◌, ◌≢◌, Bool, Option, none, some, List, [], ◌∷◌, map, Text, text_eq,
}

abbrev pub Env : Type 0
Env = List (Text × Text)

unfoldable pub getenv : Text → Env → Option Text
getenv name [] = none
getenv name ((n, v) ∷ env) = if text_eq n name then some v else getenv name env

unfoldable pub unsetenv : Text → Env → Env
unsetenv name [] = []
unsetenv name ((n, v) ∷ env) =
    if text_eq n name then unsetenv name env else (n, v) ∷ unsetenv name env

-- `putenv` of "name=value": the first entry of the name is replaced, or an entry is added.
unfoldable pub putenv : Text → Text → Env → Env
putenv name value [] = (name, value) ∷ []
putenv name value ((n, v) ∷ env) =
    if text_eq n name then (n, value) ∷ env else (n, v) ∷ putenv name value env

pub record EpicsEnv : Type 0 where
  pub set : Text → Text → Env → Env
  pub getenv-set : (name value : Text) (env : Env) → getenv name (set name value env) ≡ some value
  pub getenv-set_ne :
      (name value other : Text) (env : Env)
      → other ≢ name
      → getenv other (set name value env) ≡ getenv other env

-- `epicsEnvUnset(name)`, where `none` is the NULL pointer.
unfoldable pub epics_env_unset : Option Text → Env → Env
unfolding unsetenv
epics_env_unset none env = env
epics_env_unset (some name) env = unsetenv name env

-- The body of the loop of winunixconv.
unfoldable pub to_slash : ℕ → ℕ
to_slash c = if c == b'\\' then b'/' else c

-- `getenv` returns the environment's own text, so the loop changes the variable in place.
unfoldable pub convert_in_place : Text → Env → Env
unfolding to_slash
convert_in_place name [] = []
convert_in_place name ((n, v) ∷ env) =
    if text_eq n name then (n, map to_slash v) ∷ env else (n, v) ∷ convert_in_place name env

-- `none` is the read through the NULL pointer that `getenv` returns for a variable that is not set.
unfoldable pub winunixconv : Text → Env → Option Env
unfolding getenv convert_in_place putenv
winunixconv name env = elim (getenv name env) [
  | none ↦ none
  | some value ↦ some (putenv name (map to_slash value) (convert_in_place name env))
]
