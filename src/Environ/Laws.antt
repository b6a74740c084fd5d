-- ===== src/Environ/Laws.antt =====
-- What the operations on the environment change, and what they leave alone.
use iocsh_utilities.Base.{
  ◌==◌, ==_iff, ◌≡◌, refl, ◌∙◌, ◌≢◌, ◌⊎◌, false, Option, Option-cases, none, some, [], ◌∷◌, map,
  Text, text_eq, text_eq_iff, text_eq→≡, text_eq_refl, arith, Bool-cases, inl, inr,
}
use iocsh_utilities.Environ.{
  Env, getenv, unsetenv, putenv, epics_env_unset, to_slash, convert_in_place, winunixconv,
}

text_ne : {s t : Text} → s ≢ t → text_eq s t ≡ false
text_ne {s} {t} n = elim (Bool-cases (text_eq s t)) [
  | inl e ↦ absurd (n (text_eq→≡ s t e))
  | inr e ↦ e
]

pub getenv-unsetenv : (name : Text) (env : Env) → getenv name (unsetenv name env) ≡ none
unfolding getenv unsetenv
getenv-unsetenv name [] = refl
getenv-unsetenv name ((n, v) ∷ env) = ground (arith, getenv-unsetenv name env)

pub getenv-unsetenv_ne :
    (name other : Text) (env : Env)
    → other ≢ name
    → getenv other (unsetenv name env) ≡ getenv other env
unfolding getenv unsetenv
getenv-unsetenv_ne name other [] h = refl
getenv-unsetenv_ne name other ((n, v) ∷ env) h =
    ground (arith, getenv-unsetenv_ne name other env, text_eq_iff n name, text_eq_iff n other)

pub getenv-putenv :
    (name value : Text) (env : Env) → getenv name (putenv name value env) ≡ some value
unfolding getenv putenv
getenv-putenv name value [] = rw (text_eq_refl name)
getenv-putenv name value ((n, v) ∷ env) = ground (arith, getenv-putenv name value env)

pub getenv-putenv_ne :
    (name value other : Text) (env : Env)
    → other ≢ name
    → getenv other (putenv name value env) ≡ getenv other env
unfolding getenv putenv
getenv-putenv_ne name value other [] h = ground (arith, text_eq_iff name other)
getenv-putenv_ne name value other ((n, v) ∷ env) h =
    ground (arith, getenv-putenv_ne name value other env, text_eq_iff n name, text_eq_iff n other)

getenv-convert_ne :
    (name other : Text) (env : Env)
    → other ≢ name
    → getenv other (convert_in_place name env) ≡ getenv other env
unfolding getenv convert_in_place
getenv-convert_ne name other [] h = refl
getenv-convert_ne name other ((n, v) ∷ env) h =
    ground (arith, getenv-convert_ne name other env, text_eq_iff n name, text_eq_iff n other)

-- The second text is the first one with a slash at the place of each backslash.
abbrev pub Slashed : Text → Text → Type 0
Slashed [] [] = Unit {0}
Slashed [] (d ∷ t) = ⊥
Slashed (c ∷ s) [] = ⊥
Slashed (c ∷ s) (d ∷ t) = (((c ≡ b'\\') × (d ≡ b'/')) ⊎ ((c ≢ b'\\') × (d ≡ c))) × Slashed s t

map-Slashed : (v : Text) → Slashed v (map to_slash v)
unfolding to_slash
map-Slashed [] = tt
map-Slashed (c ∷ v) = elim (Bool-cases (c == b'\\')) [
  | inl e ↦ rw e (inl ((==_iff c b'\\').0 e, refl), map-Slashed v)
  | inr e ↦ rw e (inr (λ k. ground (arith, (==_iff c b'\\').1 k), refl), map-Slashed v)
]

-- What becomes of the environment: a read through the NULL pointer, where the variable is not set, or
-- its value with slashes, where every other variable has the value that it had.
pub data Converted (name : Text) (env : Env) (r : Option Env) : Type 0 where
  null_read : getenv name env ≡ none → r ≡ none → Converted name env r
  converted :
      (value value' : Text) (env' : Env)
      → getenv name env ≡ some value
      → r ≡ some env'
      → getenv name env' ≡ some value'
      → Slashed value value'
      → ((other : Text) → other ≢ name → getenv other env' ≡ getenv other env)
      → Converted name env r

-- winunixconv reads through a NULL pointer where the variable is not set. Where it has a value, it
-- leaves that value with a slash at the place of each backslash and every other byte as it was, and
-- leaves the value of every other variable alone.
pub winunixconv_lem : (name : Text) (env : Env) → Converted name env (winunixconv name env)
unfolding winunixconv
winunixconv_lem name env = elim (Option-cases (getenv name env)) [
  | inl e ↦ null_read e (rw (winunixconv, e) refl)
  | inr (value, e) ↦
      let env' = putenv name (map to_slash value) (convert_in_place name env) in
      converted value (map to_slash value) env' e (rw (winunixconv, e) refl)
        (getenv-putenv name (map to_slash value) (convert_in_place name env)) (map-Slashed value)
        (λ other h.
          getenv-putenv_ne name (map to_slash value) other (convert_in_place name env) h
          ∙ getenv-convert_ne name other env h)
]

-- `epicsEnvUnset` removes the variable that it names, leaves every other one alone, and does
-- nothing for the NULL pointer.
pub epics_env_unset_lem :
    (name : Text) (env : Env)
    → (getenv name (epics_env_unset (some name) env) ≡ none)
      × ((other : Text)
          → other ≢ name
          → getenv other (epics_env_unset (some name) env) ≡ getenv other env)
      × (epics_env_unset none env ≡ env)
unfolding epics_env_unset
epics_env_unset_lem name env =
    (getenv-unsetenv name env, λ other h. getenv-unsetenv_ne name other env h, refl)
