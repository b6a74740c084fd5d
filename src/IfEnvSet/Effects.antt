-- ===== src/IfEnvSet/Effects.antt =====
-- What `ifEnvSet` does to the environment.
use iocsh_utilities.Base.{
  if◌then◌else◌, ◌≡◌, refl, ◌≢◌, Bool, true, false, not, Option, none, some, Text,
}
use iocsh_utilities.Environ.{Env, EpicsEnv, getenv}
use iocsh_utilities.Environ.Laws.{epics_env_unset_lem}
use iocsh_utilities.IfEnvSet.{Reply, needs_numbers, assign, conclude, settle, evaluate, if_env_set}

abbrev pub or_else : Option Text → Option Text → Option Text
or_else (some x) y = some x
or_else none y = y

-- The call ran to its end and left `v` as the result asks, or it failed and left everything.
pub data Leaves (v : Text) (value elsevalue : Option Text) (env : Env) (r : Reply) : Type 0 where
  failed :
      r ≡ record { result = false; env = env; notice = needs_numbers }
      → Leaves v value elsevalue env r
  decided :
      r.notice ≢ needs_numbers
      → getenv v r.env ≡ (if r.result then value else or_else elsevalue (getenv v env))
      → ((other : Text) → other ≢ v → getenv other r.env ≡ getenv other env)
      → Leaves v value elsevalue env r

module _ (e : EpicsEnv) where
  assign-Leaves :
      (b : Bool) (v : Text) (value elsevalue : Option Text) (env : Env)
      → Leaves v value elsevalue env (assign e.set b v (if b then value else elsevalue) env)
  unfolding assign
  assign-Leaves true v (some x) y env =
      decided (λ q. cc) (e.getenv-set v x env) λ o h. e.getenv-set_ne v x o env h
  assign-Leaves true v none y env =
      let (gone, others, _) = epics_env_unset_lem v env in decided (λ q. cc) gone others
  assign-Leaves false v x (some y) env =
      decided (λ q. cc) (e.getenv-set v y env) λ o h. e.getenv-set_ne v y o env h
  assign-Leaves false v x none env = decided (λ q. cc) refl λ o h. refl

  settle-Leaves :
      (negate : Bool) (o : Option Bool) (v : Text) (value elsevalue : Option Text) (env : Env)
      → Leaves v value elsevalue env (settle e.set negate o (some v) value elsevalue env)
  unfolding settle conclude
  settle-Leaves negate none v x y env = failed refl
  settle-Leaves negate (some b) v x y env = assign-Leaves (if negate then not b else b) v x y env

  -- For every argument, condition and variable: either the call reports that numbers are needed,
  -- returns false and leaves the environment as it was; or it leaves in the variable, if its result
  -- is true, the value (no value: the variable is unset), and if its result is false the else value
  -- (no else value: what the variable was), and the value of every other variable is as before.
  pub if_env_set-Leaves :
      (arg condition v : Text) (value elsevalue : Option Text) (env : Env)
      → Leaves v value elsevalue env
          (if_env_set e.set (some arg) (some condition) (some v) value elsevalue env)
  unfolding if_env_set evaluate
  if_env_set-Leaves arg condition v x y env = settle-Leaves _ _ v x y env
