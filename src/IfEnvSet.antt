-- ===== src/IfEnvSet.antt =====
-- ifEnvSet.c: the function `ifEnvSet`. A text argument is `none` where the pointer is NULL, the
-- flags that `op` holds in single bits are the fields of a record, and the result is a Boolean.
-- `epicsEnvSet` is taken as a parameter, and `epicsEnvUnset` is that of Environ. Debug output is
-- left out.
pub mod Condition
pub mod Judge
pub mod Results
pub mod Effects
mod Tests
use iocsh_utilities.Base.{
  ℕ, ◌==◌, if◌then◌else◌, Bool, true, false, not, ◌&&◌, ◌||◌, Option, none, some, [], ◌∷◌, Text,
  text_eq,
}
use iocsh_utilities.Base.Int.{ℤ, ltb_ℤ, eqb_ℤ}
use iocsh_utilities.Clib.{strtol}
use iocsh_utilities.Glob.{Outcome, answer, match}
use iocsh_utilities.Environ.{Env, epics_env_unset}

-- The flags of `op` but NOT.
pub record Op : Type 0 where
  pub greater : Bool
  pub less : Bool
  pub equal : Bool
  pub glob : Bool

abbrev pub no_op : Op
no_op = record { greater = false; less = false; equal = false; glob = false }

-- `while (*condition == '!') { op ^= NOT; condition++; }`.
unfoldable pub skip_nots : Bool → Text → Bool × Text
skip_nots negate [] = (negate, [])
skip_nots negate (c ∷ s) = if c == b'!' then skip_nots (not negate) s else (negate, c ∷ s)

abbrev pub is_op : ℕ → Bool
is_op c = c == b'>' || c == b'<' || c == b'='

-- The cases of the `switch`.
abbrev pub mark : ℕ → Op → Op
mark c op =
    if c == b'>'
    then record op { greater = true }
    else if c == b'<'
    then record op { less = true }
    else record op { equal = true }

-- The `do … while (1)` with its `switch`, which ends at the first byte that is no operator.
unfoldable pub read_ops : Op → Text → Op × Text
read_ops op [] = (op, [])
read_ops op (c ∷ s) = let rest = read_ops (mark c op) s in if is_op c then rest else (op, c ∷ s)

-- Everything up to the label `cont`, behind the operators `!`.
unfoldable pub read_condition : Text → Op × Text
unfolding read_ops
read_condition [] = (no_op, [])
read_condition (c ∷ s) =
    if c == b'~' then (record no_op { glob = true }, s) else read_ops no_op (c ∷ s)

abbrev pub is_empty : Text → Bool
is_empty [] = true
is_empty (_ ∷ _) = false

-- The comparisons of the number branch, which take no operator for `=`.
unfoldable pub compare_numbers : Op → ℤ → ℤ → Bool
compare_numbers op arg condition =
    let equal = op.equal || not (op.equal || op.less || op.greater) in
    (equal && eqb_ℤ arg condition)
    || (op.less && ltb_ℤ arg condition)
    || (op.greater && ltb_ℤ condition arg)

-- The result of `match`. It always is an answer, see `Glob.Decides.match-Matches`.
abbrev pub answered : Outcome → Bool
answered (answer b) = b
answered _ = false

-- `*condition && *e == 0 && (num_arg = strtol(arg, &e, 0), *e == 0)`.
unfoldable pub are_numbers : Text → Text → Bool
are_numbers arg condition =
    not (is_empty condition) && is_empty (strtol condition).1 && is_empty (strtol arg).1

-- `result` before NOT is applied; `none` is the early return of the string branch.
unfoldable pub judge : Op → Text → Text → Option Bool
unfolding are_numbers compare_numbers
judge op arg condition =
    let matched = op.glob && answered (match arg condition) in
    if are_numbers arg condition
    then some (matched || compare_numbers op (strtol arg).0 (strtol condition).0)
    else if op.greater || op.less
    then none
    else some (matched || text_eq arg condition)

-- What is printed last.
pub data Notice : Type 0 where
  usage : Notice
  needs_numbers : Notice
  assigned : Text → Text → Notice
  unassigned : Text → Notice
  truth : Bool → Notice

pub record Reply : Type 0 where
  pub result : Bool
  pub env : Env
  pub notice : Notice

module _ (env_set : Text → Text → Env → Env) where
  -- From `if (!result) value = elsevalue;` on, for a variable that is given, then for any.
  unfoldable pub assign : Bool → Text → Option Text → Env → Reply
  assign result v (some x) env = record {
    result = result;
    env = env_set v x env;
    notice = assigned v x;
  }
  assign true v none env = record {
    result = true;
    env = epics_env_unset (some v) env;
    notice = unassigned v;
  }
  assign false v none env = record { result = false; env = env; notice = truth false }

  unfoldable pub conclude : Bool → Option Text → Option Text → Option Text → Env → Reply
  unfolding assign
  conclude result none value elsevalue env = record {
    result = result;
    env = env;
    notice = truth result;
  }
  conclude result (some v) value elsevalue env =
      assign result v (if result then value else elsevalue) env

  -- From `if (op & NOT)` on, or the early return.
  unfoldable pub settle : Bool → Option Bool → Option Text → Option Text → Option Text → Env → Reply
  unfolding conclude
  settle negate none variable value elsevalue env = record {
    result = false;
    env = env;
    notice = needs_numbers;
  }
  settle negate (some b) variable value elsevalue env =
      conclude (if negate then not b else b) variable value elsevalue env

  -- Behind the check of the arguments.
  unfoldable pub evaluate : Text → Text → Option Text → Option Text → Option Text → Env → Reply
  unfolding skip_nots read_condition judge settle
  evaluate arg condition variable value elsevalue env =
      let (negate, c) = skip_nots false condition in
      let (op, operand) = read_condition c in
      settle negate (judge op arg operand) variable value elsevalue env

  unfoldable pub if_env_set :
      Option Text → Option Text → Option Text → Option Text → Option Text → Env → Reply
  unfolding evaluate
  if_env_set (some arg) (some condition) variable value elsevalue env =
      evaluate arg condition variable value elsevalue env
  if_env_set none condition variable value elsevalue env = record {
    result = false;
    env = env;
    notice = usage;
  }
  if_env_set (some arg) none variable value elsevalue env = record {
    result = false;
    env = env;
    notice = usage;
  }
