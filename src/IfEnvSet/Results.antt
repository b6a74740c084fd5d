-- ===== src/IfEnvSet/Results.antt =====
-- What `ifEnvSet` returns for each kind of condition.
use iocsh_utilities.Base.{
  ℕ, if◌then◌else◌, ◌≡◌, refl, ◌∙◌, ◌↔◌, ◌⊎◌, Bool, true, false, not, Option, none, some, List, ◌∷◌,
  ◌++◌, Text, replicate, text_eq,
}
use iocsh_utilities.Clib.{strtol}
use iocsh_utilities.Glob.Relation.{Matches}
use iocsh_utilities.Environ.{Env}
use iocsh_utilities.IfEnvSet.{
  no_op, are_numbers, judge, needs_numbers, assign, conclude, settle, evaluate, if_env_set,
  read_condition,
}
use iocsh_utilities.IfEnvSet.Condition.{
  Rel, compares, needs_order, negated, is_operand, spell, marks, if_negated, skip_nots-spell,
  skip_nots-glob, read_condition-spell,
}
use iocsh_utilities.IfEnvSet.Judge.{SameNumber, judge-numbers, judge-texts, judge-glob}

module _ (env_set : Text → Text → Env → Env) where
  result-assign :
      (b : Bool) (v : Text) (x : Option Text) (env : Env) → (assign env_set b v x env).result ≡ b
  unfolding assign
  result-assign b v (some x) env = refl
  result-assign true v none env = refl
  result-assign false v none env = refl

  pub result-conclude :
      (b : Bool) (v x y : Option Text) (env : Env) → (conclude env_set b v x y env).result ≡ b
  unfolding conclude
  result-conclude b none x y env = refl
  result-conclude b (some v) x y env = result-assign b v (if b then x else y) env

  result-settle :
      (n : ℕ) (b : Bool) (v x y : Option Text) (env : Env)
      → (settle env_set (negated n false) (some b) v x y env).result ≡ negated n b
  unfolding settle
  result-settle n b v x y env =
      result-conclude (if negated n false then not b else b) v x y env ∙ if_negated n b

  evaluate-spell :
      (n : ℕ) (rs : List Rel) (arg operand : Text) (v x y : Option Text) (env : Env)
      → is_operand operand ≡ true
      → evaluate env_set arg (spell n rs operand) v x y env
        ≡ settle env_set (negated n false) (judge (marks no_op rs) arg operand) v x y env
  unfolding evaluate
  evaluate-spell n rs arg operand v x y env h =
      rw (skip_nots-spell n rs operand h, read_condition-spell rs operand h)

  -- For a condition of `n` times `!`, then operators `<`, `=`, `>`, then an operand that begins with
  -- no operator: where argument and operand are numbers for `strtol`, the result is whether one of
  -- the operators holds between them (equality, if there is no operator), negated `n` times.
  pub if_env_set_numbers :
      (n : ℕ) (rs : List Rel) (arg operand : Text) (v x y : Option Text) (env : Env)
      → is_operand operand ≡ true
      → are_numbers arg operand ≡ true
      → (if_env_set env_set (some arg) (some (spell n rs operand)) v x y env).result
        ≡ negated n (compares rs (strtol arg).0 (strtol operand).0)
  unfolding if_env_set
  if_env_set_numbers n rs arg operand v x y env h k =
      rw (evaluate-spell n rs arg operand v x y env h, judge-numbers rs arg operand k)
        (result-settle n (compares rs (strtol arg).0 (strtol operand).0) v x y env)

  -- For such a condition where argument and operand are not both numbers: with `<` or `>` among the
  -- operators the call reports an error, returns false and leaves the environment as it was, also
  -- under `!`; otherwise the result is whether the texts are equal, negated `n` times.
  pub if_env_set_texts :
      (n : ℕ) (rs : List Rel) (arg operand : Text) (v x y : Option Text) (env : Env)
      → is_operand operand ≡ true
      → are_numbers arg operand ≡ false
      → (needs_order rs ≡ true
          → if_env_set env_set (some arg) (some (spell n rs operand)) v x y env
            ≡ record { result = false; env = env; notice = needs_numbers })
        × (needs_order rs ≡ false
            → (if_env_set env_set (some arg) (some (spell n rs operand)) v x y env).result
              ≡ negated n (text_eq arg operand))
  unfolding if_env_set settle
  if_env_set_texts n rs arg operand v x y env h k = (
    λ o. rw (evaluate-spell n rs arg operand v x y env h, judge-texts rs arg operand k, o),
    λ o.
        rw (evaluate-spell n rs arg operand v x y env h, judge-texts rs arg operand k, o)
          (result-settle n (text_eq arg operand) v x y env),
  )

  -- For a condition of `n` times `!`, then `~` and a pattern, the result is `b` negated `n` times,
  -- where `b` is true exactly if the pattern matches the argument, or both are numbers for `strtol`
  -- and equal ones.
  pub if_env_set_glob :
      (n : ℕ) (arg pattern : Text) (v x y : Option Text) (env : Env)
      → (b : Bool) × ((if_env_set env_set
            (some arg)
            (some (replicate n b'!' ++ (b'~' ∷ pattern)))
            v
            x
            y
            env).result
          ≡ negated n b)
        × ((b ≡ true) ↔ (Matches pattern arg ⊎ SameNumber arg pattern))
  unfolding if_env_set evaluate
  if_env_set_glob n arg pattern v x y env =
      let (b, e, q) = judge-glob arg pattern in
      (b, rw (skip_nots-glob n pattern, read_condition, e) (result-settle n b v x y env), q)
