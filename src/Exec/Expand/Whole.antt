-- ===== src/Exec/Expand/Whole.antt =====
-- That the buffer of `expand` in exec.c grows until the whole expansion is in it.
use iocsh_utilities.Base.{
  ℕ, zero, suc, ◌+◌, ◌-◌, ◌*◌, ◌≤◌, ◌<◌, leb, leb-le, leb-gt, leb→le, leb→lt, ◌≡◌, refl, ap, ◌∙◌,
  true, some, Text, length, take, take_all, length-take, has_byte, arith, Bool-cases, inl, inr,
}
use iocsh_utilities.Exec.Expand.{Macros, absolute, text, expand_loop, expand}

-- What EPICS base documents of macExpandString: with `whole` the expansion of a text, the buffer gets
-- as much of it as goes in with the NUL, and the size of the result is what was written.
pub record MacroLaws (macros : Macros) (src whole : Text) : Type 0 where
  pub expand-text :
      (capacity : ℕ) → (macros.expand_string src capacity).1 ≡ take (capacity - 1) whole
  pub expand-length :
      (capacity : ℕ)
      → absolute (macros.expand_string src capacity).0
        ≡ length (macros.expand_string src capacity).1

module _ (macros : Macros) (src whole : Text) (laws : MacroLaws macros src whole)
    (memory : (n : ℕ) → macros.malloc_ok n ≡ true) where
  returned :
      (linesize : ℕ)
      → absolute (macros.expand_string src (linesize - 1)).0 ≡ length (take (linesize - 2) whole)
  returned linesize =
      laws.expand-length (linesize - 1)
      ∙ ap length (laws.expand-text (linesize - 1))
      ∙ ap (λ n. length (take n whole)) (omega arith)

  -- A buffer that is large enough.
  expand_loop-enough :
      (fuel linesize : ℕ)
      → length whole + 2 < linesize
      → expand_loop macros (suc fuel) src linesize ≡ text whole
  unfolding expand_loop
  expand_loop-enough fuel linesize h =
      let n = returned linesize in
      let all : take (linesize - 1 - 1) whole ≡ whole =
        take_all (linesize - 1 - 1) whole (omega arith) in
      let l : length (take (linesize - 2) whole) ≤ length whole =
        omega (arith, length-take (linesize - 2) whole) in
      rw
        (
          expand_loop,
          memory linesize,
          n,
          leb-gt (linesize - 2) (length (take (linesize - 2) whole)) (omega arith),
          laws.expand-text (linesize - 1),
          all,
        )
        refl

  -- One that is too small is twice as large in the next round.
  expand_loop-more :
      (fuel linesize : ℕ)
      → linesize ≤ length whole + 2
      → expand_loop macros (suc fuel) src linesize ≡ expand_loop macros fuel src (linesize * 2)
  unfolding expand_loop
  expand_loop-more fuel linesize h =
      let n = returned linesize in
      let l : length (take (linesize - 2) whole) ≡ linesize - 2 =
        length-take (linesize - 2) whole ∙ omega arith in
      rw
        (
          expand_loop,
          memory linesize,
          n,
          leb-le (linesize - 2) (length (take (linesize - 2) whole)) (omega arith),
        )
        refl

  expand_loop-whole :
      (fuel linesize : ℕ)
      → 3 ≤ linesize
      → length whole + 2 < linesize + fuel
      → expand_loop macros (suc fuel) src linesize ≡ text whole
  expand_loop-whole zero linesize m h = expand_loop-enough zero linesize (omega arith)
  expand_loop-whole (suc fuel) linesize m h = elim (Bool-cases (leb linesize (length whole + 2))) [
    | inl e ↦
        let l = leb→le linesize (length whole + 2) e in
        expand_loop-more (suc fuel) linesize l
        ∙ expand_loop-whole fuel (linesize * 2) (omega arith) (omega arith)
    | inr e ↦ expand_loop-enough (suc fuel) linesize (leb→lt linesize (length whole + 2) e)
  ]

  -- Where there is memory for every size and a macro handle, and the macro library keeps what it
  -- documents, `expand` ends for a text with a `$` after at most as many rounds as its expansion has
  -- bytes, and one, and gives the whole expansion.
  pub expand-whole :
      macros.create_ok ≡ true
      → has_byte b'$' src ≡ true
      → expand macros (suc (length whole)) (some src) ≡ text whole
  unfolding expand
  expand-whole c d =
      rw (expand, c, d) (expand_loop-whole (length whole) 128 (omega arith) (omega arith))
