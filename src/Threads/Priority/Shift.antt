-- ===== src/Threads/Priority/Shift.antt =====
-- What the argument `diff` does to a named priority.
use iocsh_utilities.Base.{
  ℕ, zero, suc, ◌+◌, ◌^◌, ◌<◌, ltb, if◌then◌else◌, ◌≡◌, ◌≢◌, refl, ◌∙◌, ap, Bool, true, ◌&&◌, some,
  [], Text, arith, Bool-cases, inl, inr,
}
use native.Mathlib.Numerals.{add-one}
use iocsh_utilities.Base.Int.{ℤ, pos, negsuc}
use iocsh_utilities.Clib.{strtol}
use iocsh_utilities.Threads.Priority.{
  min, Threads, lower, lower_loop, raise, raise_loop, shift, named_priority, str_to_prio, shifted,
  prio_at, to_int,
}

-- An `int` stays as it is.
to_int-pos : (n : ℕ) → n < 2 ^ 31 → to_int (pos n) ≡ pos n
unfolding to_int
to_int-pos n h = ground arith

to_int-negsuc : (n : ℕ) → n < 2 ^ 31 → to_int (negsuc n) ≡ negsuc n
unfolding to_int
to_int-negsuc n h = ground arith

module _ (threads : Threads) where
  open threads use {level, level_below, level_above}

  -- `n` levels up, stopping at 100, and `n` levels down, stopping at the lowest.
  abbrev pub climb : ℕ → ℕ → ℕ
  climb zero p = p
  climb (suc n) p = let rest = climb n (level_above p) in if ltb p 100 then rest else p

  abbrev pub descend : ℕ → ℕ → ℕ
  descend zero p = p
  descend (suc n) p = let rest = descend n (level_below p) in if ltb (level min) p then rest else p

  -- All `n` steps down are made.
  abbrev pub can_descend : ℕ → ℕ → Bool
  can_descend zero p = true
  can_descend (suc n) p = ltb (level min) p && can_descend n (level_below p)

  raise-climb : (n p : ℕ) → raise threads n p ≡ climb n p
  unfolding raise
  raise-climb zero p = refl
  raise-climb (suc n) p = ground (arith, raise-climb n (level_above p))

  lower-descend :
      (d p : ℕ)
      → raise_loop threads (lower threads d p).0 (lower threads d p).1
        ≡ (if can_descend (suc d) p then climb 1 (descend (suc d) p) else descend (suc d) p)
  unfolding lower raise_loop raise
  lower-descend zero p = ground arith
  lower-descend (suc d) p = elim (Bool-cases (ltb (level min) p)) [
    | inl h ↦ rw h (lower-descend d (level_below p))
    | inr h ↦ rw h refl
  ]

  shift-pos : (d p : ℕ) → d + 1 < 2 ^ 31 → shift threads (pos d) p ≡ climb (d + 1) p
  unfolding shift lower_loop raise_loop
  shift-pos d p h = rw (to_int-pos d (omega arith), to_int-pos (d + 1) h) (raise-climb (d + 1) p)

  shift-negsuc :
      (d p : ℕ)
      → d < 2 ^ 31
      → shift threads (negsuc d) p
        ≡ (if can_descend (d + 1) p then climb 1 (descend (d + 1) p) else descend (d + 1) p)
  unfolding shift lower_loop
  shift-negsuc d p h = rw (to_int-negsuc d h, add-one) (lower-descend d p)

  str_to_prio-named :
      (s : Text) (p : ℕ) (diff : ℤ)
      → (strtol s).1 ≢ []
      → named_priority threads s ≡ some p
      → str_to_prio threads s diff ≡ some (shift threads diff p)
  unfolding str_to_prio prio_at shifted
  str_to_prio-named s p diff ne named = ground arith

  -- For a text that `strtol` does not read to its end and that names the priority `p`: a `diff` of
  -- `d` that is not negative and less than 2^31 - 1 gives the priority `d + 1` levels up from `p`, not
  -- `d`, the climb stopping at 100. A `diff` of -(d + 1) gives the one `d + 1` levels down and then, if
  -- the lowest level did not stop the descent, up again by one.
  pub str_to_prio_shifts :
      (s : Text) (p d : ℕ)
      → (strtol s).1 ≢ []
      → named_priority threads s ≡ some p
      → d + 1 < 2 ^ 31
      → (str_to_prio threads s (pos d) ≡ some (climb (d + 1) p))
        × (str_to_prio threads s (negsuc d)
            ≡ some
                (if can_descend (d + 1) p then climb 1 (descend (d + 1) p) else descend (d + 1) p))
  str_to_prio_shifts s p d ne named small = (
    str_to_prio-named s p (pos d) ne named ∙ ap some (shift-pos d p small),
    str_to_prio-named s p (negsuc d) ne named ∙ ap some (shift-negsuc d p (omega arith)),
  )
