-- ===== src/Threads/Priority/Range.antt =====
-- The priority that a text stands for is in range.
use iocsh_utilities.Base.{
  ℕ, zero, suc, ◌≤◌, ◌<◌, ltb, Option, none, some, List, [], ◌∷◌, Text, arith, Bool-cases, inl, inr,
}
use iocsh_utilities.Base.Int.{ℤ, pos, negsuc}
use iocsh_utilities.Clib.{strtol}
use iocsh_utilities.Threads.Priority.{
  Level, min, Threads, lower, lower_loop, raise, raise_loop, shift, shifted, prio_at, to_int,
  find_level, thread_level, named_priority, numeric_priority, str_to_prio, level_names,
}

abbrev pub InRange : Threads → ℕ → Type 0
InRange t p = (t.level min ≤ p) × (p ≤ 100)

-- What EPICS base documents: its levels, and the priorities of its threads, are in range, and the
-- level below a priority that is above the lowest, and that above one below 100, are in range.
pub record Documented (t : Threads) : Type 0 where
  pub levels : (l : Level) → InRange t (t.level l)
  pub below : (p : ℕ) → InRange t p → t.level min < p → InRange t (t.level_below p)
  pub above : (p : ℕ) → InRange t p → p < 100 → InRange t (t.level_above p)
  pub others : (id : ℕ) → InRange t (t.get_priority id)

-- What holds of a priority, if there is one.
abbrev pub Allowed : Threads → Option ℕ → Type 0
Allowed t none = Unit {0}
Allowed t (some p) = InRange t p

module _ (t : Threads) (doc : Documented t) where
  raise-InRange : (n p : ℕ) → InRange t p → InRange t (raise t n p)
  unfolding raise
  raise-InRange zero p h = h
  raise-InRange (suc n) p h = elim (Bool-cases (ltb p 100)) [
    | inl k ↦ rw k (raise-InRange n (t.level_above p) (doc.above p h (ground arith)))
    | inr k ↦ rw k h
  ]

  lower-InRange : (n p : ℕ) → InRange t p → InRange t (lower t n p).1
  unfolding lower
  lower-InRange zero p h = elim (Bool-cases (ltb (t.level min) p)) [
    | inl k ↦ rw k (doc.below p h (ground arith))
    | inr k ↦ rw k h
  ]
  lower-InRange (suc n) p h = elim (Bool-cases (ltb (t.level min) p)) [
    | inl k ↦ rw k (lower-InRange n (t.level_below p) (doc.below p h (ground arith)))
    | inr k ↦ rw k h
  ]

  raise_loop-InRange : (diff : ℤ) (p : ℕ) → InRange t p → InRange t (raise_loop t diff p)
  unfolding raise_loop
  raise_loop-InRange (pos d) p h = raise-InRange d p h
  raise_loop-InRange (negsuc d) p h = h

  lower_loop-InRange : (diff : ℤ) (p : ℕ) → InRange t p → InRange t (lower_loop t diff p).1
  unfolding lower_loop
  lower_loop-InRange (pos d) p h = h
  lower_loop-InRange (negsuc d) p h = lower-InRange d p h

  shift-InRange : (diff : ℤ) (p : ℕ) → InRange t p → InRange t (shift t diff p)
  unfolding shift
  shift-InRange diff p h =
      let d = to_int diff in
      raise_loop-InRange (lower_loop t d p).0 (lower_loop t d p).1 (lower_loop-InRange d p h)

  find_level-Allowed : (names : List (Text × Level)) (s : Text) → Allowed t (find_level t names s)
  unfolding find_level
  find_level-Allowed [] s = tt
  find_level-Allowed ((name, l) ∷ names) s = elim (Bool-cases (t.case_eq s name)) [
    | inl k ↦ rw k (doc.levels l)
    | inr k ↦ rw k (find_level-Allowed names s)
  ]

  named_priority-Allowed : (s : Text) → Allowed t (named_priority t s)
  unfolding named_priority thread_level
  named_priority-Allowed s =
      ground (arith, doc.levels min, find_level-Allowed level_names s, doc.others (t.get_id s))

  numeric_priority-Allowed : (z : ℤ) → Allowed t (numeric_priority t z)
  unfolding numeric_priority
  numeric_priority-Allowed (pos n) = ground arith
  numeric_priority-Allowed (negsuc n) = ground arith

  shifted-Allowed : (diff : ℤ) (o : Option ℕ) → Allowed t o → Allowed t (shifted t diff o)
  unfolding shifted
  shifted-Allowed diff none h = tt
  shifted-Allowed diff (some p) h = shift-InRange diff p h

  prio_at-Allowed :
      (end : Text) (value : ℤ) (s : Text) (diff : ℤ) → Allowed t (prio_at t end value s diff)
  unfolding prio_at
  prio_at-Allowed [] value s diff = numeric_priority-Allowed (to_int value)
  prio_at-Allowed (_ ∷ _) value s diff =
      shifted-Allowed diff (named_priority t s) (named_priority-Allowed s)

  -- With what EPICS base documents of its levels: every text and every `diff` give no priority, or
  -- one between the lowest level and 100.
  pub str_to_prio-Allowed : (s : Text) (diff : ℤ) → Allowed t (str_to_prio t s diff)
  unfolding str_to_prio
  str_to_prio-Allowed s diff = prio_at-Allowed (strtol s).1 (strtol s).0 s diff
