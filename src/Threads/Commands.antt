-- ===== src/Threads/Commands.antt =====
-- threads.c, the commands epicsThreadGetAffinity and epicsThreadSetAffinity and the two functions
-- below them. The threads of the process are the parameter `Pthreads`: the ids of POSIX and how the
-- affinity of a thread is read and set. A `cpu_set_t` has `size` processors.
pub mod Restore
mod Tests
use iocsh_utilities.Base.{
  ℕ, ◌<◌, ◌==◌, if◌then◌else◌, ◌≡◌, ◌≢◌, Bool, true, false, ◌&&◌, Option, none, some, List, [], ◌∷◌,
  Text,
}
use iocsh_utilities.Threads.Affinity.{
  CpuSet, Parsed, parsed, unset_first, no_fuel, print_affinity_list, parse_affinity_list,
}
use iocsh_utilities.Threads.Priority.{Threads, given, id_from_name_or_number}

-- What the functions of pthread return.
pub data Status : Type 0 where
  success einval esrch enosys other_error : Status

-- An affinity holds usable processors only: what is set is restricted to them. A set with a usable
-- processor is accepted for a thread whose affinity can be read.
pub record Pthreads : Type 1 where
  pub State : Type 0
  pub usable : CpuSet
  pub posix_id : ℕ → ℕ
  pub self : ℕ
  pub get_affinity : State → ℕ → Status × CpuSet
  pub set_affinity : State → ℕ → CpuSet → Status × State
  pub get-usable :
      (s : State) (tid : ℕ) (c : CpuSet) (i : ℕ)
      → get_affinity s tid ≡ (success, c)
      → c i ≡ true
      → usable i ≡ true
  pub set-usable :
      (s : State) (tid : ℕ) (old c : CpuSet) (i : ℕ)
      → get_affinity s tid ≡ (success, old)
      → c i ≡ true
      → usable i ≡ true
      → (t : State) × (set_affinity s tid c ≡ (success, t))
  pub get-set :
      (s t : State) (tid : ℕ) (c : CpuSet)
      → set_affinity s tid c ≡ (success, t)
      → get_affinity t tid ≡ (success, λ i. c i && usable i)
  pub get-set_ne :
      (s t : State) (tid i : ℕ) (c : CpuSet)
      → set_affinity s tid c ≡ (success, t)
      → i ≢ tid
      → get_affinity t i ≡ get_affinity s i

-- The messages of the two functions and what the commands print.
pub data Output : Type 0 where
  usage : Output
  get_failed set_failed : Status → Output
  rubbish : Text → Output
  affinity_list : Text → Output

-- `unset_read`: the parser reads a variable before it is set.
pub data Result (A : Type 0) : Type 0 where
  done : A → List Output → Result A
  unset_read : Result A

module _ (size : ℕ) (threads : Threads) (p : Pthreads) where
  -- The thread for an id, and the caller for NULL.
  unfoldable pub thread_of : ℕ → ℕ
  thread_of id = if id == 0 then p.self else p.posix_id id

  -- `epicsThreadGetAffinity` and `epicsThreadSetAffinity`.
  unfoldable pub thread_get_affinity : ℕ → p.State → Status × CpuSet
  unfolding thread_of
  thread_get_affinity id s =
      if thread_of id == 0 then (enosys, λ i. false) else p.get_affinity s (thread_of id)

  unfoldable pub thread_set_affinity : ℕ → CpuSet → p.State → Status × p.State
  unfolding thread_of
  thread_set_affinity id c s =
      if thread_of id == 0 then (enosys, s) else p.set_affinity s (thread_of id) c

  abbrev pub print_set : p.State → Status × CpuSet → List Output → Result p.State
  print_set s (success, c) before = done s (affinity_list (print_affinity_list size c) ∷ before)
  print_set s (error, c) before = done s (get_failed error ∷ before)

  -- `epicsThreadGetAffinityFunc`.
  unfoldable pub get_affinity_func : Option Text → p.State → Result p.State
  unfolding thread_get_affinity id_from_name_or_number
  get_affinity_func thread s = elim (given threads thread) [
    | none ↦ done s (usage ∷ [])
    | some t ↦ print_set s (thread_get_affinity (id_from_name_or_number threads t) s) []
  ]

  abbrev pub rubbish_at : Text → List Output
  rubbish_at [] = []
  rubbish_at (c ∷ s) = rubbish (c ∷ s) ∷ []

  -- Behind the parser, with its message: the set is set, read again and printed. The last message
  -- comes first.
  unfoldable pub after_set : ℕ → Text → Status × p.State → Result p.State
  unfolding thread_get_affinity
  after_set id rest (success, t) = print_set t (thread_get_affinity id t) (rubbish_at rest)
  after_set id rest (error, t) = done t (set_failed error ∷ rubbish_at rest)

  unfoldable pub after_parse : ℕ → p.State → Parsed → Result p.State
  unfolding after_set thread_set_affinity
  after_parse id s (parsed c rest) = after_set id rest (thread_set_affinity id c s)
  after_parse id s unset_first = unset_read
  after_parse id s no_fuel = unset_read

  unfoldable pub change_affinity : ℕ → Text → p.State → Status × CpuSet → Result p.State
  unfolding after_parse
  change_affinity id cpulist s (success, c) = after_parse id s (parse_affinity_list size cpulist c)
  change_affinity id cpulist s (error, c) = done s (get_failed error ∷ [])

  -- `epicsThreadSetAffinityFunc`.
  unfoldable pub set_affinity_func : Option Text → Option Text → p.State → Result p.State
  unfolding change_affinity thread_get_affinity id_from_name_or_number
  set_affinity_func thread cpulist s = elim (given threads thread) [
    | none ↦ done s (usage ∷ [])
    | some t ↦ elim (given threads cpulist) [
      | none ↦ done s (usage ∷ [])
      | some l ↦
          change_affinity (id_from_name_or_number threads t) l s
            (thread_get_affinity (id_from_name_or_number threads t) s)
    ]
  ]
