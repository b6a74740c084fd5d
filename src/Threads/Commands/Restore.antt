-- ===== src/Threads/Commands/Restore.antt =====
-- threads.c: what epicsThreadGetAffinity prints can be given to epicsThreadSetAffinity.
use iocsh_utilities.Base.{
  ℕ, ◌<◌, ◌≤◌, ◌^◌, ◌==◌, ==_iff, ltb, ltb-lt, if◌then◌else◌, ◌≡◌, refl, sym, ◌∙◌, ap, Bool, true,
  false, ◌&&◌, some, [], ◌∷◌, Text, arith, Bool-cases, inl, inr,
}
use mathlib.Core.Path.{subst, fun_ext}
use iocsh_utilities.Threads.Affinity.{
  CpuSet, Parsed, parsed, print_affinity_list, parse_affinity_list,
}
use iocsh_utilities.Threads.Affinity.RoundTrip.{parse-print_affinity_list}
use iocsh_utilities.Threads.Affinity.Ends.{parse_affinity_list-blank}
use iocsh_utilities.Threads.Priority.{Threads, given, id_from_name_or_number}
use iocsh_utilities.Threads.Commands.{
  Pthreads, Status, success, enosys, affinity_list, done, thread_of, thread_get_affinity,
  thread_set_affinity, get_affinity_func, after_set, after_parse, change_affinity,
  set_affinity_func,
}

is_set : Parsed → Bool
is_set (parsed c rest) = true
is_set _ = false

not_empty :
    (size : ℕ) (l : Text) (old c : CpuSet)
    → parse_affinity_list size l old ≡ parsed c []
    → (a : ℕ) × (s : Text) × (l ≡ a ∷ s)
unfolding is_set
not_empty size [] old c e =
    absurd (ground (arith, ap is_set (sym (parse_affinity_list-blank size [] old tt) ∙ e)))
not_empty size (a ∷ s) old c e = (a, s, refl)

success_of : Status × CpuSet → Bool
success_of (success, c) = true
success_of _ = false

within : (size : ℕ) (c : CpuSet) → ((i : ℕ) → c i ≡ true → i < size) → (λ i. ltb i size && c i) ≡ c
within size c h = fun_ext (λ i. elim (Bool-cases (c i)) [
  | inl e ↦ rw (e, ltb-lt i size (h i e)) refl
  | inr e ↦ ground (arith, e)
])

not_missing :
    (b : Bool) (g : Status × CpuSet) (c : CpuSet)
    → (if b then (enosys, λ i. false) else g) ≡ (success, c)
    → (b ≡ false) × (g ≡ (success, c))
unfolding success_of
not_missing true g c e = absurd (ground (arith, ap success_of e))
not_missing false g c e = (refl, e)

all_usable : (c u : CpuSet) → ((i : ℕ) → c i ≡ true → u i ≡ true) → (λ i. c i && u i) ≡ c
all_usable c u h =
    fun_ext (λ i. elim (Bool-cases (c i)) [ inl e ↦ rw (e, h i e) refl | inr e ↦ rw e refl ])

module _ (size : ℕ) (threads : Threads) (p : Pthreads) where
  is_given : (l : Text) (a : ℕ) (s : Text) → l ≡ a ∷ s → given threads (some l) ≡ some l
  is_given l a s e = subst (λ x. given threads (some x) ≡ some x) (sym e) refl

  module _ (id : ℕ) (s : p.State) (c : CpuSet)
      (g : thread_get_affinity size threads p id s ≡ (success, c)) where
    abbrev tid : ℕ
    tid = thread_of size threads p id

    is_thread : (tid == 0 ≡ false) × (p.get_affinity s tid ≡ (success, c))
    unfolding thread_get_affinity
    is_thread = not_missing (tid == 0) (p.get_affinity s tid) c g

    set_thread :
        (t : p.State)
        → thread_set_affinity size threads p id c s ≡ (success, t)
        → p.set_affinity s tid c ≡ (success, t)
    unfolding thread_set_affinity
    set_thread t e = rw is_thread.0 at e

    can_set :
        (m : ℕ)
        → c m ≡ true
        → (t : p.State) × (thread_set_affinity size threads p id c s ≡ (success, t))
    unfolding thread_set_affinity
    can_set m h =
        let (t, e) =
          p.set-usable s tid c c m is_thread.1 h (p.get-usable s tid c m is_thread.1 h) in
        (t, rw is_thread.0 e)

    get_again :
        (t : p.State)
        → thread_set_affinity size threads p id c s ≡ (success, t)
        → p.get_affinity t tid ≡ (success, c)
    get_again t e =
        p.get-set s t tid c (set_thread t e)
        ∙ ap (λ x. (success, x))
            (all_usable c p.usable (λ i h. p.get-usable s tid c i is_thread.1 h))

    thread_get_again :
        (t : p.State)
        → thread_set_affinity size threads p id c s ≡ (success, t)
        → thread_get_affinity size threads p id t ≡ (success, c)
    unfolding thread_get_affinity
    thread_get_again t e = rw (is_thread.0, get_again t e) refl

    restores :
        (t : p.State)
        → thread_set_affinity size threads p id c s ≡ (success, t)
        → (i : ℕ) → p.get_affinity t i ≡ p.get_affinity s i
    restores t e i = elim (Bool-cases (i == tid)) [
      | inl q ↦ rw ((==_iff i tid).0 q) (get_again t e ∙ sym is_thread.1)
      | inr q ↦ p.get-set_ne s t tid i c (set_thread t e) (λ k. ground (arith, (==_iff i tid).1 k))
    ]

  -- For at most 2^32 processors, usable ones below CPU_SETSIZE only, and a thread whose affinity can be
  -- read and is not empty: epicsThreadGetAffinity prints a list, and epicsThreadSetAffinity with this
  -- list sets an affinity without an error or rubbish and prints the same list, and then the affinity of
  -- every thread is what it was.
  pub set_affinity_func-get_affinity_func :
      (a : ℕ) (name : Text) (s : p.State) (c : CpuSet) (m : ℕ)
      → size ≤ 2 ^ 32
      → ((i : ℕ) → p.usable i ≡ true → i < size)
      → thread_get_affinity size threads p (id_from_name_or_number threads (a ∷ name)) s
        ≡ (success, c)
      → c m ≡ true
      → let l = print_affinity_list size c in
        (get_affinity_func size threads p (some (a ∷ name)) s ≡ done s (affinity_list l ∷ []))
        × ((t : p.State) × (set_affinity_func size threads p (some (a ∷ name)) (some l) s
              ≡ done t (affinity_list l ∷ []))
            × ((i : ℕ) → p.get_affinity t i ≡ p.get_affinity s i))
  unfolding get_affinity_func set_affinity_func change_affinity after_parse after_set
  set_affinity_func-get_affinity_func a name s c m big small g member =
      let id = id_from_name_or_number threads (a ∷ name) in
      let below : (i : ℕ) → c i ≡ true → i < size = λ i h.
        small i (p.get-usable s (thread_of size threads p id) c i (is_thread id s c g).1 h) in
      let l = print_affinity_list size c in
      let q : parse_affinity_list size l c ≡ parsed c [] =
        parse-print_affinity_list size c c m big (below m member) member
        ∙ ap (λ x. parsed x []) (within size c below) in
      let (b, l', k) = not_empty size l c c q in
      let (t, e) = can_set id s c g m member in
      (
        rw g refl,
        (
          t,
          rw
              (
                set_affinity_func,
                is_given l b l' k,
                g,
                change_affinity,
                q,
                e,
                thread_get_again id s c g t e,
              )
              refl,
          restores id s c g t e,
        ),
      )
