-- ===== src/Threads/Commands/Tests.antt =====
-- The affinity commands of threads.c on four processors: their theorem and some runs.
use iocsh_utilities.Base.{
  ℕ, ◌-◌, ◌+◌, ◌==◌, ==_refl, ltb, if◌then◌else◌, ◌≡◌, ◌≢◌, refl, sym, ◌∙◌, ap, true, ◌&&◌,
  and-right, ◌||◌, some, [], ◌∷◌, codes, text_eq, arith,
}
use iocsh_utilities.Clib.{strtoull}
use iocsh_utilities.Threads.Affinity.{CpuSet, print_affinity_list, parse_affinity_list}
use iocsh_utilities.Threads.Priority.{Threads, id_from_name_or_number}
use iocsh_utilities.Threads.Commands.{
  Pthreads, success, done, affinity_list, thread_of, thread_get_affinity, get_affinity_func,
  set_affinity_func,
}
use iocsh_utilities.Threads.Commands.Restore.{set_affinity_func-get_affinity_func}

-- One thread of EPICS, `t` with the id 5, which is number 7 for POSIX. The shell is number 1.
abbrev threads : Threads
threads = record {
  level = λ l. 50;
  level_below = λ p. p - 1;
  level_above = λ p. p + 1;
  get_id = λ s. if text_eq s (codes "t") then 5 else 0;
  get_priority = λ _. 50;
  case_eq = text_eq;
}

abbrev four : CpuSet
four i = ltb i 4

abbrev put : (ℕ → CpuSet) → ℕ → CpuSet → ℕ → CpuSet
put s tid c i = if i == tid then c else s i

abbrev cut : CpuSet → CpuSet
cut c i = c i && four i

put_self : (s : ℕ → CpuSet) (tid : ℕ) (c : CpuSet) → put s tid c tid ≡ c
put_self s tid c = rw (==_refl tid) refl

put_ne : (s : ℕ → CpuSet) (tid i : ℕ) (c : CpuSet) → i ≢ tid → put s tid c i ≡ s i
put_ne s tid i c n = ground arith

cut-four :
    (s : ℕ → CpuSet) (tid : ℕ) (c : CpuSet) (i : ℕ) → cut (s tid) ≡ c → c i ≡ true → four i ≡ true
cut-four s tid c i e h = and-right (s tid i) (four i) (ap (λ f. f i) e ∙ h)

abbrev pthreads : Pthreads
pthreads = record {
  State = ℕ → CpuSet;
  usable = four;
  posix_id = λ id. id + 2;
  self = 1;
  get_affinity = λ s tid. (success, cut (s tid));
  set_affinity = λ s tid c. (success, put s tid c);
  get-usable = λ s tid c i e h. cut-four s tid c i (ap (λ r. r.1) e) h;
  set-usable = λ s tid old c i e h u. (put s tid c, refl);
  get-set = λ s t tid c e.
      ap (λ f. (success, cut (f tid))) (sym (ap (λ r. r.1) e))
      ∙ ap (λ x. (success, cut x)) (put_self s tid c);
  get-set_ne = λ s t tid i c e n.
      ap (λ f. (success, cut (f i))) (sym (ap (λ r. r.1) e))
      ∙ ap (λ x. (success, cut x)) (put_ne s tid i c n);
}

abbrev start : ℕ → CpuSet
start tid i = i == 1 || i == 2

-- A thread that is not found is NULL, and the functions below take NULL for the caller.
changes_shell :
    (s : ℕ → CpuSet) × (set_affinity_func 4 threads pthreads
        (some (codes "x"))
        (some (codes "0"))
        start
      ≡ done s (affinity_list (codes "0") ∷ []))
    × (s 1 0 ≡ true)
unfolding set_affinity_func parse_affinity_list print_affinity_list strtoull
changes_shell = (_, refl, refl)

set_affinity_func-get_affinity_func_example :
    (get_affinity_func 4 threads pthreads (some (codes "t")) start
      ≡ done start (affinity_list (codes "1-2") ∷ []))
    × ((t : ℕ → CpuSet) × (set_affinity_func 4 threads pthreads
            (some (codes "t"))
            (some (codes "1-2"))
            start
          ≡ done t (affinity_list (codes "1-2") ∷ []))
        × ((i : ℕ) → pthreads.get_affinity t i ≡ pthreads.get_affinity start i))
unfolding print_affinity_list id_from_name_or_number thread_get_affinity thread_of strtoull
set_affinity_func-get_affinity_func_example =
    set_affinity_func-get_affinity_func 4 threads pthreads b't' [] start (cut (start 7)) 1
      (omega arith) (λ i h. ground (arith, h)) refl refl
