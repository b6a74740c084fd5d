-- ===== src/Ulimit/Tests.antt =====
-- The theorems about ulimit.c at a concrete system, and runs of `ulimitFunc`.
use iocsh_utilities.Base.{
  ℕ, ◌==◌, ==_refl, if◌then◌else◌, ◌≡◌, ◌≢◌, refl, sym, ◌∙◌, ap, none, some, [], ◌∷◌, Text, codes,
  arith,
}
use mathlib.Core.Option.{some-injective}
use iocsh_utilities.Clib.{strtoull}
use iocsh_utilities.Threads.Affinity.{decimal}
use iocsh_utilities.Ulimit.{System, Rlimit, line, padded, print_value, new_limit, ulimit_func}
use iocsh_utilities.Ulimit.Named.{ulimit_func-shows, ulimit_func-others}
use iocsh_utilities.Ulimit.Values.{rounded, new_limit-print_value}

abbrev put : (ℕ → Rlimit) → ℕ → Rlimit → ℕ → Rlimit
put s r l i = if i == r then l else s i

put_self : (s : ℕ → Rlimit) (r : ℕ) (l : Rlimit) → put s r l r ≡ l
put_self s r l = rw (==_refl r) refl

put_ne : (s : ℕ → Rlimit) (r i : ℕ) (l : Rlimit) → i ≢ r → put s r l i ≡ s i
put_ne s r i l n = ground arith

-- A kernel that sets every limit.
abbrev kernel : System
kernel = record {
  State = ℕ → Rlimit;
  get_limit = λ s r. some (s r);
  set_limit = λ s r l. some (put s r l);
  get-set = λ s t r l e.
      sym (ap (λ f. some (f r)) (some-injective (put s r l) t e)) ∙ ap some (put_self s r l);
  get-set_ne = λ s t r i l e n.
      sym (ap (λ f. some (f i)) (some-injective (put s r l) t e)) ∙ ap some (put_ne s r i l n);
}

abbrev limits : ℕ → Rlimit
limits r = record { cur = 512; max = 1024 }

stack_of : (ulimit_func kernel (some (codes "-s")) none limits).1 ≡ line (codes "0        ") ∷ []
unfolding ulimit_func decimal
stack_of = refl

-- The soft limit alone is set, in units of the resource.
sets_soft :
    (ulimit_func kernel (some (codes "-s")) (some (codes "8")) limits).0 b's'
    ≡ record { cur = 8192; max = 1024 }
unfolding ulimit_func strtoull
sets_soft = refl

-- A limit of 2^54 kilobytes loses its bits.
wraps_around : new_limit (codes "18014398509481984") 10 ≡ some 0
unfolding new_limit strtoull
wraps_around = refl

ulimit_func-shows_example :
    ((ulimit_func kernel none (some (codes "8")) limits).0 ≡ limits)
    × ((ulimit_func kernel (some (codes "-Ha")) none limits).0 ≡ limits)
ulimit_func-shows_example = ulimit_func-shows kernel (codes "Ha") (some (codes "8")) limits

ulimit_func-others_example :
    kernel.get_limit (ulimit_func kernel (some (codes "-Hs")) (some (codes "8")) limits).0 b'f'
    ≡ kernel.get_limit limits b'f'
ulimit_func-others_example =
    ulimit_func-others kernel b'f' (some (codes "-Hs")) (some (codes "8")) limits refl

new_limit-print_value_example :
    (t : Text) × (print_value 8200 10 ≡ padded 9 t) × (new_limit t 10 ≡ some (rounded 8200 10))
new_limit-print_value_example = new_limit-print_value 8200 10 (omega arith)
