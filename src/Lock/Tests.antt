-- ===== src/Lock/Tests.antt =====
-- A run of mlock.c with too low a limit.
use iocsh_utilities.Base.{ℕ, ◌≡◌, refl, true, some}
use iocsh_utilities.Lock.{Memory, no_memory, limit_exceeded, mlock_func}

abbrev memory : Memory
memory = record {
  State = ℕ;
  mlockall = λ s. (no_memory, s);
  munlockall = λ s. (true, s);
  limit = λ s. s;
}

too_much : mlock_func memory 65536 ≡ (65536, some (limit_exceeded 64))
unfolding mlock_func
too_much = refl
