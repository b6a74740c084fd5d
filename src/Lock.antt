-- ===== src/Lock.antt =====
-- mlock.c: the commands mlock and munlock. The calls of the system are the parameter `Memory`.
mod Tests
use iocsh_utilities.Base.{ℕ, ◌/◌, Bool, true, false, Option, none, some}

-- What `mlockall` returns, with ENOMEM apart.
pub data Locked : Type 0 where
  locked no_memory lock_failed : Locked

pub record Memory : Type 1 where
  pub State : Type 0
  pub mlockall : State → Locked × State
  pub munlockall : State → Bool × State
  -- The soft limit of RLIMIT_MEMLOCK in bytes.
  pub limit : State → ℕ

pub data Message : Type 0 where
  limit_exceeded : ℕ → Message
  mlock_failed munlock_failed : Message

module _ (memory : Memory) where
  abbrev pub report : Locked × memory.State → memory.State × Option Message
  report (locked, s) = (s, none)
  report (no_memory, s) = (s, some (limit_exceeded (memory.limit s / 1024)))
  report (lock_failed, s) = (s, some mlock_failed)

  -- `mlockFunc`.
  unfoldable pub mlock_func : memory.State → memory.State × Option Message
  mlock_func s = report (memory.mlockall s)

  -- `munlockFunc`.
  unfoldable pub munlock_func : memory.State → memory.State × Option Message
  munlock_func s =
      let (ok, t) = memory.munlockall s in
      (t, elim ok [ true ↦ none | false ↦ some munlock_failed ])
