-- ===== src/ArrayBytes.antt =====
-- setMaxArrayBytes.c, the init hook `setMaxArrayBytes`: EPICS_CA_MAX_ARRAY_BYTES is raised to what the
-- biggest array field needs. The database is an argument: for each record type the number of its
-- records and its fields, for each field what `cvt_dbaddr` makes of each record. The size of a value on
-- the net, `caFieldSize`, comes from tables of EPICS base and is a parameter, and so is how EPICS base
-- sets and reads an environment variable as a number.
pub mod Sufficient
pub mod Raised
mod Tests
use iocsh_utilities.Base.{
  ℕ, ◌≤◌, ltb, if◌then◌else◌, ◌==◌, ◌≡◌, Bool, true, false, not, ◌&&◌, ◌||◌, Option, none, some,
  List, [], ◌∷◌, Text, codes,
}
use iocsh_utilities.Base.Int.{ℤ, pos, ltb_ℤ}
use iocsh_utilities.Clib.{long_max}
use iocsh_utilities.Environ.{Env, EpicsEnv}
use iocsh_utilities.Threads.Affinity.{decimal}

-- A field of a record type. For each record: no support structure, or field type and number of
-- elements of the array.
pub record Field : Type 0 where
  pub noaccess : Bool
  pub dbaddr : Bool
  pub arrays : List (Option (ℕ × ℕ))

pub record RecordType : Type 0 where
  pub n_records : ℕ
  pub fields : List Field

abbrev pub variable : Text
variable = codes "EPICS_CA_MAX_ARRAY_BYTES"

-- EPICS base: `caFieldSize`, `epicsEnvSet` and `envGetLongConfigParam`.
pub record EpicsBase : Type 0 where
  pub ca_field_size : ℕ → ℕ → ℕ
  pub ca_field_size-le : (type nelem : ℕ) → ca_field_size type nelem ≤ long_max
  pub env_set : EpicsEnv
  -- What the variable is read as, and 0 if it is no number.
  pub read_long : Env → ℤ
  pub read_long-set :
      (n : ℕ) (env : Env) → n ≤ long_max → read_long (env_set.set variable (decimal n) env) ≡ pos n

pub data Message : Type 0 where
  silent : Message
  raised_to : ℕ → Message
  sufficient : ℤ → ℕ → Message

module _ (base : EpicsBase) where
  -- `if (size > maxNeeded) maxNeeded = size;`.
  unfoldable pub raise_needed : Option (ℕ × ℕ) → ℕ → ℕ
  raise_needed none needed = needed
  raise_needed (some (type, nelem)) needed =
      let size = base.ca_field_size type nelem in if ltb needed size then size else needed

  unfoldable pub records_needed : List (Option (ℕ × ℕ)) → ℕ → ℕ
  unfolding raise_needed
  records_needed [] needed = needed
  records_needed (a ∷ arrays) needed = records_needed arrays (raise_needed a needed)

  unfoldable pub fields_needed : List Field → ℕ → ℕ
  unfolding records_needed
  fields_needed [] needed = needed
  fields_needed (f ∷ fields) needed = fields_needed fields (
      if not f.noaccess
      then needed
      else if not f.dbaddr
      then needed
      else records_needed f.arrays needed)

  unfoldable pub types_needed : List RecordType → ℕ → ℕ
  unfolding fields_needed
  types_needed [] needed = needed
  types_needed (t ∷ types) needed =
      types_needed types (if t.n_records == 0 then needed else fields_needed t.fields needed)

  -- From `envGetLongConfigParam` on.
  unfoldable pub set_needed : ℕ → Env → Env × Message
  set_needed needed env =
      if ltb_ℤ (base.read_long env) (pos needed)
      then (base.env_set.set variable (decimal needed) env, raised_to needed)
      else (env, sufficient (base.read_long env) needed)

  -- `setMaxArrayBytes`; whether the hook is initHookAfterFinishDevSup is an argument.
  unfoldable pub set_max_array_bytes : Bool → List RecordType → Env → Env × Message
  unfolding types_needed set_needed
  set_max_array_bytes false types env = (env, silent)
  set_max_array_bytes true types env = set_needed (types_needed types 0) env
