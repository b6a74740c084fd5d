-- ===== src/ArrayBytes/Tests.antt =====
-- The theorem about setMaxArrayBytes.c at a concrete database.
use iocsh_utilities.Base.{
  ℕ, ◌-◌, ◌^◌, ltb, if◌then◌else◌, ◌≤◌, refl, ◌+◌, ◌*◌, min, ◌≡◌, ap, ◌∙◌, true, false, Option,
  none, some, List, [], ◌∷◌, Text, codes, arith,
}
use iocsh_utilities.Base.Int.{ℤ, pos, negsuc}
use iocsh_utilities.Clib.{long_max, strtoull}
use iocsh_utilities.Environ.{Env, getenv, putenv}
use iocsh_utilities.Environ.Laws.{getenv-putenv}
use iocsh_utilities.Environ.Tests.{putting}
use iocsh_utilities.Threads.Affinity.{decimal}
use iocsh_utilities.Ulimit.Values.{strtoull-decimal}
use iocsh_utilities.ArrayBytes.{EpicsBase, RecordType, variable, raised_to, set_max_array_bytes}
use iocsh_utilities.ArrayBytes.Raised.{Leaves, set_max_array_bytes-TypesFit}

-- The 64 bits of a number as one with a sign.
abbrev signed : ℕ → ℤ
signed n = if ltb long_max n then negsuc (2 ^ 64 - 1 - n) else pos n

signed-pos : (n : ℕ) → n ≤ long_max → signed n ≡ pos n
signed-pos n h = ground arith

abbrev number_of : Option Text → ℤ
number_of none = pos 0
number_of (some s) = signed (strtoull s).0

-- Eight bytes for each element, and a head of 92.
abbrev base : EpicsBase
base = record {
  ca_field_size = λ type nelem. min long_max (8 * nelem + 92);
  ca_field_size-le = λ type nelem. omega arith;
  env_set = putting;
  read_long = λ env. number_of (getenv variable env);
  read_long-set = λ n env h.
      ap number_of (getenv-putenv variable (decimal n) env)
      ∙ ap (λ r. signed r.0) (strtoull-decimal n (omega (arith, h)))
      ∙ signed-pos n h;
}

abbrev types : List RecordType
types =
    record {
      n_records = 2;
      fields =
          record { noaccess = true; dbaddr = true; arrays = some (10, 1000) ∷ none ∷ [] }
          ∷ record { noaccess = false; dbaddr = true; arrays = some (10, 9000) ∷ [] }
          ∷ [];
    }
    ∷ record { n_records = 0; fields = [] }
    ∷ []

abbrev env : Env
env = (codes "EPICS_CA_MAX_ARRAY_BYTES", codes "16") ∷ []

set_max_array_bytes-TypesFit_example :
    Leaves base types (base.read_long env) env (set_max_array_bytes base true types env).0
    × ((set_max_array_bytes base false types env).0 ≡ env)
set_max_array_bytes-TypesFit_example = set_max_array_bytes-TypesFit base types env

-- A negative setting is raised to 0 where no field is an array.
raises_negative :
    set_max_array_bytes base true [] ((variable, codes "-5") ∷ [])
    ≡ ((variable, codes "0") ∷ [], raised_to 0)
unfolding set_max_array_bytes getenv putenv strtoull decimal
raises_negative = refl
