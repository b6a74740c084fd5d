-- ===== src/ArrayBytes/Raised.antt =====
-- The value of EPICS_CA_MAX_ARRAY_BYTES that `setMaxArrayBytes` of setMaxArrayBytes.c leaves.
use iocsh_utilities.Base.{
  ℕ, ◌≤◌, ◌<◌, ltb, ltb→lt, sym, if◌then◌else◌, ◌==◌, ==_iff, ◌≡◌, ◌≢◌, refl, true, false, not,
  Option, none, some, List, [], ◌∷◌, Text, arith, Bool-cases, inl, inr,
}
use mathlib.Core.Path.{subst}
use iocsh_utilities.Base.Int.{ℤ, pos, negsuc, ltb_ℤ}
use iocsh_utilities.Clib.{long_max}
use iocsh_utilities.Environ.{Env, getenv}
use iocsh_utilities.Threads.Affinity.{decimal}
use iocsh_utilities.ArrayBytes.{
  EpicsBase, Field, RecordType, variable, raise_needed, records_needed, fields_needed, types_needed,
  set_needed, set_max_array_bytes,
}
use iocsh_utilities.ArrayBytes.Sufficient.{
  Fits, AllFit, FieldsFit, TypesFit, TypesFit-mono, types_needed-TypesFit,
}

module _ (base : EpicsBase) where
  -- What is enough for all arrays is no less than the need.
  module _ (n : ℕ) where
    raise_needed-le :
        (a : Option (ℕ × ℕ)) (needed : ℕ)
        → needed ≤ n
        → Fits base n a
        → raise_needed base a needed ≤ n
    unfolding raise_needed
    raise_needed-le none needed h f = h
    raise_needed-le (some (type, nelem)) needed h f =
        elim (Bool-cases (ltb needed (base.ca_field_size type nelem))) [
          | inl e ↦ rw e f
          | inr e ↦ rw e h
        ]

    records_needed-le :
        (arrays : List (Option (ℕ × ℕ))) (needed : ℕ)
        → needed ≤ n
        → AllFit base n arrays
        → records_needed base arrays needed ≤ n
    unfolding records_needed
    records_needed-le [] needed h f = h
    records_needed-le (a ∷ arrays) needed h (f, g) =
        records_needed-le arrays (raise_needed base a needed) (raise_needed-le a needed h f) g

    field_needed-le :
        (f : Field) (needed : ℕ)
        → needed ≤ n
        → (f.noaccess ≡ true → f.dbaddr ≡ true → AllFit base n f.arrays)
        → (if not f.noaccess
            then needed
            else if not f.dbaddr
            then needed
            else records_needed base f.arrays needed)
          ≤ n
    field_needed-le f needed h g = elim (Bool-cases f.noaccess) [
      | inr e ↦ rw e h
      | inl e ↦ elim (Bool-cases f.dbaddr) [
        | inr k ↦ rw (e, k) h
        | inl k ↦ rw (e, k) (records_needed-le f.arrays needed h (g e k))
      ]
    ]

    fields_needed-le :
        (fields : List Field) (needed : ℕ)
        → needed ≤ n
        → FieldsFit base n fields
        → fields_needed base fields needed ≤ n
    unfolding fields_needed
    fields_needed-le [] needed h f = h
    fields_needed-le (x ∷ fields) needed h (f, g) =
        fields_needed-le fields _ (field_needed-le x needed h f) g

    type_needed-le :
        (t : RecordType) (needed : ℕ)
        → needed ≤ n
        → (t.n_records ≢ 0 → FieldsFit base n t.fields)
        → (if t.n_records == 0 then needed else fields_needed base t.fields needed) ≤ n
    type_needed-le t needed h g = elim (Bool-cases (t.n_records == 0)) [
      | inl e ↦ rw e h
      | inr e ↦ rw e (
          fields_needed-le t.fields needed h
            (g (λ k. ground (arith, (==_iff t.n_records 0).1 k, e))))
    ]

    types_needed-le :
        (types : List RecordType) (needed : ℕ)
        → needed ≤ n
        → TypesFit base n types
        → types_needed base types needed ≤ n
    unfolding types_needed
    types_needed-le [] needed h f = h
    types_needed-le (t ∷ types) needed h (f, g) =
        types_needed-le types _ (type_needed-le t needed h f) g

  -- All sizes are numbers of type `long`.
  AllFit-long : (arrays : List (Option (ℕ × ℕ))) → AllFit base long_max arrays
  AllFit-long [] = tt
  AllFit-long (none ∷ arrays) = (tt, AllFit-long arrays)
  AllFit-long (some (type, nelem) ∷ arrays) = (base.ca_field_size-le type nelem, AllFit-long arrays)

  FieldsFit-long : (fields : List Field) → FieldsFit base long_max fields
  FieldsFit-long [] = tt
  FieldsFit-long (f ∷ fields) = ((λ a d. AllFit-long f.arrays), FieldsFit-long fields)

  TypesFit-long : (types : List RecordType) → TypesFit base long_max types
  TypesFit-long [] = tt
  TypesFit-long (t ∷ types) = ((λ n. FieldsFit-long t.fields), TypesFit-long types)

  -- With the need of the arrays: a number that is not below it is enough, and one that is below is not.
  not_below : (z : ℤ) (need : ℕ) → ltb_ℤ z (pos need) ≡ false → (n : ℕ) × (z ≡ pos n) × (need ≤ n)
  not_below (pos n) need e = (n, refl, ground (arith, e))
  not_below (negsuc n) need e = absurd (ground (arith, e))

  below-pos : (z : ℤ) (need m : ℕ) → ltb_ℤ z (pos need) ≡ true → z ≡ pos m → m < need
  below-pos z need m e q =
      ltb→lt m need (ground (arith, subst (λ x. ltb_ℤ x (pos need) ≡ true) q e))

  below-flip : (z : ℤ) (need : ℕ) → ltb_ℤ z (pos need) ≡ true → ltb_ℤ (pos need) z ≡ false
  below-flip z need e = ground (arith, e)

  pos-le : (n m : ℕ) → ltb_ℤ (pos m) (pos n) ≡ false → n ≤ m
  pos-le n m e = ground (arith, e)

  -- What the hook leaves where the variable was read as `before` and the environment was `env`.
  abbrev pub Leaves : List RecordType → ℤ → Env → Env → Type 0
  Leaves types before env after =
      (n : ℕ) × (base.read_long after ≡ pos n)
      × TypesFit base n types
      × (ltb_ℤ (pos n) before ≡ false)
      × ((m : ℕ) → ltb_ℤ (pos m) before ≡ false → TypesFit base m types → n ≤ m)
      × ((m : ℕ) → before ≡ pos m → TypesFit base m types → after ≡ env)
      × ((other : Text) → other ≢ variable → getenv other after ≡ getenv other env)

  -- Whatever number the variable was read as, a negative one included: after the hook it reads as a
  -- number that is not negative, is enough for each array field of each record and no smaller than
  -- before, and is no bigger than any number that is all this. If the number before was not negative and
  -- was enough, the environment is as it was, and no other variable changes in any case. In other hooks
  -- nothing changes.
  pub set_max_array_bytes-TypesFit :
      (types : List RecordType) (env : Env)
      → Leaves types (base.read_long env) env (set_max_array_bytes base true types env).0
        × ((set_max_array_bytes base false types env).0 ≡ env)
  unfolding set_max_array_bytes set_needed
  set_max_array_bytes-TypesFit types env =
      let need = types_needed base types 0 in
      let before = base.read_long env in
      let (_, fit) = types_needed-TypesFit base types 0 in
      let least : (n : ℕ) → TypesFit base n types → need ≤ n =
        λ n f. types_needed-le n types 0 (omega arith) f in
      elim (Bool-cases (ltb_ℤ before (pos need))) [
        | inl e ↦ rw e (
          (
            need,
            base.read_long-set need env (least long_max (TypesFit-long types)),
            fit,
            below-flip before need e,
            (λ m h f. least m f),
            (λ m q f. absurd (omega (arith, least m f, below-pos before need m e q))),
            (λ other n. base.env_set.getenv-set_ne variable (decimal need) other env n),
          ),
          refl,
        )
        | inr e ↦
            let (n, q, le) = not_below before need e in
            rw e (
              (
                n,
                q,
                TypesFit-mono base need n types le fit,
                subst (λ z. ltb_ℤ (pos n) z ≡ false) (sym q) (ground arith),
                (λ m h f. pos-le n m (subst (λ z. ltb_ℤ (pos m) z ≡ false) q h)),
                (λ m h f. refl),
                (λ other k. refl),
              ),
              refl,
            )
      ]
