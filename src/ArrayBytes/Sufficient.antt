-- ===== src/ArrayBytes/Sufficient.antt =====
-- What `setMaxArrayBytes` of setMaxArrayBytes.c leaves in the environment.
use iocsh_utilities.Base.{
  ℕ, ◌≤◌, ltb, ltb→lt, ltb-false, if◌then◌else◌, ◌==◌, ==_iff, ◌≡◌, ◌≢◌, true, not, Option, none,
  some, List, [], ◌∷◌, arith, Bool-cases, inl, inr,
}
use iocsh_utilities.ArrayBytes.{
  EpicsBase, Field, RecordType, raise_needed, records_needed, fields_needed, types_needed,
}

module _ (base : EpicsBase) where
  -- So many bytes are enough for this array, all arrays of a field, and so on. Only fields without
  -- direct access whose address the record gives are arrays.
  abbrev pub Fits : ℕ → Option (ℕ × ℕ) → Type 0
  Fits n none = Unit {0}
  Fits n (some (type, nelem)) = base.ca_field_size type nelem ≤ n

  abbrev pub AllFit : ℕ → List (Option (ℕ × ℕ)) → Type 0
  AllFit n [] = Unit {0}
  AllFit n (a ∷ arrays) = Fits n a × AllFit n arrays

  abbrev pub FieldsFit : ℕ → List Field → Type 0
  FieldsFit n [] = Unit {0}
  FieldsFit n (f ∷ fields) =
      (f.noaccess ≡ true → f.dbaddr ≡ true → AllFit n f.arrays) × FieldsFit n fields

  abbrev pub TypesFit : ℕ → List RecordType → Type 0
  TypesFit n [] = Unit {0}
  TypesFit n (t ∷ types) = (t.n_records ≢ 0 → FieldsFit n t.fields) × TypesFit n types

  -- The need of a walk is at least what it began with and enough; it is no more than any that is.
  raise_needed-Fits :
      (a : Option (ℕ × ℕ)) (needed : ℕ)
      → (needed ≤ raise_needed base a needed) × Fits (raise_needed base a needed) a
  unfolding raise_needed
  raise_needed-Fits none needed = (omega arith, tt)
  raise_needed-Fits (some (type, nelem)) needed =
      elim (Bool-cases (ltb needed (base.ca_field_size type nelem))) [
        | inl e ↦ rw e (omega (arith, ltb→lt needed (base.ca_field_size type nelem) e), omega arith)
        | inr e ↦ rw e (omega arith, ltb-false needed (base.ca_field_size type nelem) e)
      ]

  Fits-mono : (m n : ℕ) (a : Option (ℕ × ℕ)) → m ≤ n → Fits m a → Fits n a
  Fits-mono m n none h f = tt
  Fits-mono m n (some (type, nelem)) h f = omega arith

  records_needed-AllFit :
      (arrays : List (Option (ℕ × ℕ))) (needed : ℕ)
      → (needed ≤ records_needed base arrays needed)
        × AllFit (records_needed base arrays needed) arrays
  unfolding records_needed
  records_needed-AllFit [] needed = (omega arith, tt)
  records_needed-AllFit (a ∷ arrays) needed =
      let (lo, f) = raise_needed-Fits a needed in
      let (hi, g) = records_needed-AllFit arrays (raise_needed base a needed) in
      (
        omega (arith, lo, hi),
        (
          Fits-mono (raise_needed base a needed)
              (records_needed base arrays (raise_needed base a needed)) a hi f,
          g,
        ),
      )

  AllFit-mono :
      (m n : ℕ) (arrays : List (Option (ℕ × ℕ))) → m ≤ n → AllFit m arrays → AllFit n arrays
  AllFit-mono m n [] h f = tt
  AllFit-mono m n (a ∷ arrays) h (f, g) = (Fits-mono m n a h f, AllFit-mono m n arrays h g)

  FieldsFit-mono : (m n : ℕ) (fields : List Field) → m ≤ n → FieldsFit m fields → FieldsFit n fields
  FieldsFit-mono m n [] h f = tt
  FieldsFit-mono m n (x ∷ fields) h (f, g) =
      ((λ a d. AllFit-mono m n x.arrays h (f a d)), FieldsFit-mono m n fields h g)

  field_step : Field → ℕ → ℕ
  field_step f needed =
      if not f.noaccess
      then needed
      else if not f.dbaddr
      then needed
      else records_needed base f.arrays needed

  field_step-fits :
      (f : Field) (needed : ℕ)
      → (needed ≤ field_step f needed)
        × (f.noaccess ≡ true → f.dbaddr ≡ true → AllFit (field_step f needed) f.arrays)
  unfolding field_step
  field_step-fits f needed = elim (Bool-cases f.noaccess) [
    | inr e ↦ rw e (omega arith, λ a d. absurd (ground (arith, a)))
    | inl e ↦ elim (Bool-cases f.dbaddr) [
      | inr k ↦ rw (e, k) (omega arith, λ a d. absurd (ground (arith, d)))
      | inl k ↦ let (lo, g) = records_needed-AllFit f.arrays needed in rw (e, k) (lo, λ a d. g)
    ]
  ]

  fields_needed-FieldsFit :
      (fields : List Field) (needed : ℕ)
      → (needed ≤ fields_needed base fields needed)
        × FieldsFit (fields_needed base fields needed) fields
  unfolding fields_needed field_step
  fields_needed-FieldsFit [] needed = (omega arith, tt)
  fields_needed-FieldsFit (f ∷ fields) needed =
      let next = field_step f needed in
      let (lo, g) = field_step-fits f needed in
      let (hi, k) = fields_needed-FieldsFit fields next in
      (
        omega (arith, lo, hi),
        ((λ a d. AllFit-mono next (fields_needed base fields next) f.arrays hi (g a d)), k),
      )

  type_step : RecordType → ℕ → ℕ
  type_step t needed = if t.n_records == 0 then needed else fields_needed base t.fields needed

  type_step-fits :
      (t : RecordType) (needed : ℕ)
      → (needed ≤ type_step t needed) × (t.n_records ≢ 0 → FieldsFit (type_step t needed) t.fields)
  unfolding type_step
  type_step-fits t needed = elim (Bool-cases (t.n_records == 0)) [
    | inl e ↦ rw e (omega arith, λ n. absurd (n ((==_iff t.n_records 0).0 e)))
    | inr e ↦ let (lo, g) = fields_needed-FieldsFit t.fields needed in rw e (lo, λ n. g)
  ]

  pub types_needed-TypesFit :
      (types : List RecordType) (needed : ℕ)
      → (needed ≤ types_needed base types needed) × TypesFit (types_needed base types needed) types
  unfolding types_needed type_step
  types_needed-TypesFit [] needed = (omega arith, tt)
  types_needed-TypesFit (t ∷ types) needed =
      let next = type_step t needed in
      let (lo, g) = type_step-fits t needed in
      let (hi, k) = types_needed-TypesFit types next in
      (
        omega (arith, lo, hi),
        ((λ n. FieldsFit-mono next (types_needed base types next) t.fields hi (g n)), k),
      )

  pub TypesFit-mono :
      (m n : ℕ) (types : List RecordType) → m ≤ n → TypesFit m types → TypesFit n types
  TypesFit-mono m n [] h f = tt
  TypesFit-mono m n (t ∷ types) h (f, g) =
      ((λ k. FieldsFit-mono m n t.fields h (f k)), TypesFit-mono m n types h g)
