-- ===== src/Dbll/Pattern.antt =====
-- Which targets a pattern of `dbll` of dbll.c accepts, where `epicsStrGlobMatch` is glob matching.
use iocsh_utilities.Base.{
  ◌==◌, if◌then◌else◌, ◌≡◌, ◌≢◌, ◌↔◌, refl, sym, ◌∙◌, ap, ap₂, Bool, true, false, ◌||◌, or-right,
  none, some, [], ◌∷◌, ◌++◌, Text, codes, text_eq, text_eq→≡, has_byte, arith, Bool-cases, inl, inr,
}
use mathlib.Core.Path.{subst}
use mathlib.Core.List.{head-eq_of_cons-eq, tail-eq_of_cons-eq}
use iocsh_utilities.Glob.{star}
use iocsh_utilities.Glob.Relation.{Matches, lone_star}
use iocsh_utilities.Glob.Append.{Matches-append, Matches-split, plain, plain_inv}
use iocsh_utilities.Dbll.{dot, split_field, query_with, read_query, accepts, accepts_alt}

-- The text has no dot.
abbrev pub dotless : Text → Bool
dotless s = has_byte dot s

-- A record name and a field name.
abbrev pub field_of : Text → Text → Text
field_of r f = r ++ (dot ∷ f)

has_dot : (r f : Text) → has_byte dot (field_of r f) ≡ true
has_dot [] f = refl
has_dot (c ∷ r) f = ground (arith, has_dot r f)

-- There is one way only to split at the one dot of a text.
same_split :
    (r f s t : Text)
    → has_byte dot r ≡ false
    → has_byte dot f ≡ false
    → r ++ (dot ∷ f) ≡ s ++ (dot ∷ t)
    → (r ≡ s) × (f ≡ t)
same_split [] f [] t h k e = (refl, tail-eq_of_cons-eq e)
same_split [] f (c ∷ s) t h k e =
    absurd (ground (arith, ap (has_byte dot) (tail-eq_of_cons-eq e), has_dot s t))
same_split (d ∷ r) f [] t h k e = absurd (ground (arith, head-eq_of_cons-eq e))
same_split (d ∷ r) f (c ∷ s) t h k e =
    let (p, q) =
      same_split r f s t (or-right (d == dot) (has_byte dot r) h) k (tail-eq_of_cons-eq e) in
    (ap₂ ◌∷◌ (head-eq_of_cons-eq e) p, q)

-- The record name of a target is matched by the part of the pattern before the dot.
split_target :
    (p q r f : Text)
    → dotless r ≡ false
    → dotless f ≡ false
    → Matches (p ++ (dot ∷ q)) (field_of r f)
    → Matches p r × Matches q f
split_target p q r f h k d =
    let (t, u, e, x, y) = Matches-split p (dot ∷ q) d in
    let (v, z, w) = plain_inv refl refl y in
    let (a, b) = same_split r f t v h k (e ∙ ap (λ s. t ++ s) z) in
    (subst (Matches p) (sym a) x, subst (Matches q) (sym b) w)

field_iff :
    (p q r f : Text)
    → dotless r ≡ false
    → dotless f ≡ false
    → Matches (p ++ (dot ∷ q)) (field_of r f) ↔ (Matches p r × Matches q f)
field_iff p q r f h k = (split_target p q r f h k, λ d. Matches-append d.0 (plain refl d.1))

split_field-dotless : (s : Text) → dotless s ≡ false → split_field s ≡ (s, [])
unfolding split_field
split_field-dotless [] h = refl
split_field-dotless (c ∷ s) h =
    let n : (c == dot) ≡ false = ground (arith, h) in
    rw (split_field-dotless s (or-right (c == dot) (has_byte dot s) h), n) refl

split_field-field_of : (p q : Text) → dotless p ≡ false → split_field (field_of p q) ≡ (p, dot ∷ q)
unfolding split_field
split_field-field_of [] q h = refl
split_field-field_of (c ∷ p) q h =
    let n : (c == dot) ≡ false = ground (arith, h) in
    rw (split_field-field_of p q (or-right (c == dot) (has_byte dot p) h), n) refl

read_query-record :
    (p : Text)
    → dotless p ≡ false
    → p ≢ []
    → p ≢ codes "*"
    → read_query (some p)
      ≡ some (record { pattern = p; has_field = false; alt = some (p ++ codes ".*") })
unfolding read_query query_with
read_query-record [] h e n = absurd (e refl)
read_query-record (c ∷ s) h e n = elim (Bool-cases (text_eq (c ∷ s) (codes "*"))) [
  | inl t ↦ absurd (n (text_eq→≡ (c ∷ s) (codes "*") t))
  | inr t ↦ rw (t, split_field-dotless (c ∷ s) h) refl
]

-- The field that stands for the record itself, or all fields.
abbrev pub is_default : Text → Bool
is_default q = text_eq (dot ∷ q) (codes ".VAL") || text_eq (dot ∷ q) (codes ".*")

not_star : (p q : Text) → text_eq (field_of p q) (codes "*") ≡ false
not_star [] q = refl
not_star (c ∷ []) q = elim (Bool-cases (c == b'*')) [ inl e ↦ rw e refl | inr e ↦ rw e refl ]
not_star (c ∷ d ∷ p) q = elim (Bool-cases (c == b'*')) [ inl e ↦ rw e refl | inr e ↦ rw e refl ]

read_query-field :
    (p q : Text)
    → dotless p ≡ false
    → read_query (some (field_of p q))
      ≡ some (record {
        pattern = field_of p q;
        has_field = true;
        alt = if is_default q then some p else none;
      })
unfolding read_query query_with
read_query-field [] q h = ap some (ap (query_with (dot ∷ q)) (split_field-field_of [] q h))
read_query-field (c ∷ p) q h = rw (not_star (c ∷ p) q, split_field-field_of (c ∷ p) q h) refl

module _ (glob : Text → Text → Bool)
    (glob_iff : (s p : Text) → (glob s p ≡ true) ↔ Matches p s) where
  alt_iff :
      (p r : Text) (b : Bool)
      → (accepts_alt glob r (if b then some p else none) ≡ true) ↔ ((b ≡ true) × Matches p r)
  unfolding accepts_alt
  alt_iff p r true = ((λ d. (refl, (glob_iff r p).0 d)), λ d. (glob_iff r p).1 d.1)
  alt_iff p r false = ((λ d. ground (arith, d)), λ d. ground (arith, d.0))

  -- Where `epicsStrGlobMatch` is glob matching, and no record or field name has a dot: a pattern
  -- without a dot, other than `*` and the empty one, accepts a link to a record, and one to a field of
  -- a record, exactly if it matches the name of the record.
  pub accepts-record :
      (p r f : Text)
      → dotless p ≡ false
      → dotless r ≡ false
      → dotless f ≡ false
      → p ≢ []
      → p ≢ codes "*"
      → ((accepts glob (read_query (some p)) r ≡ true) ↔ Matches p r)
        × ((accepts glob (read_query (some p)) (field_of r f) ≡ true) ↔ Matches p r)
  unfolding accepts accepts_alt
  accepts-record p r f h k l e n =
      let q = read_query-record p h e n in
      let (to, from) = field_iff p (star ∷ []) r f k l in
      let (glob_to, glob_from) = glob_iff (field_of r f) (p ++ codes ".*") in
      (
        rw (q, k) (glob_iff r p),
        rw (q, has_dot r f)
            ((λ d. (to (glob_to d)).0), λ d. glob_from (from (d, lone_star f refl))),
      )

  -- Under the same conditions a pattern with a field, its first dot being the one before the field,
  -- accepts a link to a field of a record exactly if its two parts match the two names. A link to the
  -- record alone is accepted exactly if the field of the pattern is `VAL` or `*` and the rest of it
  -- matches the record.
  pub accepts-field :
      (p q r f : Text)
      → dotless p ≡ false
      → dotless r ≡ false
      → dotless f ≡ false
      → ((accepts glob (read_query (some (field_of p q))) (field_of r f) ≡ true)
          ↔ (Matches p r × Matches q f))
        × ((accepts glob (read_query (some (field_of p q))) r ≡ true)
            ↔ ((is_default q ≡ true) × Matches p r))
  unfolding accepts accepts_alt
  accepts-field p q r f h k l =
      let e = read_query-field p q h in
      let (to, from) = field_iff p q r f k l in
      let (glob_to, glob_from) = glob_iff (field_of r f) (field_of p q) in
      (
        rw (e, has_dot r f) ((λ d. to (glob_to d)), λ d. glob_from (from d)),
        rw (e, k) (alt_iff p r (is_default q)),
      )
