-- ===== src/Glob/Relation.antt =====
-- What it means for a text to match a glob pattern, with no search order in it.
use iocsh_utilities.Base.{
  ℕ, ◌==◌, ◌≡◌, refl, ◌↔◌, true, false, [], ◌∷◌, Text, arith, Bool-cases, inl, inr,
}
use iocsh_utilities.Glob.{star, fits, only_stars}

pub data Matches : Text → Text → Type 0 where
  done : Matches [] []
  byte :
      {q c : ℕ} {p s : Text}
      → (q == star) ≡ false
      → fits q c ≡ true
      → Matches p s
      → Matches (q ∷ p) (c ∷ s)
  skip : {q : ℕ} {p s : Text} → (q == star) ≡ true → Matches p s → Matches (q ∷ p) s
  more : {q c : ℕ} {p s : Text} → (q == star) ≡ true → Matches (q ∷ p) s → Matches (q ∷ p) (c ∷ s)

pub byte_inv :
    {q c : ℕ} {p s : Text}
    → (q == star) ≡ false
    → Matches (q ∷ p) (c ∷ s)
    → (fits q c ≡ true) × Matches p s
byte_inv n (byte _ f d) = (f, d)
byte_inv n (skip e d) = absurd (cc)
byte_inv n (more e d) = absurd (cc)

pub byte_nil : {q : ℕ} {p : Text} → (q == star) ≡ false → ¬ Matches (q ∷ p) []
byte_nil n (skip e d) = cc

pub star_inv :
    {q c : ℕ} {p s : Text}
    → (q == star) ≡ true
    → Matches (q ∷ p) (c ∷ s)
    → ¬ Matches p (c ∷ s)
    → Matches (q ∷ p) s
star_inv e (byte n f d) no_match = absurd (cc)
star_inv e (skip _ d) no_match = absurd (no_match d)
star_inv e (more _ d) no_match = d

pub star_nil : {q : ℕ} {p : Text} → (q == star) ≡ true → Matches (q ∷ p) [] → Matches p []
star_nil e (skip _ d) = d

-- Of two stars side by side the first can be dropped.
pub two_stars :
    {q r : ℕ} {p s : Text}
    → (r == star) ≡ true
    → Matches (q ∷ r ∷ p) s
    → (q == star) ≡ true
    → Matches (r ∷ p) s
two_stars e (byte n _ _) h = absurd (cc)
two_stars e (skip _ d) h = d
two_stars e (more _ d) h = more e (two_stars e d h)

-- Wherever `r` matches behind a star, `p` begins after the first byte: why the first fit will do.
pub drop_byte :
    {q r c : ℕ} {p : Text} (s : Text)
    → (q == star) ≡ true
    → (r == star) ≡ false
    → Matches (q ∷ r ∷ p) (c ∷ s)
    → Matches (q ∷ p) s
drop_byte s e n (byte h _ _) = absurd (cc)
drop_byte s e n (skip _ (byte _ _ d)) = skip e d
drop_byte s e n (skip _ (skip h _)) = absurd (cc)
drop_byte s e n (skip _ (more h _)) = absurd (cc)
drop_byte [] e n (more _ (skip _ d)) = absurd (byte_nil n d)
drop_byte (c ∷ s) e n (more _ d) = more e (drop_byte s e n d)

only_stars→Matches : (p : Text) → only_stars p ≡ true → Matches p []
unfolding only_stars
only_stars→Matches [] h = done
only_stars→Matches (q ∷ p) h = elim (Bool-cases (q == star)) [
  | inl e ↦ skip e (only_stars→Matches p (rw e at h))
  | inr n ↦ ground arith
]

Matches→only_stars : {p : Text} → Matches p [] → only_stars p ≡ true
unfolding only_stars
Matches→only_stars done = refl
Matches→only_stars (skip e d) = rw e (Matches→only_stars d)

pub only_stars_iff : (p : Text) → (only_stars p ≡ true) ↔ Matches p []
only_stars_iff p = (only_stars→Matches p, Matches→only_stars)

-- Every text matches itself as a pattern, its stars and question marks included.
pub Matches_self : (s : Text) → Matches s s
unfolding fits
Matches_self [] = done
Matches_self (c ∷ s) = elim (Bool-cases (c == star)) [
  | inl e ↦ more e (skip e (Matches_self s))
  | inr n ↦ byte n (ground arith) (Matches_self s)
]

-- Any byte that is a star stands for any other.
pub star_any :
    {q r : ℕ} {p s : Text}
    → (q == star) ≡ true
    → (r == star) ≡ true
    → Matches (q ∷ p) s
    → Matches (r ∷ p) s
star_any e h (byte n _ _) = absurd (cc)
star_any e h (skip _ d) = skip h d
star_any e h (more _ d) = more h (star_any e h d)

pub lone_star : {q : ℕ} (s : Text) → (q == star) ≡ true → Matches (q ∷ []) s
lone_star [] e = skip e done
lone_star (c ∷ s) e = more e (lone_star s e)

pub no_fit :
    {q c : ℕ} {p s : Text} → (q == star) ≡ false → fits q c ≡ false → ¬ Matches (q ∷ p) (c ∷ s)
no_fit n u d = let (f, _) = byte_inv n d in cc
