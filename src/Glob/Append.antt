-- ===== src/Glob/Append.antt =====
-- Patterns and texts of two parts.
use iocsh_utilities.Base.{ℕ, ◌==◌, ◌≡◌, refl, ap, true, false, [], ◌∷◌, ◌++◌, Text, arith}
use mathlib.Core.Path.{subst}
use mathlib.Core.List.{nil≢cons, head-eq_of_cons-eq, tail-eq_of_cons-eq}
use iocsh_utilities.Glob.{star, question, fits}
use iocsh_utilities.Glob.Relation.{Matches, done, byte, skip, more}

pub Matches-append : {p s q t : Text} → Matches p s → Matches q t → Matches (p ++ q) (s ++ t)
Matches-append done e = e
Matches-append (byte n f d) e = byte n f (Matches-append d e)
Matches-append (skip n d) e = skip n (Matches-append d e)
Matches-append (more n d) e = more n (Matches-append d e)

-- The part of a text that the first part of a pattern matches.
split_at :
    (p q : Text) {r s : Text}
    → Matches r s
    → r ≡ p ++ q
    → (t : Text) × (u : Text) × (s ≡ t ++ u) × Matches p t × Matches q u
split_at [] q {r} {s} d e = ([], s, refl, done, subst (λ x. Matches x s) e d)
split_at (a ∷ p) q done e = absurd (nil≢cons e)
split_at (a ∷ p) q (byte {c = c} n f d) e =
    let (t, u, k, x, y) = split_at p q d (tail-eq_of_cons-eq e) in
    (
      c ∷ t,
      u,
      ap (λ r. c ∷ r) k,
      subst (λ b. Matches (b ∷ p) (c ∷ t)) (head-eq_of_cons-eq e) (byte n f x),
      y,
    )
split_at (a ∷ p) q (skip n d) e =
    let (t, u, k, x, y) = split_at p q d (tail-eq_of_cons-eq e) in
    (t, u, k, subst (λ b. Matches (b ∷ p) t) (head-eq_of_cons-eq e) (skip n x), y)
split_at (a ∷ p) q (more {c = c} n d) e =
    let (t, u, k, x, y) = split_at (a ∷ p) q d e in
    (
      c ∷ t,
      u,
      ap (λ r. c ∷ r) k,
      more (subst (λ b. (b == star) ≡ true) (head-eq_of_cons-eq e) n) x,
      y,
    )

pub Matches-split :
    (p q : Text) {s : Text}
    → Matches (p ++ q) s
    → (t : Text) × (u : Text) × (s ≡ t ++ u) × Matches p t × Matches q u
Matches-split p q d = split_at p q d refl

-- A byte other than `*` and `?` stands for itself.
pub plain : {q : ℕ} {p s : Text} → (q == star) ≡ false → Matches p s → Matches (q ∷ p) (q ∷ s)
unfolding fits
plain {q} n d = byte n (ground arith) d

pub plain_inv :
    {q : ℕ} {p s : Text}
    → (q == star) ≡ false
    → (q == question) ≡ false
    → Matches (q ∷ p) s
    → (t : Text) × (s ≡ q ∷ t) × Matches p t
unfolding fits
plain_inv {q} n m (byte {c = c} {s = s} _ f d) = (s, ap (λ b. b ∷ s) (ground arith), d)
plain_inv n m (skip e d) = absurd cc
plain_inv n m (more e d) = absurd cc
