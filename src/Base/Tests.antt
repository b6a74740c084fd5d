-- ===== src/Base/Tests.antt =====
-- Boolean tests on numbers, the conditional, and the ways to split on a computed value.
use Prim.Native.Nat.{ℕ, ◌≤◌, ◌<◌, compare, Ordering}
use mathlib.Core.Path.{◌≡◌, refl}
use mathlib.Core.Logic.{◌↔◌, ◌⊎◌, inl, inr}
use mathlib.Core.Bool.{Bool, true, false, ◌&&◌, ◌||◌}
use mathlib.Core.Option.{Option, none, some}
use native.Mathlib.Omega.{arith}

abbrev pub ltb : ℕ → ℕ → Bool
ltb a b = elim (compare a b) [ Ordering.lt ↦ true | _ ↦ false ]

abbrev pub leb : ℕ → ℕ → Bool
leb a b = elim (compare a b) [ Ordering.gt ↦ false | _ ↦ true ]

infix 50 ◌==◌
abbrev pub ◌==◌ : ℕ → ℕ → Bool
a == b = elim (compare a b) [ Ordering.eq ↦ true | _ ↦ false ]

infix 1 if◌then◌else◌
abbrev pub if◌then◌else◌ {ℓ} : {A : Type ℓ} → Bool → A → A → A
if true then x else y = x
if false then x else y = y

pub ==_iff : (a b : ℕ) → ((a == b) ≡ true) ↔ (a ≡ b)
==_iff a b = ground arith

pub ==_refl : (a : ℕ) → (a == a) ≡ true
==_refl a = ground arith

pub ltb→lt : (a b : ℕ) → ltb a b ≡ true → a < b
ltb→lt a b h = ground arith

pub ltb-false : (a b : ℕ) → ltb a b ≡ false → b ≤ a
ltb-false a b h = ground arith

pub ltb-ge : (a b : ℕ) → b ≤ a → ltb a b ≡ false
ltb-ge a b h = ground arith

pub ltb-lt : (a b : ℕ) → a < b → ltb a b ≡ true
ltb-lt a b h = ground arith

pub leb→le : (a b : ℕ) → leb a b ≡ true → a ≤ b
leb→le a b h = ground arith

pub leb→lt : (a b : ℕ) → leb a b ≡ false → b < a
leb→lt a b h = ground arith

pub leb-le : (a b : ℕ) → a ≤ b → leb a b ≡ true
leb-le a b h = ground arith

pub leb-gt : (a b : ℕ) → b < a → leb a b ≡ false
leb-gt a b h = ground arith

pub and-left : (a b : Bool) → a && b ≡ true → a ≡ true
and-left a b h = ground (arith, h)

pub and-right : (a b : Bool) → a && b ≡ true → b ≡ true
and-right a b h = ground (arith, h)

pub or-left : (a b : Bool) → a || b ≡ false → a ≡ false
or-left a b h = ground (arith, h)

pub or-right : (a b : Bool) → a || b ≡ false → b ≡ false
or-right a b h = ground (arith, h)

pub Bool-cases : (b : Bool) → (b ≡ true) ⊎ (b ≡ false)
Bool-cases true = inl refl
Bool-cases false = inr refl

pub Option-cases {ℓ} : {A : Type ℓ} (o : Option A) → (o ≡ none) ⊎ ((a : A) × (o ≡ some a))
Option-cases none = inl refl
Option-cases (some a) = inr (a, refl)

pub if-some {ℓ} :
    {A : Type ℓ} (b : Bool) (o : Option A) (s : A)
    → (if b then o else none) ≡ some s
    → (b ≡ true) × (o ≡ some s)
if-some true o s h = (refl, h)
if-some false o s h = absurd (ground (arith, h))
