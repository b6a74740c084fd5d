-- ===== src/IfEnvSet/Condition.antt =====
-- Conditions as they are written, and what the parser of `ifEnvSet` makes of them.
use iocsh_utilities.Base.{
  ℕ, zero, suc, ◌==◌, if◌then◌else◌, ◌≡◌, refl, Bool, true, false, not, ◌||◌, List, [], ◌∷◌, ◌++◌,
  map, Text, replicate, arith,
}
use iocsh_utilities.Base.Int.{ℤ, ltb_ℤ, eqb_ℤ}
use iocsh_utilities.IfEnvSet.{Op, no_op, skip_nots, is_op, mark, read_ops, read_condition}

-- The three operators.
pub data Rel : Type 0 where
  above below same : Rel

abbrev pub symbol : Rel → ℕ
symbol above = b'>'
symbol below = b'<'
symbol same = b'='

-- What an operator asks of the argument and the operand.
abbrev pub asks : Rel → ℤ → ℤ → Bool
asks above a b = ltb_ℤ b a
asks below a b = ltb_ℤ a b
asks same a b = eqb_ℤ a b

-- One of the operators has to hold.
abbrev pub one_holds : List Rel → ℤ → ℤ → Bool
one_holds [] a b = false
one_holds (r ∷ rs) a b = asks r a b || one_holds rs a b

-- No operator at all stands for equality.
abbrev pub compares : List Rel → ℤ → ℤ → Bool
compares [] a b = eqb_ℤ a b
compares (r ∷ rs) a b = one_holds (r ∷ rs) a b

-- Some operator needs an order, and so numbers.
abbrev pub needs_order : List Rel → Bool
needs_order [] = false
needs_order (above ∷ rs) = true
needs_order (below ∷ rs) = true
needs_order (same ∷ rs) = needs_order rs

-- `b` negated `n` times.
abbrev pub negated : ℕ → Bool → Bool
negated zero b = b
negated (suc n) b = negated n (not b)

-- The operand does not begin with a byte that the parser takes for an operator.
abbrev pub is_operand : Text → Bool
is_operand [] = true
is_operand (c ∷ s) = not (is_op c || c == b'!' || c == b'~')

abbrev pub spell_ops : List Rel → Text → Text
spell_ops rs operand = map symbol rs ++ operand

abbrev pub spell : ℕ → List Rel → Text → Text
spell n rs operand = replicate n b'!' ++ spell_ops rs operand

abbrev pub marks : Op → List Rel → Op
marks op [] = op
marks op (r ∷ rs) = marks (mark (symbol r) op) rs

pub negated_comm : (n : ℕ) (b : Bool) → negated n (not b) ≡ not (negated n b)
negated_comm zero b = refl
negated_comm (suc n) b = negated_comm n (not b)

pub if_negated : (n : ℕ) (b : Bool) → (if negated n false then not b else b) ≡ negated n b
if_negated zero b = refl
if_negated (suc n) b = ground (arith, if_negated n b, negated_comm n b, negated_comm n false)

not_bang : Text → Bool
not_bang [] = true
not_bang (c ∷ s) = not (c == b'!')

skip_nots-none : (b : Bool) (s : Text) → not_bang s ≡ true → skip_nots b s ≡ (b, s)
unfolding skip_nots not_bang
skip_nots-none b [] h = refl
skip_nots-none b (c ∷ s) h = ground arith

skip_nots-replicate :
    (n : ℕ) (b : Bool) (s : Text)
    → not_bang s ≡ true
    → skip_nots b (replicate n b'!' ++ s) ≡ (negated n b, s)
unfolding skip_nots
skip_nots-replicate zero b s h = skip_nots-none b s h
skip_nots-replicate (suc n) b s h = skip_nots-replicate n (not b) s h

spell_ops-not_bang :
    (rs : List Rel) (operand : Text)
    → is_operand operand ≡ true
    → not_bang (spell_ops rs operand) ≡ true
unfolding not_bang
spell_ops-not_bang [] [] h = refl
spell_ops-not_bang [] (c ∷ s) h = ground arith
spell_ops-not_bang (above ∷ rs) t h = refl
spell_ops-not_bang (below ∷ rs) t h = refl
spell_ops-not_bang (same ∷ rs) t h = refl

pub skip_nots-spell :
    (n : ℕ) (rs : List Rel) (operand : Text)
    → is_operand operand ≡ true
    → skip_nots false (spell n rs operand) ≡ (negated n false, spell_ops rs operand)
skip_nots-spell n rs operand h =
    skip_nots-replicate n false (spell_ops rs operand) (spell_ops-not_bang rs operand h)

pub skip_nots-glob :
    (n : ℕ) (pattern : Text)
    → skip_nots false (replicate n b'!' ++ (b'~' ∷ pattern)) ≡ (negated n false, b'~' ∷ pattern)
unfolding not_bang
skip_nots-glob n pattern = skip_nots-replicate n false (b'~' ∷ pattern) refl

read_ops-spell :
    (op : Op) (rs : List Rel) (operand : Text)
    → is_operand operand ≡ true
    → read_ops op (spell_ops rs operand) ≡ (marks op rs, operand)
unfolding read_ops
read_ops-spell op [] [] h = refl
read_ops-spell op [] (c ∷ s) h = ground arith
read_ops-spell op (above ∷ rs) t h = read_ops-spell (mark b'>' op) rs t h
read_ops-spell op (below ∷ rs) t h = read_ops-spell (mark b'<' op) rs t h
read_ops-spell op (same ∷ rs) t h = read_ops-spell (mark b'=' op) rs t h

pub read_condition-spell :
    (rs : List Rel) (operand : Text)
    → is_operand operand ≡ true
    → read_condition (spell_ops rs operand) ≡ (marks no_op rs, operand)
unfolding read_condition
read_condition-spell [] [] h = refl
read_condition-spell [] (c ∷ s) h = ground (arith, read_ops-spell no_op [] (c ∷ s) h)
read_condition-spell (above ∷ rs) t h = read_ops-spell no_op (above ∷ rs) t h
read_condition-spell (below ∷ rs) t h = read_ops-spell no_op (below ∷ rs) t h
read_condition-spell (same ∷ rs) t h = read_ops-spell no_op (same ∷ rs) t h
