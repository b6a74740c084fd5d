-- ===== src/IfEnvSet/Judge.antt =====
-- The outcome of a condition: numbers, texts, glob patterns, and the error for an order on texts.
use iocsh_utilities.Base.{
  if◌then◌else◌, ◌≡◌, refl, ◌∙◌, ◌⊎◌, ◌↔◌, ap, Bool, true, false, ◌&&◌, ◌||◌, none, some, List, [],
  ◌∷◌, Text, text_eq, text_eq_iff, arith, Bool-cases, inl, inr,
}
use iocsh_utilities.Base.Int.{ℤ, ltb_ℤ, eqb_ℤ, eqb_ℤ_iff}
use iocsh_utilities.Clib.{strtol}
use iocsh_utilities.Glob.{match}
use iocsh_utilities.Glob.Relation.{Matches, Matches_self}
use iocsh_utilities.Glob.Decides.{match-Matches}
use iocsh_utilities.IfEnvSet.{Op, no_op, mark, compare_numbers, answered, are_numbers, judge}
use iocsh_utilities.IfEnvSet.Condition.{
  Rel, above, below, same, symbol, asks, one_holds, compares, needs_order, marks,
}

-- What the three tests give before the default for no operator.
abbrev asked : Op → ℤ → ℤ → Bool
asked op a b = (op.equal && eqb_ℤ a b) || (op.less && ltb_ℤ a b) || (op.greater && ltb_ℤ b a)

abbrev has_op : Op → Bool
has_op op = op.equal || op.less || op.greater

or_assoc : (a b c : Bool) → ((a || b) || c) ≡ (a || (b || c))
or_assoc true b c = refl
or_assoc false b c = refl

add_test :
    (e l g x y z : Bool) → ((e && x) || (l && y) || z) ≡ (((e && x) || (l && y) || (g && z)) || z)
add_test e l g x y z = ground arith

asked-mark :
    (r : Rel) (op : Op) (a b : ℤ) → asked (mark (symbol r) op) a b ≡ (asked op a b || asks r a b)
asked-mark above op a b = ground arith
asked-mark below op a b = ground arith
asked-mark same op a b = ground arith

or_false : (b : Bool) → b ≡ (b || false)
or_false true = refl
or_false false = refl

asked-marks :
    (rs : List Rel) (op : Op) (a b : ℤ)
    → asked (marks op rs) a b ≡ (asked op a b || one_holds rs a b)
asked-marks [] op a b = or_false _
asked-marks (r ∷ rs) op a b =
    asked-marks rs (mark (symbol r) op) a b
    ∙ ap (λ t. t || one_holds rs a b) (asked-mark r op a b)
    ∙ or_assoc (asked op a b) (asks r a b) (one_holds rs a b)

has_op-mark : (r : Rel) (op : Op) → has_op (mark (symbol r) op) ≡ true
has_op-mark above op = ground arith
has_op-mark below op = ground arith
has_op-mark same op = ground arith

has_op-marks : (rs : List Rel) (r : Rel) (op : Op) → has_op (marks op (r ∷ rs)) ≡ true
has_op-marks [] r op = has_op-mark r op
has_op-marks (q ∷ rs) r op = has_op-marks rs q (mark (symbol r) op)

glob-marks : (rs : List Rel) (op : Op) → (marks op rs).glob ≡ op.glob
glob-marks [] op = refl
glob-marks (above ∷ rs) op = glob-marks rs (mark b'>' op)
glob-marks (below ∷ rs) op = glob-marks rs (mark b'<' op)
glob-marks (same ∷ rs) op = glob-marks rs (mark b'=' op)

order-marks :
    (rs : List Rel) (op : Op)
    → ((marks op rs).greater || (marks op rs).less) ≡ ((op.greater || op.less) || needs_order rs)
order-marks [] op = or_false _
order-marks (above ∷ rs) op = ground (arith, order-marks rs (mark b'>' op))
order-marks (below ∷ rs) op = ground (arith, order-marks rs (mark b'<' op))
order-marks (same ∷ rs) op = order-marks rs (mark b'=' op)

compare_numbers-asked :
    (op : Op) (a b : ℤ) → has_op op ≡ true → compare_numbers op a b ≡ asked op a b
unfolding compare_numbers
compare_numbers-asked op a b h = ground arith

compare_numbers-marks :
    (rs : List Rel) (a b : ℤ) → compare_numbers (marks no_op rs) a b ≡ compares rs a b
unfolding compare_numbers
compare_numbers-marks [] a b = ground arith
compare_numbers-marks (r ∷ rs) a b =
    compare_numbers-asked (marks no_op (r ∷ rs)) a b (has_op-marks rs r no_op)
    ∙ asked-marks (r ∷ rs) no_op a b

pub judge-numbers :
    (rs : List Rel) (arg operand : Text)
    → are_numbers arg operand ≡ true
    → judge (marks no_op rs) arg operand ≡ some (compares rs (strtol arg).0 (strtol operand).0)
unfolding judge
judge-numbers rs arg operand h =
    rw (h, glob-marks rs no_op, compare_numbers-marks rs (strtol arg).0 (strtol operand).0)

pub judge-texts :
    (rs : List Rel) (arg operand : Text)
    → are_numbers arg operand ≡ false
    → judge (marks no_op rs) arg operand
      ≡ (if needs_order rs then none else some (text_eq arg operand))
unfolding judge
judge-texts rs arg operand h = rw (h, glob-marks rs no_op, order-marks rs no_op)

-- The argument and the operand are numbers, and equal ones.
abbrev pub SameNumber : Text → Text → Type 0
SameNumber arg operand = (are_numbers arg operand ≡ true) × ((strtol arg).0 ≡ (strtol operand).0)

answered-match : (arg pattern : Text) → (answered (match arg pattern) ≡ true) ↔ Matches pattern arg
answered-match arg pattern = let (b, e, q) = match-Matches arg pattern in rw e q

abbrev pub glob_op : Op
glob_op = record no_op { glob = true }

-- An operand without operators is compared by `=` if it is a number.
compare_numbers-glob : (a b : ℤ) → compare_numbers glob_op a b ≡ eqb_ℤ a b
unfolding compare_numbers
compare_numbers-glob a b = ground arith

or_iff : {P Q : Type 0} (p q : Bool) → (p ≡ true) ↔ P → (q ≡ true) ↔ Q → ((p || q) ≡ true) ↔ (P ⊎ Q)
or_iff true q e f = (λ _. inl (e.0 refl), λ _. refl)
or_iff false q e f = (λ h. inr (f.0 h), elim [ inl x ↦ absurd (cc (e.1 x)) | inr y ↦ f.1 y ])

pub judge-glob :
    (arg pattern : Text)
    → (b : Bool) × (judge glob_op arg pattern ≡ some b)
      × ((b ≡ true) ↔ (Matches pattern arg ⊎ SameNumber arg pattern))
unfolding judge
judge-glob arg pattern = elim (Bool-cases (are_numbers arg pattern)) [
  | inl h ↦ (
    answered (match arg pattern) || eqb_ℤ (strtol arg).0 (strtol pattern).0,
    rw (h, judge, compare_numbers-glob (strtol arg).0 (strtol pattern).0),
    or_iff _ _ (answered-match arg pattern)
        (λ e. (h, (eqb_ℤ_iff _ _).0 e), λ s. (eqb_ℤ_iff _ _).1 s.1),
  )
  | inr h ↦ (
    answered (match arg pattern) || text_eq arg pattern,
    rw (h, judge),
    (
      λ e. elim ((or_iff _ _ (answered-match arg pattern) (text_eq_iff arg pattern)).0 e) [
        | inl d ↦ inl d
        | inr q ↦ inl (rw q (Matches_self pattern))
      ],
      elim [
        | inl d ↦ (or_iff _ _ (answered-match arg pattern) (text_eq_iff arg pattern)).1 (inl d)
        | inr s ↦ absurd (cc s.0)
      ],
    ),
  )
]
