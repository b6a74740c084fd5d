-- ===== src/Ulimit/Letters.antt =====
-- Which resources the first argument of `ulimitFunc` of ulimit.c names.
use iocsh_utilities.Base.{
  ℕ, ◌-◌, ◌==◌, if◌then◌else◌, ◌≡◌, refl, Bool, true, false, not, ◌&&◌, ◌||◌, Option, none, some,
  [], ◌∷◌, Text, codes, length, has_byte, arith, Bool-cases, inl, inr,
}
use iocsh_utilities.Ulimit.{split_args, letters_of}

-- Nothing but at most one `S` and one `H`.
abbrev pub only_sides : Text → Bool
only_sides [] = true
only_sides (a ∷ []) = a == b'S' || a == b'H'
only_sides (a ∷ b ∷ []) = a == b'S' && b == b'H' || a == b'H' && b == b'S'
only_sides (a ∷ b ∷ c ∷ s) = false

-- Whether the first argument names the resource with this letter.
abbrev pub names : Option Text → ℕ → Bool
names none i = i == b'f'
names (some []) i = i == b'f'
names (some (c ∷ options)) i =
    if not (c == b'-')
    then i == b'f'
    else if only_sides options
    then i == b'f'
    else has_byte i options

count-sides :
    (options : Text)
    → let s = has_byte b'S' options in
      let h = has_byte b'H' options in
      (length options - (if s then 1 else 0) - (if h then 1 else 0) == 0) ≡ only_sides options
count-sides [] = refl
count-sides (a ∷ []) = ground arith
count-sides (a ∷ b ∷ []) = ground arith
count-sides (a ∷ b ∷ c ∷ s) = ground arith

letters_of-sides :
    (options : Text) → letters_of options ≡ (if only_sides options then codes "f" else options)
unfolding letters_of
letters_of-sides options = rw (count-sides options) refl

has_byte-f : (i : ℕ) → has_byte i (codes "f") ≡ (i == b'f')
has_byte-f i = ground arith

letters-named :
    (options : Text) (i : ℕ)
    → has_byte i (letters_of options)
      ≡ (if only_sides options then i == b'f' else has_byte i options)
letters-named options i = elim (Bool-cases (only_sides options)) [
  | inl e ↦ rw (letters_of-sides options, e) (has_byte-f i)
  | inr e ↦ rw (letters_of-sides options, e) refl
]

pub letters_of-names :
    (arg0 arg1 : Option Text) (i : ℕ)
    → has_byte i (letters_of (split_args arg0 arg1).0) ≡ names arg0 i
unfolding split_args
letters_of-names none arg1 i = letters-named [] i
letters_of-names (some []) arg1 i = letters-named [] i
letters_of-names (some (c ∷ options)) arg1 i = elim (Bool-cases (c == b'-')) [
  | inl e ↦ rw e (letters-named options i)
  | inr e ↦ rw e (letters-named [] i)
]
