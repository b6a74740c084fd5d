-- ===== src/Dbll/Types.antt =====
-- What the type filter of `dbll` of dbll.c lets through.
use iocsh_utilities.Base.{
  ℕ, ◌==◌, ◌≡◌, refl, ◌∙◌, ap, Bool, false, not, ◌||◌, none, some, [], ◌∷◌, Text, has_byte, arith,
}
use iocsh_utilities.Dbll.{
  Mask, no_mask, add_type, add_types, default_directions, default_kinds, read_types,
}

-- The letter is in the filter, in lower or upper case.
abbrev pub named : ℕ → ℕ → Text → Bool
named c d types = has_byte c types || has_byte d types

-- The mask `n` has the letters of `m` and those of the filter.
abbrev Adds : Mask → Text → Mask → Type 0
Adds m types n =
    (n.imask ≡ m.imask || named b'i' b'I' types)
    × (n.omask ≡ m.omask || named b'o' b'O' types)
    × (n.fmask ≡ m.fmask || named b'f' b'F' types)
    × (n.pmask ≡ m.pmask || named b'p' b'P' types)
    × (n.cmask ≡ m.cmask || named b'c' b'C' types)
    × (n.dmask ≡ m.dmask || named b'd' b'D' types)

add_type-imask : (c : ℕ) (m : Mask) → (add_type c m).imask ≡ m.imask || (c == b'i' || c == b'I')
unfolding add_type
add_type-imask c m = ground arith

add_type-omask : (c : ℕ) (m : Mask) → (add_type c m).omask ≡ m.omask || (c == b'o' || c == b'O')
unfolding add_type
add_type-omask c m = ground arith

add_type-fmask : (c : ℕ) (m : Mask) → (add_type c m).fmask ≡ m.fmask || (c == b'f' || c == b'F')
unfolding add_type
add_type-fmask c m = ground arith

add_type-pmask : (c : ℕ) (m : Mask) → (add_type c m).pmask ≡ m.pmask || (c == b'p' || c == b'P')
unfolding add_type
add_type-pmask c m = ground arith

add_type-cmask : (c : ℕ) (m : Mask) → (add_type c m).cmask ≡ m.cmask || (c == b'c' || c == b'C')
unfolding add_type
add_type-cmask c m = ground arith

add_type-dmask : (c : ℕ) (m : Mask) → (add_type c m).dmask ≡ m.dmask || (c == b'd' || c == b'D')
unfolding add_type
add_type-dmask c m = ground arith

or_assoc4 : (x a b s t : Bool) → (x || (a || b)) || (s || t) ≡ x || ((a || s) || (b || t))
or_assoc4 x a b s t = ground arith

or_none : (x : Bool) → x ≡ x || (false || false)
or_none x = ground arith

add_types-Adds : (types : Text) (m : Mask) → Adds m types (add_types types m)
unfolding add_types
add_types-Adds [] m = (
  or_none m.imask,
  or_none m.omask,
  or_none m.fmask,
  or_none m.pmask,
  or_none m.cmask,
  or_none m.dmask,
)
add_types-Adds (c ∷ types) m =
    let (i, o, f, p, k, d) = add_types-Adds types (add_type c m) in
    (
      i
          ∙ ap (λ x. x || named b'i' b'I' types) (add_type-imask c m)
          ∙ or_assoc4 m.imask (c == b'i') (c == b'I') (has_byte b'i' types) (has_byte b'I' types),
      o
          ∙ ap (λ x. x || named b'o' b'O' types) (add_type-omask c m)
          ∙ or_assoc4 m.omask (c == b'o') (c == b'O') (has_byte b'o' types) (has_byte b'O' types),
      f
          ∙ ap (λ x. x || named b'f' b'F' types) (add_type-fmask c m)
          ∙ or_assoc4 m.fmask (c == b'f') (c == b'F') (has_byte b'f' types) (has_byte b'F' types),
      p
          ∙ ap (λ x. x || named b'p' b'P' types) (add_type-pmask c m)
          ∙ or_assoc4 m.pmask (c == b'p') (c == b'P') (has_byte b'p' types) (has_byte b'P' types),
      k
          ∙ ap (λ x. x || named b'c' b'C' types) (add_type-cmask c m)
          ∙ or_assoc4 m.cmask (c == b'c') (c == b'C') (has_byte b'c' types) (has_byte b'C' types),
      d
          ∙ ap (λ x. x || named b'd' b'D' types) (add_type-dmask c m)
          ∙ or_assoc4 m.dmask (c == b'd') (c == b'D') (has_byte b'd' types) (has_byte b'D' types),
    )

abbrev or_default : Bool → Bool → Bool → Bool → Bool
or_default x a b c = x || not (a || b || c)

ap_default :
    {x y a b c d e f : Bool}
    → x ≡ y
    → a ≡ b
    → c ≡ d
    → e ≡ f
    → or_default x a c e ≡ or_default y b d f
ap_default p q r s i = or_default (p i) (q i) (r i) (s i)

defaults_lem :
    (m : Mask)
    → let n = default_kinds (default_directions m) in
      (n.imask ≡ or_default m.imask m.imask m.omask m.fmask)
      × (n.omask ≡ or_default m.omask m.imask m.omask m.fmask)
      × (n.fmask ≡ or_default m.fmask m.imask m.omask m.fmask)
      × (n.pmask ≡ m.pmask)
      × (n.cmask ≡ or_default m.cmask m.cmask m.dmask false)
      × (n.dmask ≡ or_default m.dmask m.cmask m.dmask false)
unfolding default_directions default_kinds
defaults_lem m =
    (ground arith, ground arith, ground arith, ground arith, ground arith, ground arith)

-- No letter of the filter tells the direction of a link, or whether it is one of a database or of
-- Channel Access.
abbrev pub no_direction : Text → Bool
no_direction types = not (named b'i' b'I' types || named b'o' b'O' types || named b'f' b'F' types)

abbrev pub no_kind : Text → Bool
no_kind types = not (named b'c' b'C' types || named b'd' b'D' types || false)

-- The bits of the mask, whatever the order of the letters and how often they come.
pub read_types-named :
    (types : Text)
    → let m = read_types (some types) in
      (m.imask ≡ named b'i' b'I' types || no_direction types)
      × (m.omask ≡ named b'o' b'O' types || no_direction types)
      × (m.fmask ≡ named b'f' b'F' types || no_direction types)
      × (m.pmask ≡ named b'p' b'P' types)
      × (m.cmask ≡ named b'c' b'C' types || no_kind types)
      × (m.dmask ≡ named b'd' b'D' types || no_kind types)
      × (read_types none ≡ read_types (some []))
unfolding read_types
read_types-named [] = (refl, refl, refl, refl, refl, refl, refl)
read_types-named (c ∷ types) =
    let (i, o, f, p, k, d) = add_types-Adds (c ∷ types) no_mask in
    let (di, do_, df, dp, dk, dd) = defaults_lem (add_types (c ∷ types) no_mask) in
    (
      di ∙ ap_default i i o f,
      do_ ∙ ap_default o i o f,
      df ∙ ap_default f i o f,
      dp ∙ p,
      dk ∙ ap_default k k d refl,
      dd ∙ ap_default d k d refl,
      refl,
    )
