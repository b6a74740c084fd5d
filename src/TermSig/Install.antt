-- ===== src/TermSig/Install.antt =====
-- What the registration of termSig.c makes of the handlers.
use iocsh_utilities.Base.{
  ℕ, ◌==◌, ◌≡◌, inl, inr, refl, sym, ◌∙◌, ap, if◌then◌else◌, Bool, true, false, List, [], ◌∷◌,
  arith, Bool-cases, ==_iff,
}
use iocsh_utilities.TermSig.{Handler, term_sig_handler, Handlers, put, install, install_all}

-- Whether a signal is one of them.
abbrev pub kept : ℕ → List ℕ → Bool
kept i [] = false
kept i (sig ∷ sigs) = if i == sig then true else kept i sigs

abbrev distinct : List ℕ → Bool
distinct [] = true
distinct (sig ∷ sigs) = if kept sig sigs then false else distinct sigs

pub put-eq : (f : ℕ → Handler) (sig i : ℕ) (h : Handler) → (i == sig) ≡ true → put f sig h i ≡ h
put-eq f sig i h e = rw e refl

pub put-ne : (f : ℕ → Handler) (sig i : ℕ) (h : Handler) → (i == sig) ≡ false → put f sig h i ≡ f i
put-ne f sig i h e = rw e refl

pub install_all-other :
    (sigs : List ℕ) (h : Handlers) (i : ℕ)
    → kept i sigs ≡ false
    → ((install_all sigs h).table i ≡ h.table i) × ((install_all sigs h).saved i ≡ h.saved i)
unfolding install_all
install_all-other [] h i k = (refl, refl)
install_all-other (sig ∷ sigs) h i k = elim (Bool-cases (i == sig)) [
  | inl e ↦ absurd (ground (arith, rw e at k))
  | inr e ↦
      let (t, s) = install_all-other sigs (install sig h) i (rw e at k) in
      (t ∙ put-ne h.table sig i term_sig_handler e, s ∙ put-ne h.saved sig i (h.table sig) e)
]

distinct-cons : (b d : Bool) → (if b then false else d) ≡ true → (b ≡ false) × (d ≡ true)
distinct-cons true d h = absurd (ground (arith, h))
distinct-cons false d h = (refl, h)

pub install_all-kept :
    (sigs : List ℕ) (h : Handlers) (i : ℕ)
    → distinct sigs ≡ true
    → kept i sigs ≡ true
    → ((install_all sigs h).table i ≡ term_sig_handler) × ((install_all sigs h).saved i ≡ h.table i)
unfolding install_all
install_all-kept [] h i d k = absurd (ground arith)
install_all-kept (sig ∷ sigs) h i d k =
    let (fresh, d') = distinct-cons (kept sig sigs) (distinct sigs) d in
    elim (Bool-cases (i == sig)) [
      | inl e ↦
          let q : i ≡ sig = (==_iff i sig).0 e in
          let (t, s) = install_all-other sigs (install sig h) i (ap (λ x. kept x sigs) q ∙ fresh) in
          (
            t ∙ put-eq h.table sig i term_sig_handler e,
            s ∙ put-eq h.saved sig i (h.table sig) e ∙ ap h.table (sym q),
          )
      | inr e ↦
          let (t, s) = install_all-kept sigs (install sig h) i d' (rw e at k) in
          (t, s ∙ put-ne h.table sig i term_sig_handler e)
    ]
