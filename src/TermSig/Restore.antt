-- ===== src/TermSig/Restore.antt =====
-- What holds of the handlers of termSig.c at any time.
use iocsh_utilities.Base.{
  ℕ, ◌==◌, ◌≡◌, ◌⊎◌, inl, inr, refl, sym, ◌∙◌, ap, true, false, List, [], ◌∷◌, ◌++◌, All, All-map,
  All-append, All-append_left, All-append_right, arith, Bool-cases, ==_iff, ==_refl,
}
use mathlib.Core.Path.{subst}
use iocsh_utilities.TermSig.{
  Handler, original, term_sig_handler, signals, Handlers, term_sig_registrar, restore, Run, Process,
  Step, enter, restores, raises, Reach, at_start, then_step,
}
use iocsh_utilities.TermSig.Install.{kept, put-eq, put-ne, install_all-other, install_all-kept}

kept-more : (i sig : ℕ) (sigs : List ℕ) → kept i sigs ≡ true → kept i (sig ∷ sigs) ≡ true
kept-more i sig sigs h = elim (Bool-cases (i == sig)) [ inl e ↦ rw e refl | inr e ↦ rw e h ]

first-kept : (sig : ℕ) (sigs : List ℕ) → kept sig (sig ∷ sigs) ≡ true
first-kept sig sigs = rw (==_refl sig) refl

-- The process after the registration.
abbrev pub started : Handlers → Process
started h = record { handlers = term_sig_registrar h; runs = []; raised = [] }

module _ (f : ℕ → ℕ) where
  abbrev Restored : (ℕ → Handler) → ℕ → Type 0
  Restored table i = table i ≡ original (f i)

  -- Before the registration every signal has a handler of its own.
  abbrev pub Fresh : Handlers → Type 0
  Fresh h = (i : ℕ) → Restored h.table i

  -- A kept signal has its handler or `termSigHandler`, and its handler is saved; others have theirs.
  abbrev SafeAt : Handlers → ℕ → Type 0
  SafeAt h i =
      ((kept i signals ≡ true)
        × (Restored h.saved i)
        × ((Restored h.table i) ⊎ (h.table i ≡ term_sig_handler)))
      ⊎ ((kept i signals ≡ false) × Restored h.table i)

  registrar-SafeAt : (h : Handlers) → Fresh h → (i : ℕ) → SafeAt (term_sig_registrar h) i
  unfolding term_sig_registrar
  registrar-SafeAt h e i = elim (Bool-cases (kept i signals)) [
    | inl k ↦ let (t, s) = install_all-kept signals h i refl k in inl (k, s ∙ e i, inr t)
    | inr k ↦ let (t, _) = install_all-other signals h i k in inr (k, t ∙ e i)
  ]

  -- What a run has restored, it and the others leave so; it is about to restore kept signals only.
  abbrev RunFits : Handlers → Run → Type 0
  RunFits h run =
      ((i : ℕ) → kept i run.left ≡ true → kept i signals ≡ true)
      × ((i : ℕ) → kept i signals ≡ true → kept i run.left ≡ false → Restored h.table i)

  record Fits (p : Process) : Type 0 where
    safe : (i : ℕ) → SafeAt p.handlers i
    runs : All (RunFits p.handlers) p.runs
    raised : (p.raised ≡ []) ⊎ Fresh p.handlers

  saved-Restored : (h : Handlers) (i : ℕ) → SafeAt h i → kept i signals ≡ true → Restored h.saved i
  saved-Restored h i (inl (_, s, _)) k = s
  saved-Restored h i (inr (n, _)) k = absurd (ground (arith, n, k))

  restore-eq :
      (h : Handlers) (sig i : ℕ)
      → Restored h.saved sig
      → (i == sig) ≡ true
      → Restored (restore sig h).table i
  restore-eq h sig i s e =
      put-eq h.table sig i (h.saved sig) e ∙ s ∙ ap (λ x. original (f x)) (sym ((==_iff i sig).0 e))

  restore-Restored :
      (h : Handlers) (sig : ℕ)
      → Restored h.saved sig
      → (i : ℕ) → Restored h.table i
      → Restored (restore sig h).table i
  restore-Restored h sig s i t = elim (Bool-cases (i == sig)) [
    | inl e ↦ restore-eq h sig i s e
    | inr e ↦ put-ne h.table sig i (h.saved sig) e ∙ t
  ]

  restore-SafeAt :
      (h : Handlers) (sig : ℕ)
      → Restored h.saved sig
      → (i : ℕ) → SafeAt h i
      → SafeAt (restore sig h) i
  restore-SafeAt h sig s i (inr (k, t)) = inr (k, restore-Restored h sig s i t)
  restore-SafeAt h sig s i (inl (k, s', inl t)) = inl (k, s', inl (restore-Restored h sig s i t))
  restore-SafeAt h sig s i (inl (k, s', inr t)) = elim (Bool-cases (i == sig)) [
    | inl e ↦ inl (k, s', inl (restore-eq h sig i s e))
    | inr e ↦ inl (k, s', inr (put-ne h.table sig i (h.saved sig) e ∙ t))
  ]

  restore-RunFits :
      (h : Handlers) (sig : ℕ)
      → Restored h.saved sig
      → (run : Run) → RunFits h run
      → RunFits (restore sig h) run
  restore-RunFits h sig s run (k, t) = (k, λ i a b. restore-Restored h sig s i (t i a b))

  -- The run that restores `next` itself.
  next-RunFits :
      (h : Handlers) (sig next : ℕ) (left : List ℕ)
      → Restored h.saved next
      → RunFits h (record { sig = sig; left = next ∷ left })
      → RunFits (restore next h) (record { sig = sig; left = left })
  next-RunFits h sig next left s (k, t) = (
    λ i a. k i (kept-more i next left a),
    λ i a b. elim (Bool-cases (i == next)) [
      | inl e ↦ restore-eq h next i s e
      | inr e ↦ restore-Restored h next s i (t i a (rw e b))
    ],
  )

  finished-Fresh :
      (h : Handlers) (sig : ℕ)
      → ((i : ℕ) → SafeAt h i)
      → RunFits h (record { sig = sig; left = [] })
      → Fresh h
  finished-Fresh h sig safe (k, t) i = elim (safe i) [ inl (a, _, _) ↦ t i a refl | inr (_, r) ↦ r ]

  still-raised :
      (h : Handlers) (sig : ℕ)
      → Restored h.saved sig
      → (raised : List ℕ) → (raised ≡ []) ⊎ Fresh h
      → (raised ≡ []) ⊎ Fresh (restore sig h)
  still-raised h sig s raised (inl e) = inl e
  still-raised h sig s raised (inr t) = inr (λ i. restore-Restored h sig s i (t i))

  -- One run stands between others.
  middle :
      (P : Run → Type 0) (before after runs : List Run) (run : Run)
      → runs ≡ before ++ (run ∷ after)
      → All P runs
      → All P before × P run × All P after
  middle P before after runs run e h =
      let h' : All P (before ++ (run ∷ after)) = subst (All P) e h in
      let (r, a) = All-append_right P before (run ∷ after) h' in
      (All-append_left P before (run ∷ after) h', r, a)

  Step-Fits : (p q : Process) → Step p q → Fits p → Fits q
  Step-Fits p q (enter sig t e) h = subst Fits (sym e) (record {
    safe = h.safe;
    runs = ((λ i k. k, λ i k n. absurd (ground (arith, k, n))), h.runs);
    raised = h.raised;
  })
  Step-Fits p q (restores before after sig next left r e) h =
      let (b, run, a) =
        middle (RunFits p.handlers) before after p.runs (record { sig = sig; left = next ∷ left }) r
          h.runs in
      let s = saved-Restored p.handlers next (h.safe next) (run.0 next (first-kept next left)) in
      let others = All-map (RunFits p.handlers) (RunFits (restore next p.handlers)) in
      let f = restore-RunFits p.handlers next s in
      subst Fits (sym e) (record {
        safe = λ i. restore-SafeAt p.handlers next s i (h.safe i);
        runs =
            All-append (RunFits (restore next p.handlers)) before
              (record { sig = sig; left = left } ∷ after) (others before f b)
              (next-RunFits p.handlers sig next left s run, others after f a);
        raised = still-raised p.handlers next s p.raised h.raised;
      })
  Step-Fits p q (raises before after sig r e) h =
      let (b, run, a) =
        middle (RunFits p.handlers) before after p.runs (record { sig = sig; left = [] }) r
          h.runs in
      subst Fits (sym e) (record {
        safe = h.safe;
        runs = All-append (RunFits p.handlers) before after b a;
        raised = inr (finished-Fresh p.handlers sig h.safe run);
      })

  Reach-Fits : (p q : Process) → Reach p q → Fits p → Fits q
  Reach-Fits p q at_start h = h
  Reach-Fits p q (then_step r s) h = Step-Fits _ q s (Reach-Fits p _ r h)

  own-handler :
      (h g : Handlers)
      → Fresh h
      → (i : ℕ) → SafeAt g i
      → (g.table i ≡ h.table i) ⊎ (g.table i ≡ term_sig_handler)
  own-handler h g e i (inl (_, _, inl t)) = inl (t ∙ sym (e i))
  own-handler h g e i (inl (_, _, inr t)) = inr t
  own-handler h g e i (inr (_, t)) = inl (t ∙ sym (e i))

  Fresh-again :
      (h : Handlers) (q : Process)
      → Fresh h
      → (q.raised ≡ []) ⊎ Fresh q.handlers
      → (q.raised ≡ []) ⊎ ((i : ℕ) → q.handlers.table i ≡ h.table i)
  Fresh-again h q e (inl r) = inl r
  Fresh-again h q e (inr t) = inr (λ i. t i ∙ sym (e i))

  -- After the registration, whatever signals come and however the runs of the handler mix, each signal
  -- has at any time the handler that it had before or `termSigHandler`, and once a run has raised its
  -- signal again all signals have the handlers that they had before.
  pub Reach-restored :
      (h : Handlers) (q : Process)
      → Fresh h
      → Reach (started h) q
      → ((i : ℕ) → (q.handlers.table i ≡ h.table i) ⊎ (q.handlers.table i ≡ term_sig_handler))
        × ((q.raised ≡ []) ⊎ ((i : ℕ) → q.handlers.table i ≡ h.table i))
  Reach-restored h q e r =
      let start : Fits (started h) = record {
        safe = registrar-SafeAt h e;
        runs = tt;
        raised = inl refl;
      } in
      let fits = Reach-Fits (started h) q r start in
      (λ i. own-handler h q.handlers e i (fits.safe i), Fresh-again h q e fits.raised)
