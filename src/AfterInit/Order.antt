-- ===== src/AfterInit/Order.antt =====
-- What the shell functions of afterInit.c register, and what the init hook then runs, in which order.
use iocsh_utilities.Base.{
  ℕ, ◌<◌, ◌==◌, ==_iff, if◌then◌else◌, ◌≡◌, refl, sym, ◌∙◌, ap, Bool, true, false, some, List, [],
  ◌∷◌, ◌++◌, append_assoc, append-nil, Text, length, arith, Bool-cases, inl, inr,
}
use mathlib.Core.List.{reverse, reverse-append}
use iocsh_utilities.AfterInit.Hooks.{Hook}
use iocsh_utilities.AfterInit.CommandText.{command_text}
use iocsh_utilities.AfterInit.{
  Command, shell, State, is_reversed, Outcome, stored, at_init_stage_iocsh, after_init_hook,
  initial,
}
use iocsh_utilities.AfterInit.Chain.{Entry}
use iocsh_utilities.AfterInit.View.{Holds, place}
use iocsh_utilities.AfterInit.Registers.{
  selected, after_init_hook-selected, registered, too_long, at_init_stage_iocsh-Registers,
}

-- A call: the hook, and the words of the command.
abbrev pub Call : Type 0
Call = ℕ × Text × List Text

abbrev pub call_text : Call → Text
call_text (when, w, words) = command_text w words

abbrev pub then_next : Outcome → (State → Outcome) → Outcome
then_next (stored s) next = next s
then_next o next = o

-- The commands of the calls for one hook, in the order of the calls.
abbrev pub chosen : ℕ → List Call → List Command
chosen state [] = []
chosen state ((when, w, words) ∷ calls) =
    if when == state then shell (command_text w words) ∷ chosen state calls else chosen state calls

abbrev pub AllFit : List Call → Type 0
AllFit [] = Unit {0}
AllFit (c ∷ calls) = (length (call_text c) < 256) × AllFit calls

initial-Holds : Holds initial []
initial-Holds = record {
  items = [];
  inv = record { linked = refl; distinct = tt; below = tt; count = refl; last = refl };
  seen = refl;
}

selected-append :
    (state : ℕ) (xs ys : List Entry)
    → selected state (xs ++ ys) ≡ selected state xs ++ selected state ys
selected-append state [] ys = refl
selected-append state ((when, c) ∷ xs) ys = ground (arith, selected-append state xs ys)

if-append :
    (b : Bool) (c : Command) (xs : List Command)
    → (if b then c ∷ [] else []) ++ xs ≡ (if b then c ∷ xs else xs)
if-append true c xs = refl
if-append false c xs = refl

if-reverse :
    (b : Bool) (c : Command) (xs : List Command)
    → reverse xs ++ (if b then c ∷ [] else []) ≡ reverse (if b then c ∷ xs else xs)
if-reverse true c xs = sym (reverse-append (c ∷ []) xs)
if-reverse false c xs = append-nil (reverse xs)

module _ (hooks : Hook → ℕ) where
  abbrev pub register_all : List Call → State → Outcome
  register_all [] s = stored s
  register_all ((when, w, words) ∷ calls) s =
      then_next (at_init_stage_iocsh hooks false true when (w ∷ words) s) (register_all calls)

  abbrev place_all : List Call → List Entry → List Entry
  place_all [] es = es
  place_all ((when, w, words) ∷ calls) es =
      place_all calls (place hooks when (shell (command_text w words)) es)

  abbrev pub in_order : ℕ → List Call → List Command
  in_order state calls =
      if is_reversed hooks state then reverse (chosen state calls) else chosen state calls

  register_all-Holds :
      (calls : List Call) (s : State) (es : List Entry)
      → AllFit calls
      → Holds s es
      → (t : State) × (register_all calls s ≡ stored t) × Holds t (place_all calls es)
  register_all-Holds [] s es f h = (s, refl, h)
  register_all-Holds ((when, w, words) ∷ calls) s es (f, fs) h =
      elim (at_init_stage_iocsh-Registers hooks when w words s es h) [
        | registered t e _ k ↦
            let (u, q, held) =
              register_all-Holds calls t (place hooks when (shell (command_text w words)) es) fs
                k in
            (u, rw e q, held)
        | too_long e k ↦ absurd (omega arith)
      ]

  place-forward :
      (state when : ℕ) (c : Command) (es : List Entry)
      → is_reversed hooks state ≡ false
      → selected state (place hooks when c es)
        ≡ selected state es ++ (if when == state then c ∷ [] else [])
  place-forward state when c es r = elim (Bool-cases (when == state)) [
    | inl e ↦
        let q : is_reversed hooks when ≡ false = rw ((==_iff when state).0 e) r in
        rw (q, e, selected-append state es ((when, c) ∷ []), e) refl
    | inr e ↦ elim (Bool-cases (is_reversed hooks when)) [
      | inl q ↦ rw (q, e, append-nil (selected state es)) refl
      | inr q ↦ rw (q, e, selected-append state es ((when, c) ∷ []), e) refl
    ]
  ]

  place-backward :
      (state when : ℕ) (c : Command) (es : List Entry)
      → is_reversed hooks state ≡ true
      → selected state (place hooks when c es)
        ≡ (if when == state then c ∷ [] else []) ++ selected state es
  place-backward state when c es r = elim (Bool-cases (when == state)) [
    | inl e ↦
        let q : is_reversed hooks when ≡ true = rw ((==_iff when state).0 e) r in rw (q, e) refl
    | inr e ↦ elim (Bool-cases (is_reversed hooks when)) [
      | inl q ↦ rw (q, e) refl
      | inr q ↦
          rw (q, e, selected-append state es ((when, c) ∷ []), e, append-nil (selected state es))
            refl
    ]
  ]

  selected-forward :
      (state : ℕ) (calls : List Call) (es : List Entry)
      → is_reversed hooks state ≡ false
      → selected state (place_all calls es) ≡ selected state es ++ chosen state calls
  selected-forward state [] es r = sym (append-nil (selected state es))
  selected-forward state ((when, w, words) ∷ calls) es r =
      let c = shell (command_text w words) in
      selected-forward state calls (place hooks when c es) r
      ∙ ap (λ xs. xs ++ chosen state calls) (place-forward state when c es r)
      ∙ append_assoc (selected state es) (if when == state then c ∷ [] else []) (chosen state calls)
      ∙ ap (λ xs. selected state es ++ xs) (if-append (when == state) c (chosen state calls))

  selected-backward :
      (state : ℕ) (calls : List Call) (es : List Entry)
      → is_reversed hooks state ≡ true
      → selected state (place_all calls es) ≡ reverse (chosen state calls) ++ selected state es
  selected-backward state [] es r = refl
  selected-backward state ((when, w, words) ∷ calls) es r =
      let c = shell (command_text w words) in
      selected-backward state calls (place hooks when c es) r
      ∙ ap (λ xs. reverse (chosen state calls) ++ xs) (place-backward state when c es r)
      ∙ sym (
          append_assoc (reverse (chosen state calls)) (if when == state then c ∷ [] else [])
            (selected state es))
      ∙ ap (λ xs. xs ++ selected state es) (if-reverse (when == state) c (chosen state calls))

  -- Calls of `atInitStageIocsh` with at least one word, of which each puts together a command line of
  -- less than 256 bytes, made before interrupts are accepted and with memory at hand, all store their
  -- command. Then for each hook the function `afterInitHook` runs just the commands of the calls for
  -- this hook: in the order of the calls, or the other way round for the hooks of a pause or shutdown.
  pub after_init_hook-register_all :
      (calls : List Call)
      → AllFit calls
      → (t : State) × (register_all calls initial ≡ stored t)
        × ((state : ℕ) → after_init_hook t state ≡ some (in_order state calls))
  after_init_hook-register_all calls f =
      let (t, e, h) = register_all-Holds calls initial [] f initial-Holds in
      (
        t,
        e,
        λ state.
            after_init_hook-selected t (place_all calls []) state h
            ∙ ap some (elim (Bool-cases (is_reversed hooks state)) [
              | inl r ↦
                  rw r
                    (selected-backward state calls [] r ∙ append-nil (reverse (chosen state calls)))
              | inr r ↦ rw r (selected-forward state calls [] r)
            ]),
      )
