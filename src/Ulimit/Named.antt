-- ===== src/Ulimit/Named.antt =====
-- Which limits a call of `ulimitFunc` of ulimit.c leaves alone.
use iocsh_utilities.Base.{
  ℕ, ◌==◌, ==_iff, if◌then◌else◌, ◌≡◌, ◌≢◌, refl, sym, ◌∙◌, ap, Bool, true, false, ◌||◌, Option,
  none, some, List, [], ◌∷◌, Text, has_byte, arith, Bool-cases, inl, inr,
}
use mathlib.Core.Option.{some-injective}
use iocsh_utilities.Ulimit.Letters.{names, letters_of-names}
use iocsh_utilities.Ulimit.{
  System, Rlimit, Resource, resources, Which, Message, find_resource, changed, split_args, which_of,
  letters_of, Step, go_on, stop, set_step, apply_limit, use_limit, use_resource, step, after_step,
  option_loop, run_options, ulimit_func, new_limit,
}

find_resource-option :
    (rs : List Resource) (o : ℕ) (r : Resource) → find_resource rs o ≡ some r → r.option ≡ o
unfolding find_resource
find_resource-option [] o r e = ground (arith, e)
find_resource-option (q ∷ rs) o r e = elim (Bool-cases (q.option == o)) [
  | inl k ↦ ap (λ x. x.option) (sym (some-injective q r (rw k at e))) ∙ (==_iff q.option o).0 k
  | inr k ↦ find_resource-option rs o r (rw k at e)
]

here : (o : ℕ) (options : Text) → has_byte o (o ∷ options) ≡ true
here o options = ground arith

later : (a o : ℕ) (options : Text) → has_byte a options ≡ true → has_byte a (o ∷ options) ≡ true
later a o options h = ground (arith, h)

other : (i o : ℕ) (s : Text) → i ≡ o → has_byte i s ≡ false → has_byte o s ≡ true → ⊥
other i o s k e h = ground (arith, ap (λ x. has_byte x s) k, e, h)

module _ (sys : System) where
  abbrev state_of : Step sys → sys.State
  state_of (go_on s out) = s
  state_of (stop s out) = s

  module _ (P : sys.State → Type 0) where
    after_step-keeps :
        (st : Step sys) (next : sys.State → sys.State × List Message)
        → P (state_of st)
        → ((t : sys.State) → P t → P (next t).0)
        → P (after_step sys st next).0
    after_step-keeps (go_on s out) next h f = f s h
    after_step-keeps (stop s out) next h f = h

    option_loop-keeps :
        (w : Which) (limit : Option Text) (options : Text)
        → ((o : ℕ) (s : sys.State)
            → has_byte o options ≡ true
            → P s
            → P (state_of (step sys w limit o s)))
        → (s : sys.State) → P s
        → P (option_loop sys w limit options s).0
    unfolding option_loop
    option_loop-keeps w limit [] f s h = h
    option_loop-keeps w limit (o ∷ options) f s h =
        after_step-keeps (step sys w limit o s) (option_loop sys w limit options)
          (f o s (here o options) h)
          (option_loop-keeps w limit options (λ a t q. f a t (later a o options q)))

    run_options-keeps :
        (options : Text) (limit : Option Text)
        → ((w : Which) (o : ℕ) (s : sys.State)
            → has_byte o (letters_of options) ≡ true
            → P s
            → P (state_of (step sys w limit o s)))
        → (s : sys.State) → P s
        → P (run_options sys options limit s).0
    unfolding run_options
    run_options-keeps options limit f s h = elim (Bool-cases (has_byte b'a' (letters_of options))) [
      | inl e ↦ rw e h
      | inr e ↦ rw e (
          option_loop-keeps (which_of options) limit (letters_of options) (f (which_of options)) s
            h)
    ]

  -- Without a limit no step changes the state.
  use_limit-shows :
      (w : Which) (r : Resource) (l : Option Rlimit) (s : sys.State)
      → state_of (use_limit sys w none r l s) ≡ s
  unfolding use_limit
  use_limit-shows w r none s = refl
  use_limit-shows w r (some l) s = refl

  branch-shows :
      (b : Bool) (w : Which) (o : ℕ) (r : Option Resource) (s : sys.State)
      → state_of (if b then go_on s [] else use_resource sys w none o r s) ≡ s
  unfolding use_resource
  branch-shows true w o r s = refl
  branch-shows false w o none s = refl
  branch-shows false w o (some r) s = use_limit-shows w r (sys.get_limit s r.option) s

  step-shows : (w : Which) (o : ℕ) (s : sys.State) → state_of (step sys w none o s) ≡ s
  unfolding step
  step-shows w o s = branch-shows (o == b'S' || o == b'H') w o (find_resource resources o) s

  run_options-shows : (options : Text) (s : sys.State) → (run_options sys options none s).0 ≡ s
  run_options-shows options s =
      run_options-keeps (λ t. t ≡ s) options none (λ w o t h q. step-shows w o t ∙ q) s refl

  -- A call of `ulimitFunc` without its first argument, or with options behind a dash as the first
  -- argument and without the second, changes no limit.
  pub ulimit_func-shows :
      (options : Text) (arg1 : Option Text) (s : sys.State)
      → ((ulimit_func sys none arg1 s).0 ≡ s)
        × ((ulimit_func sys (some (b'-' ∷ options)) none s).0 ≡ s)
  unfolding ulimit_func split_args
  ulimit_func-shows options arg1 s = (run_options-shows [] s, run_options-shows options s)

  -- A step changes no limit but that of its option.
  module _ (i : ℕ) where
    set_step-keeps :
        (r : Resource) (l : Rlimit) (s : sys.State) (t : Option sys.State)
        → i ≢ r.option
        → sys.set_limit s r.option l ≡ t
        → sys.get_limit (state_of (set_step sys s r t)) i ≡ sys.get_limit s i
    set_step-keeps r l s none n e = refl
    set_step-keeps r l s (some t) n e = sys.get-set_ne s t r.option i l e n

    apply_limit-keeps :
        (w : Which) (r : Resource) (l : Rlimit) (text : Text) (n : Option ℕ) (s : sys.State)
        → i ≢ r.option
        → sys.get_limit (state_of (apply_limit sys w r l text n s)) i ≡ sys.get_limit s i
    unfolding apply_limit
    apply_limit-keeps w r l text none s n = refl
    apply_limit-keeps w r l text (some k) s n =
        set_step-keeps r (changed w k l) s (sys.set_limit s r.option (changed w k l)) n refl

    use_limit-keeps :
        (w : Which) (limit : Option Text) (r : Resource) (l : Option Rlimit) (s : sys.State)
        → i ≢ r.option
        → sys.get_limit (state_of (use_limit sys w limit r l s)) i ≡ sys.get_limit s i
    unfolding use_limit
    use_limit-keeps w limit r none s n = refl
    use_limit-keeps w none r (some l) s n = refl
    use_limit-keeps w (some text) r (some l) s n =
        apply_limit-keeps w r l text (new_limit text r.shift) s n

    branch-keeps :
        (b : Bool) (w : Which) (limit : Option Text) (o : ℕ) (r : Option Resource) (s : sys.State)
        → i ≢ o
        → ((q : Resource) → r ≡ some q → q.option ≡ o)
        → sys.get_limit (state_of (if b then go_on s [] else use_resource sys w limit o r s)) i
          ≡ sys.get_limit s i
    unfolding use_resource
    branch-keeps true w limit o r s n f = refl
    branch-keeps false w limit o none s n f = refl
    branch-keeps false w limit o (some r) s n f =
        use_limit-keeps w limit r (sys.get_limit s r.option) s (λ e. n (e ∙ f r refl))

    step-keeps :
        (w : Which) (limit : Option Text) (o : ℕ) (s : sys.State)
        → i ≢ o
        → sys.get_limit (state_of (step sys w limit o s)) i ≡ sys.get_limit s i
    unfolding step
    step-keeps w limit o s n =
        branch-keeps (o == b'S' || o == b'H') w limit o (find_resource resources o) s n
          (find_resource-option resources o)

    -- A call of `ulimitFunc` changes no limit of a resource that its first argument does not name. An
    -- argument with a dash names the resources of its letters, and `f` if there are no letters but at
    -- most one `S` and one `H`; every other argument, and none, names `f`.
    pub ulimit_func-others :
        (arg0 arg1 : Option Text) (s : sys.State)
        → names arg0 i ≡ false
        → sys.get_limit (ulimit_func sys arg0 arg1 s).0 i ≡ sys.get_limit s i
    unfolding ulimit_func
    ulimit_func-others arg0 arg1 s h =
        let (options, limit) = split_args arg0 arg1 in
        let e = letters_of-names arg0 arg1 i ∙ h in
        run_options-keeps (λ t. sys.get_limit t i ≡ sys.get_limit s i) options limit
          (λ w o t h q. step-keeps w limit o t (λ k. other i o (letters_of options) k e h) ∙ q) s
          refl
