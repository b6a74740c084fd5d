-- ===== src/AddScan/Order.antt =====
-- What `addScan` of addScan.c does to the order of the rates, and what a second call or `rmScan` does.
use iocsh_utilities.Base.{
  ◌≡◌, refl, sym, ◌∙◌, ap, true, false, some, List, [], ◌∷◌, ◌++◌, Text, length, Bool-cases, inl,
  inr,
}
use mathlib.Core.Path.{subst}
use iocsh_utilities.AddScan.{
  Rates, Choice, new_choice, Outcome, changed, available, behind, insert_rate, remove_rate,
  insert_from, remove_from, add_scan, rm_scan,
}

behind_all : List Choice → Outcome → Outcome
behind_all [] o = o
behind_all (c ∷ cs) o = behind c (behind_all cs o)

behind_all-changed : (cs menu : List Choice) → behind_all cs (changed menu) ≡ changed (cs ++ menu)
unfolding behind_all
behind_all-changed [] menu = refl
behind_all-changed (c ∷ cs) menu = ap (behind c) (behind_all-changed cs menu)

behind_all-available : (cs : List Choice) → behind_all cs available ≡ available
unfolding behind_all
behind_all-available [] = refl
behind_all-available (c ∷ cs) = ap (behind c) (behind_all-available cs)

module _ (rates : Rates) where
  -- The numbers that the values stand for get smaller.
  abbrev pub Descending : List Choice → Type 0
  Descending [] = Unit {0}
  Descending (c ∷ []) = Unit {0}
  Descending (c ∷ d ∷ menu) =
      (rates.lt (rates.strtod d.1) (rates.strtod c.1) ≡ true) × Descending (d ∷ menu)

  abbrev pub AllNumbers : List Choice → Type 0
  AllNumbers [] = Unit {0}
  AllNumbers (c ∷ menu) = (rates.is_number (rates.strtod c.1) ≡ true) × AllNumbers menu

  module _ (rate : rates.Rate) where
    abbrev pub AllAbove : List Choice → Type 0
    AllAbove [] = Unit {0}
    AllAbove (c ∷ menu) =
        ((rates.eq (rates.strtod c.1) rate ≡ false) × (rates.lt (rates.strtod c.1) rate ≡ false))
        × AllAbove menu

    abbrev pub StopsAt : List Choice → Type 0
    StopsAt [] = Unit {0}
    StopsAt (c ∷ menu) = rates.lt (rates.strtod c.1) rate ≡ true

    -- Where the loop of `addScan` puts a choice.
    data Inserts (new : Choice) (menu : List Choice) (r : Outcome) : Type 0 where
      present :
          (xs : List Choice) (c : Choice) (ys : List Choice)
          → menu ≡ xs ++ (c ∷ ys)
          → rates.eq (rates.strtod c.1) rate ≡ true
          → AllAbove xs
          → r ≡ available
          → Inserts new menu r
      inserted :
          (xs ys : List Choice)
          → menu ≡ xs ++ ys
          → r ≡ changed (xs ++ (new ∷ ys))
          → AllAbove xs
          → StopsAt ys
          → Inserts new menu r

    Inserts-next :
        (new c : Choice) (menu : List Choice) (r : Outcome)
        → rates.eq (rates.strtod c.1) rate ≡ false
        → rates.lt (rates.strtod c.1) rate ≡ false
        → Inserts new menu r
        → Inserts new (c ∷ menu) (behind c r)
    Inserts-next new c menu r e l (present xs d ys m same a q) =
        present (c ∷ xs) d ys (ap (λ x. c ∷ x) m) same ((e, l), a) (ap (behind c) q)
    Inserts-next new c menu r e l (inserted xs ys m q a s) =
        inserted (c ∷ xs) ys (ap (λ x. c ∷ x) m) (ap (behind c) q) ((e, l), a) s

    insert_rate-Inserts :
        (new : Choice) (menu : List Choice) → Inserts new menu (insert_rate rates rate new menu)
    unfolding insert_rate
    insert_rate-Inserts new [] = inserted [] [] refl refl tt tt
    insert_rate-Inserts new ((name, value) ∷ menu) =
        elim (Bool-cases (rates.eq (rates.strtod value) rate)) [
          | inl e ↦ rw e (present [] (name, value) menu refl e tt refl)
          | inr e ↦ elim (Bool-cases (rates.lt (rates.strtod value) rate)) [
            | inl l ↦ rw (e, l) (inserted [] ((name, value) ∷ menu) refl refl tt l)
            | inr l ↦
                rw (e, l)
                  (Inserts-next new (name, value) menu (insert_rate rates rate new menu) e l
                    (insert_rate-Inserts new menu))
          ]
        ]

    -- The new choice, whose value stands for the rate.
    module _ (new : Choice) (same : rates.strtod new.1 ≡ rate)
        (number : rates.is_number rate ≡ true) where
      insert-Descending :
          (xs ys : List Choice)
          → AllAbove xs
          → StopsAt ys
          → AllNumbers (xs ++ ys)
          → Descending (xs ++ ys)
          → Descending (xs ++ (new ∷ ys))
      insert-Descending [] [] a s n d = tt
      insert-Descending [] (y ∷ ys) a s n d = (rw same s, d)
      insert-Descending (x ∷ []) [] ((e, l), a) s (n, ns) d =
          (rw same (rates.connected (rates.strtod x.1) rate n number e l), tt)
      insert-Descending (x ∷ []) (y ∷ ys) ((e, l), a) s (n, ns) (d, ds) =
          (rw same (rates.connected (rates.strtod x.1) rate n number e l), (rw same s, ds))
      insert-Descending (x ∷ z ∷ xs) ys (b, a) s (n, ns) (d, ds) =
          (d, insert-Descending (z ∷ xs) ys a s ns ds)

      insert-again :
          (xs ys : List Choice)
          → AllAbove xs
          → insert_rate rates rate new (xs ++ (new ∷ ys)) ≡ available
      unfolding insert_rate
      insert-again [] ys a = rw (same, rates.eq_refl rate number) refl
      insert-again (x ∷ xs) ys ((e, l), a) = rw (e, l) (ap (behind x) (insert-again xs ys a))

      remove-inserted :
          (xs ys : List Choice)
          → AllAbove xs
          → remove_rate rates rate (xs ++ (new ∷ ys)) ≡ changed (xs ++ ys)
      unfolding remove_rate
      remove-inserted [] ys a = rw (same, rates.eq_refl rate number) refl
      remove-inserted (x ∷ xs) ys ((e, l), a) = rw e (ap (behind x) (remove-inserted xs ys a))

  insert_from-skip :
      (rate : rates.Rate) (new : Choice) (skipped menu : List Choice)
      → insert_from rates (length skipped) rate new (skipped ++ menu)
        ≡ behind_all skipped (insert_rate rates rate new menu)
  unfolding insert_from behind_all
  insert_from-skip rate new [] menu = refl
  insert_from-skip rate new (c ∷ skipped) menu =
      ap (behind c) (insert_from-skip rate new skipped menu)

  remove_from-skip :
      (rate : rates.Rate) (skipped menu : List Choice)
      → remove_from rates (length skipped) rate (skipped ++ menu)
        ≡ behind_all skipped (remove_rate rates rate menu)
  unfolding remove_from behind_all
  remove_from-skip rate [] menu = refl
  remove_from-skip rate (c ∷ skipped) menu = ap (behind c) (remove_from-skip rate skipped menu)

  module _ (s : Text) (rate : rates.Rate) (read : rates.scan_rate s ≡ some rate)
      (positive : rates.not_positive rate ≡ false) (skipped : List Choice) where
    add_scan-insert :
        (menu : List Choice)
        → add_scan rates (length skipped) false (some s) (skipped ++ menu)
          ≡ behind_all skipped (insert_rate rates rate (new_choice s) menu)
    unfolding add_scan
    add_scan-insert menu = rw (read, positive) (insert_from-skip rate (new_choice s) skipped menu)

    rm_scan-remove :
        (menu : List Choice)
        → rm_scan rates (length skipped) false (some s) (skipped ++ menu)
          ≡ behind_all skipped (remove_rate rates rate menu)
    unfolding rm_scan
    rm_scan-remove menu = rw (read, positive) (remove_from-skip rate skipped menu)

    -- What `addScan` comes to: a choice has the rate, or the new choice is added behind the choices that
    -- are above the rate and before one that is below it, from where a second call finds it and `rmScan`
    -- takes it out.
    pub data Scanned (menu : List Choice) (r : Outcome) : Type 0 where
      there :
          (xs : List Choice) (c : Choice) (ys : List Choice)
          → menu ≡ xs ++ (c ∷ ys)
          → rates.eq (rates.strtod c.1) rate ≡ true
          → AllAbove rate xs
          → r ≡ available
          → Scanned menu r
      added :
          (xs ys : List Choice)
          → menu ≡ xs ++ ys
          → AllAbove rate xs
          → StopsAt rate ys
          → r ≡ changed (skipped ++ (xs ++ (new_choice s ∷ ys)))
          → Descending (xs ++ (new_choice s ∷ ys))
          → add_scan rates (length skipped) false (some s) (skipped ++ (xs ++ (new_choice s ∷ ys)))
            ≡ available
          → rm_scan rates (length skipped) false (some s) (skipped ++ (xs ++ (new_choice s ∷ ys)))
            ≡ changed (skipped ++ menu)
          → Scanned menu r

    -- Before iocInit, let the argument read as a positive number, let its value in the menu, without the
    -- zeros at its front and with ` second` behind it, stand for the same number, and let the values of
    -- the periodic choices stand for numbers that get smaller. Then either a choice equals the rate, with
    -- only choices above the rate before it, and `addScan` answers that it is available; or `addScan`
    -- adds the new choice behind the choices that are neither equal to nor below the rate and at the end
    -- or before one that is below it, the numbers still get smaller, all other choices are kept, a second
    -- `addScan` finds the rate available, and `rmScan` makes the menu what it was.
    pub add_scan-Scanned :
        (menu : List Choice)
        → rates.strtod (new_choice s).1 ≡ rate
        → rates.is_number rate ≡ true
        → AllNumbers menu
        → Descending menu
        → Scanned menu (add_scan rates (length skipped) false (some s) (skipped ++ menu))
    add_scan-Scanned menu same number n d = elim (insert_rate-Inserts rate (new_choice s) menu) [
      | present xs c ys m e a q ↦
          there xs c ys m e a
            (add_scan-insert menu ∙ ap (behind_all skipped) q ∙ behind_all-available skipped)
      | inserted xs ys m q a stops ↦
          let new = new_choice s in
          added xs ys m a stops
            (add_scan-insert menu
              ∙ ap (behind_all skipped) q
              ∙ behind_all-changed skipped (xs ++ (new ∷ ys)))
            (insert-Descending rate new same number xs ys a stops (subst AllNumbers m n)
              (subst Descending m d))
            (add_scan-insert (xs ++ (new ∷ ys))
              ∙ ap (behind_all skipped) (insert-again rate new same number xs ys a)
              ∙ behind_all-available skipped)
            (rm_scan-remove (xs ++ (new ∷ ys))
              ∙ ap (behind_all skipped) (remove-inserted rate new same number xs ys a)
              ∙ behind_all-changed skipped (xs ++ ys)
              ∙ ap (λ x. changed (skipped ++ x)) (sym m))
    ]
