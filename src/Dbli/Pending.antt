-- ===== src/Dbli/Pending.antt =====
-- What dbli.c lists: the items that are still to come and match.
use iocsh_utilities.Base.{
  ℕ, zero, suc, ◌-◌, ◌≤◌, ◌<◌, if◌then◌else◌, ◌≡◌, refl, ◌∙◌, ap, Bool, true, false, none, some,
  List, [], ◌∷◌, ◌++◌, map, Text, length, arith, Bool-cases, inl, inr,
}
use mathlib.Core.Path.{subst}
use iocsh_utilities.Dbli.{
  Info, line, Entry, accepted, Found, at, stopped, first_or, find_info, to_info, match_loop,
  next_matching_info, line_or, list_lines, dblilist,
}
use iocsh_utilities.Dbli.Places.{
  concat, tail, in_type, at_info, EntryLaws, behind, pending, no_record, a_record, to_record-finds,
}

-- The elements that a test accepts.
abbrev pub keep {ℓ} : {A : Type ℓ} → (A → Bool) → List A → List A
keep p [] = []
keep p (x ∷ xs) = if p x then x ∷ keep p xs else keep p xs

module _ (entry : Entry) (db : List (List (List Info))) (laws : EntryLaws entry db)
    (limit : ℕ) where
  -- What is left in the database is less than the limit.
  abbrev Within : entry.State → Type 0
  Within e =
      (length (laws.view e).types < limit)
      × (length (behind (laws.view e)) < limit)
      × ((laws.view e).has_type ≡ true)

  -- The loops find the first of `infos` or stop because there is none.
  data InfoFound (infos : List Info) (o : Found entry.State) : Type 0 where
    no_info : o ≡ stopped → infos ≡ [] → InfoFound infos o
    an_info :
        (i : entry.State)
        → o ≡ at i
        → infos ≡ entry.info i ∷ pending (laws.view i)
        → Within i
        → InfoFound infos o

  first_or-finds :
      (again : entry.State → Found entry.State) (r : entry.State) (is : List Info)
      → (laws.view r).of_record ≡ is
      → Within r
      → ((e : entry.State)
          → behind (laws.view e) ≡ behind (laws.view r)
          → Within e
          → InfoFound (concat (behind (laws.view r))) (again e))
      → InfoFound (is ++ concat (behind (laws.view r))) (first_or entry again (at r))
  first_or-finds again r [] h (t, b, y) f =
      let v : laws.view (entry.first_info r).1 ≡ at_info [] (laws.view r) =
        laws.first_info-view r ∙ ap (λ x. at_info x (laws.view r)) h in
      rw (laws.first_info-ok r, h) (f (entry.first_info r).1 (ap behind v) (rw v (t, b, y)))
  first_or-finds again r (i ∷ is) h (t, b, y) f =
      let v : laws.view (entry.first_info r).1 ≡ at_info (i ∷ is) (laws.view r) =
        laws.first_info-view r ∙ ap (λ x. at_info x (laws.view r)) h in
      an_info (entry.first_info r).1 (rw (laws.first_info-ok r, h) refl)
        (rw (laws.first_info-info r i is h, v) refl) (rw v (t, b, y))

  find_info-finds :
      (fuel : ℕ) (e : entry.State)
      → Within e
      → length (behind (laws.view e)) < fuel
      → InfoFound (concat (behind (laws.view e))) (find_info entry limit fuel e)
  unfolding find_info
  find_info-finds zero e w l = absurd (omega arith)
  find_info-finds (suc fuel) e (t, b, y) l = elim (to_record-finds entry db laws limit e t y) [
    | no_record o n ↦ no_info (rw (find_info, o) refl) (ap concat n)
    | a_record r o n m y' ↦
        rw (find_info, o, n)
          (first_or-finds (find_info entry limit fuel) r (laws.view r).of_record refl
            (omega (arith, ap length n), omega (arith, ap length n), y')
            (λ e' q w.
              subst (λ x. InfoFound (concat x) (find_info entry limit fuel e')) q
                (find_info-finds fuel e' w (omega (arith, ap length n, ap length q)))))
  ]

  to_info-at :
      (e : entry.State) (is : List Info)
      → (laws.view e).infos ≡ is
      → Within e
      → InfoFound (is ++ concat (behind (laws.view e))) (to_info entry limit e)
  unfolding to_info
  to_info-at e [] h (t, b, y) =
      let v : laws.view (entry.next_info e).1 ≡ at_info [] (laws.view e) =
        laws.next_info-view e ∙ ap (λ x. at_info x (laws.view e)) h in
      rw (to_info, laws.next_info-ok e, h)
        (subst (λ x. InfoFound (concat x) (find_info entry limit limit (entry.next_info e).1))
          (ap behind v) (find_info-finds limit (entry.next_info e).1 (rw v (t, b, y)) (rw v b)))
  to_info-at e (i ∷ is) h (t, b, y) =
      let v : laws.view (entry.next_info e).1 ≡ at_info (i ∷ is) (laws.view e) =
        laws.next_info-view e ∙ ap (λ x. at_info x (laws.view e)) h in
      an_info (entry.next_info e).1 (rw (to_info, laws.next_info-ok e, h) refl)
        (rw (laws.next_info-info e i is h, v) refl) (rw v (t, b, y))

  module _ (glob_match : Text → Text → Bool) (patterns : List Text) where
    abbrev matching : List Info → List Info
    matching infos = keep (accepted glob_match patterns) infos

    data MatchFound (infos : List Info) (o : Found entry.State) : Type 0 where
      no_match : o ≡ stopped → matching infos ≡ [] → MatchFound infos o
      a_match :
          (i : entry.State)
          → o ≡ at i
          → matching infos ≡ entry.info i ∷ matching (pending (laws.view i))
          → length (pending (laws.view i)) < length infos
          → Within i
          → MatchFound infos o

    next-found :
        (fuel : ℕ) (e i : entry.State)
        → pending (laws.view e) ≡ entry.info i ∷ pending (laws.view i)
        → match_loop entry glob_match patterns limit (suc fuel) e
          ≡ match_loop entry glob_match patterns limit fuel i
        → accepted glob_match patterns (entry.info i) ≡ false
        → MatchFound (pending (laws.view i)) (match_loop entry glob_match patterns limit fuel i)
        → MatchFound
            (pending (laws.view e))
            (match_loop entry glob_match patterns limit (suc fuel) e)
    next-found fuel e i n q a (no_match o m) = no_match (q ∙ o) (rw (n, a) m)
    next-found fuel e i n q a (a_match j o m l w) =
        a_match j (q ∙ o) (rw (n, a) m) (omega (arith, ap length n)) w

    match_loop-finds :
        (fuel : ℕ) (e : entry.State)
        → Within e
        → length (pending (laws.view e)) < fuel
        → MatchFound (pending (laws.view e)) (match_loop entry glob_match patterns limit fuel e)
    unfolding match_loop
    match_loop-finds zero e w l = absurd (omega arith)
    match_loop-finds (suc fuel) e w l = elim (to_info-at e (laws.view e).infos refl w) [
      | no_info o n ↦ no_match (rw (match_loop, o) refl) (rw n refl)
      | an_info i o n w' ↦ elim (Bool-cases (accepted glob_match patterns (entry.info i))) [
        | inl a ↦
            a_match i (rw (match_loop, o, a) refl) (rw (n, a) refl) (omega (arith, ap length n)) w'
        | inr a ↦
            next-found fuel e i n (rw (match_loop, o, a) refl) a
              (match_loop-finds fuel i w' (omega (arith, ap length n)))
      ]
    ]

    next_matching-started :
        (e : entry.State)
        → Within e
        → length (pending (laws.view e)) < limit
        → MatchFound (pending (laws.view e)) (next_matching_info entry glob_match patterns limit e)
    unfolding next_matching_info
    next_matching-started e (t, b, y) l =
        rw (next_matching_info, laws.has_type-view e, y) (match_loop-finds limit e (t, b, y) l)

    list_lines-from :
        (fuel : ℕ) (infos : List Info) (o : Found entry.State)
        → MatchFound infos o
        → length infos ≤ fuel
        → length infos < limit
        → line_or entry glob_match patterns (list_lines entry glob_match patterns limit fuel) o
          ≡ some (map line (matching infos))
    unfolding list_lines
    list_lines-from fuel infos o (no_match e m) l k = rw (e, m) refl
    list_lines-from zero infos o (a_match i e m s w) l k = absurd (omega arith)
    list_lines-from (suc fuel) infos o (a_match i e m s w) l k =
        rw (e, m)
          (ap (λ x. elim x [ none ↦ none | some lines ↦ some (line (entry.info i) ∷ lines) ])
            (list_lines-from fuel (pending (laws.view i))
              (next_matching_info entry glob_match patterns limit i)
              (next_matching-started i w (omega arith)) (omega arith) (omega arith)))

    list_lines-first :
        (fuel : ℕ) (e : entry.State) (types : List (List (List Info)))
        → db ≡ types
        → (laws.view e).has_type ≡ false
        → length (tail types) < limit
        → length (concat (tail types)) < limit
        → length (concat (concat (tail types))) ≤ fuel
        → fuel < limit
        → list_lines entry glob_match patterns limit (suc fuel) e
          ≡ some (map line (matching (concat (concat (tail types)))))
    unfolding list_lines next_matching_info
    list_lines-first fuel e [] q y t b l k =
        rw (list_lines, next_matching_info, laws.has_type-view e, y, laws.first_type-ok e, q) refl
    list_lines-first fuel e (recs ∷ types) q y t b l k =
        let f = (entry.first_record_type e).1 in
        let v : laws.view f ≡ in_type (recs ∷ types) = laws.first_type-view e ∙ ap in_type q in
        rw (list_lines, next_matching_info, laws.has_type-view e, y, laws.first_type-ok e, q)
          (list_lines-from fuel (concat (concat types))
            (match_loop entry glob_match patterns limit limit f)
            (subst
              (λ x. MatchFound (pending x) (match_loop entry glob_match patterns limit limit f)) v
              (match_loop-finds limit f (rw v (t, b, refl)) (rw v (omega arith))))
            l (omega arith))

    -- For a fresh entry and a limit above the number of record types, records and items, dbli ends,
    -- and its lines are those of the items that match, in their order, of all records whose type is
    -- not the first one.
    pub dblilist-matching :
        (e : entry.State)
        → (laws.view e).has_type ≡ false
        → length (tail db) < limit
        → length (concat (tail db)) < limit
        → length (concat (concat (tail db))) < limit
        → dblilist entry glob_match patterns limit e
          ≡ some (map line (matching (concat (concat (tail db)))))
    unfolding dblilist
    dblilist-matching e y t b l =
        let q : limit ≡ suc (limit - 1) = omega arith in
        ap (λ n. list_lines entry glob_match patterns limit n e) q
        ∙ list_lines-first (limit - 1) e db refl y t b (omega arith) (omega arith)
