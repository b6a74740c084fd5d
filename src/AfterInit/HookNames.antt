-- ===== src/AfterInit/HookNames.antt =====
-- The names that `hookNameToNumber` of afterInit.c accepts, for any comparison without case.
use iocsh_utilities.Base.{
  ℕ, zero, suc, ◌+◌, ◌==◌, if◌then◌else◌, ◌≡◌, ◌≢◌, refl, sym, ◌∙◌, ap, ap₂, Bool, true, false, not,
  ◌&&◌, and-left, and-right, ◌||◌, Option, none, some, List, [], ◌∷◌, ◌++◌, Text, codes, take, drop,
  get_elem?, text_eq, text_eq→≡, arith, Bool-cases, inl, inr,
}
use mathlib.Core.Option.{some-injective}
use mathlib.Core.Path.{subst}
use iocsh_utilities.AfterInit.Hooks.{
  Hook, hook_map, lower, Names, begins_with_a, number_of, strip, names_row, find_hook, stripped,
  hook_name_to_number,
}

-- What may stand before a name.
pub data Prefix : Type 0 where
  bare at init_hook init_hook_at : Prefix

abbrev pub prefix_text : Prefix → Text
prefix_text bare = []
prefix_text at = codes "At"
prefix_text init_hook = codes "initHook"
prefix_text init_hook_at = codes "initHookAt"

-- The same search on a text in lower case.
strip_lower : Text → ℕ → Text → Text
strip_lower prefix n l = if text_eq (take n (lower prefix)) (take n l) then drop n l else l

row_lower : Text → Text → Bool
row_lower l name = text_eq l (lower name) || (begins_with_a name && text_eq l (lower (drop 5 name)))

find_lower : List (Text × Hook) → Text → Option Hook
find_lower [] l = none
find_lower ((name, h) ∷ rows) l = if row_lower l name then some h else find_lower rows l

stripped_lower : Text → Text
stripped_lower l = strip_lower (codes "At") 2 (strip_lower (codes "initHook") 8 l)

abbrev tail_found : Option ℕ → Option ℕ
tail_found none = none
tail_found (some i) = some (suc i)

find_index : List (Text × Hook) → Text → Option ℕ
find_index [] l = none
find_index ((name, h) ∷ rows) l =
    if row_lower l name then some 0 else tail_found (find_index rows l)

lower-drop : (n : ℕ) (t : Text) → lower (drop n t) ≡ drop n (lower t)
lower-drop zero t = refl
lower-drop (suc n) [] = refl
lower-drop (suc n) (c ∷ t) = lower-drop n t

module _ (names : Names) where
  strip-lower :
      (prefix : Text) (n : ℕ) (t : Text)
      → lower (strip names prefix n t) ≡ strip_lower prefix n (lower t)
  unfolding strip strip_lower
  strip-lower prefix n t =
      rw (names.case_eq_n_lower prefix t n)
        (elim (Bool-cases (text_eq (take n (lower prefix)) (take n (lower t)))) [
          | inl e ↦ rw e (lower-drop n t)
          | inr e ↦ rw e refl
        ])

  stripped-lower : (t : Text) → lower (stripped names t) ≡ stripped_lower (lower t)
  unfolding stripped stripped_lower
  stripped-lower t =
      strip-lower (codes "At") 2 (strip names (codes "initHook") 8 t)
      ∙ ap (strip_lower (codes "At") 2) (strip-lower (codes "initHook") 8 t)

  names_row-lower : (t name : Text) → names_row names t name ≡ row_lower (lower t) name
  unfolding names_row row_lower
  names_row-lower t name =
      ap₂ ◌||◌ (names.case_eq_lower t name)
        (ap (λ b. begins_with_a name && b) (names.case_eq_lower t (drop 5 name)))

  find_hook-lower :
      (rows : List (Text × Hook)) (t : Text) → find_hook names rows t ≡ find_lower rows (lower t)
  unfolding find_hook find_lower
  find_hook-lower [] t = refl
  find_hook-lower ((name, h) ∷ rows) t = rw (names_row-lower t name, find_hook-lower rows t) refl

  hook_found :
      (t : Text)
      → find_hook names hook_map (stripped names t) ≡ find_lower hook_map (stripped_lower (lower t))
  hook_found t =
      find_hook-lower hook_map (stripped names t) ∙ ap (find_lower hook_map) (stripped-lower t)

abbrev hook_of : Option (Text × Hook) → Option Hook
hook_of none = none
hook_of (some (name, h)) = some h

tail_found-some :
    (o : Option ℕ) (i : ℕ) → tail_found o ≡ some i → (j : ℕ) × (o ≡ some j) × (i ≡ suc j)
tail_found-some none i e = ground (arith, e)
tail_found-some (some j) i e = (j, refl, ground (arith, e))

index_if :
    (b : Bool) (k : Hook) (n : Text) (rows : List (Text × Hook)) (o : Option ℕ)
    (found : Option Hook) (i : ℕ)
    → ((j : ℕ) → o ≡ some j → found ≡ hook_of (get_elem? rows j))
    → (if b then some 0 else tail_found o) ≡ some i
    → (if b then some k else found) ≡ hook_of (get_elem? ((n, k) ∷ rows) i)
index_if true k n rows o found i ih q = rw (sym (some-injective 0 i q)) refl
index_if false k n rows o found i ih q = let (j, f, t) = tail_found-some o i q in rw t (ih j f)

find_index-found :
    (rows : List (Text × Hook)) (l : Text) (i : ℕ)
    → find_index rows l ≡ some i
    → find_lower rows l ≡ hook_of (get_elem? rows i)
unfolding find_index find_lower
find_index-found [] l i e = ground (arith, e)
find_index-found ((n, k) ∷ rows) l i e =
    index_if (row_lower l n) k n rows (find_index rows l) (find_lower rows l) i
      (λ j. find_index-found rows l j) e

abbrev is_index : ℕ → Option ℕ → Bool
is_index i none = false
is_index i (some j) = i == j

is_index-some : (i : ℕ) (o : Option ℕ) → is_index i o ≡ true → o ≡ some i
is_index-some i none h = ground (arith, h)
is_index-some i (some j) h = ground (arith, h)

-- Every way to write a name leads to the row with this index.
hits : ℕ → Text → Prefix → Bool
hits i name p = is_index i (find_index hook_map (stripped_lower (lower (prefix_text p ++ name))))

all_hit : ℕ → Text → Bool
all_hit i name =
    hits i name bare && hits i name at && hits i name init_hook && hits i name init_hook_at

-- The short form of a name is without `After`, which the one of `Shutdown` has taken.
is_short : Text → Bool
is_short name = begins_with_a name && not (text_eq name (codes "AfterShutdown"))

row_hits : ℕ → Text → Bool
row_hits i name = all_hit i name && (not (is_short name) || all_hit i (drop 5 name))

rows_hit : ℕ → List (Text × Hook) → Bool
rows_hit i [] = true
rows_hit i ((name, h) ∷ rows) = row_hits i name && rows_hit (i + 1) rows

table_hits : rows_hit 0 hook_map ≡ true
unfolding rows_hit row_hits is_short all_hit hits find_index row_lower stripped_lower strip_lower
table_hits = refl

rows_hit-row :
    (k : ℕ) (rows : List (Text × Hook)) (i m : ℕ) (name : Text) (h : Hook)
    → m ≡ k + i
    → rows_hit k rows ≡ true
    → get_elem? rows i ≡ some (name, h)
    → row_hits m name ≡ true
unfolding rows_hit
rows_hit-row k [] i m name h e t g = ground (arith, g)
rows_hit-row k ((n, a) ∷ rows) zero m name h e t g =
    subst (λ x. row_hits m x ≡ true) (ap (λ r. r.0) (some-injective (n, a) (name, h) g))
      (subst (λ x. row_hits x n ≡ true) (omega arith)
        (and-left (row_hits k n) (rows_hit (k + 1) rows) t))
rows_hit-row k ((n, a) ∷ rows) (suc i) m name h e t g =
    rows_hit-row (k + 1) rows i m name h (omega arith)
      (and-right (row_hits k n) (rows_hit (k + 1) rows) t) g

all_hit-hits : (i : ℕ) (name : Text) (p : Prefix) → all_hit i name ≡ true → hits i name p ≡ true
unfolding all_hit
all_hit-hits i name bare h = ground (arith, h)
all_hit-hits i name at h = ground (arith, h)
all_hit-hits i name init_hook h = ground (arith, h)
all_hit-hits i name init_hook_at h = ground (arith, h)

row_hits-full : (i : ℕ) (name : Text) → row_hits i name ≡ true → all_hit i name ≡ true
unfolding row_hits
row_hits-full i name h = and-left (all_hit i name) _ h

row_hits-short :
    (i : ℕ) (name : Text)
    → begins_with_a name ≡ true
    → name ≢ codes "AfterShutdown"
    → row_hits i name ≡ true
    → all_hit i (drop 5 name) ≡ true
unfolding row_hits is_short
row_hits-short i name a n h = elim (Bool-cases (text_eq name (codes "AfterShutdown"))) [
  | inl e ↦ absurd (n (text_eq→≡ name (codes "AfterShutdown") e))
  | inr e ↦ ground (arith, and-right (all_hit i name) _ h, a, e)
]

hits-find :
    (i : ℕ) (name : Text) (p : Prefix)
    → hits i name p ≡ true
    → find_lower hook_map (stripped_lower (lower (prefix_text p ++ name)))
      ≡ hook_of (get_elem? hook_map i)
unfolding hits
hits-find i name p h =
    let l = stripped_lower (lower (prefix_text p ++ name)) in
    find_index-found hook_map l i (is_index-some i (find_index hook_map l) h)

-- A text spells a name if it is a prefix and the name, in any case.
abbrev pub Spells : Text → Prefix → Text → Type 0
Spells t p name = lower t ≡ lower (prefix_text p ++ name)

module _ (names : Names) (hooks : Hook → ℕ) where
  hook_number :
      (t : Text)
      → hook_name_to_number names hooks (some t)
        ≡ number_of hooks (find_lower hook_map (stripped_lower (lower t)))
  unfolding hook_name_to_number
  hook_number t = ap (number_of hooks) (hook_found names t)

  number_of_spelled :
      (i : ℕ) (name row : Text) (h : Hook) (p : Prefix) (t : Text)
      → all_hit i name ≡ true
      → get_elem? hook_map i ≡ some (row, h)
      → Spells t p name
      → hook_name_to_number names hooks (some t) ≡ some (hooks h)
  number_of_spelled i name row h p t a g e =
      hook_number t
      ∙ ap (λ l. number_of hooks (find_lower hook_map (stripped_lower l))) e
      ∙ ap (number_of hooks) (hits-find i name p (all_hit-hits i name p a) ∙ ap hook_of g)

  -- For any comparison without case and any numbers of the hooks: a name of the table is accepted in
  -- upper or lower case, behind `initHook`, `At`, both or neither, and leads to the number of its row.
  -- So is, except for `AfterShutdown`, a name of the table that begins with `After` without this word.
  pub hook_name_to_number-accepts :
      (i : ℕ) (name : Text) (h : Hook) (p : Prefix) (t : Text)
      → get_elem? hook_map i ≡ some (name, h)
      → (Spells t p name → hook_name_to_number names hooks (some t) ≡ some (hooks h))
        × (begins_with_a name ≡ true
            → name ≢ codes "AfterShutdown"
            → Spells t p (drop 5 name)
            → hook_name_to_number names hooks (some t) ≡ some (hooks h))
  hook_name_to_number-accepts i name h p t g =
      let hit : row_hits i name ≡ true =
        rows_hit-row 0 hook_map i i name h (omega arith) table_hits g in
      (
        number_of_spelled i name name h p t (row_hits-full i name hit) g,
        λ a n. number_of_spelled i (drop 5 name) name h p t (row_hits-short i name a n hit) g,
      )
