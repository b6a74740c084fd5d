-- ===== src/AfterInit/Chain.antt =====
-- The linked list in the heap: its invariant, what it holds, and how a new item changes that.
use iocsh_utilities.Base.{
  ℕ, ◌+◌, ◌<◌, ◌≡◌, ◌≢◌, refl, sym, ap, ap₂, Option, none, some, List, [], ◌∷◌, ◌++◌, map, length,
  length-append, arith,
}
use mathlib.Core.Path.{subst}
use iocsh_utilities.AfterInit.{
  Command, unset, Item, Slot, head, next_of, State, set_item, write_slot, first_slot, push_front,
  push_back,
}

-- The addresses of the items from a pointer on.
abbrev pub Segment : (ℕ → Item) → Option ℕ → List ℕ → Type 0
Segment heap p [] = p ≡ none
Segment heap p (a ∷ xs) = (p ≡ some a) × Segment heap (heap a).next xs

abbrev pub Apart : ℕ → List ℕ → Type 0
Apart a [] = Unit {0}
Apart a (b ∷ bs) = (a ≢ b) × Apart a bs

abbrev pub Distinct : List ℕ → Type 0
Distinct [] = Unit {0}
Distinct (a ∷ xs) = Apart a xs × Distinct xs

abbrev pub Below : ℕ → List ℕ → Type 0
Below n [] = Unit {0}
Below n (a ∷ xs) = (a < n) × Below n xs

abbrev pub last_of : ℕ → List ℕ → ℕ
last_of a [] = a
last_of a (b ∷ bs) = last_of b bs

abbrev pub last_slot : List ℕ → Slot
last_slot [] = head
last_slot (a ∷ xs) = next_of (last_of a xs)

-- `cmdlist` leads through the items at `xs`, which are all there are, and `cmdlast` points to the
-- NULL at their end.
pub record Inv (s : State) (xs : List ℕ) : Type 0 where
  pub linked : Segment s.heap s.cmdlist xs
  pub distinct : Distinct xs
  pub below : Below s.fresh xs
  pub count : length xs ≡ s.fresh
  pub last : s.cmdlast ≡ last_slot xs

abbrev pub Entry : Type 0
Entry = ℕ × Command

abbrev pub view : (ℕ → Item) → List ℕ → List Entry
view heap = map (λ a. ((heap a).when, (heap a).command))

pub Below→Apart : (n : ℕ) (xs : List ℕ) → Below n xs → Apart n xs
Below→Apart n [] h = tt
Below→Apart n (a ∷ xs) (lt, h) = (λ e. omega arith, Below→Apart n xs h)

Below-suc : (n : ℕ) (xs : List ℕ) → Below n xs → Below (n + 1) xs
Below-suc n [] h = tt
Below-suc n (a ∷ xs) (lt, h) = (omega arith, Below-suc n xs h)

Below-append : {n : ℕ} (xs : List ℕ) (a : ℕ) → Below n xs → a < n → Below n (xs ++ (a ∷ []))
Below-append [] a h lt = (lt, tt)
Below-append (b ∷ xs) a (k, h) lt = (k, Below-append xs a h lt)

Apart-append : (b : ℕ) (xs : List ℕ) (a : ℕ) → Apart b xs → b ≢ a → Apart b (xs ++ (a ∷ []))
Apart-append b [] a h n = (n, tt)
Apart-append b (c ∷ xs) a (k, h) n = (k, Apart-append b xs a h n)

Distinct-append : (xs : List ℕ) (a : ℕ) → Distinct xs → Apart a xs → Distinct (xs ++ (a ∷ []))
Distinct-append [] a d h = (tt, tt)
Distinct-append (b ∷ xs) a (k, d) (n, h) =
    (Apart-append b xs a k (λ e. n (sym e)), Distinct-append xs a d h)

pub Apart-last : (a b : ℕ) (bs : List ℕ) → Apart a (b ∷ bs) → a ≢ last_of b bs
Apart-last a b [] (n, h) = n
Apart-last a b (c ∷ bs) (n, h) = Apart-last a c bs h

last_of-append : (b : ℕ) (bs : List ℕ) (a : ℕ) → last_of b (bs ++ (a ∷ [])) ≡ a
last_of-append b [] a = refl
last_of-append b (c ∷ bs) a = last_of-append c bs a

last_slot-append : (xs : List ℕ) (a : ℕ) → last_slot (xs ++ (a ∷ [])) ≡ next_of a
last_slot-append [] a = refl
last_slot-append (b ∷ xs) a = ap next_of (last_of-append b xs a)

pub set_item_self : (heap : ℕ → Item) (a : ℕ) (item : Item) → set_item heap a item a ≡ item
set_item_self heap a item = ground arith

pub set_item_ne :
    (heap : ℕ → Item) {a i : ℕ} (item : Item) → a ≢ i → set_item heap a item i ≡ heap i
set_item_ne heap {a} {i} item n = ground arith

-- An item that is not in the list may change.
Segment-set :
    (heap : ℕ → Item) (x : ℕ) (item : Item) (p : Option ℕ) (xs : List ℕ)
    → Apart x xs
    → Segment heap p xs
    → Segment (set_item heap x item) p xs
Segment-set heap x item p [] n h = h
Segment-set heap x item p (a ∷ xs) (n, ns) (e, h) =
    (e, rw (set_item_ne heap item n) (Segment-set heap x item (heap a).next xs ns h))

view-set :
    (heap : ℕ → Item) (x : ℕ) (item : Item) (xs : List ℕ)
    → Apart x xs
    → view (set_item heap x item) xs ≡ view heap xs
view-set heap x item [] n = refl
view-set heap x item (a ∷ xs) (n, ns) =
    ap₂ ◌∷◌ (ap (λ i. (i.when, i.command)) (set_item_ne heap item n)) (view-set heap x item xs ns)

-- Only the pointers of a list make a segment, and only the other fields its view.
pub Segment-next :
    (h k : ℕ → Item) (p : Option ℕ) (xs : List ℕ)
    → ((i : ℕ) → (k i).next ≡ (h i).next)
    → Segment h p xs
    → Segment k p xs
Segment-next h k p [] e s = s
Segment-next h k p (a ∷ xs) e (q, s) = (q, rw (e a) (Segment-next h k (h a).next xs e s))

-- A new last item: the pointer of the old last one leads to it.
Segment-extend :
    (heap : ℕ → Item) (p : Option ℕ) (b : ℕ) (bs : List ℕ) (x : ℕ)
    → Segment heap p (b ∷ bs)
    → Distinct (b ∷ bs)
    → Apart x (b ∷ bs)
    → (heap x).next ≡ none
    → Segment
        (set_item heap (last_of b bs) (record (heap (last_of b bs)) { next = some x }))
        p
        ((b ∷ bs) ++ (x ∷ []))
Segment-extend heap p b [] x (e, s) d (n, _) z = (
  e,
  (
    rw (set_item_self heap b (record (heap b) { next = some x })) refl,
    rw (set_item_ne heap (record (heap b) { next = some x }) (λ q. n (sym q))) z,
  ),
)
Segment-extend heap p b (c ∷ bs) x (e, s) (k, d) (n, ns) z = (
  e,
  rw
      (set_item_ne heap (record (heap (last_of c bs)) { next = some x })
        (λ q. Apart-last b c bs k (sym q)))
      (Segment-extend heap (heap b).next c bs x s d ns z),
)

module _ (when : ℕ) (s : State) where
  -- The item as it is linked in, with the pointer that it gets.
  abbrev new_at : Option ℕ → Item
  new_at p = record { next = p; when = when; command = unset }

  abbrev with_item : State
  with_item = record s { heap = set_item s.heap s.fresh (new_at none); fresh = s.fresh + 1 }

  last-push_front :
      (xs : List ℕ)
      → Inv s xs
      → first_slot s.cmdlist s.fresh s.cmdlast ≡ next_of (last_of s.fresh xs)
  unfolding first_slot
  last-push_front [] v = ground (arith, v.linked)
  last-push_front (b ∷ bs) v = ground (arith, v.linked.0, v.last)

  pub Inv-push_front : (xs : List ℕ) → Inv s xs → Inv (push_front when s.fresh s) (s.fresh ∷ xs)
  unfolding push_front
  Inv-push_front xs v = record {
    linked = (
      refl,
      rw (set_item_self s.heap s.fresh (new_at s.cmdlist)) (
          Segment-set s.heap s.fresh (new_at s.cmdlist) s.cmdlist xs
            (Below→Apart s.fresh xs v.below) v.linked),
    );
    distinct = (Below→Apart s.fresh xs v.below, v.distinct);
    below = (omega arith, Below-suc s.fresh xs v.below);
    count = omega arith;
    last = last-push_front xs v;
  }

  push_back_at : Slot → State
  push_back_at slot = record (write_slot slot s.fresh with_item) { cmdlast = next_of s.fresh }

  Inv-push_back_at :
      (xs : List ℕ) → Inv s xs → Inv (push_back_at (last_slot xs)) (xs ++ (s.fresh ∷ []))
  unfolding push_back_at write_slot
  Inv-push_back_at [] v = record {
    linked = (refl, rw (set_item_self s.heap s.fresh (new_at none)) refl);
    distinct = (tt, tt);
    below = (omega arith, tt);
    count = omega arith;
    last = refl;
  }
  Inv-push_back_at (b ∷ bs) v =
      let apart = Below→Apart s.fresh (b ∷ bs) v.below in
      record {
        linked =
            Segment-extend with_item.heap s.cmdlist b bs s.fresh
              (Segment-set s.heap s.fresh (new_at none) s.cmdlist (b ∷ bs) apart v.linked)
              v.distinct apart (rw (set_item_self s.heap s.fresh (new_at none)) refl);
        distinct = Distinct-append (b ∷ bs) s.fresh v.distinct apart;
        below = Below-append (b ∷ bs) s.fresh (Below-suc s.fresh (b ∷ bs) v.below) (omega arith);
        count = omega (arith, length-append bs (s.fresh ∷ []));
        last = sym (last_slot-append (b ∷ bs) s.fresh);
      }

  pub Inv-push_back :
      (xs : List ℕ) → Inv s xs → Inv (push_back when s.fresh s) (xs ++ (s.fresh ∷ []))
  unfolding push_back push_back_at
  Inv-push_back xs v =
      subst (λ slot. Inv (push_back_at slot) (xs ++ (s.fresh ∷ []))) (sym v.last)
        (Inv-push_back_at xs v)
