-- ===== src/AfterInit/View.antt =====
-- The list of commands that a state holds, and what a registration makes of it.
use iocsh_utilities.Base.{
  ℕ, ◌+◌, if◌then◌else◌, ◌≡◌, ◌≢◌, refl, ◌∙◌, ap, ap₂, true, false, none, List, [], ◌∷◌, ◌++◌,
  map-append, arith, Bool-cases, inl, inr,
}
use iocsh_utilities.AfterInit.Hooks.{Hook}
use iocsh_utilities.AfterInit.{
  Command, unset, Item, head, next_of, Slot, State, set_item, write_slot, push_front, push_back,
  register_hook, is_reversed, link_item, fill_item,
}
use iocsh_utilities.AfterInit.Chain.{
  Apart, Inv, Entry, view, Segment-next, Below→Apart, Inv-push_front, Inv-push_back,
}

-- The state's list holds these commands, each with its hook.
pub record Holds (s : State) (entries : List Entry) : Type 0 where
  pub items : List ℕ
  pub inv : Inv s items
  pub seen : view s.heap items ≡ entries

view-keep :
    (h k : ℕ → Item) (x : ℕ) (xs : List ℕ)
    → Apart x xs
    → ((i : ℕ) → x ≢ i → ((k i).when ≡ (h i).when) × ((k i).command ≡ (h i).command))
    → view k xs ≡ view h xs
view-keep h k x [] n e = refl
view-keep h k x (a ∷ xs) (n, ns) e =
    ap₂ ◌∷◌ (ap₂ (λ w c. (w, c)) (e a n).0 (e a n).1) (view-keep h k x xs ns e)

Inv-fill : (a : ℕ) (c : Command) (s : State) (xs : List ℕ) → Inv s xs → Inv (fill_item a c s) xs
unfolding fill_item
Inv-fill a c s xs v = record {
  linked = Segment-next s.heap (fill_item a c s).heap s.cmdlist xs (λ i. ground arith) v.linked;
  distinct = v.distinct;
  below = v.below;
  count = v.count;
  last = v.last;
}

write_slot-keeps :
    (slot : Slot) (a : ℕ) (t : State) (i : ℕ)
    → (((write_slot slot a t).heap i).when ≡ (t.heap i).when)
      × (((write_slot slot a t).heap i).command ≡ (t.heap i).command)
unfolding write_slot
write_slot-keeps head a t i = (refl, refl)
write_slot-keeps (next_of b) a t i = (ground arith, ground arith)

module _ (when : ℕ) (c : Command) (s : State) where
  abbrev filled : State → ℕ → Item
  filled t = (fill_item s.fresh c t).heap

  view-push_front :
      (xs : List ℕ)
      → Inv s xs
      → view (filled (push_front when s.fresh s)) (s.fresh ∷ xs) ≡ (when, c) ∷ view s.heap xs
  unfolding push_front fill_item
  view-push_front xs v = ap₂ ◌∷◌ (ground arith) (
      view-keep s.heap (filled (push_front when s.fresh s)) s.fresh xs
        (Below→Apart s.fresh xs v.below) (λ i n. (ground arith, ground arith)))

  -- The entries as they stand before the old last item is made to lead to the new one.
  abbrev linked : State
  linked = record s {
    heap = set_item s.heap s.fresh (record { next = none; when = when; command = unset });
    fresh = s.fresh + 1;
  }

  push_back-keeps :
      (i : ℕ)
      → s.fresh ≢ i
      → ((filled (push_back when s.fresh s) i).when ≡ (s.heap i).when)
        × ((filled (push_back when s.fresh s) i).command ≡ (s.heap i).command)
  unfolding push_back fill_item
  push_back-keeps i n =
      let (w, k) = write_slot-keeps s.cmdlast s.fresh linked i in
      (ground (arith, w), ground (arith, k))

  push_back-new :
      ((filled (push_back when s.fresh s) s.fresh).when ≡ when)
      × ((filled (push_back when s.fresh s) s.fresh).command ≡ c)
  unfolding push_back fill_item
  push_back-new =
      (ground (arith, (write_slot-keeps s.cmdlast s.fresh linked s.fresh).0), ground arith)

  view-push_back :
      (xs : List ℕ)
      → Inv s xs
      → view (filled (push_back when s.fresh s)) (xs ++ (s.fresh ∷ []))
        ≡ view s.heap xs ++ ((when, c) ∷ [])
  view-push_back xs v =
      let (w, k) = push_back-new in
      map-append _ xs (s.fresh ∷ [])
      ∙ ap₂ ◌++◌
          (view-keep s.heap (filled (push_back when s.fresh s)) s.fresh xs
            (Below→Apart s.fresh xs v.below) push_back-keeps)
          (ap (λ e. e ∷ []) (ap₂ (λ x y. (x, y)) w k))

-- Where a command for a hook is put: behind the others, or before them for the hooks of a shutdown.
abbrev pub place : (Hook → ℕ) → ℕ → Command → List Entry → List Entry
place hooks when c entries =
    if is_reversed hooks when then (when, c) ∷ entries else entries ++ ((when, c) ∷ [])

pub Holds-register :
    (s : State) (entries : List Entry) → Holds s entries → Holds (register_hook s) entries
unfolding register_hook
Holds-register s entries h =
    elim s.first_time
      as (λ b.
        Holds (if b then record s { first_time = false; registered = s.registered + 1 } else s)
          entries) [
            | true ↦ record {
              items = h.items;
              inv = record {
                linked = h.inv.linked;
                distinct = h.inv.distinct;
                below = h.inv.below;
                count = h.inv.count;
                last = h.inv.last;
              };
              seen = h.seen;
            }
            | false ↦ h
          ]

module _ (hooks : Hook → ℕ) where
  pub Holds-link :
      (when : ℕ) (c : Command) (s : State) (entries : List Entry)
      → Holds s entries
      → Holds (fill_item s.fresh c (link_item hooks when s.fresh s)) (place hooks when c entries)
  unfolding link_item
  Holds-link when c s entries h = elim (Bool-cases (is_reversed hooks when)) [
    | inl r ↦ rw r (record {
      items = s.fresh ∷ h.items;
      inv =
          Inv-fill s.fresh c (push_front when s.fresh s) (s.fresh ∷ h.items)
            (Inv-push_front when s h.items h.inv);
      seen = view-push_front when c s h.items h.inv ∙ ap (λ es. (when, c) ∷ es) h.seen;
    })
    | inr r ↦ rw r (record {
      items = h.items ++ (s.fresh ∷ []);
      inv =
          Inv-fill s.fresh c (push_back when s.fresh s) (h.items ++ (s.fresh ∷ []))
            (Inv-push_back when s h.items h.inv);
      seen = view-push_back when c s h.items h.inv ∙ ap (λ es. es ++ ((when, c) ∷ [])) h.seen;
    })
  ]
