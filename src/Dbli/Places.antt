-- ===== src/Dbli/Places.antt =====
-- Where a database entry of EPICS base stands, for the loops of dbli.c.
use iocsh_utilities.Base.{
  ℕ, zero, suc, ◌≤◌, ◌<◌, if◌then◌else◌, ◌≡◌, refl, sym, ◌∙◌, ap, Bool, true, false, List, [], ◌∷◌,
  ◌++◌, length, arith,
}
use mathlib.Core.Path.{subst}
use iocsh_utilities.Dbli.{Info, Entry, Found, at, stopped, find_record, to_record}

abbrev pub concat {ℓ} : {A : Type ℓ} → List (List A) → List A
concat [] = []
concat (xs ∷ xss) = xs ++ concat xss

abbrev pub head_or_empty {ℓ} : {A : Type ℓ} → List (List A) → List A
head_or_empty [] = []
head_or_empty (x ∷ xs) = x

abbrev pub tail {ℓ} : {A : Type ℓ} → List A → List A
tail [] = []
tail (x ∷ xs) = xs

abbrev pub has_some {ℓ} : {A : Type ℓ} → List A → Bool
has_some [] = false
has_some (x ∷ xs) = true

-- A record is the list of its items here. `types`, `records` and `infos` are what stands behind the
-- current one, `of_type` and `of_record` the contents of the current one.
pub record View : Type 0 where
  pub has_type : Bool
  pub types : List (List (List Info))
  pub of_type : List (List Info)
  pub records : List (List Info)
  pub of_record : List Info
  pub infos : List Info

abbrev pub in_type : List (List (List Info)) → View
in_type types = record {
  has_type = has_some types;
  types = tail types;
  of_type = head_or_empty types;
  records = [];
  of_record = [];
  infos = [];
}

abbrev pub in_record : List (List Info) → View → View
in_record records v = record {
  has_type = v.has_type;
  types = v.types;
  of_type = v.of_type;
  records = tail records;
  of_record = head_or_empty records;
  infos = [];
}

abbrev pub at_info : List Info → View → View
at_info infos v = record {
  has_type = v.has_type;
  types = v.types;
  of_type = v.of_type;
  records = v.records;
  of_record = v.of_record;
  infos = tail infos;
}

-- What EPICS base documents of an entry on the database `db`: the functions for the first of some go
-- into the current type or record; those for the next go on from the current one, and fail if there is
-- none behind it, or no current one.
pub record EntryLaws (entry : Entry) (db : List (List (List Info))) : Type 0 where
  pub view : entry.State → View
  pub has_type-view : (e : entry.State) → entry.has_record_type e ≡ (view e).has_type
  pub first_type-ok : (e : entry.State) → (entry.first_record_type e).0 ≡ has_some db
  pub first_type-view : (e : entry.State) → view (entry.first_record_type e).1 ≡ in_type db
  pub next_type-ok : (e : entry.State) → (entry.next_record_type e).0 ≡ has_some (view e).types
  pub next_type-view :
      (e : entry.State) → view (entry.next_record_type e).1 ≡ in_type (view e).types
  pub first_record-ok : (e : entry.State) → (entry.first_record e).0 ≡ has_some (view e).of_type
  pub first_record-view :
      (e : entry.State) → view (entry.first_record e).1 ≡ in_record (view e).of_type (view e)
  pub next_record-ok : (e : entry.State) → (entry.next_record e).0 ≡ has_some (view e).records
  pub next_record-view :
      (e : entry.State) → view (entry.next_record e).1 ≡ in_record (view e).records (view e)
  pub first_info-ok : (e : entry.State) → (entry.first_info e).0 ≡ has_some (view e).of_record
  pub first_info-view :
      (e : entry.State) → view (entry.first_info e).1 ≡ at_info (view e).of_record (view e)
  pub first_info-info :
      (e : entry.State) (i : Info) (is : List Info)
      → (view e).of_record ≡ i ∷ is
      → entry.info (entry.first_info e).1 ≡ i
  pub next_info-ok : (e : entry.State) → (entry.next_info e).0 ≡ has_some (view e).infos
  pub next_info-view :
      (e : entry.State) → view (entry.next_info e).1 ≡ at_info (view e).infos (view e)
  pub next_info-info :
      (e : entry.State) (i : Info) (is : List Info)
      → (view e).infos ≡ i ∷ is
      → entry.info (entry.next_info e).1 ≡ i

-- The records behind the current one, and the items behind the current one.
abbrev pub behind : View → List (List Info)
behind v = v.records ++ concat v.types

abbrev pub pending : View → List Info
pending v = v.infos ++ concat (behind v)

module _ (entry : Entry) (db : List (List (List Info))) (laws : EntryLaws entry db) where
  -- The loops that look for a record find the first of `records` or stop because there is none.
  pub data RecordFound (records : List (List Info)) (bound : ℕ) (o : Found entry.State)
      : Type 0 where
    no_record : o ≡ stopped → records ≡ [] → RecordFound records bound o
    a_record :
        (r : entry.State)
        → o ≡ at r
        → records ≡ (laws.view r).of_record ∷ behind (laws.view r)
        → length (laws.view r).types ≤ bound
        → (laws.view r).has_type ≡ true
        → RecordFound records bound o

  -- The entry in the type that `dbNextRecordType` finds, and at its first record.
  abbrev type_of : entry.State → entry.State
  type_of e = (entry.next_record_type e).1

  abbrev record_of : entry.State → entry.State
  record_of e = (entry.first_record (type_of e)).1

  record_of-view :
      (e : entry.State) (t : List (List Info)) (ts : List (List (List Info)))
      → (laws.view e).types ≡ t ∷ ts
      → laws.view (record_of e) ≡ in_record t (in_type (t ∷ ts))
  record_of-view e t ts h =
      let v : laws.view (type_of e) ≡ in_type (t ∷ ts) = laws.next_type-view e ∙ ap in_type h in
      laws.first_record-view (type_of e) ∙ ap (λ x. in_record x.of_type x) v

  find_record-step :
      (fuel : ℕ) (e : entry.State) (t : List (List Info)) (ts : List (List (List Info)))
      → (laws.view e).types ≡ t ∷ ts
      → find_record entry (suc fuel) e
        ≡ (if has_some t then at (record_of e) else find_record entry fuel (record_of e))
  unfolding find_record
  find_record-step fuel e t ts h =
      let v : laws.view (type_of e) ≡ in_type (t ∷ ts) = laws.next_type-view e ∙ ap in_type h in
      rw (laws.next_type-ok e, h, laws.first_record-ok (type_of e), v) refl

  find_record-end :
      (fuel : ℕ) (e : entry.State)
      → (laws.view e).types ≡ []
      → find_record entry (suc fuel) e ≡ stopped
  unfolding find_record
  find_record-end fuel e h = rw (laws.next_type-ok e, h) refl

  find_record-finds :
      (fuel : ℕ) (e : entry.State) (ts : List (List (List Info))) (bound : ℕ)
      → (laws.view e).types ≡ ts
      → length ts < fuel
      → length ts ≤ bound
      → RecordFound (concat ts) bound (find_record entry fuel e)
  find_record-finds zero e ts bound h l b = absurd (omega arith)
  find_record-finds (suc fuel) e [] bound h l b = no_record (find_record-end fuel e h) refl
  find_record-finds (suc fuel) e ([] ∷ ts) bound h l b =
      subst (RecordFound (concat ts) bound) (sym (find_record-step fuel e [] ts h)) (
        find_record-finds fuel (record_of e) ts bound (ap (λ v. v.types) (record_of-view e [] ts h))
          (omega arith) (omega arith))
  find_record-finds (suc fuel) e ((r ∷ rs) ∷ ts) bound h l b =
      let v = record_of-view e (r ∷ rs) ts h in
      a_record (record_of e) (find_record-step fuel e (r ∷ rs) ts h)
        (sym (ap (λ v. v.of_record ∷ behind v) v)) (omega (arith, ap (λ v. length v.types) v))
        (ap (λ v. v.has_type) v)

  to_record-at :
      (limit : ℕ) (e : entry.State) (rs : List (List Info))
      → (laws.view e).records ≡ rs
      → length (laws.view e).types < limit
      → (laws.view e).has_type ≡ true
      → RecordFound
          (rs ++ concat (laws.view e).types)
          (length (laws.view e).types)
          (to_record entry limit e)
  unfolding to_record
  to_record-at limit e [] h l t =
      let v : laws.view (entry.next_record e).1 ≡ in_record [] (laws.view e) =
        laws.next_record-view e ∙ ap (λ x. in_record x (laws.view e)) h in
      rw (to_record, laws.next_record-ok e, h)
        (find_record-finds limit (entry.next_record e).1 (laws.view e).types
          (length (laws.view e).types) (ap (λ v. v.types) v) l (omega arith))
  to_record-at limit e (r ∷ rs) h l t =
      let v : laws.view (entry.next_record e).1 ≡ in_record (r ∷ rs) (laws.view e) =
        laws.next_record-view e ∙ ap (λ x. in_record x (laws.view e)) h in
      a_record (entry.next_record e).1 (rw (to_record, laws.next_record-ok e, h) refl)
        (sym (ap (λ v. v.of_record ∷ behind v) v)) (omega (arith, ap (λ v. length v.types) v))
        (ap (λ v. v.has_type) v ∙ t)

  pub to_record-finds :
      (limit : ℕ) (e : entry.State)
      → length (laws.view e).types < limit
      → (laws.view e).has_type ≡ true
      → RecordFound (behind (laws.view e)) (length (laws.view e).types) (to_record entry limit e)
  to_record-finds limit e l t = to_record-at limit e (laws.view e).records refl l t
