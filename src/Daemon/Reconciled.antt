-- ===== src/Daemon/Reconciled.antt =====
-- What the daemon's index is to the store's list of items.
use oma_seal.Prelude.{
  found_absent, or_left, or_right, or_other, ◌≡◌, refl, sym, ap, ◌∙◌, subst, inl, inr, true, false,
  Option, none, some, List, [], ◌∷◌, ◌++◌, map, if◌then◌else◌, Bool-cases, or-eq-true, ◌==◌, eq_iff,
  eq_refl, nat_eq, bytes_eq, any, Map, lookup, insert, if-true, if-false, some_injective,
}
use oma_seal.Bytes.{Bytes}
use oma_seal.Errors.{Result, ok}
use oma_seal.Native.Crypto.{Age}
use oma_seal.Native.Items.{Item, list}
use oma_seal.Native.Key.{native_key}
use oma_seal.Daemon.{SvcItem, SvcDaemon, SvcWorld}
use oma_seal.Daemon.Items.{
  bus_ok, new_row, folded_row, fold_rows, path_of, sweep, reconcile_with, reconcile,
}
use oma_seal.Daemon.Rows.{Answer, create_item, create_at, create_reconciled}
use oma_seal.Daemon.Refined.{
  SameOwned, Refined, SameOwned-refl, SameOwned-then, lookup-sweep, fold_step, folded-SameOwned,
}

module _ (digest : Bytes → Bytes) where
  -- what the items of a list make of the row at a path
  unfoldable folded_at : Bytes → List Item → Option SvcItem → Option SvcItem
  folded_at path [] o = o
  folded_at path (it ∷ items) o =
      let rest = folded_at path items (some (folded_row it o)) in
      let rest' = folded_at path items o in if path_of digest it == path then rest else rest'

  lookup-fold_rows :
      (path : Bytes) (items : List Item) (index : Map Bytes SvcItem)
      → lookup path (fold_rows digest items index) ≡ folded_at path items (lookup path index)
  unfolding fold_rows folded_at
  lookup-fold_rows path [] index = refl
  lookup-fold_rows path (it ∷ items) index =
      lookup-fold_rows path items
        (insert (path_of digest it) (folded_row it (lookup (path_of digest it) index)) index)
      ∙ fold_step path (path_of digest it) (folded_row it) (folded_at path items) index

  folded-keeps :
      (path : Bytes) (items : List Item) (old row : SvcItem)
      → folded_at path items (some old) ≡ some row
      → SameOwned old row
  unfolding folded_at
  folded-keeps path [] old row h =
      subst (λ (r : SvcItem). SameOwned old r) (some_injective old row h) (SameOwned-refl old)
  folded-keeps path (it ∷ items) old row h = elim (Bool-cases (path_of digest it == path)) [
    | inl e ↦
        SameOwned-then old (folded_row it (some old)) row (folded-SameOwned it old)
          (folded-keeps path items (folded_row it (some old)) row (sym (if-true _ e) ∙ h))
    | inr e ↦ folded-keeps path items old row (sym (if-false _ e) ∙ h)
  ]

  folded_some :
      (path : Bytes) (items : List Item) (old : SvcItem)
      → (row : SvcItem) × (folded_at path items (some old) ≡ some row)
  unfolding folded_at
  folded_some path [] old = (old, refl)
  folded_some path (it ∷ items) old = elim (Bool-cases (path_of digest it == path)) [
    | inl e ↦
        let (row, at) = folded_some path items (folded_row it (some old)) in (row, if-true _ e ∙ at)
    | inr e ↦ let (row, at) = folded_some path items old in (row, if-false _ e ∙ at)
  ]

  folded_found :
      (path : Bytes) (items : List Item) (o : Option SvcItem)
      → any (λ p. p == path) (map (path_of digest) items) ≡ true
      → (row : SvcItem) × (folded_at path items o ≡ some row)
  unfolding folded_at any
  folded_found path [] o h = cc
  folded_found path (it ∷ items) o h = elim (Bool-cases (path_of digest it == path)) [
    | inl e ↦ let (row, at) = folded_some path items (folded_row it o) in (row, if-true _ e ∙ at)
    | inr e ↦
        let (row, at) = folded_found path items o (or_other _ _ h e) in (row, if-false _ e ∙ at)
  ]

  -- The rows of a path that the index did not have are those of an item.
  folded-seeds :
      (path : Bytes) (items : List Item) (row : SvcItem)
      → folded_at path items none ≡ some row
      → (it : Item) × (before : List Item) × (after : List Item) × (items ≡ before ++ it ∷ after)
        × (path_of digest it ≡ path)
        × SameOwned (new_row it) row
  unfolding folded_at
  folded-seeds path [] row h = cc
  folded-seeds path (it ∷ items) row h = elim (Bool-cases (path_of digest it == path)) [
    | inl e ↦ (
      it,
      [],
      items,
      refl,
      (eq_iff (path_of digest it) path).0 e,
      folded-keeps path items (new_row it) row (sym (if-true _ e) ∙ h),
    )
    | inr e ↦
        let (found, before, after, split, at, same) =
          folded-seeds path items row (sym (if-false _ e) ∙ h) in
        (found, it ∷ before, after, ap (λ rest. it ∷ rest) split, at, same)
  ]

  -- a path of the list is that of one of the items
  listed_item :
      (path : Bytes) (items : List Item)
      → any (λ p. p == path) (map (path_of digest) items) ≡ true
      → (it : Item) × (before : List Item) × (after : List Item) × (items ≡ before ++ it ∷ after)
        × (path_of digest it ≡ path)
  unfolding any
  listed_item path [] h = cc
  listed_item path (it ∷ items) h = elim (or-eq-true (path_of digest it == path) _ h) [
    | inl e ↦ (it, [], items, refl, (eq_iff (path_of digest it) path).0 e)
    | inr e ↦
        let (found, before, after, split, at) = listed_item path items e in
        (found, it ∷ before, after, ap (λ rest. it ∷ rest) split, at)
  ]

  paths-middle :
      (before after : List Item) (it : Item)
      → any (λ p. p == path_of digest it) (map (path_of digest) (before ++ it ∷ after)) ≡ true
  unfolding any
  paths-middle [] after it = or_left _ _ (eq_refl (path_of digest it))
  paths-middle (other ∷ before) after it =
      or_right (path_of digest other == path_of digest it) _ (paths-middle before after it)

  abbrev up_to_date : List Item → Map Bytes SvcItem → Map Bytes SvcItem
  up_to_date items old = sweep (map (path_of digest) items) (fold_rows digest items old)

  lookup-up_to_date :
      (path : Bytes) (items : List Item) (old : Map Bytes SvcItem)
      → lookup path (up_to_date items old) ≡ (
          if any (λ p. p == path) (map (path_of digest) items)
          then folded_at path items (lookup path old)
          else none)
  lookup-up_to_date path items old =
      lookup-sweep path (map (path_of digest) items) (fold_rows digest items old)
      ∙ ap
          (λ (o : Option SvcItem).
            if any (λ p. p == path) (map (path_of digest) items) then o else none)
          (lookup-fold_rows path items old)

  row_there :
      (path : Bytes) (items : List Item) (old : Map Bytes SvcItem) (row : SvcItem)
      → lookup path (up_to_date items old) ≡ some row
      → (any (λ p. p == path) (map (path_of digest) items) ≡ true)
        × (folded_at path items (lookup path old) ≡ some row)
  row_there path items old row h =
      elim (Bool-cases (any (λ p. p == path) (map (path_of digest) items))) [
        | inl e ↦ (e, sym (lookup-up_to_date path items old ∙ if-true none e) ∙ h)
        | inr e ↦
            absurd (found_absent row (sym (lookup-up_to_date path items old ∙ if-false _ e) ∙ h))
      ]

  row_of_listed :
      (path : Bytes) (items : List Item) (old : Map Bytes SvcItem)
      → any (λ p. p == path) (map (path_of digest) items) ≡ true
      → (row : SvcItem) × (lookup path (up_to_date items old) ≡ some row)
  row_of_listed path items old e =
      let (row, at) = folded_found path items (lookup path old) e in
      (row, lookup-up_to_date path items old ∙ if-true none e ∙ at)

  is_listed :
      (items before after : List Item) (it : Item)
      → items ≡ before ++ it ∷ after
      → any (λ p. p == path_of digest it) (map (path_of digest) items) ≡ true
  is_listed items before after it split =
      subst (λ its. any (λ p. p == path_of digest it) (map (path_of digest) its) ≡ true) (sym split)
        (paths-middle before after it)

  up_to_date-Refined :
      (items : List Item) (old : Map Bytes SvcItem)
      → Refined digest items old (up_to_date items old)
  up_to_date-Refined items old = record {
    complete = λ it before after split.
        row_of_listed (path_of digest it) items old (is_listed items before after it split);
    sound = λ path row at. listed_item path items (row_there path items old row at).0;
    keeps = λ path row old_row at before. folded-keeps path items old_row row (
        subst (λ (o : Option SvcItem). folded_at path items o ≡ some row) before
          (row_there path items old row at).1);
    seeds = λ path row at before. folded-seeds path items row (
        subst (λ (o : Option SvcItem). folded_at path items o ≡ some row) before
          (row_there path items old row at).1);
  }

  -- If the store lists its items, the daemon takes them over: afterwards the index has exactly the paths
  -- of the listed items; the rows that it had keep their key, label, attributes, type and creation time,
  -- and are never dated back; the rows that it lacked are those that it makes of an item.
  pub reconcile-Refined :
      {age : Age} (w : SvcWorld age) (d : SvcDaemon age) (items : List Item)
      → (list w.native [] d.store).0 ≡ ok items
      → ((reconcile digest w d).0 ≡ ok tt)
        × Refined digest items d.index (reconcile digest w d).1.index
  unfolding reconcile list
  reconcile-Refined w d items h =
      subst
        (λ (r : Result (List Item)).
          let after = reconcile_with digest r (record d { store = (list w.native [] d.store).1 }) in
          (after.0 ≡ ok tt) × Refined digest items d.index after.1.index)
        (sym h) (refl, up_to_date-Refined items d.index)

  exists_answer :
      {age : Age} (w : SvcWorld age) (path key svc acct secret : Bytes) (attrs : Map Bytes Bytes)
      (label item_type : Bytes) (row : SvcItem) (prev : Option SvcItem) (d : SvcDaemon age)
      → prev ≡ some row
      → create_at digest w path key svc acct secret attrs label item_type false prev d
        ≡ (bus_ok none, d)
  exists_answer w path key svc acct secret attrs label item_type row none d h = cc
  exists_answer w path key svc acct secret attrs label item_type row (some prev) d h = refl

  -- createItem without `replace` for a credential that the store lists, be it indexed or not, answers
  -- that the item is there, and does no more to the store than to list it.
  pub create_item_never_replaces :
      {age : Age} (w : SvcWorld age) (d : SvcDaemon age) (items before after : List Item)
      (it : Item) (secret : Bytes) (attrs : Map Bytes Bytes) (label item_type : Bytes)
      → (list w.native [] d.store).0 ≡ ok items
      → items ≡ before ++ it ∷ after
      → let created =
          create_item digest w
            (native_key it.service it.account)
            it.service
            it.account
            secret
            attrs
            label
            item_type
            false
            d in
        (created.0 ≡ bus_ok none) × (created.1.store ≡ (list w.native [] d.store).1)
  unfolding create_item reconcile list
  create_item_never_replaces {age} w d items before after it secret attrs label item_type h split =
      let key = native_key it.service it.account in
      let listed = (list w.native [] d.store).1 in
      let d' = record d { store = listed; index = up_to_date items d.index } in
      let (row, at) =
        row_of_listed (path_of digest it) items d.index (is_listed items before after it split) in
      let e =
        exists_answer w (path_of digest it) key it.service it.account secret attrs label item_type
          row (lookup (path_of digest it) d'.index) d' at in
      subst
        (λ (r : Result (List Item)).
          let created =
            create_reconciled digest w key it.service it.account secret attrs label item_type false
              (reconcile_with digest r (record d { store = listed })) in
          (created.0 ≡ bus_ok none) × (created.1.store ≡ listed))
        (sym h)
        (
          ap (λ (a : Answer (Option Bytes) age). a.0) e,
          ap (λ (a : Answer (Option Bytes) age). a.1.store) e,
        )
