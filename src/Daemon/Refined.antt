-- ===== src/Daemon/Refined.antt =====
-- engine/svcitems.go: an index that is up to date with the store's list.
use oma_seal.Prelude.{
  ◌≤◌, ◌≡◌, refl, ap, ◌∙◌, inl, inr, Option, none, some, List, [], ◌∷◌, ◌++◌, arith, ltb, ltb→lt,
  if◌then◌else◌, Bool-cases, ◌==◌, eq_iff, nat_eq, bytes_eq, any, Map, lookup, insert,
  lookup-insert, if_cases,
}
use oma_seal.Bytes.{Bytes}
use oma_seal.Native.Items.{Item}
use oma_seal.Daemon.{SvcItem}
use oma_seal.Daemon.Items.{new_row, folded_row, path_of, sweep}

-- the fields of a row that the index owns, and the time that the store may move on
pub record SameOwned (old new : SvcItem) : Type 0 where
  pub same_key : new.key ≡ old.key
  pub same_label : new.label ≡ old.label
  pub same_attrs : new.attrs ≡ old.attrs
  pub same_type : new.item_type ≡ old.item_type
  pub same_created : new.created ≡ old.created
  pub not_earlier : old.modified ≤ new.modified

-- An index that is up to date with the items of the store's list, and what has become of the old one.
pub record Refined (digest : Bytes → Bytes) (items : List Item) (old new : Map Bytes SvcItem)
    : Type 0 where
  pub complete :
      (it : Item) (before after : List Item)
      → items ≡ before ++ it ∷ after
      → (row : SvcItem) × (lookup (path_of digest it) new ≡ some row)
  pub sound :
      (path : Bytes) (row : SvcItem)
      → lookup path new ≡ some row
      → (it : Item) × (before : List Item) × (after : List Item) × (items ≡ before ++ it ∷ after)
        × (path_of digest it ≡ path)
  pub keeps :
      (path : Bytes) (row old_row : SvcItem)
      → lookup path new ≡ some row
      → lookup path old ≡ some old_row
      → SameOwned old_row row
  pub seeds :
      (path : Bytes) (row : SvcItem)
      → lookup path new ≡ some row
      → lookup path old ≡ none
      → (it : Item) × (before : List Item) × (after : List Item) × (items ≡ before ++ it ∷ after)
        × (path_of digest it ≡ path)
        × SameOwned (new_row it) row

pub SameOwned-refl : (row : SvcItem) → SameOwned row row
SameOwned-refl row = record {
  same_key = refl;
  same_label = refl;
  same_attrs = refl;
  same_type = refl;
  same_created = refl;
  not_earlier = omega arith;
}

pub SameOwned-then : (a b c : SvcItem) → SameOwned a b → SameOwned b c → SameOwned a c
SameOwned-then a b c ab bc = record {
  same_key = bc.same_key ∙ ab.same_key;
  same_label = bc.same_label ∙ ab.same_label;
  same_attrs = bc.same_attrs ∙ ab.same_attrs;
  same_type = bc.same_type ∙ ab.same_type;
  same_created = bc.same_created ∙ ab.same_created;
  not_earlier = omega (arith, ab.not_earlier, bc.not_earlier);
}

pub lookup-sweep :
    (path : Bytes) (seen : List Bytes) (index : Map Bytes SvcItem)
    → lookup path (sweep seen index)
      ≡ (if any (λ p. p == path) seen then lookup path index else none)
unfolding lookup sweep
lookup-sweep path seen [] = ground arith
lookup-sweep path seen ((other, row) ∷ index) =
    ground (arith, eq_iff other path, lookup-sweep path seen index)

pub fold_step :
    (path i : Bytes) (g : Option SvcItem → SvcItem) (f : Option SvcItem → Option SvcItem)
    (index : Map Bytes SvcItem)
    → f (lookup path (insert i (g (lookup i index)) index))
      ≡ (if i == path then f (some (g (lookup path index))) else f (lookup path index))
fold_step path i g f index = elim (Bool-cases (i == path)) [
  | inl e ↦
      rw (lookup-insert path i (g (lookup i index)) index, e)
        (ap (λ j. f (some (g (lookup j index)))) ((eq_iff i path).0 e))
  | inr e ↦ rw (lookup-insert path i (g (lookup i index)) index, e) refl
]

pub folded-SameOwned : (it : Item) (row : SvcItem) → SameOwned row (folded_row it (some row))
folded-SameOwned it row =
    if_cases (λ (r : SvcItem). SameOwned row r) (ltb row.modified it.updated_at)
      (record row { modified = it.updated_at }) row
      (λ e. record {
        same_key = refl;
        same_label = refl;
        same_attrs = refl;
        same_type = refl;
        same_created = refl;
        not_earlier = omega (arith, ltb→lt row.modified it.updated_at e);
      })
      (λ e. SameOwned-refl row)
