-- ===== src/Migrate/Collapsed.antt =====
-- engine/backendmigrate.go: the keys that the source's items collapse to.
use oma_seal.Prelude.{
  ◌≡◌, refl, sym, ap, ◌∙◌, subst, inl, inr, Bool, true, false, ◌||◌, Option, none, some, List, [],
  ◌∷◌, ◌++◌, arith, Bool-cases, some_injective, or_left, or_right, ◌==◌, eq_iff, eq_refl, nat_eq,
  bytes_eq, any, Map, lookup, insert, lookup-insert, if-true, if-false, if_cases,
  lookup-insert_other,
}
use oma_seal.Bytes.{Bytes}
use oma_seal.Bytes.Sort.{sort_strings, map_keys, insert_sorted, bytes_leb}
use oma_seal.Native.Items.{Item, is_present}
use oma_seal.Migrate.{collapse, key_of, preferred, collapse_one}

-- Every entry is that of its item's key.
abbrev pub WellKeyed : Map Bytes Item → Type 0
WellKeyed by_key = (key : Bytes) (it : Item) → lookup key by_key ≡ some it → key_of it ≡ key

insert-WellKeyed :
    (it : Item) (by_key : Map Bytes Item)
    → WellKeyed by_key
    → WellKeyed (insert (key_of it) it by_key)
insert-WellKeyed it by_key w key other h = elim (Bool-cases (key_of it == key)) [
  | inl e ↦
      ap key_of
        (some_injective other it (sym h ∙ lookup-insert key (key_of it) it by_key ∙ if-true _ e))
      ∙ (eq_iff (key_of it) key).0 e
  | inr e ↦ w key other (sym (lookup-insert_other key (key_of it) it by_key e) ∙ h)
]

collapse_one-WellKeyed :
    (it : Item) (by_key : Map Bytes Item) → WellKeyed by_key → WellKeyed (collapse_one it by_key)
unfolding lookup insert
collapse_one-WellKeyed it by_key w =
    if_cases WellKeyed (it.service == [] || it.account == []) _ _ (λ _. w)
      (λ _.
        if_cases WellKeyed (preferred it (lookup (key_of it) by_key)) _ _
          (λ _. insert-WellKeyed it by_key w) (λ _. w))

pub collapse-WellKeyed :
    (items : List Item) (by_key : Map Bytes Item)
    → WellKeyed by_key
    → WellKeyed (collapse items by_key)
unfolding collapse
collapse-WellKeyed [] by_key w = w
collapse-WellKeyed (it ∷ items) by_key w =
    collapse-WellKeyed items (collapse_one it by_key) (collapse_one-WellKeyed it by_key w)

-- whether a map has a key
abbrev pub has : Bytes → Map Bytes Item → Bool
has key by_key = is_present (lookup key by_key)

insert-has :
    (key other : Bytes) (it : Item) (by_key : Map Bytes Item)
    → has key by_key ≡ true
    → has key (insert other it by_key) ≡ true
insert-has key other it by_key h = elim (Bool-cases (other == key)) [
  | inl e ↦ ap is_present (lookup-insert key other it by_key ∙ if-true _ e)
  | inr e ↦ ap is_present (lookup-insert_other key other it by_key e) ∙ h
]

collapse_one-has :
    (key : Bytes) (it : Item) (by_key : Map Bytes Item)
    → has key by_key ≡ true
    → has key (collapse_one it by_key) ≡ true
unfolding lookup insert
collapse_one-has key it by_key h =
    let P : Map Bytes Item → Type 0 = λ m. has key m ≡ true in
    if_cases P (it.service == [] || it.account == []) _ _ (λ _. h)
      (λ _.
        if_cases P (preferred it (lookup (key_of it) by_key)) _ _
          (λ _. insert-has key (key_of it) it by_key h) (λ _. h))

collapse-has :
    (key : Bytes) (items : List Item) (by_key : Map Bytes Item)
    → has key by_key ≡ true
    → has key (collapse items by_key) ≡ true
unfolding collapse
collapse-has key [] by_key h = h
collapse-has key (it ∷ items) by_key h =
    collapse-has key items (collapse_one it by_key) (collapse_one-has key it by_key h)

not_preferred : (it : Item) (o : Option Item) → preferred it o ≡ false → is_present o ≡ true
not_preferred it none h = cc
not_preferred it (some prev) h = refl

collapse_one-adds :
    (it : Item) (by_key : Map Bytes Item)
    → (it.service == [] || it.account == []) ≡ false
    → has (key_of it) (collapse_one it by_key) ≡ true
unfolding lookup insert
collapse_one-adds it by_key named =
    let P : Map Bytes Item → Type 0 = λ m. has (key_of it) m ≡ true in
    subst P (sym (if-false by_key named)) (
      if_cases P (preferred it (lookup (key_of it) by_key)) _ _
        (λ _.
          ap is_present
            (lookup-insert (key_of it) (key_of it) it by_key ∙ if-true _ (eq_refl (key_of it))))
        (λ e. not_preferred it (lookup (key_of it) by_key) e))

-- Every item that has both names has its key.
pub collapse-adds :
    (before after : List Item) (it : Item) (by_key : Map Bytes Item)
    → (it.service == [] || it.account == []) ≡ false
    → has (key_of it) (collapse (before ++ it ∷ after) by_key) ≡ true
unfolding collapse
collapse-adds [] after it by_key named =
    collapse-has (key_of it) after (collapse_one it by_key) (collapse_one-adds it by_key named)
collapse-adds (other ∷ before) after it by_key named =
    collapse-adds before after it (collapse_one other by_key) named

any-insert_sorted :
    (p : Bytes → Bool) (x : Bytes) (xs : List Bytes)
    → any p (insert_sorted x xs) ≡ (p x || any p xs)
unfolding any insert_sorted
any-insert_sorted p x [] = refl
any-insert_sorted p x (y ∷ ys) = elim (Bool-cases (bytes_leb x y)) [
  | inl e ↦ rw e refl
  | inr e ↦ rw (e, any-insert_sorted p x ys) (ground arith)
]

any-sort_strings : (p : Bytes → Bool) (xs : List Bytes) → any p (sort_strings xs) ≡ any p xs
unfolding any sort_strings
any-sort_strings p [] = refl
any-sort_strings p (x ∷ xs) =
    any-insert_sorted p x (sort_strings xs) ∙ ap (λ b. p x || b) (any-sort_strings p xs)

keys-has :
    (key : Bytes) (by_key : Map Bytes Item)
    → has key by_key ≡ true
    → any (λ k. k == key) (map_keys by_key) ≡ true
unfolding any lookup
keys-has key [] h = cc
keys-has key ((k, it) ∷ by_key) h = elim (Bool-cases (k == key)) [
  | inl e ↦ or_left (k == key) _ e
  | inr e ↦
      or_right (k == key) _ (keys-has key by_key (sym (ap is_present (if-false (some it) e)) ∙ h))
]

pub sorted_keys-has :
    (key : Bytes) (by_key : Map Bytes Item)
    → has key by_key ≡ true
    → any (λ k. k == key) (sort_strings (map_keys by_key)) ≡ true
sorted_keys-has key by_key h =
    any-sort_strings (λ k. k == key) (map_keys by_key) ∙ keys-has key by_key h

pub found_of_has : (o : Option Item) → is_present o ≡ true → (it : Item) × (o ≡ some it)
found_of_has none h = cc
found_of_has (some it) h = (it, refl)
