-- ===== src/Migrate/Distinct.antt =====
-- engine/backendmigrate.go: how many distinct credentials the items of a source name, independently
-- of the map that the migration builds of them.
use oma_seal.Prelude.{
  ℕ, suc, subst, ◌+◌, ◌≡◌, refl, sym, ap, ◌∙◌, inl, inr, Bool, true, false, ◌&&◌, ◌||◌, Option,
  none, some, List, [], ◌∷◌, arith, Bool-cases, and-eq-true, or-eq-false, ◌==◌, eq_iff, nat_eq,
  bytes_eq, length, any, Map, lookup, insert, lookup-insert, if-true, if-false, if_cases,
  if◌then◌else◌,
}
use oma_seal.Bytes.{Bytes}
use oma_seal.Native.Key.{native_key, native_key_injective}
use oma_seal.Native.Items.{Item, is_present}
use oma_seal.Migrate.{collapse, key_of, preferred, collapse_one}
use oma_seal.Migrate.Collapsed.{has}

abbrev pub is_unnamed : Item → Bool
is_unnamed it = it.service == [] || it.account == []

abbrev pub is_same : Item → Item → Bool
is_same a b = a.service == b.service && a.account == b.account

-- The items that have both names and the names of no item before them, `seen` included
unfoldable pub distinct : List Item → List Item → ℕ
unfolding any
distinct seen [] = 0
distinct seen (it ∷ items) =
    let first = distinct (it ∷ seen) items in
    let again = distinct seen items in
    if is_unnamed it || any (is_same it) seen then again else suc first

keys_agree : (a b : Item) → is_same a b ≡ true → key_of b ≡ key_of a
keys_agree a b h =
    let (hs, ha) = and-eq-true (a.service == b.service) (a.account == b.account) h in
    ap (λ x. native_key x b.account) (sym ((eq_iff a.service b.service).0 hs))
    ∙ ap (native_key a.service) (sym ((eq_iff a.account b.account).0 ha))

same-key_of : (a b : Item) → (key_of b == key_of a) ≡ is_same a b
same-key_of a b = elim (Bool-cases (key_of b == key_of a)) [
  | inl e ↦
      let (hs, ha) =
        native_key_injective b.service b.account a.service a.account
          ((eq_iff (key_of b) (key_of a)).0 e) in
      e
      ∙ sym (
          ground (
            arith,
            (eq_iff a.service b.service).1 (sym hs),
            (eq_iff a.account b.account).1 (sym ha),
          ))
  | inr n ↦ elim (Bool-cases (is_same a b)) [
    | inr f ↦ n ∙ sym f
    | inl f ↦ cc (f, (eq_iff (key_of b) (key_of a)).1 (keys_agree a b f))
  ]
]

any_same :
    (it : Item) (seen : List Item) → any (λ s. key_of s == key_of it) seen ≡ any (is_same it) seen
unfolding any
any_same it [] = refl
any_same it (s ∷ seen) = cc (same-key_of it s, any_same it seen)

insert-has :
    (key k : Bytes) (it : Item) (m : Map Bytes Item)
    → has k (insert key it m) ≡ ((key == k) || has k m)
insert-has key k it m = elim (Bool-cases (key == k)) [
  | inl e ↦ rw (lookup-insert k key it m, e) refl
  | inr e ↦ rw (lookup-insert k key it m, e) refl
]

length-insert :
    (key : Bytes) (it : Item) (m : Map Bytes Item)
    → length (insert key it m) ≡ (if has key m then length m else suc (length m))
unfolding lookup insert
length-insert key it [] = refl
length-insert key it ((j, v) ∷ m) = ground (arith, length-insert key it m)

-- The map has the keys of the items seen.
abbrev pub Agree : List Item → Map Bytes Item → Type 0
Agree seen m = (k : Bytes) → has k m ≡ any (λ s. key_of s == k) seen

-- a credential that is named for the first time
Agree-first :
    (it : Item) (seen : List Item) (m : Map Bytes Item)
    → Agree seen m
    → Agree (it ∷ seen) (insert (key_of it) it m)
unfolding any
Agree-first it seen m a k = insert-has (key_of it) k it m ∙ ap (λ b. (key_of it == k) || b) (a k)

again-has :
    (key k : Bytes) (it : Item) (m : Map Bytes Item)
    → has key m ≡ true
    → has k (insert key it m) ≡ has k m
again-has key k it m h = elim (Bool-cases (key == k)) [
  | inl e ↦ insert-has key k it m ∙ rw e (sym (subst (λ x. has x m ≡ true) ((eq_iff key k).0 e) h))
  | inr e ↦ insert-has key k it m ∙ rw e refl
]

preferred-first : (it : Item) (o : Option Item) → is_present o ≡ false → preferred it o ≡ true
preferred-first it none h = refl
preferred-first it (some prev) h = cc

-- one item more: the length and the keys of the map
collapse_one-again :
    (it : Item) (seen : List Item) (m : Map Bytes Item)
    → Agree seen m
    → (is_unnamed it || any (is_same it) seen) ≡ true
    → (length (collapse_one it m) ≡ length m) × Agree seen (collapse_one it m)
collapse_one-again it seen m a h =
    let P : Map Bytes Item → Type 0 = λ n. (length n ≡ length m) × Agree seen n in
    if_cases P (is_unnamed it) _ _ (λ _. (refl, a))
      (λ named.
        let there : has (key_of it) m ≡ true =
          a (key_of it) ∙ any_same it seen ∙ ground (arith, named, h) in
        if_cases P (preferred it (lookup (key_of it) m)) _ _
          (λ _. (
            length-insert (key_of it) it m ∙ if-true _ there,
            λ k. again-has (key_of it) k it m there ∙ a k,
          ))
          (λ _. (refl, a)))

collapse_one-first :
    (it : Item) (seen : List Item) (m : Map Bytes Item)
    → Agree seen m
    → (is_unnamed it || any (is_same it) seen) ≡ false
    → (length (collapse_one it m) ≡ suc (length m)) × Agree (it ∷ seen) (collapse_one it m)
collapse_one-first it seen m a h =
    let (named, new) = or-eq-false (is_unnamed it) (any (is_same it) seen) h in
    let absent : has (key_of it) m ≡ false = a (key_of it) ∙ any_same it seen ∙ new in
    let e : collapse_one it m ≡ insert (key_of it) it m =
      if-false _ named ∙ if-true _ (preferred-first it (lookup (key_of it) m) absent) in
    rw e (length-insert (key_of it) it m ∙ if-false _ absent, Agree-first it seen m a)

-- The map that the migration builds has an entry for each distinct credential.
pub length-collapse :
    (items seen : List Item) (m : Map Bytes Item)
    → Agree seen m
    → length (collapse items m) ≡ length m + distinct seen items
unfolding collapse distinct
length-collapse [] seen m a = omega arith
length-collapse (it ∷ items) seen m a = elim (Bool-cases (is_unnamed it || any (is_same it) seen)) [
  | inl e ↦
      let (n, b) = collapse_one-again it seen m a e in
      length-collapse items seen (collapse_one it m) b ∙ rw e (ap (λ x. x + distinct seen items) n)
  | inr e ↦
      let (n, b) = collapse_one-first it seen m a e in
      length-collapse items (it ∷ seen) (collapse_one it m) b ∙ rw e (omega (arith, n))
]
