-- ===== src/Migrate/Kept.antt =====
-- engine/backendmigrate.go: what a migration leaves of the native store.
use oma_seal.Prelude.{
  ℕ, suc, ◌≡◌, refl, sym, ap, ◌∙◌, subst, inl, inr, Bool, true, ◌&&◌, ◌||◌, some, List, [], ◌∷◌,
  leb, Bool-cases, ◌==◌, eq_iff, nat_eq, bytes_eq, Map, lookup, if_cases, lookup-insert_other,
}
use oma_seal.Errors.{Result, ok, err}
use oma_seal.Bytes.{Bytes}
use oma_seal.Bytes.Sort.{sort_strings, map_keys}
use oma_seal.Native.Crypto.{Age}
use oma_seal.Native.Key.{native_key}
use oma_seal.Native.Items.{
  Item, read, locked_read, write_doc, put, put_item, is_present, update, set, list_from,
  migrate_set,
}
use oma_seal.Native.Store.{NativeItem, NativeDoc, NativeStore, World, Outcome, store_target}
use oma_seal.Native.Roundtrip.{set-known, locked_read-ok}
use oma_seal.Native.Isolation.{item_in, item_of, put-present}
use oma_seal.Migrate.{
  ItemSource, MigrateSummary, Report, Turn, go_on, give_up, max_consec_get_failures, nothing_yet,
  collapse, is_item_exists, item_or_zero, written, copy_secret, migrate_key, next_turn,
  migrate_keys, is_among, migrate_listed, migrate_from, migrate_items, migrate_items-known,
}

module _ {age : Age} where
  -- The store knows its recipient and has an item at a key.
  pub record Holds (r : age.Recipient) (key : Bytes) (it : NativeItem age) (s : NativeStore age)
      : Type 0 where
    pub knows : s.pub_key ≡ some r
    pub has : item_in key (read s) ≡ some it

  put-keeps :
      (now : ℕ) (key other : Bytes) (c : age.Cipher) (owned : Bool) (d : NativeDoc age)
      (it : NativeItem age)
      → lookup key d ≡ some it
      → lookup key (put now other c owned true d) ≡ some it
  put-keeps now key other c owned d it h = elim (Bool-cases (other == key)) [
    | inl e ↦
        subst (λ j. lookup key (put now j c owned true d) ≡ some it) (sym ((eq_iff other key).0 e))
          (ap (lookup key) (put-present now key c owned d it h) ∙ h)
    | inr e ↦
        if_cases (λ (x : NativeDoc age). lookup key x ≡ some it)
          (is_present (lookup other d) && true) d (put_item now other c owned d) (λ _. h)
          (λ _. lookup-insert_other key other _ d e ∙ h)
  ]

  write-Holds :
      (r : age.Recipient) (w : World age) (key other : Bytes) (c : age.Cipher) (owned : Bool)
      (it : NativeItem age) (s : NativeStore age) (doc : Result (NativeDoc age))
      → locked_read w s ≡ doc
      → Holds r key it s
      → Holds r key it (write_doc doc w (put w.now other c owned true) s).1
  unfolding read
  write-Holds r w key other c owned it s (err e) at holds_it = holds_it
  write-Holds r w key other c owned it s (ok d) at holds_it =
      if_cases (λ (o : Outcome (Unit {0}) age). Holds r key it o.1) (w.writes store_target) _ _
        (λ _. record {
          knows = holds_it.knows;
          has =
              put-keeps w.now key other c owned d it
                (sym (ap (item_in key) (locked_read-ok w s d at)) ∙ holds_it.has);
        })
        (λ _. holds_it)

  pub migrate_set-Holds :
      (r : age.Recipient) (w : World age) (key service account secret : Bytes) (owned : Bool)
      (it : NativeItem age) (s : NativeStore age)
      → Holds r key it s
      → Holds r key it (migrate_set w service account secret owned s).1
  unfolding update
  migrate_set-Holds r w key service account secret owned it s holds_it =
      subst (λ (o : Outcome (Unit {0}) age). Holds r key it o.1)
        (sym (set-known w service account secret owned true r s holds_it.knows))
        (if_cases (λ (o : Outcome (Unit {0}) age). Holds r key it o.1)
          (service == [] || account == [] || secret == []) _ _ (λ _. holds_it)
          (λ _.
            write-Holds r w key (native_key service account) _ owned it s (locked_read w s) refl
              holds_it))

  abbrev pub after_turn : Turn age → NativeStore age
  after_turn (go_on consec m s) = s
  after_turn (give_up m s) = s

  written-store :
      (key : Bytes) (m : MigrateSummary) (o : Outcome (Unit {0}) age)
      → after_turn (written key m o) ≡ o.1
  written-store key m (ok _, s) = refl
  written-store key m (err e, s) = elim (Bool-cases (is_item_exists e.cause)) [
    | inl h ↦ rw h refl
    | inr h ↦ rw h refl
  ]

  -- What every write of `migrateSet` keeps, every turn of the loop keeps.
  module _ (P : NativeStore age → Type 0)
      (step : (w : World age) (service account secret : Bytes) (owned : Bool) (s : NativeStore age)
        → P s
        → P (migrate_set w service account secret owned s).1)
      (worlds : Bytes → World age) (src : ItemSource) (present : Bytes → Bool)
      (by_key : Map Bytes Item) (dry_run : Bool) where
    copied-keeps :
        (other : Bytes) (item : Item) (secret : Result Bytes) (consec : ℕ) (m : MigrateSummary)
        (s : NativeStore age)
        → P s
        → P (after_turn (copy_secret (worlds other) other item secret consec m s))
    unfolding set
    copied-keeps other item (err e) consec m s kept =
        if_cases (λ (t : Turn age). P (after_turn t)) (leb max_consec_get_failures (suc consec)) _ _
          (λ _. kept) (λ _. kept)
    copied-keeps other item (ok secret) consec m s kept =
        subst (P)
          (sym (
            written-store other m
              (migrate_set (worlds other) item.service item.account secret item.owned s)))
          (step (worlds other) item.service item.account secret item.owned s kept)

    pub turn-keeps :
        (other : Bytes) (consec : ℕ) (m : MigrateSummary) (s : NativeStore age)
        → P s
        → P (after_turn (migrate_key worlds src present by_key dry_run other consec m s))
    unfolding migrate_key
    turn-keeps other consec m s kept =
        let item = item_or_zero (lookup other by_key) in
        if_cases (λ (t : Turn age). P (after_turn t)) (present other) _ _ (λ _. kept)
          (λ _.
            if_cases (λ (t : Turn age). P (after_turn t)) dry_run _ _ (λ _. kept)
              (λ _. copied-keeps other item (src.secret item.service item.account) consec m s kept))

    next-keeps :
        (rest : ℕ → MigrateSummary → NativeStore age → Report × NativeStore age) (t : Turn age)
        → ((consec : ℕ) (m : MigrateSummary) (s : NativeStore age) → P s → P (rest consec m s).1)
        → P (after_turn t)
        → P (next_turn rest t).1
    next-keeps rest (go_on consec m s) h kept = h consec m s kept
    next-keeps rest (give_up m s) h kept = kept

    keys-keeps :
        (keys : List Bytes) (consec : ℕ) (m : MigrateSummary) (s : NativeStore age)
        → P s
        → P (migrate_keys worlds src present by_key dry_run keys consec m s).1
    unfolding migrate_keys
    keys-keeps [] consec m s kept = kept
    keys-keeps (other ∷ keys) consec m s kept =
        next-keeps (migrate_keys worlds src present by_key dry_run keys)
          (migrate_key worlds src present by_key dry_run other consec m s) (keys-keeps keys)
          (turn-keeps other consec m s kept)

  listed-Holds :
      (r : age.Recipient) (key : Bytes) (it : NativeItem age) (worlds : Bytes → World age)
      (src : ItemSource) (dry_run : Bool) (existing : List Item) (items : Result (List Item))
      (s : NativeStore age)
      → Holds r key it s
      → Holds r key it (migrate_listed worlds src dry_run existing items s).1
  unfolding migrate_keys
  listed-Holds r key it worlds src dry_run existing (err e) s holds_it = holds_it
  listed-Holds r key it worlds src dry_run existing (ok items) s holds_it =
      let by_key = collapse items [] in
      keys-keeps (Holds r key it)
        (λ w service account secret owned t.
          migrate_set-Holds r w key service account secret owned it t)
        worlds src (is_among existing) by_key dry_run (sort_strings (map_keys by_key)) 0 nothing_yet
        s holds_it

  from-Holds :
      (r : age.Recipient) (key : Bytes) (it : NativeItem age) (worlds : Bytes → World age)
      (src : ItemSource) (dry_run : Bool) (o : Outcome (List Item) age)
      → Holds r key it o.1
      → Holds r key it (migrate_from worlds src dry_run o).1
  from-Holds r key it worlds src dry_run (err e, s) holds_it = holds_it
  from-Holds r key it worlds src dry_run (ok existing, s) holds_it =
      listed-Holds r key it worlds src dry_run existing src.items s holds_it

  -- A migration never changes a credential that the initialised store has, whatever the source answers,
  -- however its writes go, and whether it runs to its end or gives up.
  pub migrate_items_keeps :
      (w : World age) (worlds : Bytes → World age) (src : ItemSource) (dry_run : Bool)
      (service account : Bytes) (r : age.Recipient) (it : NativeItem age) (s : NativeStore age)
      → s.pub_key ≡ some r
      → item_of service account s ≡ some it
      → item_of service account (migrate_items w worlds src dry_run s).1 ≡ some it
  unfolding migrate_items
  migrate_items_keeps w worlds src dry_run service account r it s k h =
      (subst (λ (p : Report × NativeStore age). Holds r (native_key service account) it p.1)
        (sym (migrate_items-known w worlds src dry_run r s k))
        (from-Holds r (native_key service account) it worlds src dry_run (list_from (read s) [], s)
          (record { knows = k; has = h }))).has
