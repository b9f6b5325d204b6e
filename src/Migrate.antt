-- ===== src/Migrate.antt =====
-- engine/backendmigrate.go: the copy of every item of another backend into the native store.
pub mod Arrived
pub mod Distinct
pub mod Collapsed
pub mod Complete
pub mod Counted
mod Examples
pub mod Kept
pub mod Lossless
use oma_seal.Prelude.{
  ℕ, suc, ◌+◌, Bool, true, false, not, ◌&&◌, ◌||◌, Option, none, some, List, [], ◌∷◌, ◌++◌, any,
  leb, if◌then◌else◌, ◌==◌, ◌≡◌, ap, ◌∙◌, nat_eq, bytes_eq, Map, lookup, insert,
}
use oma_seal.Errors.{
  Cause, Error, Result, ok, err, plain, item_exists, message, not_exist, keyring_not_found,
  native_locked, native_tamper, presence_denied, no_presence_mechanism, denied_without_mechanism,
  prompt_cancelled, no_gui_prompter, gui_disabled,
}
use oma_seal.Bytes.{Bytes}
use oma_seal.Bytes.Sort.{sort_strings, map_keys}
use oma_seal.Native.Crypto.{Age}
use oma_seal.Native.Key.{native_key}
use oma_seal.Native.Store.{NativeDoc, NativeStore, World, Outcome, then_do}
use oma_seal.Native.Init.{ensure_init, ensure_init-known}
use oma_seal.Native.Locked.{list-known}
use oma_seal.Native.Items.{Item, read, list_from, list_item, keep_some, migrate_set, list}

-- `itemSource`: what its calls answer. Every item is read at most once.
pub record ItemSource : Type 0 where
  pub items : Result (List Item)
  pub secret : Bytes → Bytes → Result Bytes

-- The items that failed are named by their keys, before `sanitizeField`.
pub record MigrateSummary : Type 0 where
  pub migrated : ℕ
  pub skipped : ℕ
  pub failed : ℕ
  pub failed_items : List Bytes

-- the report, which there is once the source has been listed, and the error
abbrev pub Report : Type 0
Report = Option MigrateSummary × Option Error

abbrev pub max_consec_get_failures : ℕ
max_consec_get_failures = 8

abbrev pub nothing_yet : MigrateSummary
nothing_yet = record { migrated = 0; skipped = 0; failed = 0; failed_items = [] }

abbrev pub count_migrated : MigrateSummary → MigrateSummary
count_migrated m = record m { migrated = suc m.migrated }

abbrev pub count_skipped : MigrateSummary → MigrateSummary
count_skipped m = record m { skipped = suc m.skipped }

abbrev pub count_failed : Bytes → MigrateSummary → MigrateSummary
count_failed key m = record m { failed = suc m.failed; failed_items = m.failed_items ++ key ∷ [] }

-- whether an item takes the place of the one that the key has
abbrev pub preferred : Item → Option Item → Bool
preferred it none = true
preferred it (some prev) = it.owned && not prev.owned

abbrev pub key_of : Item → Bytes
key_of it = native_key it.service it.account

abbrev pub collapse_one : Item → Map Bytes Item → Map Bytes Item
collapse_one it by_key =
    if it.service == [] || it.account == []
    then by_key
    else if preferred it (lookup (key_of it) by_key)
    then insert (key_of it) it by_key
    else by_key

unfoldable pub collapse : List Item → Map Bytes Item → Map Bytes Item
unfolding lookup insert native_key
collapse [] by_key = by_key
collapse (it ∷ items) by_key = collapse items (collapse_one it by_key)

-- errors.Is(err, errItemExists)
abbrev pub is_item_exists : Cause → Bool
is_item_exists item_exists = true
is_item_exists message = false
is_item_exists not_exist = false
is_item_exists keyring_not_found = false
is_item_exists native_locked = false
is_item_exists native_tamper = false
is_item_exists presence_denied = false
is_item_exists no_presence_mechanism = false
is_item_exists denied_without_mechanism = false
is_item_exists prompt_cancelled = false
is_item_exists no_gui_prompter = false
is_item_exists gui_disabled = false

-- the zero value, which a Go map gives for a key that it lacks
abbrev pub item_or_zero : Option Item → Item
item_or_zero none = record {
  service = [];
  account = [];
  created_at = 0;
  updated_at = 0;
  owned = false;
}
item_or_zero (some it) = it

-- how one turn of the loop ends: with the count of reads that have failed in a row, or by giving up
pub data Turn (age : Age) : Type 0 where
  go_on : ℕ → MigrateSummary → NativeStore age → Turn age
  give_up : MigrateSummary → NativeStore age → Turn age

abbrev pub is_among : List Item → Bytes → Bool
is_among existing key = any (λ it. key_of it == key) existing

module _ {age : Age} where
  abbrev pub read_failed : Bytes → ℕ → MigrateSummary → NativeStore age → Turn age
  read_failed key consec m s =
      if leb max_consec_get_failures (suc consec)
      then give_up (count_failed key m) s
      else go_on (suc consec) (count_failed key m) s

  abbrev pub written : Bytes → MigrateSummary → Outcome (Unit {0}) age → Turn age
  written key m (ok _, s) = go_on 0 (count_migrated m) s
  written key m (err e, s) =
      if is_item_exists e.cause then go_on 0 (count_skipped m) s else go_on 0 (count_failed key m) s

  abbrev pub copy_secret :
      World age → Bytes → Item → Result Bytes → ℕ → MigrateSummary → NativeStore age → Turn age
  copy_secret w key it (err e) consec m s = read_failed key consec m s
  copy_secret w key it (ok secret) consec m s =
      written key m (migrate_set w it.service it.account secret it.owned s)

  -- One turn of the loop; each write has a world of its own.
  unfoldable pub migrate_key :
      (Bytes → World age)
      → ItemSource
      → (Bytes → Bool)
      → Map Bytes Item
      → Bool
      → Bytes
      → ℕ
      → MigrateSummary
      → NativeStore age
      → Turn age
  unfolding lookup
  migrate_key worlds src present by_key dry_run key consec m s =
      let it = item_or_zero (lookup key by_key) in
      if present key
      then go_on consec (count_skipped m) s
      else if dry_run
      then go_on consec (count_migrated m) s
      else copy_secret (worlds key) key it (src.secret it.service it.account) consec m s

  abbrev pub next_turn :
      (ℕ → MigrateSummary → NativeStore age → Report × NativeStore age)
      → Turn age
      → Report × NativeStore age
  next_turn rest (go_on consec m s) = rest consec m s
  next_turn rest (give_up m s) = ((some m, some plain), s)

  unfoldable pub migrate_keys :
      (Bytes → World age)
      → ItemSource
      → (Bytes → Bool)
      → Map Bytes Item
      → Bool
      → List Bytes
      → ℕ
      → MigrateSummary
      → NativeStore age
      → Report × NativeStore age
  unfolding migrate_key
  migrate_keys worlds src present by_key dry_run [] consec m s = ((some m, none), s)
  migrate_keys worlds src present by_key dry_run (key ∷ keys) consec m s =
      next_turn (migrate_keys worlds src present by_key dry_run keys)
        (migrate_key worlds src present by_key dry_run key consec m s)

  abbrev pub migrate_listed :
      (Bytes → World age)
      → ItemSource
      → Bool
      → List Item
      → Result (List Item)
      → NativeStore age
      → Report × NativeStore age
  migrate_listed worlds src dry_run existing (err e) s = ((none, some e), s)
  migrate_listed worlds src dry_run existing (ok items) s =
      let by_key = collapse items [] in
      migrate_keys worlds src (is_among existing) by_key dry_run (sort_strings (map_keys by_key)) 0
        nothing_yet s

  abbrev pub migrate_from :
      (Bytes → World age) → ItemSource → Bool → Outcome (List Item) age → Report × NativeStore age
  migrate_from worlds src dry_run (err e, s) = ((none, some e), s)
  migrate_from worlds src dry_run (ok existing, s) =
      migrate_listed worlds src dry_run existing src.items s

  unfoldable pub migrate_items :
      World age
      → (Bytes → World age)
      → ItemSource
      → Bool
      → NativeStore age
      → Report × NativeStore age
  unfolding ensure_init list any collapse migrate_keys sort_strings
  migrate_items w worlds src dry_run s =
      migrate_from worlds src dry_run (then_do (ensure_init w s) (λ _ s'. list w [] s'))

  -- on a store that knows its recipient
  pub migrate_items-known :
      (w : World age) (worlds : Bytes → World age) (src : ItemSource) (dry_run : Bool)
      (r : age.Recipient) (s : NativeStore age)
      → s.pub_key ≡ some r
      → migrate_items w worlds src dry_run s
        ≡ migrate_from worlds src dry_run (list_from (read s) [], s)
  unfolding migrate_items
  migrate_items-known w worlds src dry_run r s k = ap (migrate_from worlds src dry_run) (
      ap (λ (p : Outcome (Unit {0}) age). then_do p (λ _ s'. list w [] s'))
        (ensure_init-known w s r k)
      ∙ list-known w [] r s k)

  -- and can be listed, as can the source
  pub migrate_items-listed :
      (w : World age) (worlds : Bytes → World age) (src : ItemSource) (dry_run : Bool)
      (r : age.Recipient) (d : NativeDoc age) (items : List Item) (s : NativeStore age)
      → s.pub_key ≡ some r
      → read s ≡ ok d
      → src.items ≡ ok items
      → migrate_items w worlds src dry_run s
        ≡ migrate_keys worlds src
            (is_among (keep_some (list_item []) d))
            (collapse items [])
            dry_run
            (sort_strings (map_keys (collapse items [])))
            0
            nothing_yet
            s
  unfolding migrate_keys collapse sort_strings
  migrate_items-listed w worlds src dry_run r d items s k rd listed =
      migrate_items-known w worlds src dry_run r s k
      ∙ ap (λ (x : Result (NativeDoc age)). migrate_from worlds src dry_run (list_from x [], s)) rd
      ∙ ap (λ x. migrate_listed worlds src dry_run (keep_some (list_item []) d) x s) listed
