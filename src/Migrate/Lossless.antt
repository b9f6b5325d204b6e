-- ===== src/Migrate/Lossless.antt =====
-- engine/backendmigrate.go: no credential of the source is lost silently.
use oma_seal.Prelude.{
  ◌≡◌, refl, sym, ap, ◌∙◌, subst, ◌≢◌, true, false, ◌||◌, none, some, List, [], ◌∷◌, ◌++◌, ◌==◌,
  nat_eq, bytes_eq, lookup,
}
use oma_seal.Errors.{ok}
use oma_seal.Bytes.{Bytes}
use oma_seal.Bytes.Sort.{sort_strings, map_keys}
use oma_seal.Native.Crypto.{Age}
use oma_seal.Native.Items.{Item, read, list_item, keep_some}
use oma_seal.Native.Store.{NativeDoc, NativeStore, World}
use oma_seal.Native.Roundtrip.{not_empty}
use oma_seal.Migrate.{
  ItemSource, MigrateSummary, Report, nothing_yet, collapse, migrate_keys, is_among, migrate_items,
  migrate_items-listed, key_of,
}
use oma_seal.Migrate.Complete.{Dealt, Finished, keys-deal}
use oma_seal.Migrate.Collapsed.{
  has, collapse-adds, collapse-WellKeyed, sorted_keys-has, found_of_has,
}

-- A migration that reports no error has dealt with every item of the source that has both names: its
-- credential was listed by the store before, or is named among the failures, or is in the store now,
-- be it that the migration has written it or that another process has.
pub migrate_items-Dealt :
    {age : Age} (w : World age) (worlds : Bytes → World age) (src : ItemSource) (r : age.Recipient)
    (d : NativeDoc age) (items before after : List Item) (it : Item) (m : MigrateSummary)
    (s : NativeStore age)
    → s.pub_key ≡ some r
    → read s ≡ ok d
    → src.items ≡ ok items
    → items ≡ before ++ it ∷ after
    → it.service ≢ []
    → it.account ≢ []
    → (migrate_items w worlds src false s).0 ≡ (some m, none)
    → Dealt r
        (is_among (keep_some (list_item []) d))
        (key_of it)
        m
        (migrate_items w worlds src false s).1
unfolding collapse migrate_keys sort_strings lookup Finished
migrate_items-Dealt {age} w worlds src r d items before after it m s k rd listed split hs ha ended =
    let by_key = collapse items [] in
    let existing = keep_some (list_item []) d in
    let keys = sort_strings (map_keys by_key) in
    let named : (it.service == [] || it.account == []) ≡ false =
      rw (not_empty it.service hs, not_empty it.account ha) refl in
    let there : has (key_of it) by_key ≡ true =
      subst (λ its. has (key_of it) (collapse its []) ≡ true) (sym split)
        (collapse-adds before after it [] named) in
    let (item, at) = found_of_has (lookup (key_of it) by_key) there in
    let own = collapse-WellKeyed items [] (λ key other h. cc) (key_of it) item at in
    let e = migrate_items-listed w worlds src false r d items s k rd listed in
    let finished =
      keys-deal r worlds src (is_among existing) by_key (key_of it) item keys 0 nothing_yet s at own
        (sorted_keys-has (key_of it) by_key there) k in
    subst (λ (p : Report × NativeStore age). Dealt r (is_among existing) (key_of it) m p.1) (sym e)
      (finished m (sym (ap (λ (p : Report × NativeStore age). p.0) e) ∙ ended))
