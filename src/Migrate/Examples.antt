-- ===== src/Migrate/Examples.antt =====
-- A migration over a store that has one of the source's credentials.
use oma_seal.Prelude.{
  ◌≡◌, refl, Bool, true, false, none, some, List, [], ◌∷◌, bytes_beq, if◌then◌else◌, ◌==◌, nat_eq,
  bytes_eq, lookup, insert,
}
use oma_seal.Errors.{ok, err, plain}
use oma_seal.Bytes.{Bytes, codes}
use oma_seal.Native.Key.{native_key}
use oma_seal.Native.Items.{Item, read, set, list_item, keep_some}
use oma_seal.Native.Store.{NativeItem, NativeDoc}
use oma_seal.Native.Roundtrip.{cipher_of}
use oma_seal.Native.Isolation.{item_of}
use oma_seal.Migrate.{ItemSource, is_among, migrate_items, any}
use oma_seal.Native.Toy.{toy, filled, agent_world, github, token, secret}
use oma_seal.Migrate.Kept.{migrate_items_keeps}
use oma_seal.Migrate.Counted.{Accounted, migrate_items-Accounted}
use oma_seal.Files.{unix}
use oma_seal.Migrate.Complete.{Dealt}
use oma_seal.Migrate.Lossless.{migrate_items-Dealt}
use oma_seal.Migrate.Distinct.{distinct}
use oma_seal.Prelude.{any}

abbrev gitlab : Bytes
gitlab = codes "gitlab"

abbrev named_item : Bytes → Bool → Item
named_item service owned = record {
  service = service;
  account = token;
  created_at = 0;
  updated_at = 0;
  owned = owned;
}

-- One credential twice, one without a service, one that the store has, and one that cannot be read.
abbrev source_items : List Item
source_items =
    named_item gitlab false
    ∷ named_item [] false
    ∷ named_item github true
    ∷ named_item gitlab true
    ∷ named_item (codes "zulip") false
    ∷ []

abbrev source : ItemSource
source = record {
  items = ok source_items;
  secret = λ service account. if service == codes "zulip" then err plain else ok (codes "moved");
}

abbrev stored_item : NativeItem toy
stored_item = record {
  ct = some (cipher_of agent_world 103 github token secret);
  created = unix agent_world.now;
  updated = unix agent_world.now;
  external = false;
}

stored_there : item_of github token filled ≡ some stored_item
unfolding read set bytes_beq lookup insert
stored_there = refl

migrate_items_keeps_example :
    item_of github token (migrate_items agent_world (λ _. agent_world) source false filled).1
    ≡ some stored_item
unfolding set bytes_beq
migrate_items_keeps_example =
    migrate_items_keeps agent_world (λ _. agent_world) source false github token 103 stored_item
      filled refl stored_there

abbrev filled_doc : NativeDoc toy
filled_doc = (native_key github token, stored_item) ∷ []

doc_there : read filled ≡ ok filled_doc
unfolding read set bytes_beq lookup insert
doc_there = refl

migrate_items-Accounted_example :
    Accounted 3 false (migrate_items agent_world (λ _. agent_world) source false filled).0
unfolding distinct any bytes_beq lookup insert set
migrate_items-Accounted_example =
    migrate_items-Accounted agent_world (λ _. agent_world) source false 103 filled_doc source_items
      filled refl doc_there refl

-- What it reports, and what a dry run foresees.
reports : (migrate_items agent_world (λ _. agent_world) source false filled).0 ≡ (
  some (record {
    migrated = 1;
    skipped = 1;
    failed = 1;
    failed_items = native_key (codes "zulip") token ∷ [];
  }),
  none,
)
unfolding migrate_items set bytes_beq lookup insert read
reports = refl

dry_reports :
    (migrate_items agent_world (λ _. agent_world) source true filled).0
    ≡ (some (record { migrated = 2; skipped = 1; failed = 0; failed_items = [] }), none)
unfolding migrate_items set bytes_beq lookup insert read
dry_reports = refl

migrate_items-Dealt_example :
    Dealt 103
      (is_among (keep_some (list_item []) filled_doc))
      (native_key gitlab token)
      (record {
        migrated = 1;
        skipped = 1;
        failed = 1;
        failed_items = native_key (codes "zulip") token ∷ [];
      })
      (migrate_items agent_world (λ _. agent_world) source false filled).1
unfolding set bytes_beq
migrate_items-Dealt_example =
    migrate_items-Dealt agent_world (λ _. agent_world) source 103 filled_doc source_items
      (named_item gitlab false ∷ named_item [] false ∷ named_item github true ∷ [])
      (named_item (codes "zulip") false ∷ []) (named_item gitlab true) _ filled refl doc_there refl
      refl (λ h. cc) (λ h. cc) reports
