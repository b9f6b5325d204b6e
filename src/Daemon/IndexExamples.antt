-- ===== src/Daemon/IndexExamples.antt =====
-- An index of the daemon that is behind its store.
use oma_seal.Prelude.{
  ◌≡◌, refl, true, false, none, [], ◌∷◌, bytes_beq, nat_eq, bytes_eq, lookup, insert,
}
use oma_seal.Bytes.{codes}
use oma_seal.Errors.{ok}
use oma_seal.Native.Items.{Item, set, list}
use oma_seal.Daemon.{SvcItem, SvcDaemon}
use oma_seal.Daemon.Steps.{started}
use oma_seal.Native.Toy.{toy, filled, agent_world, github, token, secret}
use oma_seal.Daemon.Items.{bus_ok, reconcile}
use oma_seal.Daemon.Refined.{Refined}
use oma_seal.Daemon.Reconciled.{reconcile-Refined, create_item_never_replaces}
use oma_seal.Daemon.Rows.{create_item}
use oma_seal.Native.Key.{native_key}
use oma_seal.Daemon.Examples.{host, quiet_world, at_start, item_call, gone_item}

abbrev listed_item_of_store : Item
listed_item_of_store = record {
  service = github;
  account = token;
  owned = true;
  created_at = agent_world.now;
  updated_at = agent_world.now;
}

listed_items : (list agent_world [] filled).0 ≡ ok (listed_item_of_store ∷ [])
unfolding list set bytes_beq lookup insert
listed_items = refl

-- The item has been renamed over the bus, and a row of the index has lost its item.
abbrev renamed : SvcItem
renamed = record {
  key = native_key github token;
  label = codes "GitHub";
  attrs = [];
  item_type = [];
  created = 1;
  modified = 2;
}

abbrev stale : SvcDaemon toy
stale = record at_start { index = (item_call.path, renamed) ∷ (gone_item, renamed) ∷ [] }

reconcile-Refined_example :
    ((reconcile host.digest quiet_world stale).0 ≡ ok tt)
    × Refined host.digest
        (listed_item_of_store ∷ [])
        stale.index
        (reconcile host.digest quiet_world stale).1.index
unfolding started
reconcile-Refined_example =
    reconcile-Refined host.digest quiet_world stale (listed_item_of_store ∷ []) listed_items

create_item_never_replaces_example :
    let created =
      create_item host.digest quiet_world
        (native_key github token)
        github
        token
        secret
        []
        []
        []
        false
        stale in
    (created.0 ≡ bus_ok none) × (created.1.store ≡ (list agent_world [] filled).1)
unfolding started
create_item_never_replaces_example =
    create_item_never_replaces host.digest quiet_world stale (listed_item_of_store ∷ []) [] []
      listed_item_of_store secret [] [] [] listed_items refl
