-- ===== src/Daemon/Steps.antt =====
-- The runs of the daemon: critical sections in any order.
use oma_seal.Prelude.{
  ℕ, ◌≡◌, Bool, false, Option, none, some, List, [], ◌==◌, nat_eq, bytes_eq, any, Map, lookup,
}
use oma_seal.Bytes.{Bytes}
use oma_seal.Files.{holds}
use oma_seal.Errors.{Error}
use oma_seal.Native.Crypto.{Age}
use oma_seal.Native.Store.{NativeStore, World}
use oma_seal.Native.Items.{get, delete, store_set, list}
use oma_seal.Daemon.{Codec, Op, SvcItem, SvcDaemon, SvcWorld}
use oma_seal.Daemon.Prompts.{mint_prompt, drive_prompt, dismiss_prompt, reap_sender}
use oma_seal.Daemon.Lock.{lock_daemon, locked, relock_for_suspend, unwrap_op, commit_op, end_op}
use oma_seal.Daemon.Calls.{Call}
use oma_seal.Daemon.Methods.{Host, add_session, close_found}

-- A path that no prompt has or had, and no session has: what a random id gives.
pub record Fresh {age : Age} (path : Bytes) (d : SvcDaemon age) : Type 0 where
  pub no_prompt_there : lookup path d.prompts ≡ none
  pub no_session_there : lookup path d.sessions ≡ none
  pub never_completed : any (λ c. c.prompt == path) d.completed ≡ false

-- a call of the store's that a method makes
pub data StoreCall : Type 0 where
  store_get store_delete : Bytes → Bytes → StoreCall
  store_write : Bytes → Bytes → Bytes → StoreCall
  store_list : StoreCall

abbrev pub run_store : {age : Age} → StoreCall → World age → NativeStore age → NativeStore age
run_store (store_get service account) w s = (get w service account s).1
run_store (store_delete service account) w s = (delete w service account s).1
run_store (store_write service account secret) w s = (store_set w service account secret s).1
run_store store_list w s = (list w [] s).1

-- One critical section of the daemon, by whatever goroutine, with whatever arguments; or what another
-- process does to the files, and what a method that this leaves out does to the index.
pub data DaemonStep {age : Age} (h : Host) : SvcDaemon age → SvcDaemon age → Type 0 where
  did_open :
      (codec : Codec) (c : Call) (uid : ℕ) (path : Bytes) (w : SvcWorld age) (d : SvcDaemon age)
      → Fresh path d
      → DaemonStep h d (add_session h codec c uid path w d).1
  did_close :
      (c : Call) (d : SvcDaemon age) → DaemonStep h d (close_found (lookup c.path d.sessions) c d).1
  did_mint :
      (sender : Bytes) (uid : ℕ) (asked objects : List Bytes) (path : Bytes) (d : SvcDaemon age)
      → Fresh path d
      → DaemonStep h d (mint_prompt sender uid asked objects path d).1
  did_drive :
      (path sender : Bytes) (d : SvcDaemon age) → DaemonStep h d (drive_prompt path sender d).1
  did_dismiss :
      (path sender : Bytes) (d : SvcDaemon age) → DaemonStep h d (dismiss_prompt path sender d).1
  did_reap : (name : Bytes) (d : SvcDaemon age) → DaemonStep h d (reap_sender name d)
  did_lock : (w : SvcWorld age) (d : SvcDaemon age) → DaemonStep h d (lock_daemon w d)
  did_suspend : (w : SvcWorld age) (d : SvcDaemon age) → DaemonStep h d (relock_for_suspend w d)
  did_check : (w : SvcWorld age) (d : SvcDaemon age) → DaemonStep h d (locked w d).1
  did_unwrap :
      (w : SvcWorld age) (path : Bytes) (o : Op age) (answer : Option Bytes) (d : SvcDaemon age)
      → lookup path d.running_ops ≡ some o
      → DaemonStep h d (unwrap_op w path o answer d).1
  did_commit :
      (w : SvcWorld age) (path : Bytes) (o : Op age) (d : SvcDaemon age)
      → lookup path d.running_ops ≡ some o
      → DaemonStep h d (commit_op w o d).1
  did_end :
      (path : Bytes) (failure : Option Error) (unlocked : List Bytes) (d : SvcDaemon age)
      → DaemonStep h d (end_op path failure unlocked d)
  did_store :
      (call : StoreCall) (w : SvcWorld age) (d : SvcDaemon age)
      → DaemonStep h d (record d { store = run_store call w.native d.store })
  did_index :
      (index : Map Bytes SvcItem) (d : SvcDaemon age) → DaemonStep h d (record d { index = index })
  did_elsewhere :
      (s : NativeStore age) (marker : Bool) (d : SvcDaemon age)
      → s.identity ≡ d.store.identity
      → DaemonStep h d (record d { store = s; marker = marker })

pub data DaemonSteps {age : Age} (h : Host) : SvcDaemon age → SvcDaemon age → Type 0 where
  no_steps : (d : SvcDaemon age) → DaemonSteps h d d
  then_step : (d e f : SvcDaemon age) → DaemonSteps h d e → DaemonStep h e f → DaemonSteps h d f

-- `provider serve` as it starts: what it finds on disk, and no clients
unfoldable pub started : {age : Age} → NativeStore age → Map Bytes SvcItem → Bool → SvcDaemon age
started s index marker = record {
  store = s;
  sessions = [];
  prompts = [];
  index = index;
  collection_label = [];
  index_file = holds index;
  prompt_identity = false;
  prompt_expiry = 0;
  marker = marker;
  running_ops = [];
  completed = [];
}
