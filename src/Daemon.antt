-- ===== src/Daemon.antt =====
-- engine/svcbus.go and engine/svcprompt.go: what the Secret Service daemon holds. Each function on it in
-- the modules below is one critical section of the daemon's mutex.
pub mod Budgets
pub mod Calls
pub mod Counts
pub mod Examples
pub mod Frame
mod IndexExamples
pub mod Items
pub mod Lasting
pub mod Lock
pub mod Methods
pub mod Once
pub mod Prompts
pub mod Reconciled
pub mod Registry
pub mod Rows
pub mod Served
pub mod Shut
pub mod Steps
pub mod Unlock
pub mod Cancelled
pub mod Refined
pub mod Within
pub mod Signals
pub mod Admitted
use oma_seal.Prelude.{
  ℕ, suc, Bool, true, false, not, Option, none, some, List, [], ◌∷◌, leb, if◌then◌else◌, ◌==◌,
  nat_eq, bytes_eq, length, Map, lookup, remove, insert,
}
use oma_seal.Bytes.{Bytes}
use oma_seal.Files.{File}
use oma_seal.Native.Crypto.{Age}
use oma_seal.Native.Store.{NativeStore, World}

pub data Codec : Type 0 where
  plain_codec : Codec
  dh_codec : Bytes → Codec

pub record Session : Type 0 where
  pub owner : Bytes
  pub uid : ℕ
  pub codec : Codec
  pub opened : ℕ

-- A prompt that runs has a goroutine in `running_ops`, with the context that its `cancel` cancels.
pub record Prompt : Type 0 where
  pub owner : Bytes
  pub uid : ℕ
  pub running : Bool
  pub asked : List Bytes
  pub objects : List Bytes

-- A goroutine of `drivePrompt`: whether its context is cancelled, the objects that it unlocks, and
-- the identity that it has unwrapped with its expiry, if it has.
pub record Op (age : Age) : Type 0 where
  pub cancelled : Bool
  pub asked : List Bytes
  pub unwrapped : Option (age.Identity × ℕ)

-- the signal that ends a prompt
pub record Completed : Type 0 where
  pub prompt : Bytes
  pub dismissed : Bool
  pub result : List Bytes

pub record SvcItem : Type 0 where
  pub key : Bytes
  pub label : Bytes
  pub attrs : Map Bytes Bytes
  pub item_type : Bytes
  pub created : ℕ
  pub modified : ℕ

-- `marker` is whether the unlock-epoch file is there, `completed` what has been signalled, latest
-- first.
pub record SvcDaemon (age : Age) : Type 0 where
  pub store : NativeStore age
  pub sessions : Map Bytes Session
  pub prompts : Map Bytes Prompt
  pub index : Map Bytes SvcItem
  pub collection_label : Bytes
  pub index_file : File (Map Bytes SvcItem)
  pub prompt_identity : Bool
  pub prompt_expiry : ℕ
  pub marker : Bool
  pub running_ops : Map Bytes (Op age)
  pub completed : List Completed

-- The world of one call: the store's, and what else the file system takes.
pub record SvcWorld (age : Age) : Type 0 where
  pub native : World age
  pub marker_writes : Bool
  pub marker_removes : Bool
  pub index_writes : Bool

abbrev pub svc_max_prompts_global : ℕ
svc_max_prompts_global = 256

abbrev pub svc_max_prompts_per_uid : ℕ
svc_max_prompts_per_uid = 16

abbrev pub svc_max_sessions_per_uid : ℕ
svc_max_sessions_per_uid = 64

-- how many values of a map pass a test
unfoldable pub tally {ℓ} : {V : Type ℓ} → (V → Bool) → Map Bytes V → ℕ
tally p [] = 0
tally p ((_, v) ∷ m) = let rest = tally p m in if p v then suc rest else rest

-- the keys of the values that pass a test
unfoldable pub keys_where {ℓ} : {V : Type ℓ} → (V → Bool) → Map Bytes V → List Bytes
keys_where p [] = []
keys_where p ((k, v) ∷ m) = let rest = keys_where p m in if p v then k ∷ rest else rest

-- the entries that fail a test
unfoldable pub drop_where {ℓ} : {V : Type ℓ} → (V → Bool) → Map Bytes V → Map Bytes V
drop_where p [] = []
drop_where p ((k, v) ∷ m) = let rest = drop_where p m in if p v then rest else (k, v) ∷ rest

abbrev pub prompt_of : Bytes → Prompt → Bool
prompt_of sender p = p.owner == sender

abbrev pub session_of_owner : Bytes → Session → Bool
session_of_owner sender s = s.owner == sender

abbrev pub prompt_of_uid : ℕ → Prompt → Bool
prompt_of_uid uid p = p.uid == uid

abbrev pub session_of_uid : ℕ → Session → Bool
session_of_uid uid s = s.uid == uid
