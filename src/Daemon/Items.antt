-- ===== src/Daemon/Items.antt =====
-- engine/svcitems.go and createItem of engine/svcobjects.go: the index of items over the store.
use oma_seal.Prelude.{
  ℕ, ◌+◌, ◌*◌, ◌^◌, Bool, true, false, not, ◌&&◌, Option, none, some, List, [], ◌∷◌, ◌++◌, map, ltb,
  if◌then◌else◌, ◌==◌, nat_eq, bytes_eq, length, any, Map, lookup, insert,
}
use oma_seal.Errors.{
  Error, Result, ok, err, code_from_error, locked, store_uninitialized, agent_locked, not_found,
  invalid_name, manifest_denied, agent_unauthorized, unknown_error, keyring_timeout,
  keyring_unavailable, unlock_denied, tamper, agent_policy_read, manifest_error, rate_limited,
}
use oma_seal.Bytes.{Bytes, codes}
use oma_seal.Bytes.Sort.{sort_strings, map_keys}
use oma_seal.Files.{File, absent, unreadable, corrupt, holds}
use oma_seal.Native.Crypto.{Age}
use oma_seal.Native.Key.{native_key}
use oma_seal.Native.Items.{Item, list}
use oma_seal.Daemon.{SvcItem, SvcDaemon, SvcWorld}

-- engine/svcerrors.go: the names of the errors on the bus
pub data BusError : Type 0 where
  is_locked no_session no_such_object access_denied invalid_args not_supported unknown_object
        failed :
      BusError

pub data BusResult {ℓ} (A : Type ℓ) : Type ℓ where
  bus_err : BusError → BusResult A
  bus_ok : A → BusResult A

-- `svcErrFrom`
abbrev pub bus_error_of : Error → BusError
bus_error_of e = elim (code_from_error e) [
  | locked ↦ is_locked
  | store_uninitialized ↦ is_locked
  | agent_locked ↦ is_locked
  | not_found ↦ no_such_object
  | invalid_name ↦ invalid_args
  | manifest_denied ↦ access_denied
  | agent_unauthorized ↦ access_denied
  | unknown_error ↦ failed
  | keyring_timeout ↦ failed
  | keyring_unavailable ↦ failed
  | unlock_denied ↦ failed
  | tamper ↦ failed
  | agent_policy_read ↦ failed
  | manifest_error ↦ failed
  | rate_limited ↦ failed
]

abbrev pub svc_max_secret_bytes : ℕ
svc_max_secret_bytes = 2 ^ 20

abbrev pub svc_max_attr_bytes : ℕ
svc_max_attr_bytes = 64 * 2 ^ 10

abbrev pub svc_max_items_global : ℕ
svc_max_items_global = 65536

-- a string that a Go map has or, without it, the empty one
abbrev pub text_or : Option Bytes → Bytes
text_or none = []
text_or (some v) = v

-- the text that `svcSyntheticKey` hashes
unfoldable pub dict_text : Map Bytes Bytes → List Bytes → Bytes
unfolding lookup
dict_text attrs [] = []
dict_text attrs (k ∷ ks) = k ++ 0 ∷ text_or (lookup k attrs) ++ 0 ∷ dict_text attrs ks

abbrev pub attr_key : Map Bytes Bytes → Bytes
attr_key attrs = dict_text attrs (sort_strings (map_keys attrs))

unfoldable pub attrs_match : Map Bytes Bytes → Map Bytes Bytes → Bool
unfolding lookup
attrs_match have [] = true
attrs_match have ((k, v) ∷ want) = text_or (lookup k have) == v && attrs_match have want

unfoldable pub svc_attr_bytes : Map Bytes Bytes → ℕ
svc_attr_bytes [] = 0
svc_attr_bytes ((k, v) ∷ attrs) = length k + length v + svc_attr_bytes attrs

abbrev pub svc_collection_path : Bytes
svc_collection_path = codes "/org/freedesktop/secrets/collection/login"

abbrev pub label_of : Bytes → Bytes → Bytes
label_of service account = service ++ codes " / " ++ account

-- the label that the store's `List` makes
abbrev pub store_label : Bytes → Bytes → Bytes
store_label service account = codes "OmaSeal: " ++ label_of service account

-- `loadSvcIndex`: the index, and whether the file is moved aside.
abbrev pub load_svc_index : File (Map Bytes SvcItem) → Map Bytes SvcItem × Bool
load_svc_index absent = ([], false)
load_svc_index unreadable = ([], false)
load_svc_index corrupt = ([], true)
load_svc_index (holds items) = (items, false)

abbrev pub new_row : Item → SvcItem
new_row it = record {
  key = native_key it.service it.account;
  label = store_label it.service it.account;
  attrs = (codes "service", it.service) ∷ (codes "account", it.account) ∷ [];
  item_type = [];
  created = it.created_at;
  modified = it.updated_at;
}

-- The index owns all of a row but the time of the secret's last change.
abbrev pub folded_row : Item → Option SvcItem → SvcItem
folded_row it none = new_row it
folded_row it (some row) =
    if ltb row.modified it.updated_at then record row { modified = it.updated_at } else row

unfoldable pub sweep : List Bytes → Map Bytes SvcItem → Map Bytes SvcItem
unfolding any
sweep seen [] = []
sweep seen ((path, row) ∷ index) =
    let rest = sweep seen index in if any (λ p. p == path) seen then (path, row) ∷ rest else rest

-- The hash of a text: the first 16 bytes of its SHA-256, in hexadecimal.
module _ (digest : Bytes → Bytes) where
  unfoldable pub svc_synthetic_key : Map Bytes Bytes → Bytes
  unfolding dict_text sort_strings
  svc_synthetic_key attrs = codes "dbus/" ++ digest (attr_key attrs)

  abbrev pub named_key : Bytes → Bytes → Map Bytes Bytes → Bytes
  named_key svc acct attrs =
      if not (svc == []) && not (acct == []) then native_key svc acct else svc_synthetic_key attrs

  unfoldable pub svc_item_key : Map Bytes Bytes → Bytes
  unfolding lookup native_key svc_synthetic_key
  svc_item_key attrs =
      named_key (text_or (lookup (codes "service") attrs))
        (text_or (lookup (codes "account") attrs)) attrs

  abbrev pub svc_item_path : Bytes → Bytes
  svc_item_path key = svc_collection_path ++ b'/' ∷ digest key

  abbrev pub path_of : Item → Bytes
  path_of it = svc_item_path (native_key it.service it.account)

  unfoldable pub fold_rows : List Item → Map Bytes SvcItem → Map Bytes SvcItem
  unfolding lookup insert native_key
  fold_rows [] index = index
  fold_rows (it ∷ items) index =
      fold_rows items (insert (path_of it) (folded_row it (lookup (path_of it) index)) index)

  abbrev pub reconcile_with :
      {age : Age} → Result (List Item) → SvcDaemon age → Result (Unit {0}) × SvcDaemon age
  reconcile_with (err e) d = (err e, d)
  reconcile_with (ok items) d =
      (ok tt, record d { index = sweep (map path_of items) (fold_rows items d.index) })

  unfoldable pub reconcile :
      {age : Age} → SvcWorld age → SvcDaemon age → Result (Unit {0}) × SvcDaemon age
  unfolding list fold_rows sweep
  reconcile w d =
      let (items, s) = list w.native [] d.store in reconcile_with items (record d { store = s })
