-- ===== src/Daemon/Rows.antt =====
-- engine/svcrouter.go and engine/svcobjects.go: paths, and the operations on the rows of the index.
use oma_seal.Prelude.{
  ℕ, Bool, true, false, not, ◌&&◌, Option, none, some, List, [], ◌∷◌, ltb, leb, if◌then◌else◌, ◌==◌,
  nat_eq, bytes_eq, length, Map, lookup, insert,
}
use oma_seal.Errors.{Result, ok, err, plain}
use oma_seal.Bytes.{Bytes, codes, cut_prefix, has_prefix, contains_byte}
use oma_seal.Files.{holds}
use oma_seal.Native.Crypto.{Age}
use oma_seal.Native.Items.{store_set}
use oma_seal.Native.Store.{Outcome}
use oma_seal.Bytes.Sort.{sort_strings, map_keys}
use oma_seal.Daemon.{SvcItem, SvcDaemon, SvcWorld}
use oma_seal.Daemon.Items.{
  BusResult, bus_err, bus_ok, failed, no_such_object, invalid_args, bus_error_of,
  svc_max_attr_bytes, svc_max_items_global, svc_attr_bytes, attrs_match, svc_item_path, label_of,
  reconcile,
}

pub data PathClass : Type 0 where
  class_none class_service class_collection class_item class_session class_prompt : PathClass

abbrev pub svc_base_path : Bytes
svc_base_path = codes "/org/freedesktop/secrets"

-- strings.Trim of one byte, on the left and on the right
unfoldable pub trim_left_byte : ℕ → Bytes → Bytes
trim_left_byte b [] = []
trim_left_byte b (c ∷ s) = if c == b then trim_left_byte b s else c ∷ s

unfoldable pub trim_right_byte : ℕ → Bytes → Bytes
trim_right_byte b [] = []
trim_right_byte b (c ∷ s) =
    let rest = trim_right_byte b s in if c == b && rest == [] then [] else c ∷ rest

abbrev pub one_below : Bytes → Bytes → Bool
one_below prefix rest = elim (cut_prefix prefix rest) [
  | none ↦ false
  | some id ↦ not (contains_byte id b'/')
]

abbrev pub classify_rest : Bytes → PathClass
classify_rest rest =
    if rest == []
    then class_service
    else if rest == codes "collection/login"
    then class_collection
    else if has_prefix rest (codes "aliases/")
    then class_collection
    else if one_below (codes "session/") rest
    then class_session
    else if one_below (codes "prompt/") rest
    then class_prompt
    else if one_below (codes "collection/login/") rest
    then class_item
    else class_none

unfoldable pub svc_classify : Bytes → PathClass
unfolding trim_left_byte trim_right_byte cut_prefix has_prefix contains_byte
svc_classify path = elim (cut_prefix svc_base_path path) [
  | none ↦ class_none
  | some rest ↦ classify_rest (trim_right_byte b'/' (trim_left_byte b'/' rest))
]

abbrev pub Answer : Type 0 → Age → Type 0
Answer A age = BusResult A × SvcDaemon age

abbrev pub row_found : {age : Age} → Option SvcItem → SvcDaemon age → Answer SvcItem age
row_found none d = (bus_err no_such_object, d)
row_found (some row) d = (bus_ok row, d)

abbrev pub row_reconciled :
    {age : Age} → Bytes → Result (Unit {0}) × SvcDaemon age → Answer SvcItem age
row_reconciled path (err e, d) = (bus_err failed, d)
row_reconciled path (ok _, d) = row_found (lookup path d.index) d

abbrev pub row_of_class :
    {age : Age} → PathClass → (Unit {0} → Answer SvcItem age) → SvcDaemon age → Answer SvcItem age
row_of_class class_item next d = next tt
row_of_class _ next d = (bus_err no_such_object, d)

unfoldable pub items_matching : Map Bytes Bytes → Map Bytes SvcItem → List Bytes
unfolding attrs_match
items_matching want [] = []
items_matching want ((path, row) ∷ index) =
    let rest = items_matching want index in if attrs_match row.attrs want then path ∷ rest else rest

-- `index.save`
abbrev pub save_index :
    {age : Age} → SvcWorld age → SvcDaemon age → Result (Unit {0}) × SvcDaemon age
save_index w d =
    if w.index_writes then (ok tt, record d { index_file = holds d.index }) else (err plain, d)

abbrev pub created_of : ℕ → Option SvcItem → ℕ
created_of now none = now
created_of now (some prev) = prev.created

abbrev pub item_row :
    ℕ → Bytes → Bytes → Bytes → Map Bytes Bytes → Bytes → Bytes → Option SvcItem → SvcItem
item_row now key svc acct attrs label item_type prev = record {
  key = key;
  label = if label == [] then label_of svc acct else label;
  attrs = attrs;
  item_type = item_type;
  created = created_of now prev;
  modified = now;
}

abbrev pub is_row : Option SvcItem → Bool
is_row none = false
is_row (some _) = true

module _ (digest : Bytes → Bytes) {age : Age} where
  unfoldable pub item_at : SvcWorld age → Bytes → SvcDaemon age → Answer SvcItem age
  unfolding svc_classify reconcile lookup
  item_at w path d =
      row_of_class (svc_classify path) (λ _. row_reconciled path (reconcile digest w d)) d

  -- A failure to reconcile is only logged.
  unfoldable pub search_items :
      SvcWorld age → Map Bytes Bytes → SvcDaemon age → List Bytes × SvcDaemon age
  unfolding reconcile items_matching sort_strings
  search_items w want d =
      let d' = (reconcile digest w d).1 in (sort_strings (items_matching want d'.index), d')

  unfoldable pub item_paths : SvcWorld age → SvcDaemon age → List Bytes × SvcDaemon age
  unfolding reconcile sort_strings
  item_paths w d = let d' = (reconcile digest w d).1 in (sort_strings (map_keys d'.index), d')

  -- If the index cannot be saved, the row in memory is put back; the secret is stored all the same.
  abbrev pub persist_row :
      SvcWorld age → Bytes → SvcItem → SvcDaemon age → Answer (Option Bytes) age
  persist_row w path row d =
      if w.index_writes
      then (
        bus_ok (some path),
        record d { index = insert path row d.index; index_file = holds (insert path row d.index) },
      )
      else (bus_err failed, d)

  abbrev pub stored_row :
      SvcWorld age
      → Bytes
      → SvcItem
      → SvcDaemon age
      → Outcome (Unit {0}) age
      → Answer (Option Bytes) age
  stored_row w path row d (err e, s) = (bus_err (bus_error_of e), record d { store = s })
  stored_row w path row d (ok _, s) = persist_row w path row (record d { store = s })

  abbrev pub create_at :
      SvcWorld age
      → Bytes
      → Bytes
      → Bytes
      → Bytes
      → Bytes
      → Map Bytes Bytes
      → Bytes
      → Bytes
      → Bool
      → Option SvcItem
      → SvcDaemon age
      → Answer (Option Bytes) age
  create_at w path key svc acct secret attrs label item_type replace prev d =
      if is_row prev && not replace
      then (bus_ok none, d)
      else if leb svc_max_items_global (length d.index) && not (is_row prev)
      then (bus_err invalid_args, d)
      else if ltb svc_max_attr_bytes (svc_attr_bytes attrs)
      then (bus_err invalid_args, d)
      else stored_row w path (item_row w.native.now key svc acct attrs label item_type prev) d
          (store_set w.native svc acct secret d.store)

  abbrev pub create_reconciled :
      SvcWorld age
      → Bytes
      → Bytes
      → Bytes
      → Bytes
      → Map Bytes Bytes
      → Bytes
      → Bytes
      → Bool
      → Result (Unit {0}) × SvcDaemon age
      → Answer (Option Bytes) age
  create_reconciled w key svc acct secret attrs label item_type replace (err e, d) =
      (bus_err failed, d)
  create_reconciled w key svc acct secret attrs label item_type replace (ok _, d) =
      create_at w (svc_item_path digest key) key svc acct secret attrs label item_type replace
        (lookup (svc_item_path digest key) d.index) d

  -- `none` is the empty path of an item that is there and must not be replaced.
  unfoldable pub create_item :
      SvcWorld age
      → Bytes
      → Bytes
      → Bytes
      → Bytes
      → Map Bytes Bytes
      → Bytes
      → Bytes
      → Bool
      → SvcDaemon age
      → Answer (Option Bytes) age
  unfolding reconcile lookup insert svc_attr_bytes
  create_item w key svc acct secret attrs label item_type replace d =
      create_reconciled w key svc acct secret attrs label item_type replace (reconcile digest w d)

  abbrev pub saved : Result (Unit {0}) × SvcDaemon age → Answer (Unit {0}) age
  saved (err e, d) = (bus_err failed, d)
  saved (ok _, d) = (bus_ok tt, d)

  -- `mutateItem` of the changed row, which the index still has; a row that cannot be saved stays changed
  -- in memory.
  unfoldable pub mutate_item :
      SvcWorld age → Bytes → SvcItem → SvcDaemon age → Answer (Unit {0}) age
  unfolding insert
  mutate_item w path row d = saved (
      save_index w
        (record d { index = insert path (record row { modified = w.native.now }) d.index }))
