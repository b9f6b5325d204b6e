-- ===== src/Daemon/Methods.antt =====
-- engine/svcobjects.go: the methods of the Secret Service interfaces that touch secrets and sessions. A
-- method that enters the mutex several times is written without what may come in between.
use oma_seal.Prelude.{
  ℕ, Bool, true, false, Option, none, some, List, [], ltb, leb, if◌then◌else◌, ◌==◌, nat_eq,
  bytes_eq, length, Map, lookup, remove, insert,
}
use oma_seal.Errors.{Result, ok, err}
use oma_seal.Bytes.{Bytes}
use oma_seal.Native.Crypto.{Age}
use oma_seal.Native.Key.{svc_split_key}
use oma_seal.Native.Items.{store_set, get, delete}
use oma_seal.Svc.{Aes, codec_decrypt}
use oma_seal.Daemon.{
  Codec, Session, SvcDaemon, SvcWorld, tally, session_of_uid, svc_max_sessions_per_uid,
}
use oma_seal.Daemon.Items.{
  BusResult, bus_err, bus_ok, is_locked, no_session, access_denied, invalid_args, unknown_object,
  failed, svc_max_secret_bytes, svc_item_key,
}
use oma_seal.Daemon.Lock.{locked, lock_daemon}
use oma_seal.Daemon.Rows.{svc_classify, Answer, item_at, create_item, save_index}
use oma_seal.Daemon.Calls.{
  Call, SvcSecret, svc_gate, session_for, encrypt, decrypt, is_service_class, is_collection_class,
  is_item_class, is_session_class, of_bus, then_answer, guard, on_class, of_outcome,
}

abbrev pub wrapped : Bytes → Bytes × Bytes → SvcSecret
wrapped session (params, value) = record { session = session; params = params; value = value }

-- What the daemon runs on: its user, the hash of item ids, and the cipher.
pub record Host : Type 0 where
  pub own_uid : ℕ
  pub digest : Bytes → Bytes
  pub aes : Aes

-- the secret that a client wraps, within the bound
abbrev pub small_secret : Result Bytes → BusResult Bytes
small_secret (err e) = bus_err invalid_args
small_secret (ok text) =
    if ltb svc_max_secret_bytes (length text) then bus_err invalid_args else bus_ok text

abbrev pub key_names : Option (Bytes × Bytes) → Bytes × Bytes
key_names none = ([], [])
key_names (some names) = names

module _ (h : Host) {age : Age} where
  abbrev pub wrap_secret :
      Codec → Option Bytes → Bytes → Bytes → SvcDaemon age → Answer SvcSecret age
  wrap_secret codec iv session text d =
      guard (of_bus failed (encrypt h.aes codec iv text)) (λ v. (bus_ok (wrapped session v), d)) d

  -- the store's `Get` of a credential, on the wire
  abbrev pub read_named :
      SvcWorld age
      → Bytes × Bytes
      → Codec
      → Option Bytes
      → Bytes
      → SvcDaemon age
      → Answer SvcSecret age
  read_named w (svc, acct) codec iv session d =
      then_answer (of_outcome d (get w.native svc acct d.store))
        (λ text d'. wrap_secret codec iv session text d')

  abbrev pub read_unlocked :
      SvcWorld age
      → Call
      → Session
      → Option Bytes
      → Bytes
      → Bool × SvcDaemon age
      → Answer SvcSecret age
  read_unlocked w c s iv session (true, d) = (bus_err is_locked, d)
  read_unlocked w c s iv session (false, d) =
      then_answer (item_at h.digest w c.path d)
        (λ row d'. read_named w (key_names (svc_split_key row.key)) s.codec iv session d')

  -- Item.GetSecret
  unfoldable pub get_secret :
      SvcWorld age → Call → Option Bytes → Bytes → SvcDaemon age → Answer SvcSecret age
  unfolding svc_classify svc_gate session_for locked item_at svc_split_key get
  get_secret w c iv session d = on_class (is_item_class (svc_classify c.path)) h.own_uid c d (λ _.
      guard (session_for c session d.sessions) (λ s. read_unlocked w c s iv session (locked w d)) d)

  abbrev pub with_sent_secret :
      {B : Type 0} → Call → SvcSecret → SvcDaemon age → (Bytes → Answer B age) → Answer B age
  with_sent_secret c secret d next =
      guard (session_for c secret.session d.sessions)
        (λ s. guard (small_secret (decrypt h.aes s.codec secret.params secret.value)) next d) d

  abbrev pub store_secret :
      SvcWorld age → Bytes × Bytes → Bytes → SvcDaemon age → Answer (Unit {0}) age
  store_secret w (svc, acct) text d = of_outcome d (store_set w.native svc acct text d.store)

  -- Item.SetSecret
  unfoldable pub set_secret :
      SvcWorld age → Call → SvcSecret → SvcDaemon age → Answer (Unit {0}) age
  unfolding svc_classify svc_gate session_for item_at svc_split_key codec_decrypt
  set_secret w c secret d = on_class (is_item_class (svc_classify c.path)) h.own_uid c d (λ _.
      with_sent_secret c secret d (λ text.
        then_answer (item_at h.digest w c.path d)
          (λ row d'. store_secret w (key_names (svc_split_key row.key)) text d')))

  abbrev pub item_created : Option Bytes → SvcDaemon age → Answer Bytes age
  item_created none d = (bus_err invalid_args, d)
  item_created (some path) d = (bus_ok path, d)

  abbrev pub create_named :
      SvcWorld age
      → Bytes
      → Bytes × Bytes
      → Bytes
      → Map Bytes Bytes
      → Bytes
      → Bytes
      → Bool
      → SvcDaemon age
      → Answer Bytes age
  create_named w key (svc, acct) text attrs label item_type replace d =
      then_answer (create_item h.digest w key svc acct text attrs label item_type replace d)
        item_created

  -- Collection.CreateItem
  unfoldable pub svc_create :
      SvcWorld age
      → Call
      → SvcSecret
      → Map Bytes Bytes
      → Bytes
      → Bytes
      → Bool
      → SvcDaemon age
      → Answer Bytes age
  unfolding svc_classify svc_gate session_for create_item svc_item_key svc_split_key codec_decrypt
  svc_create w c secret attrs label item_type replace d =
      on_class (is_collection_class (svc_classify c.path)) h.own_uid c d (λ _.
        with_sent_secret c secret d (λ text.
          create_named w (svc_item_key h.digest attrs)
            (key_names (svc_split_key (svc_item_key h.digest attrs))) text attrs label item_type
            replace d))

  -- A failure to save the index is only logged.
  abbrev pub row_deleted : SvcWorld age → Bytes → SvcDaemon age → SvcDaemon age
  row_deleted w path d = (save_index w (record d { index = remove path d.index })).1

  abbrev pub delete_row :
      SvcWorld age → Bytes → Bytes × Bytes → SvcDaemon age → Answer (Unit {0}) age
  delete_row w path (svc, acct) d =
      then_answer (of_outcome d (delete w.native svc acct d.store))
        (λ _ d'. (bus_ok tt, row_deleted w path d'))

  -- Item.Delete
  unfoldable pub delete_item : SvcWorld age → Call → SvcDaemon age → Answer (Unit {0}) age
  unfolding svc_classify svc_gate item_at svc_split_key remove
  delete_item w c d = on_class (is_item_class (svc_classify c.path)) h.own_uid c d (λ _.
      then_answer (item_at h.digest w c.path d)
        (λ row d'. delete_row w c.path (key_names (svc_split_key row.key)) d'))

  -- Service.OpenSession, once its algorithm has given a codec; `fresh` is the random path.
  abbrev pub add_session :
      Codec → Call → ℕ → Bytes → SvcWorld age → SvcDaemon age → Answer Bytes age
  add_session codec c uid fresh w d =
      if leb svc_max_sessions_per_uid (tally (session_of_uid uid) d.sessions)
      then (bus_err access_denied, d)
      else (
        bus_ok fresh,
        record d {
          sessions =
              insert fresh
                (record { owner = c.sender; uid = uid; codec = codec; opened = w.native.now })
                d.sessions;
        },
      )

  unfoldable pub svc_open_session :
      BusResult Codec → SvcWorld age → Call → Bytes → SvcDaemon age → Answer Bytes age
  unfolding svc_classify svc_gate tally insert
  svc_open_session codec w c fresh d =
      on_class (is_service_class (svc_classify c.path)) h.own_uid c d
        (λ uid. guard codec (λ k. add_session k c uid fresh w d) d)

  -- Service.Lock
  unfoldable pub lock_service :
      SvcWorld age → Call → List Bytes → SvcDaemon age → Answer (List Bytes) age
  unfolding svc_classify svc_gate lock_daemon
  lock_service w c objects d =
      on_class (is_service_class (svc_classify c.path)) h.own_uid c d
        (λ _. (bus_ok objects, lock_daemon w d))

abbrev pub close_found : {age : Age} → Option Session → Call → SvcDaemon age → Answer (Unit {0}) age
close_found none c d = (bus_err no_session, d)
close_found (some s) c d =
    if s.owner == c.sender
    then (bus_ok tt, record d { sessions = remove c.path d.sessions })
    else (bus_err access_denied, d)

-- Session.Close
unfoldable pub close_session : {age : Age} → Call → SvcDaemon age → Answer (Unit {0}) age
unfolding svc_classify lookup remove
close_session c d =
    if is_session_class (svc_classify c.path)
    then close_found (lookup c.path d.sessions) c d
    else (bus_err unknown_object, d)
