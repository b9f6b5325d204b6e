-- ===== src/Native/Items.antt =====
-- engine/nativestore.go: the operations on the items of the store.
use oma_seal.Prelude.{
  ℕ, ◌+◌, Bool, true, false, not, ◌&&◌, ◌||◌, Option, none, some, List, [], ◌∷◌, if◌then◌else◌,
  ◌==◌, nat_eq, bytes_eq, lookup, remove, insert,
}
use oma_seal.Errors.{
  Error, Result, ok, err, plain, sentinel, new_error, not_found, tamper, keyring_not_found,
  native_tamper, item_exists,
}
use oma_seal.Bytes.{Bytes}
use oma_seal.Bytes.Cut.{cut}
use oma_seal.Files.{File, absent, unreadable, corrupt, holds, unix, at_unix}
use oma_seal.Native.Key.{separator, unesc_key_part, native_key}
use oma_seal.Native.Crypto.{
  Age, Envelope, Plaintext, marshal, envelope_text, identity_text, other_text,
}
use oma_seal.Native.Store.{
  NativeItem, NativeDoc, NativeStore, World, Outcome, store_target, keyring_error, then_do,
  ensure_identity,
}
use oma_seal.Native.Init.{ensure_init}

-- What `List` shows of an item; the label is made of the two names.
pub record Item : Type 0 where
  pub service : Bytes
  pub account : Bytes
  pub created_at : ℕ
  pub updated_at : ℕ
  pub owned : Bool

abbrev pub is_present {ℓ} : {A : Type ℓ} → Option A → Bool
is_present none = false
is_present (some _) = true

abbrev pub keep_some {ℓ κ} : {A : Type ℓ} {B : Type κ} → (A → Option B) → List A → List B
keep_some f [] = []
keep_some f (a ∷ l) = let rest = keep_some f l in elim (f a) [ none ↦ rest | some b ↦ b ∷ rest ]

abbrev pub read_file {ℓ} : {A : Type ℓ} → File (List A) → Result (List A)
read_file absent = ok []
read_file unreadable = err keyring_error
read_file corrupt = err keyring_error
read_file (holds d) = ok d

abbrev pub not_found_error : Error
not_found_error = new_error not_found keyring_not_found

abbrev pub check_name : Bytes → Bytes → Envelope → Result Bytes
check_name service account env =
    if env.svc == service && env.acct == account
    then ok env.value
    else err (new_error tamper native_tamper)

abbrev pub open_envelope : {I : Type 0} → Bytes → Bytes → Plaintext I → Result Bytes
open_envelope service account (envelope_text env) = check_name service account env
open_envelope service account (identity_text _) = err keyring_error
open_envelope service account (other_text _) = err keyring_error

abbrev pub open_decrypted : {I : Type 0} → Bytes → Bytes → Option (Plaintext I) → Result Bytes
open_decrypted service account none = err keyring_error
open_decrypted service account (some m) = open_envelope service account m

abbrev pub open_cipher :
    (age : Age) → Bytes → Bytes → age.Identity → Option age.Cipher → Result Bytes
open_cipher age service account i none = err keyring_error
open_cipher age service account i (some c) = open_decrypted service account (age.decrypt i c)

module _ {age : Age} where
  unfoldable pub read : NativeStore age → Result (NativeDoc age)
  read s = read_file s.store_file

  -- what an update sees under the lock
  abbrev pub locked_read : World age → NativeStore age → Result (NativeDoc age)
  locked_read w s = if w.locks then read s else err keyring_error

  abbrev pub write_doc :
      Result (NativeDoc age)
      → World age
      → (NativeDoc age → NativeDoc age)
      → NativeStore age
      → Outcome (Unit {0}) age
  write_doc (err e) w f s = (err e, s)
  write_doc (ok d) w f s =
      if w.writes store_target
      then (ok tt, record s { store_file = holds (f d) })
      else (err plain, s)

  unfoldable pub update :
      World age → (NativeDoc age → NativeDoc age) → NativeStore age → Outcome (Unit {0}) age
  unfolding read
  update w f s = write_doc (locked_read w s) w f s

  abbrev pub created_at : ℕ → Option (NativeItem age) → ℕ
  created_at now none = unix now
  created_at now (some it) = it.created

  -- The key is UTF-8, as the names are that the commands accept and that D-Bus carries, so that the
  -- document is read back under the key that it is written with.
  abbrev pub put_item : ℕ → Bytes → age.Cipher → Bool → NativeDoc age → NativeDoc age
  put_item now key c owned d =
      insert key
        (record {
          ct = some c;
          created = created_at now (lookup key d);
          updated = unix now;
          external = not owned;
        })
        d

  -- the change that `set` makes under the lock
  abbrev pub put : ℕ → Bytes → age.Cipher → Bool → Bool → NativeDoc age → NativeDoc age
  put now key c owned if_absent d =
      if is_present (lookup key d) && if_absent then d else put_item now key c owned d

  abbrev pub has_key : Bytes → Result (NativeDoc age) → Bool
  has_key key (err e) = false
  has_key key (ok d) = is_present (lookup key d)

  abbrev pub set_value :
      World age → Bytes → age.Cipher → Bool → Bool → NativeStore age → Outcome (Unit {0}) age
  set_value w key c owned if_absent s =
      let (r, s') = update w (put w.now key c owned if_absent) s in
      (if has_key key (locked_read w s) && if_absent then err (sentinel item_exists) else r, s')

  -- `ensureInit` has found the recipient.
  abbrev pub set_ready :
      World age
      → Bytes
      → Bytes
      → Bytes
      → Bool
      → Bool
      → Option age.Recipient
      → NativeStore age
      → Outcome (Unit {0}) age
  set_ready w service account secret owned if_absent none s = (err keyring_error, s)
  set_ready w service account secret owned if_absent (some r) s =
      set_value w (native_key service account)
        (age.encrypt (w.draw + 4) r (envelope_text (marshal service account secret))) owned
        if_absent s

  unfoldable pub set :
      World age → Bytes → Bytes → Bytes → Bool → Bool → NativeStore age → Outcome (Unit {0}) age
  unfolding ensure_init update read native_key
  set w service account secret owned if_absent s =
      if service == [] || account == [] || secret == []
      then (err plain, s)
      else then_do (ensure_init w s)
          (λ _ s'. set_ready w service account secret owned if_absent s'.pub_key s')

  -- `Set` and `migrateSet`
  abbrev pub store_set :
      World age → Bytes → Bytes → Bytes → NativeStore age → Outcome (Unit {0}) age
  store_set w service account secret s = set w service account secret true false s

  abbrev pub migrate_set :
      World age → Bytes → Bytes → Bytes → Bool → NativeStore age → Outcome (Unit {0}) age
  migrate_set w service account secret owned s = set w service account secret owned true s

  -- `ensureIdentity` has found the identity.
  abbrev pub open_item : Bytes → Bytes → NativeItem age → Option age.Identity → Result Bytes
  open_item service account it none = err keyring_error
  open_item service account it (some i) = open_cipher age service account i it.ct

  abbrev pub get_item :
      World age → Bytes → Bytes → Option (NativeItem age) → NativeStore age → Outcome Bytes age
  get_item w service account none s = (err not_found_error, s)
  get_item w service account (some it) s =
      then_do (ensure_identity w s) (λ _ s'. (open_item service account it s'.identity, s'))

  abbrev pub get_from :
      Result (NativeDoc age) → World age → Bytes → Bytes → NativeStore age → Outcome Bytes age
  get_from (err e) w service account s = (err e, s)
  get_from (ok d) w service account s =
      get_item w service account (lookup (native_key service account) d) s

  unfoldable pub get : World age → Bytes → Bytes → NativeStore age → Outcome Bytes age
  unfolding ensure_init ensure_identity read native_key
  get w service account s =
      if service == [] || account == []
      then (err plain, s)
      else then_do (ensure_init w s) (λ _ s'. get_from (read s') w service account s')

  abbrev pub deleted : Bool → Outcome (Unit {0}) age → Outcome (Unit {0}) age
  deleted found (err e, s) = (err e, s)
  deleted found (ok _, s) = if found then (ok tt, s) else (err not_found_error, s)

  abbrev pub delete_key : World age → Bytes → NativeStore age → Outcome (Unit {0}) age
  delete_key w key s = deleted (has_key key (locked_read w s)) (update w (remove key) s)

  unfoldable pub delete : World age → Bytes → Bytes → NativeStore age → Outcome (Unit {0}) age
  unfolding ensure_init update read native_key
  delete w service account s =
      if service == [] || account == []
      then (err plain, s)
      else then_do (ensure_init w s) (λ _ s'. delete_key w (native_key service account) s')

  -- the item of one key, if `service`, unless it is empty, is the item's
  abbrev pub list_item : Bytes → Bytes × NativeItem age → Option Item
  list_item service (key, it) =
      let (raw_svc, raw_acct, found) = cut key separator in
      if not found || raw_svc == [] || raw_acct == []
      then none
      else let svc = unesc_key_part raw_svc in
        if not (service == []) && not (svc == service)
        then none
        else some (record {
          service = svc;
          account = unesc_key_part raw_acct;
          created_at = at_unix it.created;
          updated_at = at_unix it.updated;
          owned = not it.external;
        })

  abbrev pub list_from : Result (NativeDoc age) → Bytes → Result (List Item)
  list_from (err e) service = err e
  list_from (ok d) service = ok (keep_some (list_item service) d)

  unfoldable pub list : World age → Bytes → NativeStore age → Outcome (List Item) age
  unfolding ensure_init read cut unesc_key_part
  list w service s = then_do (ensure_init w s) (λ _ s'. (list_from (read s') service, s'))
