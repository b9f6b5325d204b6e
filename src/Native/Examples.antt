-- ===== src/Native/Examples.antt =====
-- Concrete uses of the store (engine/nativestore_test.go has such cases).
use oma_seal.Prelude.{
  ◌*◌, ◌≡◌, refl, inl, true, false, none, some, [], arith, bytes_beq, nat_eq, bytes_eq, lookup,
  remove, insert, ℕ, ◌∷◌,
}
use oma_seal.Errors.{
  unlock_denied, message, ok, err, sentinel, item_exists, new_error, tamper, native_tamper,
  unlock_denied,
}
use oma_seal.Bytes.{codes, Bytes}
use oma_seal.Files.{absent, holds}
use oma_seal.Native.Key.{native_key, svc_split_key, svc_split_key-native_key}
use oma_seal.Native.Crypto.{identity_text}
use oma_seal.Native.Init.{ensure_init, init_fresh}
use oma_seal.Native.Store.{
  NativeItem, NativeSession, unlock_identity, clear_native_session, ensure_identity, locked_error,
  session_of, NativeStore, seed_session,
}
use oma_seal.Native.Items.{set, migrate_set, get, delete, list, read, not_found_error}
use oma_seal.Native.Roundtrip.{Unlocked, get-set, cipher_of}
use oma_seal.Native.Isolation.{migrate_set-present, get-delete, get-moved, item_of}
use oma_seal.Bytes.Utf8.{valid_utf8_from, json_text_from}
use oma_seal.Native.Session.{unlock-session, get-cleared, get-expired}
use oma_seal.Native.Identity.{nothing, one_more, did_set, did_get, restarted, identity_kept}
use oma_seal.Native.Locked.{SameEffect, locked_operations}
use oma_seal.Native.Fresh.{first_call_opens}
use oma_seal.Native.Toy.{
  toy, toy_laws, empty_store, hour, agent_world, pass_rest, pass, user_world, ready, locked_store,
  github, token, secret, filled, opened, to_recipient, to_passphrase,
}

-- the item that `filled` holds
abbrev stolen : NativeItem toy
stolen = record {
  ct = some (cipher_of agent_world 103 github token secret);
  created = 36000;
  updated = 36000;
  external = false;
}

opened-Unlocked : Unlocked 3 opened
unfolding set bytes_beq
opened-Unlocked = record { knows_pub = refl; knows_identity = refl }

-- what the first call leaves, as a process that starts later finds it
abbrev initialized : NativeStore toy
initialized = (ensure_init user_world empty_store).1

abbrev later : NativeStore toy
later = record empty_store {
  identity_file = initialized.identity_file;
  pub_file = initialized.pub_file;
}

first_call_opens_example :
    (first : ℕ) × (rest : Bytes) × (i : ℕ) × (user_world.first_answer ≡ some (first ∷ rest))
    × (user_world.second_answer ≡ some (first ∷ rest))
    × (later.pub_file ≡ holds (toy.recipient i))
    × ((unlock_identity agent_world (first ∷ rest) hour later).1.identity ≡ some i)
    × ((unlock_identity agent_world (codes "sesame") hour later).0
        ≡ err (new_error unlock_denied message))
    × ((unlock_identity agent_world (codes "sesame") hour later).1.identity ≡ none)
unfolding ensure_init init_fresh seed_session bytes_beq
first_call_opens_example =
    first_call_opens toy_laws user_world agent_world empty_store later (b's') (codes "esame") hour
      refl refl refl refl refl refl refl (λ e. cc e)

get-set_example : (get agent_world github token opened).0 ≡ ok secret
unfolding set bytes_beq lookup valid_utf8_from
get-set_example =
    get-set toy_laws agent_world agent_world github token secret true false 3 locked_store opened
      refl refl refl opened-Unlocked refl refl refl

-- A secret of the bytes 255 and 'a' comes back as U+FFFD and 'a'.
abbrev garbled : NativeStore toy
garbled = record (set agent_world github token (255 ∷ b'a' ∷ []) true false locked_store).1 {
  identity = some 3;
}

not_utf8 : (get agent_world github token garbled).0 ≡ ok (239 ∷ 191 ∷ 189 ∷ b'a' ∷ [])
unfolding get set bytes_beq lookup insert read json_text_from native_key
not_utf8 = refl

locked_operations_example :
    SameEffect
      (set agent_world github token secret true false locked_store)
      (set agent_world github token secret true false ready)
    × SameEffect
        (delete agent_world github token locked_store)
        (delete agent_world github token ready)
    × SameEffect (list agent_world github locked_store) (list agent_world github ready)
locked_operations_example =
    locked_operations agent_world github token secret true false 103 locked_store ready refl refl
      refl

get-moved_example :
    (get agent_world
      (codes "aws")
      token
      (record ready { store_file = holds (insert (native_key (codes "aws") token) stolen []) })).0
    ≡ err (new_error tamper native_tamper)
unfolding lookup insert native_key read bytes_beq json_text_from
get-moved_example =
    get-moved toy_laws agent_world agent_world github token secret (codes "aws") token 3 _ _ stolen
      (record { knows_pub = refl; knows_identity = refl }) refl refl refl (λ e. cc) (λ e. cc)
      (λ e. cc e.0)

filled-item : item_of github token filled ≡ some stolen
unfolding set bytes_beq lookup insert
filled-item = refl

migrate_set-present_example :
    ((migrate_set agent_world github token (codes "other") false filled).0
      ≡ err (sentinel item_exists))
    × (item_of github token (migrate_set agent_world github token (codes "other") false filled).1
        ≡ some stolen)
unfolding set bytes_beq
migrate_set-present_example =
    migrate_set-present agent_world github token (codes "other") false 103 filled stolen refl
      (λ e. cc) (λ e. cc) (λ e. cc) refl filled-item

get-delete_example :
    (get agent_world github token
      (record (delete agent_world github token filled).1 { identity = some 3 })).0
    ≡ err not_found_error
unfolding set delete bytes_beq lookup insert remove
get-delete_example =
    get-delete agent_world agent_world github token 103 3 filled _ refl refl refl
      (record { knows_pub = refl; knows_identity = refl })

unlock-session_example :
    ensure_identity agent_world (record locked_store {
      session_json = holds (session_of 7 (11 * hour));
      session_age = holds (to_recipient 107 (identity_text 3));
    })
    ≡ (
      ok tt,
      record ready {
        session_json = holds (session_of 7 (11 * hour));
        session_age = holds (to_recipient 107 (identity_text 3));
      },
    )
unfolding unlock_identity bytes_beq
unlock-session_example =
    unlock-session toy_laws agent_world agent_world (b'o') pass_rest 0 (11 * hour) 3 locked_store _
      (record { on_disk = refl; in_memory = inl refl }) refl refl refl refl (omega arith)

get-cleared_example :
    get agent_world github token (clear_native_session agent_world opened).1
    ≡ (err locked_error, (clear_native_session agent_world opened).1)
unfolding set clear_native_session bytes_beq lookup insert read
get-cleared_example =
    get-cleared agent_world agent_world github token opened
      (clear_native_session agent_world opened).1 _ stolen 103 refl refl refl refl refl (λ e. cc)
      (λ e. cc) refl refl

abbrev stale : NativeSession toy
stale = session_of 7 hour

get-expired_example :
    get agent_world github token (record filled { session_json = holds stale })
    ≡ (err locked_error, record filled { session_json = absent; session_age = absent })
unfolding set bytes_beq lookup insert read
get-expired_example =
    get-expired agent_world github token stale (record filled { session_json = holds stale }) _
      stolen 103 refl (omega arith) refl refl refl refl refl (λ e. cc) (λ e. cc) refl refl

identity_kept_example :
    (get agent_world github token (record (set agent_world github token secret true false ready).1 {
      pub_key = none;
      identity = none;
      identity_enc = none;
    })).1.identity_file
    ≡ holds (to_passphrase pass (identity_text 3))
identity_kept_example =
    identity_kept {age = toy} (to_passphrase pass (identity_text 3)) {s = ready} refl (
      one_more
        (one_more
          (one_more (nothing ready) (did_set agent_world github token secret true false ready))
          (restarted _))
        (did_get agent_world github token _))

svc_split_key-native_key_example : svc_split_key (native_key github token) ≡ some (github, token)
svc_split_key-native_key_example = svc_split_key-native_key github token
