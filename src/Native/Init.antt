-- ===== src/Native/Init.antt =====
-- engine/nativestore.go: the first initialisation of the store, and its repair.
use oma_seal.Prelude.{
  ℕ, ◌+◌, ◌≡◌, ap, not, ◌&&◌, Option, none, some, [], ◌∷◌, if◌then◌else◌, ◌==◌, nat_eq, bytes_eq,
}
use oma_seal.Errors.{Error, ok, err, plain, new_error, store_uninitialized, message}
use oma_seal.Bytes.{Bytes}
use oma_seal.Files.{File, absent, holds}
use oma_seal.Native.Crypto.{Age, identity_text}
use oma_seal.Native.Store.{
  NativeStore, World, Outcome, identity_target, pub_target, keyring_error, then_do, session_ttl,
  seed_session, ensure_identity,
}

abbrev pub uninitialized : Error
uninitialized = new_error store_uninitialized message

-- The wrapped identity of a passphrase that is not empty
abbrev pub wrap_native_identity : (age : Age) → ℕ → age.Identity → Bytes → age.Cipher
wrap_native_identity age draw i pass = age.wrap draw pass (identity_text i)

module _ {age : Age} where
  abbrev pub read_pub : File age.Recipient → NativeStore age → Outcome (Unit {0}) age
  read_pub (holds r) s = (ok tt, record s { pub_key = some r })
  read_pub _ s = (err keyring_error, s)

  unfoldable pub load_pub : NativeStore age → Outcome (Unit {0}) age
  load_pub s = read_pub s.pub_file s

  abbrev pub write_pub : World age → Option age.Identity → NativeStore age → Outcome (Unit {0}) age
  write_pub w none s = (err plain, s)
  write_pub w (some i) s =
      if w.writes pub_target
      then (
        ok tt,
        record s { pub_file = holds (age.recipient i); pub_key = some (age.recipient i) },
      )
      else (err keyring_error, s)

  -- The identity is there once `ensureIdentity` has succeeded.
  unfoldable pub heal_pub : World age → NativeStore age → Outcome (Unit {0}) age
  unfolding ensure_identity
  heal_pub w s = then_do (ensure_identity w s) (λ _ s'. write_pub w s'.identity s')

  abbrev pub or_heal : World age → Outcome (Unit {0}) age → Outcome (Unit {0}) age
  or_heal w (ok _, s) = (ok tt, s)
  or_heal w (err _, s) = heal_pub w s

  abbrev pub adopt : World age → age.Cipher → NativeStore age → Outcome (Unit {0}) age
  adopt w blob s = or_heal w (load_pub (record s { identity_enc = some blob }))

  abbrev pub with_rival :
      Option (age.Cipher × File age.Recipient) → NativeStore age → NativeStore age
  with_rival none s = s
  with_rival (some (blob, f)) s = record s { identity_file = holds blob; pub_file = f }

  -- The two files and then the session, with the identity that was drawn.
  abbrev pub create : World age → Bytes → NativeStore age → Outcome (Unit {0}) age
  create w pass s =
      let i = age.generate w.draw in
      let wrapped = wrap_native_identity age (w.draw + 1) i pass in
      if not (w.writes identity_target)
      then (err keyring_error, s)
      else let s1 = record s { identity_file = holds wrapped } in
        if not (w.writes pub_target)
        then (err keyring_error, s1)
        else seed_session w (w.draw + 2) (w.now + session_ttl) (record s1 {
          pub_file = holds (age.recipient i);
          identity = some i;
          identity_enc = some wrapped;
          pub_key = some (age.recipient i);
        })

  abbrev pub confirm :
      World age → Option Bytes → Option Bytes → NativeStore age → Outcome (Unit {0}) age
  confirm w none second s = (err uninitialized, s)
  confirm w (some []) second s = (err uninitialized, s)
  confirm w (some (c ∷ pass)) none s = (err uninitialized, s)
  confirm w (some (c ∷ pass)) (some again) s =
      if again == c ∷ pass then create w (c ∷ pass) s else (err uninitialized, s)

  -- under the lock
  abbrev pub init_locked : World age → File age.Cipher → NativeStore age → Outcome (Unit {0}) age
  init_locked w (holds blob) s = adopt w blob s
  init_locked w absent s = confirm w w.first_answer w.second_answer s
  init_locked w _ s = (err keyring_error, s)

  unfoldable pub init_fresh : World age → NativeStore age → Outcome (Unit {0}) age
  unfolding load_pub heal_pub seed_session
  init_fresh w s =
      if not (w.can_prompt && w.tty)
      then (err uninitialized, s)
      else if not w.locks
      then (err keyring_error, s)
      else let s' = with_rival w.rival s in init_locked w s'.identity_file s'

  abbrev pub init_from : World age → File age.Cipher → NativeStore age → Outcome (Unit {0}) age
  init_from w absent s = init_fresh w s
  init_from w (holds blob) s = adopt w blob s
  init_from w _ s = (err keyring_error, s)

  abbrev pub init_unless :
      Option age.Recipient → World age → NativeStore age → Outcome (Unit {0}) age
  init_unless (some _) w s = (ok tt, s)
  init_unless none w s = init_from w s.identity_file s

  unfoldable pub ensure_init : World age → NativeStore age → Outcome (Unit {0}) age
  unfolding load_pub heal_pub init_fresh
  ensure_init w s = init_unless s.pub_key w s

  pub ensure_init-known :
      (w : World age) (s : NativeStore age) (r : age.Recipient)
      → s.pub_key ≡ some r
      → ensure_init w s ≡ (ok tt, s)
  unfolding ensure_init
  ensure_init-known w s r k = ap (λ o. init_unless o w s) k
