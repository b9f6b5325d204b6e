-- ===== src/Native/Store.antt =====
-- engine/nativestore.go: the store's state, its files, the unlocking of its identity, and its
-- initialisation.
use oma_seal.Prelude.{
  ℕ, suc, ◌+◌, ◌*◌, ◌≡◌, ap, Bool, not, Option, none, some, [], ◌∷◌, ltb, if◌then◌else◌, nat_eq,
  bytes_eq, Map,
}
use oma_seal.Errors.{
  Error, Result, ok, err, plain, sentinel, new_error, keyring_unavailable, store_uninitialized,
  unlock_denied, locked, message, native_locked, not_exist,
}
use oma_seal.Bytes.{Bytes}
use oma_seal.Files.{File, absent, unreadable, corrupt, holds, second, unix}
use oma_seal.Agent.{Agent, join, remove_if_exists, mint_agent_session_if_ask}
use oma_seal.Native.Crypto.{Age, Plaintext, envelope_text, identity_text, other_text}

-- `ct` is what the base64 text decodes to, if it is base64.
pub record NativeItem (age : Age) : Type 0 where
  pub ct : Option age.Cipher
  pub created : ℕ
  pub updated : ℕ
  pub external : Bool

-- `items`, by store key. A file without text or without items holds no items.
abbrev pub NativeDoc : Age → Type 0
NativeDoc age = Map Bytes (NativeItem age)

-- `session_key` is `none` for a text that is no identity.
pub record NativeSession (age : Age) : Type 0 where
  pub session_key : Option age.Identity
  pub expires : ℕ

-- The files, and what one process has in memory. A file of ciphertext is never `corrupt`: any bytes
-- are a ciphertext, if one that nobody can decrypt.
pub record NativeStore (age : Age) : Type 0 where
  pub identity_file : File age.Cipher
  pub pub_file : File age.Recipient
  pub store_file : File (NativeDoc age)
  pub session_json : File (NativeSession age)
  pub session_age : File age.Cipher
  pub pub_key : Option age.Recipient
  pub identity : Option age.Identity
  pub identity_enc : Option age.Cipher
  pub agent : Agent

-- The files that a call writes or removes.
pub data Target : Type 0 where
  identity_target pub_target store_target session_json_target session_age_target agent_target :
      Target

-- The world of one call: the time, whether `prompt` is set, stdin is a terminal, and what the user
-- types at the first and at the second prompt; the random draws; what the file system takes; and the
-- identity pair that another process creates while this one waits for the lock.
pub record World (age : Age) : Type 0 where
  pub now : ℕ
  pub can_prompt : Bool
  pub tty : Bool
  pub first_answer : Option Bytes
  pub second_answer : Option Bytes
  pub draw : ℕ
  pub locks : Bool
  pub writes : Target → Bool
  pub removes : Target → Bool
  pub rival : Option (age.Cipher × File age.Recipient)

abbrev pub Outcome : Type 0 → Age → Type 0
Outcome A age = Result A × NativeStore age

abbrev pub keyring_error : Error
keyring_error = new_error keyring_unavailable message

abbrev pub then_do :
    {age : Age} {A B : Type 0}
    → Outcome A age
    → (A → NativeStore age → Outcome B age)
    → Outcome B age
then_do (ok a, s) k = k a s
then_do (err e, s) k = (err e, s)

abbrev pub locked_error : Error
locked_error = new_error locked native_locked

abbrev pub session_ttl : ℕ
session_ttl = 15 * 60 * second

-- the text of the plaintext, parsed as an identity
abbrev pub parse_identity : {I : Type 0} → Plaintext I → Option I
parse_identity (identity_text i) = some i
parse_identity (envelope_text _) = none
parse_identity (other_text _) = none

abbrev pub opened_identity : {I : Type 0} → Option (Plaintext I) → Option I
opened_identity none = none
opened_identity (some m) = parse_identity m

abbrev pub parsed : {I : Type 0} → Option I → Result I
parsed none = err keyring_error
parsed (some i) = ok i

abbrev pub parse_unwrapped : {I : Type 0} → Option (Plaintext I) → Result I
parse_unwrapped none = err (new_error unlock_denied message)
parse_unwrapped (some m) = parsed (parse_identity m)

abbrev pub read_identity_file {ℓ} : {C : Type ℓ} → File C → Result C
read_identity_file absent = err (new_error store_uninitialized not_exist)
read_identity_file unreadable = err keyring_error
read_identity_file corrupt = err keyring_error
read_identity_file (holds blob) = ok blob

abbrev pub blob_or_read : {C : Type 0} → Option C → File C → Result C
blob_or_read (some blob) f = ok blob
blob_or_read none f = read_identity_file f

module _ (age : Age) where
  -- age.NewScryptIdentity refuses an empty passphrase.
  abbrev pub unwrap_blob : Bytes → age.Cipher → Result age.Identity
  unwrap_blob [] blob = err keyring_error
  unwrap_blob (c ∷ pass) blob = parse_unwrapped (age.unwrap (c ∷ pass) blob)

  -- The session is encrypted to an identity of its own.
  abbrev pub sealed_identity : ℕ → age.Identity → age.Cipher
  sealed_identity draw i =
      age.encrypt (suc draw) (age.recipient (age.generate draw)) (identity_text i)

  -- the identity in the session's ciphertext
  abbrev pub open_session : age.Identity → File age.Cipher → Option age.Identity
  open_session key (holds blob) = opened_identity (age.decrypt key blob)
  open_session key _ = none

  abbrev pub session_identity : Option age.Identity → File age.Cipher → Option age.Identity
  session_identity none f = none
  session_identity (some key) f = open_session key f

module _ {age : Age} where
  abbrev pub identity_blob : NativeStore age → Result age.Cipher
  identity_blob s = blob_or_read s.identity_enc s.identity_file

  abbrev pub unwrap_read : Result age.Cipher → Bytes → NativeStore age → Outcome age.Identity age
  unwrap_read (err e) pass s = (err e, s)
  unwrap_read (ok blob) pass s = (unwrap_blob age pass blob, record s { identity_enc = some blob })

  unfoldable pub unwrap_identity_pass : Bytes → NativeStore age → Outcome age.Identity age
  unwrap_identity_pass pass s = unwrap_read (identity_blob s) pass s

  unfoldable pub unwrap_identity : Bytes → NativeStore age → Outcome (Unit {0}) age
  unfolding unwrap_identity_pass
  unwrap_identity pass s =
      then_do (unwrap_identity_pass pass s) (λ i s'. (ok tt, record s' { identity = some i }))

  abbrev pub session_of : ℕ → ℕ → NativeSession age
  session_of draw expires = record {
    session_key = some (age.generate draw);
    expires = unix expires;
  }

  abbrev pub write_session :
      World age → ℕ → ℕ → age.Identity → NativeStore age → Outcome (Unit {0}) age
  write_session w draw expires i s =
      if not (w.writes session_json_target)
      then (err keyring_error, s)
      else let s' = record s { session_json = holds (session_of draw expires) } in
        if w.writes session_age_target
        then (ok tt, record s' { session_age = holds (sealed_identity age draw i) })
        else (err plain, s')

  abbrev pub seed_from :
      Option age.Identity → World age → ℕ → ℕ → NativeStore age → Outcome (Unit {0}) age
  seed_from none w draw expires s = (err (sentinel native_locked), s)
  seed_from (some i) w draw expires s = write_session w draw expires i s

  unfoldable pub seed_session : World age → ℕ → ℕ → NativeStore age → Outcome (Unit {0}) age
  seed_session w draw expires s = seed_from s.identity w draw expires s

  unfoldable pub unlock_identity : World age → Bytes → ℕ → NativeStore age → Outcome (Unit {0}) age
  unfolding unwrap_identity seed_session
  unlock_identity w pass expires s =
      then_do (unwrap_identity pass s) (λ _ s'. seed_session w w.draw expires s')

  unfoldable pub unlink_session_files : World age → NativeStore age → Outcome (Unit {0}) age
  unlink_session_files w s =
      let (r, json) = remove_if_exists (w.removes session_json_target) s.session_json in
      let (q, blob) = remove_if_exists (w.removes session_age_target) s.session_age in
      (join r q, record s { session_json = json; session_age = blob })

  unfoldable pub clear_native_session : World age → NativeStore age → Outcome (Unit {0}) age
  unfolding unlink_session_files
  clear_native_session w s = unlink_session_files w (record s { identity = none })

  abbrev pub hold_identity : Option age.Identity → NativeStore age → Outcome (Unit {0}) age
  hold_identity none s = (err plain, s)
  hold_identity (some i) s = (ok tt, record s { identity = some i })

  abbrev pub load_live : NativeSession age → NativeStore age → Outcome (Unit {0}) age
  load_live session s = hold_identity (session_identity age session.session_key s.session_age) s

  abbrev pub expired_session : Outcome (Unit {0}) age → Outcome (Unit {0}) age
  expired_session (ok _, s) = (err (sentinel native_locked), s)
  expired_session (err e, s) = (err e, s)

  abbrev pub load_from :
      World age → File (NativeSession age) → NativeStore age → Outcome (Unit {0}) age
  load_from w absent s = (err (sentinel not_exist), s)
  load_from w unreadable s = (err plain, s)
  load_from w corrupt s = (err plain, s)
  load_from w (holds session) s =
      if ltb session.expires (unix w.now)
      then expired_session (unlink_session_files w s)
      else load_live session s

  unfoldable pub load_session : World age → NativeStore age → Outcome (Unit {0}) age
  unfolding unlink_session_files
  load_session w s = load_from w s.session_json s

  abbrev pub mint_agent : World age → Outcome (Unit {0}) age → Outcome (Unit {0}) age
  mint_agent w (err e, s) = (err e, s)
  mint_agent w (ok _, s) =
      (ok tt, record s { agent = mint_agent_session_if_ask (w.writes agent_target) w.now s.agent })

  abbrev pub unlock_with : World age → Option Bytes → NativeStore age → Outcome (Unit {0}) age
  unlock_with w none s = (err locked_error, s)
  unlock_with w (some []) s = (err locked_error, s)
  unlock_with w (some (c ∷ pass)) s =
      mint_agent w (unlock_identity w (c ∷ pass) (w.now + session_ttl) s)

  abbrev pub or_prompt : World age → Outcome (Unit {0}) age → Outcome (Unit {0}) age
  or_prompt w (ok _, s) = (ok tt, s)
  or_prompt w (err _, s) =
      if w.can_prompt then unlock_with w w.first_answer s else (err locked_error, s)

  abbrev pub identity_unless :
      Option age.Identity → World age → NativeStore age → Outcome (Unit {0}) age
  identity_unless (some _) w s = (ok tt, s)
  identity_unless none w s = or_prompt w (load_session w s)

  unfoldable pub ensure_identity : World age → NativeStore age → Outcome (Unit {0}) age
  unfolding load_session unlock_identity mint_agent_session_if_ask
  ensure_identity w s = identity_unless s.identity w s

  pub ensure_identity-known :
      (w : World age) (s : NativeStore age) (i : age.Identity)
      → s.identity ≡ some i
      → ensure_identity w s ≡ (ok tt, s)
  unfolding ensure_identity
  ensure_identity-known w s i k = ap (λ o. identity_unless o w s) k
