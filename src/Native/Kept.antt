-- ===== src/Native/Kept.antt =====
-- The operations leave the identity file.
use oma_seal.Prelude.{
  ℕ, ◌+◌, ◌≡◌, refl, Bool, true, false, ◌||◌, Option, none, some, [], ◌∷◌, arith, ltb,
  if◌then◌else◌, ◌==◌, nat_eq, bytes_eq, lookup, remove,
}
use oma_seal.Errors.{Result, ok, err, plain}
use oma_seal.Bytes.{Bytes}
use oma_seal.Files.{File, absent, unreadable, corrupt, holds, unix}
use oma_seal.Native.Crypto.{Age}
use oma_seal.Native.Key.{native_key}
use oma_seal.Native.Store.{
  session_ttl, store_target, NativeSession, NativeStore, NativeItem, NativeDoc, World, Outcome,
  write_session, load_session, load_from, load_live, session_identity, expired_session,
  unlink_session_files, ensure_identity, identity_unless, or_prompt, hold_identity, unlock_identity,
  unwrap_identity, unwrap_identity_pass, unwrap_read, identity_blob, seed_session, seed_from,
  then_do, unlock_with, mint_agent,
}
use oma_seal.Native.Init.{
  ensure_init, init_unless, init_from, adopt, or_heal, heal_pub, write_pub, load_pub, read_pub,
}
use oma_seal.Native.Items.{
  open_item, list_from, not_found_error, read, get, get_from, get_item, set, set_ready, update,
  write_doc, delete, delete_key, deleted, list, locked_read, has_key,
}

module _ {age : Age} (blob : age.Cipher) where
  abbrev pub Kept : NativeStore age → Type 0
  Kept s = s.identity_file ≡ holds blob

  then_do-Kept :
      {A B : Type 0} (o : Outcome A age) (k : A → NativeStore age → Outcome B age)
      → Kept o.1
      → ((a : A) (s : NativeStore age) → Kept s → Kept (k a s).1)
      → Kept (then_do o k).1
  then_do-Kept (ok a, s) k h f = f a s h
  then_do-Kept (err e, s) k h f = h

  write_session-Kept :
      (w : World age) (draw expires : ℕ) (i : age.Identity) (s : NativeStore age)
      → Kept s
      → Kept (write_session w draw expires i s).1
  write_session-Kept w draw expires i s h = ground arith

  seed_from-Kept :
      (o : Option age.Identity) (w : World age) (draw expires : ℕ) (s : NativeStore age)
      → Kept s
      → Kept (seed_from o w draw expires s).1
  seed_from-Kept none w draw expires s h = h
  seed_from-Kept (some i) w draw expires s h = write_session-Kept w draw expires i s h

  unwrap_read-Kept :
      (r : Result age.Cipher) (pass : Bytes) (s : NativeStore age)
      → Kept s
      → Kept (unwrap_read r pass s).1
  unwrap_read-Kept (err e) pass s h = h
  unwrap_read-Kept (ok c) pass s h = h

  pub unlock-Kept :
      (w : World age) (pass : Bytes) (expires : ℕ) (s : NativeStore age)
      → Kept s
      → Kept (unlock_identity w pass expires s).1
  unfolding unlock_identity unwrap_identity unwrap_identity_pass seed_session
  unlock-Kept w pass expires s h =
      then_do-Kept (unwrap_identity pass s) (λ _ s'. seed_session w w.draw expires s')
        (then_do-Kept (unwrap_identity_pass pass s)
          (λ i s'. (ok tt, record s' { identity = some i }))
          (unwrap_read-Kept (identity_blob s) pass s h) (λ i s' k. k))
        (λ _ s' k. seed_from-Kept s'.identity w w.draw expires s' k)

  if-Kept :
      {A : Type 0} (b : Bool) (x y : Outcome A age)
      → Kept x.1
      → Kept y.1
      → Kept (if b then x else y).1
  if-Kept true x y hx hy = hx
  if-Kept false x y hx hy = hy

  expired_session-Kept : (o : Outcome (Unit {0}) age) → Kept o.1 → Kept (expired_session o).1
  expired_session-Kept (ok _, s) h = h
  expired_session-Kept (err _, s) h = h

  hold_identity-Kept :
      (o : Option age.Identity) (s : NativeStore age) → Kept s → Kept (hold_identity o s).1
  hold_identity-Kept none s h = h
  hold_identity-Kept (some i) s h = h

  load_from-Kept :
      (w : World age) (f : File (NativeSession age)) (s : NativeStore age)
      → Kept s
      → Kept (load_from w f s).1
  unfolding unlink_session_files
  load_from-Kept w absent s h = h
  load_from-Kept w unreadable s h = h
  load_from-Kept w corrupt s h = h
  load_from-Kept w (holds session) s h =
      if-Kept (ltb session.expires (unix w.now)) (expired_session (unlink_session_files w s))
        (load_live session s) (expired_session-Kept (unlink_session_files w s) h)
        (hold_identity-Kept (session_identity age session.session_key s.session_age) s h)

  mint_agent-Kept :
      (w : World age) (o : Outcome (Unit {0}) age) → Kept o.1 → Kept (mint_agent w o).1
  mint_agent-Kept w (ok _, s) h = h
  mint_agent-Kept w (err _, s) h = h

  unlock_with-Kept :
      (w : World age) (o : Option Bytes) (s : NativeStore age) → Kept s → Kept (unlock_with w o s).1
  unlock_with-Kept w none s h = h
  unlock_with-Kept w (some []) s h = h
  unlock_with-Kept w (some (c ∷ pass)) s h =
      mint_agent-Kept w (unlock_identity w (c ∷ pass) (w.now + session_ttl) s)
        (unlock-Kept w (c ∷ pass) (w.now + session_ttl) s h)

  or_prompt-Kept : (w : World age) (o : Outcome (Unit {0}) age) → Kept o.1 → Kept (or_prompt w o).1
  or_prompt-Kept w (ok _, s) h = h
  or_prompt-Kept w (err _, s) h = ground (arith, unlock_with-Kept w w.first_answer s h)

  identity_unless-Kept :
      (o : Option age.Identity) (w : World age) (s : NativeStore age)
      → Kept s
      → Kept (identity_unless o w s).1
  unfolding load_session
  identity_unless-Kept (some _) w s h = h
  identity_unless-Kept none w s h =
      or_prompt-Kept w (load_session w s) (load_from-Kept w s.session_json s h)

  ensure_identity-Kept :
      (w : World age) (s : NativeStore age) → Kept s → Kept (ensure_identity w s).1
  unfolding ensure_identity
  ensure_identity-Kept w s h = identity_unless-Kept s.identity w s h

  write_pub-Kept :
      (w : World age) (o : Option age.Identity) (s : NativeStore age)
      → Kept s
      → Kept (write_pub w o s).1
  write_pub-Kept w none s h = h
  write_pub-Kept w (some i) s h = ground arith

  heal_pub-Kept : (w : World age) (s : NativeStore age) → Kept s → Kept (heal_pub w s).1
  unfolding heal_pub
  heal_pub-Kept w s h =
      then_do-Kept (ensure_identity w s) (λ _ s'. write_pub w s'.identity s')
        (ensure_identity-Kept w s h) (λ _ s' k. write_pub-Kept w s'.identity s' k)

  or_heal-Kept : (w : World age) (o : Outcome (Unit {0}) age) → Kept o.1 → Kept (or_heal w o).1
  or_heal-Kept w (ok _, s) h = h
  or_heal-Kept w (err _, s) h = heal_pub-Kept w s h

  read_pub-Kept : (f : File age.Recipient) (s : NativeStore age) → Kept s → Kept (read_pub f s).1
  read_pub-Kept absent s h = h
  read_pub-Kept unreadable s h = h
  read_pub-Kept corrupt s h = h
  read_pub-Kept (holds r) s h = h

  adopt-Kept :
      (w : World age) (c : age.Cipher) (s : NativeStore age) → Kept s → Kept (adopt w c s).1
  unfolding load_pub
  adopt-Kept w c s h =
      or_heal-Kept w _ (read_pub-Kept s.pub_file (record s { identity_enc = some c }) h)

  init_from-Kept :
      (w : World age) (f : File age.Cipher) (s : NativeStore age)
      → s.identity_file ≡ f
      → Kept s
      → Kept (init_from w f s).1
  init_from-Kept w absent s e h = cc
  init_from-Kept w unreadable s e h = h
  init_from-Kept w corrupt s e h = h
  init_from-Kept w (holds c) s e h = adopt-Kept w c s h

  init_unless-Kept :
      (o : Option age.Recipient) (w : World age) (s : NativeStore age)
      → Kept s
      → Kept (init_unless o w s).1
  init_unless-Kept (some r) w s h = h
  init_unless-Kept none w s h = init_from-Kept w s.identity_file s refl h

  ensure_init-Kept : (w : World age) (s : NativeStore age) → Kept s → Kept (ensure_init w s).1
  unfolding ensure_init
  ensure_init-Kept w s h = init_unless-Kept s.pub_key w s h

  write_doc-Kept :
      (r : Result (NativeDoc age)) (w : World age) (f : NativeDoc age → NativeDoc age)
      (s : NativeStore age)
      → Kept s
      → Kept (write_doc r w f s).1
  write_doc-Kept (err e) w f s h = h
  write_doc-Kept (ok d) w f s h =
      if-Kept (w.writes store_target) (ok tt, record s { store_file = holds (f d) }) (err plain, s)
        h h

  set_ready-Kept :
      (w : World age) (service account secret : Bytes) (owned if_absent : Bool)
      (o : Option age.Recipient) (s : NativeStore age)
      → Kept s
      → Kept (set_ready w service account secret owned if_absent o s).1
  unfolding update
  set_ready-Kept w service account secret owned if_absent none s h = h
  set_ready-Kept w service account secret owned if_absent (some r) s h =
      write_doc-Kept (locked_read w s) w _ s h

  pub set-Kept :
      (w : World age) (service account secret : Bytes) (owned if_absent : Bool)
      (s : NativeStore age)
      → Kept s
      → Kept (set w service account secret owned if_absent s).1
  unfolding set
  set-Kept w service account secret owned if_absent s h =
      if-Kept (service == [] || account == [] || secret == []) (err plain, s) _ h
        (then_do-Kept (ensure_init w s)
          (λ _ s'. set_ready w service account secret owned if_absent s'.pub_key s')
          (ensure_init-Kept w s h)
          (λ _ s' k. set_ready-Kept w service account secret owned if_absent s'.pub_key s' k))

  get_item-Kept :
      (w : World age) (service account : Bytes) (o : Option (NativeItem age)) (s : NativeStore age)
      → Kept s
      → Kept (get_item w service account o s).1
  get_item-Kept w service account none s h = h
  get_item-Kept w service account (some it) s h =
      then_do-Kept (ensure_identity w s) (λ _ s'. (open_item service account it s'.identity, s'))
        (ensure_identity-Kept w s h) (λ _ s' k. k)

  get_from-Kept :
      (r : Result (NativeDoc age)) (w : World age) (service account : Bytes) (s : NativeStore age)
      → Kept s
      → Kept (get_from r w service account s).1
  get_from-Kept (err e) w service account s h = h
  get_from-Kept (ok d) w service account s h =
      get_item-Kept w service account (lookup (native_key service account) d) s h

  pub get-Kept :
      (w : World age) (service account : Bytes) (s : NativeStore age)
      → Kept s
      → Kept (get w service account s).1
  unfolding get
  get-Kept w service account s h =
      if-Kept (service == [] || account == []) (err plain, s) _ h
        (then_do-Kept (ensure_init w s) (λ _ s'. get_from (read s') w service account s')
          (ensure_init-Kept w s h) (λ _ s' k. get_from-Kept (read s') w service account s' k))

  deleted-Kept : (found : Bool) (o : Outcome (Unit {0}) age) → Kept o.1 → Kept (deleted found o).1
  deleted-Kept found (err e, s) h = h
  deleted-Kept found (ok _, s) h = if-Kept found (ok tt, s) (err not_found_error, s) h h

  pub delete-Kept :
      (w : World age) (service account : Bytes) (s : NativeStore age)
      → Kept s
      → Kept (delete w service account s).1
  unfolding delete update
  delete-Kept w service account s h =
      if-Kept (service == [] || account == []) (err plain, s) _ h
        (then_do-Kept (ensure_init w s) (λ _ s'. delete_key w (native_key service account) s')
          (ensure_init-Kept w s h)
          (λ _ s' k.
            deleted-Kept (has_key (native_key service account) (locked_read w s')) _
              (write_doc-Kept (locked_read w s') w (remove (native_key service account)) s' k)))

  pub list-Kept :
      (w : World age) (service : Bytes) (s : NativeStore age) → Kept s → Kept (list w service s).1
  unfolding list
  list-Kept w service s h =
      then_do-Kept (ensure_init w s) (λ _ s'. (list_from (read s') service, s'))
        (ensure_init-Kept w s h) (λ _ s' k. k)
