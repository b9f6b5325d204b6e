-- ===== src/Native/Session.antt =====
-- The store's session and its end (engine/nativestore.go): what a process without the identity in
-- memory finds after an unlock, after the session's window, and after a lock.
use oma_seal.Prelude.{
  ℕ, suc, ◌≤◌, ◌<◌, ◌≡◌, refl, sym, ap, ◌∙◌, ◌≢◌, inl, inr, Bool, true, false, none, some, [], ◌∷◌,
  arith, ltb, lt→ltb, if◌then◌else◌, Bool-cases, nat_eq, bytes_eq, lookup,
}
use oma_seal.Errors.{Result, ok, err}
use oma_seal.Bytes.{Bytes}
use oma_seal.Files.{File, absent, unreadable, corrupt, holds, unix}
use oma_seal.Agent.{join, remove_if_exists}
use oma_seal.Native.Crypto.{Age, AgeLaws, identity_text}
use oma_seal.Native.Store.{
  then_do, NativeSession, NativeStore, NativeItem, NativeDoc, World, Outcome, session_json_target,
  session_age_target, write_session, load_session, load_from, load_live, session_identity,
  expired_session, unlink_session_files, clear_native_session, ensure_identity, identity_unless,
  or_prompt, locked_error, session_of, sealed_identity, hold_identity, opened_identity,
  unlock_identity,
}
use oma_seal.Native.Init.{ensure_init-known}
use oma_seal.Native.Key.{native_key}
use oma_seal.Native.Items.{open_item, read, get, get_from, get_item}
use oma_seal.Native.Roundtrip.{not_empty}
use oma_seal.Native.Unlock.{Wrapped, unlock_identity-right}

gone {ℓ} :
    {A : Type ℓ} (removes : Bool) (f : File A)
    → (remove_if_exists removes f).0 ≡ ok tt
    → remove_if_exists removes f ≡ (ok tt, absent)
gone removes absent h = refl
gone true unreadable h = refl
gone true corrupt h = refl
gone true (holds a) h = refl
gone false unreadable h = cc
gone false corrupt h = cc
gone false (holds a) h = cc

join-ok : (r q : Result (Unit {0})) → join r q ≡ ok tt → (r ≡ ok tt) × (q ≡ ok tt)
join-ok (ok _) q h = (refl, h)
join-ok (err e) q h = cc

pub gone_always {ℓ} : {A : Type ℓ} (f : File A) → remove_if_exists true f ≡ (ok tt, absent)
gone_always absent = refl
gone_always unreadable = refl
gone_always corrupt = refl
gone_always (holds a) = refl

not_expired : {a b : ℕ} → a ≤ b → ltb b a ≡ false
not_expired h = ground arith

module _ {age : Age} where
  session-of :
      (laws : AgeLaws age) (draw expires : ℕ) (i : age.Identity)
      → session_identity age
          (session_of {age = age} draw expires).session_key
          (holds (sealed_identity age draw i))
        ≡ some i
  session-of laws draw expires i =
      ap opened_identity (laws.decrypt-encrypt (age.generate draw) (suc draw) (identity_text i))

  written :
      (w : World age) (draw expires : ℕ) (i : age.Identity) (s : NativeStore age)
      → (write_session w draw expires i s).0 ≡ ok tt
      → write_session w draw expires i s ≡ (
        ok tt,
        record s {
          session_json = holds (session_of draw expires);
          session_age = holds (sealed_identity age draw i);
        },
      )
  written w draw expires i s h = elim (Bool-cases (w.writes session_json_target)) [
    | inr e ↦ ground arith
    | inl e ↦ elim (Bool-cases (w.writes session_age_target)) [
      | inr f ↦ ground arith
      | inl f ↦ rw (e, f) refl
    ]
  ]

  load-written :
      (laws : AgeLaws age)
      → (v : World age) (draw expires : ℕ) (i : age.Identity) (t : NativeStore age)
      → t.session_json ≡ holds (session_of draw expires)
      → t.session_age ≡ holds (sealed_identity age draw i)
      → unix v.now ≤ unix expires
      → load_session v t ≡ (ok tt, record t { identity = some i })
  unfolding load_session
  load-written laws v draw expires i t json blob le =
      ap (λ f. load_from v f t) json
      ∙ ap
          (λ (b : Bool).
            if b
            then expired_session (unlink_session_files v t)
            else load_live (session_of draw expires) t)
          (not_expired le)
      ∙ ap
          (λ f.
            hold_identity (session_identity age (session_of {age = age} draw expires).session_key f)
              t)
          blob
      ∙ ap (λ o. hold_identity o t) (session-of laws draw expires i)

  -- An unlock with the right passphrase gives every process the identity for as long as the window
  -- lasts: one that has no identity in memory takes it from the session files, without a prompt.
  pub unlock-session :
      (laws : AgeLaws age)
      → (w v : World age) (c : ℕ) (p : Bytes) (n expires : ℕ) (i : age.Identity)
        (s t : NativeStore age)
      → Wrapped (age.wrap n (c ∷ p) (identity_text i)) s
      → (unlock_identity w (c ∷ p) expires s).0 ≡ ok tt
      → t.session_json ≡ (unlock_identity w (c ∷ p) expires s).1.session_json
      → t.session_age ≡ (unlock_identity w (c ∷ p) expires s).1.session_age
      → t.identity ≡ none
      → unix v.now ≤ unix expires
      → ensure_identity v t ≡ (ok tt, record t { identity = some i })
  unfolding ensure_identity
  unlock-session laws w v c p n expires i s t wr h json blob closed le =
      let right = unlock_identity-right laws w c p n expires i s wr in
      let done =
        right
        ∙ written w w.draw expires i _ (ap (λ (q : Outcome (Unit {0}) age). q.0) (sym right) ∙ h) in
      ap (λ o. identity_unless o v t) closed
      ∙ ap (or_prompt v) (
          load-written laws v w.draw expires i t
            (json ∙ ap (λ (q : Outcome (Unit {0}) age). q.1.session_json) done)
            (blob ∙ ap (λ (q : Outcome (Unit {0}) age). q.1.session_age) done) le)

  -- what `unlinkSessionFiles` makes of the two removals
  unlinked_with :
      NativeStore age
      → Result (Unit {0}) × File (NativeSession age)
      → Result (Unit {0}) × File age.Cipher
      → Outcome (Unit {0}) age
  unlinked_with s (r, json) (q, blob) =
      (join r q, record s { session_json = json; session_age = blob })

  unlinked :
      (w : World age) (s : NativeStore age)
      → (unlink_session_files w s).0 ≡ ok tt
      → unlink_session_files w s ≡ (ok tt, record s { session_json = absent; session_age = absent })
  unfolding unlink_session_files unlinked_with
  unlinked w s h =
      let (hj, ha) =
        join-ok (remove_if_exists (w.removes session_json_target) s.session_json).0
          (remove_if_exists (w.removes session_age_target) s.session_age).0 h in
      ap (λ p. unlinked_with s p (remove_if_exists (w.removes session_age_target) s.session_age))
        (gone (w.removes session_json_target) s.session_json hj)
      ∙ ap (unlinked_with s (ok tt, absent)) (gone (w.removes session_age_target) s.session_age ha)

  unlinked_always :
      (w : World age) (s : NativeStore age)
      → w.removes session_json_target ≡ true
      → w.removes session_age_target ≡ true
      → unlink_session_files w s ≡ (ok tt, record s { session_json = absent; session_age = absent })
  unfolding unlink_session_files unlinked_with
  unlinked_always w s hj ha =
      ap
        (λ b.
          unlinked_with s (remove_if_exists b s.session_json)
            (remove_if_exists (w.removes session_age_target) s.session_age))
        hj
      ∙ ap
          (λ b.
            unlinked_with s (remove_if_exists true s.session_json)
              (remove_if_exists b s.session_age))
          ha
      ∙ ap (λ p. unlinked_with s p (remove_if_exists true s.session_age))
          (gone_always s.session_json)
      ∙ ap (unlinked_with s (ok tt, absent)) (gone_always s.session_age)

  -- no session, and nobody to ask
  shut_out :
      (v : World age) (t : NativeStore age)
      → t.session_json ≡ absent
      → t.identity ≡ none
      → v.can_prompt ≡ false
      → ensure_identity v t ≡ (err locked_error, t)
  unfolding ensure_identity load_session
  shut_out v t json closed quiet =
      ap (λ o. identity_unless o v t) closed
      ∙ ap (λ f. or_prompt v (load_from v f t)) json
      ∙ rw quiet refl

  -- What a process that can neither find a session nor ask gets for an item that is there
  get-shut_out :
      (v : World age) (service account : Bytes) (t t' : NativeStore age) (d : NativeDoc age)
      (it : NativeItem age) (r : age.Recipient)
      → t.pub_key ≡ some r
      → service ≢ []
      → account ≢ []
      → read t ≡ ok d
      → lookup (native_key service account) d ≡ some it
      → ensure_identity v t ≡ (err locked_error, t')
      → get v service account t ≡ (err locked_error, t')
  unfolding get
  get-shut_out v service account t t' d it r k hs ha rd there shut =
      rw (not_empty service hs, not_empty account ha, ensure_init-known v t r k)
        (ap (λ x. get_from x v service account t) rd
          ∙ ap (λ o. get_item v service account o t) there
          ∙ ap
              (λ (q : Outcome (Unit {0}) age).
                then_do q (λ _ s'. (open_item service account it s'.identity, s')))
              shut)

  -- Once `clearNativeSession`, by which `agent lock` drops the key, has succeeded, a process that has
  -- no identity in memory, finds the session files as it left them and cannot prompt gets the locked
  -- error for a credential that is there, in an initialised store with nonempty names, and changes
  -- nothing. A process that already holds the identity is not reached by it.
  pub get-cleared :
      (w v : World age) (service account : Bytes) (s t : NativeStore age) (d : NativeDoc age)
      (it : NativeItem age) (r : age.Recipient)
      → (clear_native_session w s).0 ≡ ok tt
      → t.session_json ≡ (clear_native_session w s).1.session_json
      → t.identity ≡ (clear_native_session w s).1.identity
      → v.can_prompt ≡ false
      → t.pub_key ≡ some r
      → service ≢ []
      → account ≢ []
      → read t ≡ ok d
      → lookup (native_key service account) d ≡ some it
      → get v service account t ≡ (err locked_error, t)
  unfolding clear_native_session
  get-cleared w v service account s t d it r h json closed quiet k hs ha rd there =
      let done = unlinked w (record s { identity = none }) h in
      get-shut_out v service account t t d it r k hs ha rd there (
        shut_out v t (json ∙ ap (λ (q : Outcome (Unit {0}) age). q.1.session_json) done)
          (closed ∙ ap (λ (q : Outcome (Unit {0}) age). q.1.identity) done) quiet)

  -- A session past its window does not open the store to a process that has no identity in memory
  -- and no prompt: if the removals of both session files succeed, it gets the locked error for a
  -- credential that is there, in an initialised store with nonempty names, and the files are gone.
  -- A process that loaded the identity before is not reached by it.
  pub get-expired :
      (v : World age) (service account : Bytes) (session : NativeSession age) (t : NativeStore age)
      (d : NativeDoc age) (it : NativeItem age) (r : age.Recipient)
      → t.session_json ≡ holds session
      → session.expires < unix v.now
      → t.identity ≡ none
      → v.can_prompt ≡ false
      → v.removes session_json_target ≡ true
      → v.removes session_age_target ≡ true
      → t.pub_key ≡ some r
      → service ≢ []
      → account ≢ []
      → read t ≡ ok d
      → lookup (native_key service account) d ≡ some it
      → get v service account t
        ≡ (err locked_error, record t { session_json = absent; session_age = absent })
  unfolding ensure_identity load_session
  get-expired v service account session t d it r json late closed quiet rj ra k hs ha rd there =
      get-shut_out v service account t _ d it r k hs ha rd there (
        ap (λ o. identity_unless o v t) closed
        ∙ ap (λ f. or_prompt v (load_from v f t)) json
        ∙ ap
            (λ (b : Bool).
              or_prompt v
                (if b then expired_session (unlink_session_files v t) else load_live session t))
            (lt→ltb session.expires (unix v.now) late)
        ∙ ap (λ q. or_prompt v (expired_session q)) (unlinked_always v t rj ra)
        ∙ rw quiet refl)
