-- ===== src/Native/Fresh.antt =====
-- The first initialisation of the store (engine/nativestore.go), and the unlocks of later processes.
use oma_seal.Prelude.{
  ℕ, ◌+◌, ◌≡◌, ◌≢◌, refl, sym, ap, ◌∙◌, inl, inr, Bool, true, false, not, ◌&&◌, Option, none, some,
  [], subst, ◌∷◌, arith, Bool-cases, ◌==◌, eq_iff, nat_eq, bytes_eq, if-true, if◌then◌else◌,
}
use oma_seal.Errors.{ok, err, new_error, unlock_denied, message}
use oma_seal.Bytes.{Bytes}
use oma_seal.Files.{absent, holds}
use oma_seal.Native.Crypto.{Age, AgeLaws, identity_text}
use oma_seal.Native.Init.{
  uninitialized, ensure_init, init_from, init_unless, init_fresh, init_locked, confirm, create,
  with_rival,
}
use oma_seal.Native.Store.{
  NativeStore, World, Outcome, keyring_error, seed_session, write_session, unlock_identity,
}
use oma_seal.Native.Unlock.{Wrapped, unlock_identity-right, unlock_identity-wrong}

module _ {age : Age} where
  abbrev wrapped : World age → Bytes → age.Cipher
  wrapped w pass = age.wrap (w.draw + 1) pass (identity_text (age.generate w.draw))

  -- What a creation that succeeds leaves in the two files
  create-ok :
      (w : World age) (pass : Bytes) (s : NativeStore age)
      → (create w pass s).0 ≡ ok tt
      → ((create w pass s).1.identity_file ≡ holds (wrapped w pass))
        × ((create w pass s).1.pub_file ≡ holds (age.recipient (age.generate w.draw)))
  unfolding seed_session
  create-ok w pass s h = (ground arith, ground arith)

  -- The user has typed one passphrase twice.
  record Typed (w : World age) (s : NativeStore age) (o : Outcome (Unit {0}) age) : Type 0 where
    first : ℕ
    rest : Bytes
    answered : w.first_answer ≡ some (first ∷ rest)
    repeated : w.second_answer ≡ some (first ∷ rest)
    created : o ≡ create w (first ∷ rest) s

  confirm-ok :
      (w : World age) (s : NativeStore age) (answer again : Option Bytes)
      → w.first_answer ≡ answer
      → w.second_answer ≡ again
      → (confirm w answer again s).0 ≡ ok tt
      → Typed w s (confirm w answer again s)
  confirm-ok w s none again a b h = cc
  confirm-ok w s (some []) again a b h = cc
  confirm-ok w s (some (c ∷ pass)) none a b h = cc
  confirm-ok w s (some (c ∷ pass)) (some second) a b h = elim (Bool-cases (second == c ∷ pass)) [
    | inl e ↦ record {
      first = c;
      rest = pass;
      answered = a;
      repeated = b ∙ ap some ((eq_iff second (c ∷ pass)).0 e);
      created = if-true _ e;
    }
    | inr e ↦ ground arith
  ]

  -- what the first call asks before it starts
  abbrev guarded : Bool → Bool → Outcome (Unit {0}) age → NativeStore age → Outcome (Unit {0}) age
  guarded asks locks o s =
      if not asks then (err uninitialized, s) else if not locks then (err keyring_error, s) else o

  guarded-ok :
      (asks locks : Bool) (o : Outcome (Unit {0}) age) (s : NativeStore age)
      → (guarded asks locks o s).0 ≡ ok tt
      → guarded asks locks o s ≡ o
  guarded-ok true true o s h = refl
  guarded-ok true false o s h = cc
  guarded-ok false locks o s h = cc

  reached :
      (w : World age) (s : NativeStore age)
      → s.pub_key ≡ none
      → s.identity_file ≡ absent
      → w.rival ≡ none
      → ensure_init w s
        ≡ guarded (w.can_prompt && w.tty) w.locks (confirm w w.first_answer w.second_answer s) s
  unfolding ensure_init init_fresh
  reached w s unknown fresh alone =
      ap (λ o. init_unless o w s) unknown
      ∙ ap (λ i. init_from w i s) fresh
      ∙ ap
          (λ r.
            guarded (w.can_prompt && w.tty) w.locks
              (init_locked w (with_rival r s).identity_file (with_rival r s)) s)
          alone
      ∙ ap (λ i. guarded (w.can_prompt && w.tty) w.locks (init_locked w i s) s) fresh

  first_call :
      (w : World age) (s : NativeStore age)
      → s.pub_key ≡ none
      → s.identity_file ≡ absent
      → w.rival ≡ none
      → (ensure_init w s).0 ≡ ok tt
      → Typed w s (ensure_init w s)
  first_call w s unknown fresh alone h =
      let asked = confirm w w.first_answer w.second_answer s in
      let e = reached w s unknown fresh alone in
      let on =
        e
        ∙ guarded-ok (w.can_prompt && w.tty) w.locks asked s
            (ap (λ (o : Outcome (Unit {0}) age). o.0) (sym e) ∙ h) in
      subst (Typed w s) (sym on) (
        confirm-ok w s w.first_answer w.second_answer refl refl
          (ap (λ (o : Outcome (Unit {0}) age). o.0) (sym on) ∙ h))

  write_session-identity :
      (w : World age) (draw expires : ℕ) (i : age.Identity) (s : NativeStore age)
      → (write_session w draw expires i s).1.identity ≡ s.identity
  write_session-identity w draw expires i s = ground arith

  -- A first call that succeeds, and no rival process has come before it, makes a store that the typed
  -- passphrase opens, and no other: a later process that finds the files it left, with no wrapped
  -- identity in memory, gets by an unlock with that passphrase the identity of the recipient in
  -- `pub`, and by one with any other nonempty passphrase the denial, with its identity as it was.
  pub first_call_opens :
      (laws : AgeLaws age)
      → (w v : World age) (s t : NativeStore age) (c : ℕ) (other : Bytes) (expires : ℕ)
      → s.pub_key ≡ none
      → s.identity_file ≡ absent
      → w.rival ≡ none
      → (ensure_init w s).0 ≡ ok tt
      → t.identity_file ≡ (ensure_init w s).1.identity_file
      → t.pub_file ≡ (ensure_init w s).1.pub_file
      → t.identity_enc ≡ none
      → w.first_answer ≢ some (c ∷ other)
      → (first : ℕ) × (rest : Bytes) × (i : age.Identity) × (w.first_answer ≡ some (first ∷ rest))
        × (w.second_answer ≡ some (first ∷ rest))
        × (t.pub_file ≡ holds (age.recipient i))
        × ((unlock_identity v (first ∷ rest) expires t).1.identity ≡ some i)
        × ((unlock_identity v (c ∷ other) expires t).0 ≡ err (new_error unlock_denied message))
        × ((unlock_identity v (c ∷ other) expires t).1.identity ≡ t.identity)
  first_call_opens laws w v s t c other expires unknown fresh alone h file pub_file empty differs =
      let y = first_call w s unknown fresh alone h in
      let pass = y.first ∷ y.rest in
      let i = age.generate w.draw in
      let (blob, known) =
        create-ok w pass s (ap (λ (o : Outcome (Unit {0}) age). o.0) (sym y.created) ∙ h) in
      let sealed : Wrapped (wrapped w pass) t = record {
        on_disk = file ∙ ap (λ (o : Outcome (Unit {0}) age). o.1.identity_file) y.created ∙ blob;
        in_memory = inl empty;
      } in
      let wrong =
        unlock_identity-wrong laws v pass c other (w.draw + 1) expires i t sealed
          (λ e. differs (y.answered ∙ ap some e)) in
      (
        y.first,
        y.rest,
        i,
        y.answered,
        y.repeated,
        pub_file ∙ ap (λ (o : Outcome (Unit {0}) age). o.1.pub_file) y.created ∙ known,
        ap (λ (o : Outcome (Unit {0}) age). o.1.identity)
              (unlock_identity-right laws v y.first y.rest (w.draw + 1) expires i t sealed)
            ∙ write_session-identity v v.draw expires i _,
        ap (λ (o : Outcome (Unit {0}) age). o.0) wrong,
        ap (λ (o : Outcome (Unit {0}) age). o.1.identity) wrong,
      )
