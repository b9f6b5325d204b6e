-- ===== src/Native/Unlock.antt =====
-- Unlocking the store, its session, and locking it again (engine/nativestore.go).
use oma_seal.Prelude.{
  ℕ, ◌≡◌, ap, ◌∙◌, ◌≢◌, ◌⊎◌, inl, inr, Option, none, some, ◌∷◌, nat_eq, bytes_eq,
}
use oma_seal.Errors.{Result, ok, err, new_error, unlock_denied, message}
use oma_seal.Bytes.{Bytes}
use oma_seal.Files.{holds}
use oma_seal.Native.Crypto.{Age, AgeLaws, Plaintext, identity_text}
use oma_seal.Native.Store.{
  blob_or_read, unwrap_read, read_identity_file, NativeStore, World, Outcome, then_do,
  unwrap_identity_pass, unwrap_identity, unlock_identity, seed_session, write_session,
  identity_blob, unwrap_blob, parse_unwrapped,
}

-- The blob that an unlock reads, in memory or on disk
pub record Wrapped {age : Age} (blob : age.Cipher) (s : NativeStore age) : Type 0 where
  pub on_disk : s.identity_file ≡ holds blob
  pub in_memory : (s.identity_enc ≡ none) ⊎ (s.identity_enc ≡ some blob)

module _ {age : Age} where
  blob_of : (blob : age.Cipher) (s : NativeStore age) → Wrapped blob s → identity_blob s ≡ ok blob
  blob_of blob s w = elim w.in_memory [
    | inl e ↦ ap (λ o. blob_or_read o s.identity_file) e ∙ ap read_identity_file w.on_disk
    | inr e ↦ ap (λ o. blob_or_read o s.identity_file) e
  ]

  pub unwrap-blob :
      (blob : age.Cipher) (pass : Bytes) (s : NativeStore age)
      → Wrapped blob s
      → unwrap_identity_pass pass s
        ≡ (unwrap_blob age pass blob, record s { identity_enc = some blob })
  unfolding unwrap_identity_pass
  unwrap-blob blob pass s w = ap (λ r. unwrap_read r pass s) (blob_of blob s w)

  -- the rest of an unlock, once the passphrase has been tried
  unlocked_with : World age → ℕ → Result age.Identity → NativeStore age → Outcome (Unit {0}) age
  unlocked_with w expires r s =
      then_do (then_do (r, s) (λ i s'. (ok tt, record s' { identity = some i })))
        (λ _ s'. seed_session w w.draw expires s')

  -- A wrong passphrase is denied, and the files, the identity in memory and the recipient are as
  -- they were.
  pub unlock_identity-wrong :
      (laws : AgeLaws age)
      → (w : World age) (p : Bytes) (c : ℕ) (q : Bytes) (n expires : ℕ) (i : age.Identity)
        (s : NativeStore age)
      → Wrapped (age.wrap n p (identity_text i)) s
      → p ≢ c ∷ q
      → unlock_identity w (c ∷ q) expires s ≡ (
        err (new_error unlock_denied message),
        record s { identity_enc = some (age.wrap n p (identity_text i)) },
      )
  unfolding unlock_identity unwrap_identity unlocked_with
  unlock_identity-wrong laws w p c q n expires i s wr d = rw (unwrap-blob _ (c ∷ q) s wr) (
      ap
        (λ (r : Option (Plaintext age.Identity)).
          unlocked_with w expires (parse_unwrapped r)
            (record s { identity_enc = some (age.wrap n p (identity_text i)) }))
        (laws.unwrap-other p (c ∷ q) n (identity_text i) d))

  -- The right passphrase opens the identity, which the session then holds.
  pub unlock_identity-right :
      (laws : AgeLaws age)
      → (w : World age) (c : ℕ) (p : Bytes) (n expires : ℕ) (i : age.Identity) (s : NativeStore age)
      → Wrapped (age.wrap n (c ∷ p) (identity_text i)) s
      → unlock_identity w (c ∷ p) expires s
        ≡ write_session w w.draw expires i (record s {
          identity = some i;
          identity_enc = some (age.wrap n (c ∷ p) (identity_text i));
        })
  unfolding unlock_identity unwrap_identity unlocked_with seed_session
  unlock_identity-right laws w c p n expires i s wr = rw (unwrap-blob _ (c ∷ p) s wr) (
      ap
        (λ (r : Option (Plaintext age.Identity)).
          unlocked_with w expires (parse_unwrapped r)
            (record s { identity_enc = some (age.wrap n (c ∷ p) (identity_text i)) }))
        (laws.unwrap-wrap (c ∷ p) n (identity_text i)))
