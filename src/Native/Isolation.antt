-- ===== src/Native/Isolation.antt =====
-- What an operation on one credential does to the others (engine/nativestore.go).
use oma_seal.Prelude.{
  ℕ, ◌+◌, ◌≡◌, refl, sym, ap, ◌∙◌, ◌≢◌, inl, inr, Bool, true, false, ◌&&◌, ◌||◌, Option, none, some,
  [], arith, if◌then◌else◌, Bool-cases, ◌==◌, eq_iff, eq_refl, nat_eq, bytes_eq, lookup, remove,
  lookup-remove, lookup-remove_other,
}
use oma_seal.Errors.{
  Result, ok, err, plain, sentinel, item_exists, new_error, tamper, native_tamper,
}
use oma_seal.Bytes.{Bytes}
use oma_seal.Files.{File, holds}
use oma_seal.Native.Key.{native_key, native_key_injective}
use oma_seal.Native.Crypto.{Age, AgeLaws, envelope_text, marshal}
use oma_seal.Bytes.Utf8.{json_text}
use oma_seal.Native.Init.{ensure_init-known}
use oma_seal.Native.Store.{NativeItem, NativeDoc, NativeStore, World, Outcome, store_target}
use oma_seal.Native.Items.{
  read, locked_read, update, put_item, put, has_key, is_present, set_value, migrate_set, get,
  delete, delete_key, deleted, write_doc, open_cipher, not_found_error, read_file, open_decrypted,
}
use oma_seal.Native.Roundtrip.{
  Unlocked, look, look_in, get-Unlocked, set-named, locked_read-ok, cipher_of, not_empty,
}

distinct_keys :
    (s a t b : Bytes) → ¬ ((s ≡ t) × (a ≡ b)) → (native_key s a == native_key t b) ≡ false
distinct_keys s a t b h = elim (Bool-cases (native_key s a == native_key t b)) [
  | inr e ↦ e
  | inl e ↦
      let (es, ea) =
        native_key_injective s a t b ((eq_iff (native_key s a) (native_key t b)).0 e) in
      absurd (h (es, ea))
]

module _ {age : Age} where
  abbrev pub item_in : Bytes → Result (NativeDoc age) → Option (NativeItem age)
  item_in key (err _) = none
  item_in key (ok d) = lookup key d

  -- the stored item of a credential
  abbrev pub item_of : Bytes → Bytes → NativeStore age → Option (NativeItem age)
  item_of service account s = item_in (native_key service account) (read s)

  -- what `get` reads, if it reads one file or another
  pub get-file :
      (w v : World age) (service account : Bytes) (i : age.Identity) (s t : NativeStore age)
      (d e : NativeDoc age)
      → Unlocked i s
      → Unlocked i t
      → service ≢ []
      → account ≢ []
      → read s ≡ ok d
      → t.store_file ≡ holds e
      → lookup (native_key service account) e ≡ lookup (native_key service account) d
      → (get w service account s).0 ≡ (get v service account t).0
  unfolding read
  get-file w v service account i s t d e us ut hs ha rs rt same =
      get-Unlocked w service account i s us hs ha
      ∙ ap (look_in i service account) rs
      ∙ ap (look i service account) (sym same)
      ∙ ap (λ (f : File (NativeDoc age)). look_in i service account (read_file f)) (sym rt)
      ∙ sym (get-Unlocked v service account i t ut hs ha)

  has_key-item_in :
      (key : Bytes) (r : Result (NativeDoc age)) (it : NativeItem age)
      → item_in key r ≡ some it
      → has_key key r ≡ true
  has_key-item_in key (err _) it h = cc
  has_key-item_in key (ok d) it h = ap is_present h

  pub put-present :
      (now : ℕ) (key : Bytes) (c : age.Cipher) (owned : Bool) (d : NativeDoc age)
      (it : NativeItem age)
      → lookup key d ≡ some it
      → put now key c owned true d ≡ d
  put-present now key c owned d it h =
      ap (λ (b : Bool). if b && true then d else put_item now key c owned d) (ap is_present h)

  -- Whatever comes of the write, a present item is still the one that is read.
  write-present :
      (w : World age) (key : Bytes) (c : age.Cipher) (owned : Bool) (s : NativeStore age)
      (r : Result (NativeDoc age)) (it : NativeItem age)
      → read s ≡ r
      → item_in key r ≡ some it
      → item_in key (read (write_doc r w (put w.now key c owned true) s).1) ≡ some it
  write-present w key c owned s (err e) it rd h = cc
  write-present w key c owned s (ok d) it rd h = elim (Bool-cases (w.writes store_target)) [
    | inl e ↦ unfold read in simp (e, put-present w.now key c owned d it h, h)
    | inr e ↦ simp (e, rd, h)
  ]

  value-present :
      (w : World age) (key : Bytes) (c : age.Cipher) (owned : Bool) (s : NativeStore age)
      (it : NativeItem age)
      → w.locks ≡ true
      → item_in key (read s) ≡ some it
      → ((set_value w key c owned true s).0 ≡ err (sentinel item_exists))
        × (item_in key (read (set_value w key c owned true s).1) ≡ some it)
  unfolding update
  value-present w key c owned s it hl h =
      let same : locked_read w s ≡ read s = rw hl refl in
      (
        simp (same, has_key-item_in key (read s) it h),
        rw same (write-present w key c owned s (read s) it refl h),
      )

  -- `migrateSet` never overwrites: in an initialised store, with nonempty names, a nonempty secret and
  -- the lock taken, it fails with `errItemExists` if the credential is in the store, and the stored
  -- item stays, whether or not the file can be written.
  pub migrate_set-present :
      (w : World age) (service account secret : Bytes) (owned : Bool) (r : age.Recipient)
      (s : NativeStore age) (it : NativeItem age)
      → s.pub_key ≡ some r
      → service ≢ []
      → account ≢ []
      → secret ≢ []
      → w.locks ≡ true
      → item_of service account s ≡ some it
      → ((migrate_set w service account secret owned s).0 ≡ err (sentinel item_exists))
        × (item_of service account (migrate_set w service account secret owned s).1 ≡ some it)
  migrate_set-present w service account secret owned r s it k hs ha hv hl present =
      let e =
        set-named w service account secret owned true r s k
          (ground (arith, not_empty service hs, not_empty account ha, not_empty secret hv)) in
      rw e (
        value-present w (native_key service account) (cipher_of w r service account secret) owned s
          it hl present)

  pub delete-known :
      (w : World age) (service account : Bytes) (r : age.Recipient) (s : NativeStore age)
      → s.pub_key ≡ some r
      → delete w service account s ≡ (
          if service == [] || account == []
          then (err plain, s)
          else delete_key w (native_key service account) s)
  unfolding delete
  delete-known w service account r s k = rw (ensure_init-known w s r k) refl

  delete_doc-ok :
      (w : World age) (key : Bytes) (s : NativeStore age) (r : Result (NativeDoc age))
      → (deleted (has_key key r) (write_doc r w (remove key) s)).0 ≡ ok tt
      → (d : NativeDoc age) × (r ≡ ok d)
        × ((deleted (has_key key r) (write_doc r w (remove key) s)).1.store_file
            ≡ holds (remove key d))
  delete_doc-ok w key s (err e) h = cc
  delete_doc-ok w key s (ok d) h = elim (Bool-cases (w.writes store_target)) [
    | inr e ↦ ground arith
    | inl e ↦ elim (Bool-cases (is_present (lookup key d))) [
      | inl p ↦ (d, refl, simp (e, p))
      | inr p ↦ ground arith
    ]
  ]

  delete-ok :
      (w : World age) (service account : Bytes) (r : age.Recipient) (s : NativeStore age)
      → s.pub_key ≡ some r
      → (delete w service account s).0 ≡ ok tt
      → (d : NativeDoc age) × (read s ≡ ok d)
        × ((delete w service account s).1.store_file
            ≡ holds (remove (native_key service account) d))
        × (service ≢ [])
        × (account ≢ [])
  unfolding update
  delete-ok w service account r s k h =
      let known = delete-known w service account r s k in
      elim (Bool-cases (service == [] || account == [])) [
        | inl e ↦ ground arith
        | inr e ↦
            let same : delete w service account s ≡ delete_key w (native_key service account) s =
              known
              ∙ ap
                  (λ (b : Bool).
                    if b then (err plain, s) else delete_key w (native_key service account) s)
                  e in
            let (d, rd, f) =
              delete_doc-ok w (native_key service account) s (locked_read w s)
                (ap (λ (p : Outcome (Unit {0}) age). p.0) (sym same) ∙ h) in
            (
              d,
              locked_read-ok w s d rd,
              ap (λ (p : Outcome (Unit {0}) age). p.1.store_file) same ∙ f,
              ground (arith, eq_iff service []),
              ground (arith, eq_iff account []),
            )
      ]

  -- After a `Delete` that succeeds, `Get` does not find the credential.
  pub get-delete :
      (w v : World age) (service account : Bytes) (r : age.Recipient) (i : age.Identity)
      (s t : NativeStore age)
      → s.pub_key ≡ some r
      → (delete w service account s).0 ≡ ok tt
      → t.store_file ≡ (delete w service account s).1.store_file
      → Unlocked i t
      → (get v service account t).0 ≡ err not_found_error
  unfolding read
  get-delete w v service account r i s t k h after u =
      let (d, rd, f, hs, ha) = delete-ok w service account r s k h in
      get-Unlocked v service account i t u hs ha
      ∙ ap (λ (f : File (NativeDoc age)). look_in i service account (read_file f)) (after ∙ f)
      ∙ ap (look i service account)
          (lookup-remove (native_key service account) (native_key service account) d)
      ∙ rw (eq_refl (native_key service account)) refl

  -- and every other credential is as it was.
  pub get-delete_other :
      (w v : World age) (service account other_service other_account : Bytes) (r : age.Recipient)
      (i : age.Identity) (s t u : NativeStore age)
      → s.pub_key ≡ some r
      → (delete w service account s).0 ≡ ok tt
      → t.store_file ≡ s.store_file
      → u.store_file ≡ (delete w service account s).1.store_file
      → Unlocked i t
      → Unlocked i u
      → other_service ≢ []
      → other_account ≢ []
      → ¬ ((service ≡ other_service) × (account ≡ other_account))
      → (get v other_service other_account t).0 ≡ (get v other_service other_account u).0
  unfolding read
  get-delete_other w v service account other_service other_account r i s t u k h before after ut uu
        hs ha n =
      let (d, rd, f, _, _) = delete-ok w service account r s k h in
      get-file v v other_service other_account i t u d _ ut uu hs ha (ap read_file before ∙ rd)
        (after ∙ f)
        (lookup-remove_other (native_key other_service other_account) (native_key service account) d
          (distinct_keys service account other_service other_account n))

  -- A ciphertext that `set` made for one credential, put in the file under another, is found out,
  -- the names of the one being taken as JSON carries them: `Get` fails with the tamper error instead
  -- of giving out the value under the wrong name.
  pub get-moved :
      (laws : AgeLaws age)
      → (w v : World age) (service account secret other_service other_account : Bytes)
        (i : age.Identity) (t : NativeStore age) (d : NativeDoc age) (it : NativeItem age)
      → Unlocked i t
      → read t ≡ ok d
      → lookup (native_key other_service other_account) d ≡ some it
      → it.ct ≡ some (cipher_of w (age.recipient i) service account secret)
      → other_service ≢ []
      → other_account ≢ []
      → ¬ ((json_text service ≡ other_service) × (json_text account ≡ other_account))
      → (get v other_service other_account t).0 ≡ err (new_error tamper native_tamper)
  get-moved laws w v service account secret other_service other_account i t d it u rd there ct hs ha
        n =
      get-Unlocked v other_service other_account i t u hs ha
      ∙ ap (look_in i other_service other_account) rd
      ∙ ap (look i other_service other_account) there
      ∙ ap (open_cipher age other_service other_account i) ct
      ∙ ap (open_decrypted other_service other_account)
          (laws.decrypt-encrypt i (w.draw + 4) (envelope_text (marshal service account secret)))
      ∙ ground (
        arith,
        eq_iff (json_text service) other_service,
        eq_iff (json_text account) other_account,
      )
