-- ===== src/Native/Locked.antt =====
-- What works while the store is locked (engine/nativestore.go): writing, deleting and listing.
use oma_seal.Prelude.{
  ◌≡◌, refl, ap, ◌∙◌, ◌≢◌, inl, inr, Bool, true, false, ◌&&◌, ◌||◌, none, some, [], if◌then◌else◌,
  Bool-cases, ◌==◌, nat_eq, bytes_eq, remove,
}
use oma_seal.Errors.{Result, ok, err, plain, sentinel, item_exists}
use oma_seal.Bytes.{Bytes}
use oma_seal.Files.{absent}
use oma_seal.Native.Key.{native_key}
use oma_seal.Native.Crypto.{Age}
use oma_seal.Native.Init.{
  ensure_init, init_from, init_unless, init_fresh, uninitialized, ensure_init-known,
}
use oma_seal.Native.Store.{NativeDoc, NativeStore, World, Outcome, store_target, keyring_error}
use oma_seal.Native.Items.{
  read, locked_read, update, put, has_key, set_value, set, get, delete, delete_key, deleted,
  write_doc, list, list_from, read_file,
}
use oma_seal.Native.Roundtrip.{not_empty, set-known, cipher_of}
use oma_seal.Native.Isolation.{delete-known}

module _ {age : Age} where
  -- the same result, and the same file
  pub record SameEffect {A : Type 0} (o p : Outcome A age) : Type 0 where
    pub same_result : o.0 ≡ p.0
    pub same_file : o.1.store_file ≡ p.1.store_file

  write_doc-same :
      (r : Result (NativeDoc age)) (w : World age) (f : NativeDoc age → NativeDoc age)
      (s t : NativeStore age)
      → s.store_file ≡ t.store_file
      → SameEffect (write_doc r w f s) (write_doc r w f t)
  write_doc-same (err e) w f s t h = record { same_result = refl; same_file = h }
  write_doc-same (ok d) w f s t h = elim (Bool-cases (w.writes store_target)) [
    | inl e ↦ rw e (record { same_result = refl; same_file = refl })
    | inr e ↦ rw e (record { same_result = refl; same_file = h })
  ]

  value-same :
      (w : World age) (key : Bytes) (c : age.Cipher) (owned if_absent : Bool)
      (s t : NativeStore age)
      → s.store_file ≡ t.store_file
      → SameEffect (set_value w key c owned if_absent s) (set_value w key c owned if_absent t)
  unfolding update read
  value-same w key c owned if_absent s t h =
      let e : locked_read w s ≡ locked_read w t =
        ap (λ f. if w.locks then read_file f else err keyring_error) h in
      let same = write_doc-same (locked_read w t) w (put w.now key c owned if_absent) s t h in
      rw e (record {
        same_result =
            ap
              (λ x.
                if has_key key (locked_read w t) && if_absent
                then err (sentinel item_exists)
                else x)
              same.same_result;
        same_file = same.same_file;
      })

  deleted-same :
      (found : Bool) (o p : Outcome (Unit {0}) age)
      → SameEffect o p
      → SameEffect (deleted found o) (deleted found p)
  deleted-same found (ok _, s) (ok _, t) e = elim (Bool-cases found) [
    | inl f ↦ rw f (record { same_result = refl; same_file = e.same_file })
    | inr f ↦ rw f (record { same_result = refl; same_file = e.same_file })
  ]
  deleted-same found (err x, s) (err y, t) e = record {
    same_result = e.same_result;
    same_file = e.same_file;
  }
  deleted-same found (ok _, s) (err y, t) e = absurd (cc e.same_result)
  deleted-same found (err x, s) (ok _, t) e = absurd (cc e.same_result)

  delete_key-same :
      (w : World age) (key : Bytes) (s t : NativeStore age)
      → s.store_file ≡ t.store_file
      → SameEffect (delete_key w key s) (delete_key w key t)
  unfolding update read
  delete_key-same w key s t h =
      let e : locked_read w s ≡ locked_read w t =
        ap (λ f. if w.locks then read_file f else err keyring_error) h in
      rw e (
        deleted-same (has_key key (locked_read w t)) _ _
          (write_doc-same (locked_read w t) w (remove key) s t h))

  if-same :
      {A : Type 0} (b : Bool) (x : Result A) (s t : NativeStore age) (o p : Outcome A age)
      → s.store_file ≡ t.store_file
      → SameEffect o p
      → SameEffect (if b then (x, s) else o) (if b then (x, t) else p)
  if-same true x s t o p h e = record { same_result = refl; same_file = h }
  if-same false x s t o p h e = e

  pub list-known :
      (w : World age) (service : Bytes) (r : age.Recipient) (s : NativeStore age)
      → s.pub_key ≡ some r
      → list w service s ≡ (list_from (read s) service, s)
  unfolding list
  list-known w service r s k = rw (ensure_init-known w s r k) refl

  -- Writing, deleting and listing never consult key material: two processes that know the recipient
  -- and see the same store file get the same result and leave the same file, whatever identity,
  -- session and policy each of them has. So they work while the store is locked.
  pub locked_operations :
      (w : World age) (service account secret : Bytes) (owned if_absent : Bool) (r : age.Recipient)
      (s t : NativeStore age)
      → s.pub_key ≡ some r
      → t.pub_key ≡ some r
      → s.store_file ≡ t.store_file
      → SameEffect
          (set w service account secret owned if_absent s)
          (set w service account secret owned if_absent t)
        × SameEffect (delete w service account s) (delete w service account t)
        × SameEffect (list w service s) (list w service t)
  unfolding read
  locked_operations w service account secret owned if_absent r s t ks kt h = (
    rw
        (
          set-known w service account secret owned if_absent r s ks,
          set-known w service account secret owned if_absent r t kt,
        )
        (if-same (service == [] || account == [] || secret == []) (err plain) s t _ _ h (
          value-same w (native_key service account) (cipher_of w r service account secret) owned
            if_absent s t h)),
    rw (delete-known w service account r s ks, delete-known w service account r t kt)
        (if-same (service == [] || account == []) (err plain) s t _ _ h
          (delete_key-same w (native_key service account) s t h)),
    rw (list-known w service r s ks, list-known w service r t kt)
        (record { same_result = ap (λ f. list_from (read_file f) service) h; same_file = h }),
  )

  -- A first touch that cannot ask in a terminal leaves the store as it is: without an identity on
  -- disk, every operation of such a process fails, and creates no file.
  pub untouched :
      (w : World age) (service account secret : Bytes) (owned if_absent : Bool)
      (s : NativeStore age)
      → s.pub_key ≡ none
      → s.identity_file ≡ absent
      → (w.can_prompt && w.tty) ≡ false
      → service ≢ []
      → account ≢ []
      → secret ≢ []
      → (set w service account secret owned if_absent s ≡ (err uninitialized, s))
        × (get w service account s ≡ (err uninitialized, s))
        × (delete w service account s ≡ (err uninitialized, s))
        × (list w service s ≡ (err uninitialized, s))
  unfolding set get delete list
  untouched w service account secret owned if_absent s k f q hs ha hv =
      let start : ensure_init w s ≡ (err uninitialized, s) =
        unfold ensure_init init_fresh in
        ap (λ o. init_unless o w s) k ∙ ap (λ i. init_from w i s) f ∙ rw q refl in
      (
        rw (not_empty service hs, not_empty account ha, not_empty secret hv, start) refl,
        rw (not_empty service hs, not_empty account ha, start) refl,
        rw (not_empty service hs, not_empty account ha, start) refl,
        rw start refl,
      )
