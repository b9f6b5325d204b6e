-- ===== src/Native/Roundtrip.antt =====
-- What `Get` reads after a `Set` (engine/nativestore.go).
use oma_seal.Prelude.{
  ℕ, ◌+◌, ◌≡◌, refl, sym, ap, ◌∙◌, ◌≢◌, inl, inr, Bool, false, ◌&&◌, ◌||◌, Option, none, some, [],
  arith, if◌then◌else◌, Bool-cases, ◌==◌, eq_iff, eq_refl, nat_eq, bytes_eq, lookup, lookup-insert,
  true,
}
use oma_seal.Errors.{Result, ok, err, plain, sentinel, item_exists}
use oma_seal.Bytes.{Bytes}
use oma_seal.Files.{File, holds}
use oma_seal.Native.Key.{native_key}
use oma_seal.Native.Crypto.{Age, AgeLaws, envelope_text, marshal}
use oma_seal.Bytes.Utf8.{valid_utf8, json_text-valid}
use oma_seal.Native.Store.{
  NativeItem, NativeDoc, NativeStore, World, Outcome, store_target, ensure_identity-known,
}
use oma_seal.Native.Init.{ensure_init-known}
use oma_seal.Native.Items.{
  open_decrypted, write_doc, read, locked_read, update, put_item, put, has_key, is_present,
  set_value, set, get, get_item, get_from, open_item, open_cipher, not_found_error, read_file,
  set_ready, open_envelope, check_name,
}

-- The recipient and the identity in memory are `i`'s.
pub record Unlocked {age : Age} (i : age.Identity) (s : NativeStore age) : Type 0 where
  pub knows_pub : s.pub_key ≡ some (age.recipient i)
  pub knows_identity : s.identity ≡ some i

pub not_empty : (s : Bytes) → s ≢ [] → (s == []) ≡ false
not_empty s h = ground (arith, eq_iff s [])

marshalled :
    (service account secret : Bytes)
    → valid_utf8 service ≡ true
    → valid_utf8 account ≡ true
    → valid_utf8 secret ≡ true
    → check_name service account (marshal service account secret) ≡ ok secret
marshalled service account secret us ua uv =
    rw (json_text-valid service us, json_text-valid account ua, json_text-valid secret uv)
      (ground (arith, eq_refl service, eq_refl account))

module _ {age : Age} where
  -- The ciphertext that `set` makes.
  abbrev pub cipher_of : World age → age.Recipient → Bytes → Bytes → Bytes → age.Cipher
  cipher_of w r service account secret =
      age.encrypt (w.draw + 4) r (envelope_text (marshal service account secret))

  -- what `get` does with the document
  abbrev pub look : age.Identity → Bytes → Bytes → Option (NativeItem age) → Result Bytes
  look i service account none = err not_found_error
  look i service account (some it) = open_item service account it (some i)

  abbrev pub look_in : age.Identity → Bytes → Bytes → Result (NativeDoc age) → Result Bytes
  look_in i service account (err e) = err e
  look_in i service account (ok d) = look i service account (lookup (native_key service account) d)

  get_item-Unlocked :
      (w : World age) (service account : Bytes) (i : age.Identity) (s : NativeStore age)
      (o : Option (NativeItem age))
      → Unlocked i s
      → (get_item w service account o s).0 ≡ look i service account o
  get_item-Unlocked w service account i s none u = refl
  get_item-Unlocked w service account i s (some it) u =
      rw (ensure_identity-known w s i u.knows_identity)
        (ap (open_item service account it) u.knows_identity)

  get_from-Unlocked :
      (w : World age) (service account : Bytes) (i : age.Identity) (s : NativeStore age)
      (r : Result (NativeDoc age))
      → Unlocked i s
      → (get_from r w service account s).0 ≡ look_in i service account r
  get_from-Unlocked w service account i s (err e) u = refl
  get_from-Unlocked w service account i s (ok d) u =
      get_item-Unlocked w service account i s (lookup (native_key service account) d) u

  pub get-Unlocked :
      (w : World age) (service account : Bytes) (i : age.Identity) (s : NativeStore age)
      → Unlocked i s
      → service ≢ []
      → account ≢ []
      → (get w service account s).0 ≡ look_in i service account (read s)
  unfolding get
  get-Unlocked w service account i s u hs ha =
      rw (not_empty service hs, not_empty account ha, ensure_init-known w s _ u.knows_pub)
        (get_from-Unlocked w service account i s (read s) u)

  -- what `set` does once it knows the recipient
  pub set-known :
      (w : World age) (service account secret : Bytes) (owned if_absent : Bool) (r : age.Recipient)
      (s : NativeStore age)
      → s.pub_key ≡ some r
      → set w service account secret owned if_absent s ≡ (
          if service == [] || account == [] || secret == []
          then (err plain, s)
          else set_value w
              (native_key service account)
              (cipher_of w r service account secret)
              owned
              if_absent
              s)
  unfolding set
  set-known w service account secret owned if_absent r s k = rw (ensure_init-known w s r k) (
      ap
        (λ o.
          if service == [] || account == [] || secret == []
          then (err plain, s)
          else set_ready w service account secret owned if_absent o s)
        k)

  pub set-named :
      (w : World age) (service account secret : Bytes) (owned if_absent : Bool) (r : age.Recipient)
      (s : NativeStore age)
      → s.pub_key ≡ some r
      → (service == [] || account == [] || secret == []) ≡ false
      → set w service account secret owned if_absent s
        ≡ set_value w
            (native_key service account)
            (cipher_of w r service account secret)
            owned
            if_absent
            s
  set-named w service account secret owned if_absent r s k e =
      set-known w service account secret owned if_absent r s k
      ∙ ap
          (λ (b : Bool).
            if b
            then (err plain, s)
            else set_value w (native_key service account) (cipher_of w r service account secret)
                owned if_absent s)
          e

  pub locked_read-ok :
      (w : World age) (s : NativeStore age) (d : NativeDoc age)
      → locked_read w s ≡ ok d
      → read s ≡ ok d
  locked_read-ok w s d h = ground arith

  put-put_item :
      (now : ℕ) (key : Bytes) (c : age.Cipher) (owned if_absent : Bool) (d : NativeDoc age)
      → (is_present (lookup key d) && if_absent) ≡ false
      → put now key c owned if_absent d ≡ put_item now key c owned d
  put-put_item now key c owned if_absent d h = rw h refl

  write-ok :
      (w : World age) (key : Bytes) (c : age.Cipher) (owned if_absent : Bool) (s : NativeStore age)
      (r : Result (NativeDoc age))
      → (if has_key key r && if_absent
          then err (sentinel item_exists)
          else (write_doc r w (put w.now key c owned if_absent) s).0)
        ≡ ok tt
      → (d : NativeDoc age) × (r ≡ ok d)
        × ((write_doc r w (put w.now key c owned if_absent) s).1.store_file
            ≡ holds (put_item w.now key c owned d))
  write-ok w key c owned if_absent s (err e) h = cc
  write-ok w key c owned if_absent s (ok d) h =
      elim (Bool-cases (is_present (lookup key d) && if_absent)) [
        | inl e ↦ ground arith
        | inr e ↦ elim (Bool-cases (w.writes store_target)) [
          | inl wr ↦ (d, refl, simp (wr, put-put_item w.now key c owned if_absent d e))
          | inr wr ↦ ground arith
        ]
      ]

  -- A write that succeeds, and what it leaves in the file
  pub set_value-ok :
      (w : World age) (key : Bytes) (c : age.Cipher) (owned if_absent : Bool) (s : NativeStore age)
      → (set_value w key c owned if_absent s).0 ≡ ok tt
      → (d : NativeDoc age) × (read s ≡ ok d)
        × ((set_value w key c owned if_absent s).1.store_file
            ≡ holds (put_item w.now key c owned d))
  unfolding update
  set_value-ok w key c owned if_absent s h =
      let (d, e, f) = write-ok w key c owned if_absent s (locked_read w s) h in
      (d, locked_read-ok w s d e, f)

  pub set-ok :
      (w : World age) (service account secret : Bytes) (owned if_absent : Bool) (r : age.Recipient)
      (s : NativeStore age)
      → s.pub_key ≡ some r
      → (set w service account secret owned if_absent s).0 ≡ ok tt
      → (d : NativeDoc age) × (read s ≡ ok d)
        × ((set w service account secret owned if_absent s).1.store_file
            ≡ holds (
                put_item w.now
                  (native_key service account)
                  (cipher_of w r service account secret)
                  owned
                  d))
        × (service ≢ [])
        × (account ≢ [])
  set-ok w service account secret owned if_absent r s k h =
      elim (Bool-cases (service == [] || account == [] || secret == [])) [
        | inl e ↦ ground (arith, set-known w service account secret owned if_absent r s k)
        | inr e ↦
            let known = set-named w service account secret owned if_absent r s k e in
            let (d, rd, f) =
              set_value-ok w (native_key service account) (cipher_of w r service account secret)
                owned if_absent s (ap (λ (p : Outcome (Unit {0}) age). p.0) (sym known) ∙ h) in
            (
              d,
              rd,
              ap (λ (p : Outcome (Unit {0}) age). p.1.store_file) known ∙ f,
              ground (arith, eq_iff service []),
              ground (arith, eq_iff account []),
            )
      ]

  open_cipher_of :
      (laws : AgeLaws age) (i : age.Identity) (w : World age) (service account secret : Bytes)
      → open_cipher age service account i
          (some (cipher_of w (age.recipient i) service account secret))
        ≡ open_envelope {I = age.Identity} service account
            (envelope_text (marshal service account secret))
  open_cipher_of laws i w service account secret =
      ap (open_decrypted service account)
        (laws.decrypt-encrypt i (w.draw + 4) (envelope_text (marshal service account secret)))

  -- A secret that `Set` or `migrateSet` has stored is what `Get` reads from the same store file, if
  -- the secret and the two names are valid UTF-8: in every process that holds the identity of the recipient that it was encrypted to, whatever
  -- else the two processes and their calls do not share.
  pub get-set :
      (laws : AgeLaws age)
      → (w w' : World age) (service account secret : Bytes) (owned if_absent : Bool)
        (i : age.Identity) (s t : NativeStore age)
      → s.pub_key ≡ some (age.recipient i)
      → (set w service account secret owned if_absent s).0 ≡ ok tt
      → t.store_file ≡ (set w service account secret owned if_absent s).1.store_file
      → Unlocked i t
      → valid_utf8 service ≡ true
      → valid_utf8 account ≡ true
      → valid_utf8 secret ≡ true
      → (get w' service account t).0 ≡ ok secret
  unfolding read
  get-set laws w w' service account secret owned if_absent i s t k h file u us ua uv =
      let (d, rd, f, hs, ha) =
        set-ok w service account secret owned if_absent (age.recipient i) s k h in
      get-Unlocked w' service account i t u hs ha
      ∙ ap (λ (f : File (NativeDoc age)). look_in i service account (read_file f)) (file ∙ f)
      ∙ ap (look i service account)
          (lookup-insert (native_key service account) (native_key service account) _ d)
      ∙ rw (eq_refl (native_key service account)) (
          open_cipher_of laws i w service account secret
          ∙ marshalled service account secret us ua uv)
