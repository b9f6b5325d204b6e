-- ===== src/Migrate/Arrived.antt =====
-- engine/backendmigrate.go: what becomes of each credential of the source.
use oma_seal.Prelude.{
  true_not_false, ◌≡◌, refl, sym, ap, ◌∙◌, subst, inl, inr, Bool, true, false, ◌&&◌, ◌||◌, Option,
  some, List, [], ◌∷◌, ◌++◌, if◌then◌else◌, Option-cases, or-eq-true, or_left, or_right, ◌==◌,
  eq_refl, nat_eq, bytes_eq, any, lookup, lookup-insert, if-true, if_cases,
}
use oma_seal.Errors.{Result, ok, err, sentinel, item_exists}
use oma_seal.Bytes.{Bytes}
use oma_seal.Native.Crypto.{Age}
use oma_seal.Native.Key.{native_key}
use oma_seal.Native.Items.{
  read_file, has_key, read, locked_read, write_doc, is_present, update, migrate_set,
}
use oma_seal.Native.Store.{NativeItem, NativeDoc, NativeStore, World, Outcome, store_target}
use oma_seal.Native.Roundtrip.{set-ok, set-known, locked_read-ok}
use oma_seal.Migrate.{MigrateSummary, Turn, go_on, give_up, is_item_exists}
use oma_seal.Migrate.Kept.{migrate_set-Holds}
use oma_seal.Files.{File, absent, unreadable, corrupt, holds}
use oma_seal.Native.Isolation.{item_in}

pub any-more : (p : Bytes → Bool) (xs ys : List Bytes) → any p xs ≡ true → any p (xs ++ ys) ≡ true
unfolding any
any-more p [] ys h = cc
any-more p (x ∷ xs) ys h = elim (or-eq-true (p x) (any p xs) h) [
  | inl e ↦ rw e refl
  | inr e ↦ or_right (p x) _ (any-more p xs ys e)
]

pub any-last : (key : Bytes) (xs : List Bytes) → any (λ k. k == key) (xs ++ key ∷ []) ≡ true
unfolding any
any-last key [] = or_left _ _ (eq_refl key)
any-last key (x ∷ xs) = or_right (x == key) _ (any-last key xs)

-- an error that the loop takes for an item that is there
abbrev pub taken_for_present : {A : Type 0} → Result A → Bool
taken_for_present (ok _) = false
taken_for_present (err e) = is_item_exists e.cause

read_file-taken : {A : Type 0} (f : File (List A)) → taken_for_present (read_file f) ≡ false
read_file-taken absent = refl
read_file-taken unreadable = refl
read_file-taken corrupt = refl
read_file-taken (holds d) = refl

module _ {age : Age} where
  abbrev pub after_summary : Turn age → MigrateSummary
  after_summary (go_on consec m s) = m
  after_summary (give_up m s) = m

  locked_read-taken :
      (w : World age) (s : NativeStore age) → taken_for_present (locked_read w s) ≡ false
  unfolding read
  locked_read-taken w s =
      if_cases (λ (x : Result (NativeDoc age)). taken_for_present x ≡ false) w.locks (read s) _
        (λ _. read_file-taken s.store_file) (λ _. refl)

  write-knows :
      (r : age.Recipient) (w : World age) (f : NativeDoc age → NativeDoc age) (s : NativeStore age)
      (doc : Result (NativeDoc age))
      → s.pub_key ≡ some r
      → (write_doc doc w f s).1.pub_key ≡ some r
  write-knows r w f s (err e) k = k
  write-knows r w f s (ok d) k =
      if_cases (λ (o : Outcome (Unit {0}) age). o.1.pub_key ≡ some r) (w.writes store_target) _ _
        (λ _. k) (λ _. k)

  pub migrate_set-knows :
      (r : age.Recipient) (w : World age) (service account secret : Bytes) (owned : Bool)
      (s : NativeStore age)
      → s.pub_key ≡ some r
      → (migrate_set w service account secret owned s).1.pub_key ≡ some r
  unfolding update
  migrate_set-knows r w service account secret owned s k =
      subst (λ (o : Outcome (Unit {0}) age). o.1.pub_key ≡ some r)
        (sym (set-known w service account secret owned true r s k))
        (if_cases (λ (o : Outcome (Unit {0}) age). o.1.pub_key ≡ some r)
          (service == [] || account == [] || secret == []) _ _ (λ _. k)
          (λ _. write-knows r w _ s (locked_read w s) k))

  written-taken :
      (w : World age) (f : NativeDoc age → NativeDoc age) (s : NativeStore age) (d : NativeDoc age)
      → taken_for_present (write_doc (ok d) w f s).0 ≡ false
  written-taken w f s d =
      if_cases (λ (o : Outcome (Unit {0}) age). taken_for_present o.0 ≡ false)
        (w.writes store_target) _ _ (λ _. refl) (λ _. refl)

  value-right :
      (w : World age) (key : Bytes) (f : NativeDoc age → NativeDoc age) (s : NativeStore age)
      (doc : Result (NativeDoc age))
      → locked_read w s ≡ doc
      → taken_for_present doc ≡ false
      → taken_for_present
          (if has_key key doc && true then err (sentinel item_exists) else (write_doc doc w f s).0)
        ≡ true
      → (it : NativeItem age) × (item_in key (read s) ≡ some it)
  value-right w key f s (err e) at n h = cc
  value-right w key f s (ok d) at n h = elim (Option-cases (lookup key d)) [
    | inr (it, found) ↦ (it, ap (item_in key) (locked_read-ok w s d at) ∙ found)
    | inl missing ↦ absurd (
        true_not_false (
          sym h
          ∙ ap
              (λ (o : Option (NativeItem age)). taken_for_present (
                if is_present o && true
                then err (sentinel item_exists)
                else (write_doc (ok d) w f s).0))
              missing
          ∙ written-taken w f s d))
  ]

  -- An error that says so is right, and then the item stays.
  pub taken-right :
      (r : age.Recipient) (w : World age) (service account secret : Bytes) (owned : Bool)
      (s : NativeStore age)
      → s.pub_key ≡ some r
      → taken_for_present (migrate_set w service account secret owned s).0 ≡ true
      → (it : NativeItem age) × (item_in
            (native_key service account)
            (read (migrate_set w service account secret owned s).1)
          ≡ some it)
  unfolding update
  taken-right r w service account secret owned s k h =
      let (it, has) =
        subst
          (λ (o : Outcome (Unit {0}) age).
            taken_for_present o.0 ≡ true
            → (it : NativeItem age) × (item_in (native_key service account) (read s) ≡ some it))
          (sym (set-known w service account secret owned true r s k))
          (if_cases
            (λ (o : Outcome (Unit {0}) age).
              taken_for_present o.0 ≡ true
              → (it : NativeItem age) × (item_in (native_key service account) (read s) ≡ some it))
            (service == [] || account == [] || secret == []) _ _ (λ _ t. cc)
            (λ _ t.
              value-right w (native_key service account) _ s (locked_read w s) refl
                (locked_read-taken w s) t))
          h in
      (
        it,
        (migrate_set-Holds r w (native_key service account) service account secret owned it s
            (record { knows = k; has = has })).has,
      )

  pub stored-right :
      (r : age.Recipient) (w : World age) (service account secret : Bytes) (owned : Bool)
      (s : NativeStore age)
      → s.pub_key ≡ some r
      → (migrate_set w service account secret owned s).0 ≡ ok tt
      → (it : NativeItem age) × (item_in
            (native_key service account)
            (read (migrate_set w service account secret owned s).1)
          ≡ some it)
  unfolding read
  stored-right r w service account secret owned s k h =
      let (d, rd, f, _, _) = set-ok w service account secret owned true r s k h in
      (
        _,
        ap (λ (x : File (NativeDoc age)). item_in (native_key service account) (read_file x)) f
            ∙ lookup-insert (native_key service account) (native_key service account) _ d
            ∙ if-true _ (eq_refl (native_key service account)),
      )
