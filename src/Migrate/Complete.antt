-- ===== src/Migrate/Complete.antt =====
-- engine/backendmigrate.go: a migration that runs to its end has dealt with every credential.
use oma_seal.Prelude.{
  some_injective, ℕ, suc, ◌≡◌, refl, sym, ap, subst, ◌⊎◌, inl, inr, Bool, true, false, Option, none,
  some, List, [], ◌∷◌, leb, or-eq-true, ◌==◌, eq_iff, nat_eq, bytes_eq, any, Map, lookup, if_cases,
}
use oma_seal.Errors.{Result, ok, err}
use oma_seal.Bytes.{Bytes}
use oma_seal.Native.Crypto.{Age}
use oma_seal.Native.Key.{native_key}
use oma_seal.Native.Items.{Item, read, set, migrate_set}
use oma_seal.Native.Store.{NativeItem, NativeStore, World, Outcome}
use oma_seal.Migrate.{
  ItemSource, MigrateSummary, Report, Turn, go_on, give_up, max_consec_get_failures, is_item_exists,
  item_or_zero, written, copy_secret, key_of, migrate_key, next_turn, migrate_keys,
}
use oma_seal.Migrate.Kept.{Holds, migrate_set-Holds, after_turn, turn-keeps}
use oma_seal.Native.Isolation.{item_in}
use oma_seal.Migrate.Arrived.{
  any-more, any-last, after_summary, taken_for_present, migrate_set-knows, taken-right,
  stored-right,
}

module _ {age : Age} where
  -- The store knows its recipient, and a key was there, is named as failed, or is there now.
  pub record Dealt (r : age.Recipient) (present : Bytes → Bool) (key : Bytes) (m : MigrateSummary)
      (s : NativeStore age) : Type 0 where
    pub known : s.pub_key ≡ some r
    pub dealt :
        (present key ≡ true)
        ⊎ ((any (λ k. k == key) m.failed_items ≡ true)
            ⊎ ((it : NativeItem age) × (item_in key (read s) ≡ some it)))

  module _ (r : age.Recipient) (worlds : Bytes → World age) (src : ItemSource)
      (present : Bytes → Bool) (by_key : Map Bytes Item) where
    abbrev turn : Bytes → ℕ → MigrateSummary → NativeStore age → Turn age
    turn key consec m s = migrate_key worlds src present by_key false key consec m s

    turn-knows :
        (key : Bytes) (consec : ℕ) (m : MigrateSummary) (s : NativeStore age)
        → s.pub_key ≡ some r
        → (after_turn (turn key consec m s)).pub_key ≡ some r
    turn-knows key consec m s k =
        turn-keeps (λ t. t.pub_key ≡ some r) (migrate_set-knows r) worlds src present by_key false
          key consec m s k

    written-grows :
        (p : Bytes → Bool) (key : Bytes) (m : MigrateSummary) (o : Outcome (Unit {0}) age)
        → any p m.failed_items ≡ true
        → any p (after_summary (written key m o)).failed_items ≡ true
    written-grows p key m (ok _, s) h = h
    written-grows p key m (err e, s) h =
        if_cases (λ (t : Turn age). any p (after_summary t).failed_items ≡ true)
          (is_item_exists e.cause) _ _ (λ _. h) (λ _. any-more p m.failed_items (key ∷ []) h)

    copied-grows :
        (p : Bytes → Bool) (key : Bytes) (item : Item) (secret : Result Bytes) (consec : ℕ)
        (m : MigrateSummary) (s : NativeStore age)
        → any p m.failed_items ≡ true
        → any p (after_summary (copy_secret (worlds key) key item secret consec m s)).failed_items
          ≡ true
    unfolding set
    copied-grows p key item (err e) consec m s h =
        if_cases (λ (t : Turn age). any p (after_summary t).failed_items ≡ true)
          (leb max_consec_get_failures (suc consec)) _ _
          (λ _. any-more p m.failed_items (key ∷ []) h)
          (λ _. any-more p m.failed_items (key ∷ []) h)
    copied-grows p key item (ok secret) consec m s h =
        written-grows p key m
          (migrate_set (worlds key) item.service item.account secret item.owned s) h

    turn-grows :
        (p : Bytes → Bool) (key : Bytes) (consec : ℕ) (m : MigrateSummary) (s : NativeStore age)
        → any p m.failed_items ≡ true
        → any p (after_summary (turn key consec m s)).failed_items ≡ true
    unfolding migrate_key
    turn-grows p key consec m s h =
        let item = item_or_zero (lookup key by_key) in
        if_cases (λ (t : Turn age). any p (after_summary t).failed_items ≡ true) (present key) _ _
          (λ _. h)
          (λ _. copied-grows p key item (src.secret item.service item.account) consec m s h)

    -- What is dealt with stays so.
    turn-Dealt :
        (key other : Bytes) (consec : ℕ) (m : MigrateSummary) (s : NativeStore age)
        → Dealt r present key m s
        → Dealt r present key
            (after_summary (turn other consec m s))
            (after_turn (turn other consec m s))
    turn-Dealt key other consec m s d = record {
      known = turn-knows other consec m s d.known;
      dealt = elim d.dealt [
        | inl there ↦ inl there
        | inr (inl failed) ↦ inr (inl (turn-grows (λ k. k == key) other consec m s failed))
        | inr (inr (it, has)) ↦ inr (
            inr (
              it,
              (turn-keeps (Holds r key it)
                  (λ w service account secret owned t.
                    migrate_set-Holds r w key service account secret owned it t)
                  worlds src present by_key false other consec m s
                  (record { knows = d.known; has = has })).has,
            ))
      ];
    }

    written-deals :
        (key service account : Bytes) (m : MigrateSummary) (o : Outcome (Unit {0}) age)
        → native_key service account ≡ key
        → (taken_for_present o.0 ≡ true
            → (it : NativeItem age) × (item_in (native_key service account) (read o.1) ≡ some it))
        → (o.0 ≡ ok tt
            → (it : NativeItem age) × (item_in (native_key service account) (read o.1) ≡ some it))
        → (any (λ k. k == key) (after_summary (written key m o)).failed_items ≡ true)
          ⊎ ((it : NativeItem age) × (item_in key (read (after_turn (written key m o))) ≡ some it))
    written-deals key service account m (ok _, s) e taken stored =
        inr (subst (λ j. (it : NativeItem age) × (item_in j (read s) ≡ some it)) e (stored refl))
    written-deals key service account m (err x, s) e taken stored =
        if_cases
          (λ (t : Turn age).
            (any (λ k. k == key) (after_summary t).failed_items ≡ true)
            ⊎ ((it : NativeItem age) × (item_in key (read (after_turn t)) ≡ some it)))
          (is_item_exists x.cause) _ _
          (λ h.
            inr (subst (λ j. (it : NativeItem age) × (item_in j (read s) ≡ some it)) e (taken h)))
          (λ _. inl (any-last key m.failed_items))

    copied-deals :
        (key : Bytes) (item : Item) (secret : Result Bytes) (consec : ℕ) (m : MigrateSummary)
        (s : NativeStore age)
        → key_of item ≡ key
        → s.pub_key ≡ some r
        → let t = copy_secret (worlds key) key item secret consec m s in
          (any (λ k. k == key) (after_summary t).failed_items ≡ true)
          ⊎ ((it : NativeItem age) × (item_in key (read (after_turn t)) ≡ some it))
    unfolding set
    copied-deals key item (err e) consec m s own k =
        if_cases
          (λ (t : Turn age).
            (any (λ k. k == key) (after_summary t).failed_items ≡ true)
            ⊎ ((it : NativeItem age) × (item_in key (read (after_turn t)) ≡ some it)))
          (leb max_consec_get_failures (suc consec)) _ _ (λ _. inl (any-last key m.failed_items))
          (λ _. inl (any-last key m.failed_items))
    copied-deals key item (ok secret) consec m s own k =
        written-deals key item.service item.account m
          (migrate_set (worlds key) item.service item.account secret item.owned s) own
          (taken-right r (worlds key) item.service item.account secret item.owned s k)
          (stored-right r (worlds key) item.service item.account secret item.owned s k)

    -- A turn deals with its own key.
    turn-deals :
        (key : Bytes) (item : Item) (consec : ℕ) (m : MigrateSummary) (s : NativeStore age)
        → lookup key by_key ≡ some item
        → key_of item ≡ key
        → s.pub_key ≡ some r
        → Dealt r present key
            (after_summary (turn key consec m s))
            (after_turn (turn key consec m s))
    unfolding migrate_key
    turn-deals key item consec m s at own k = record {
      known = turn-knows key consec m s k;
      dealt =
          if_cases
            (λ (t : Turn age).
              (present key ≡ true)
              ⊎ ((any (λ k. k == key) (after_summary t).failed_items ≡ true)
                  ⊎ ((it : NativeItem age) × (item_in key (read (after_turn t)) ≡ some it))))
            (present key) _ _ (λ h. inl h)
            (λ _. inr (
              subst
                (λ (o : Option Item).
                  let t =
                    copy_secret (worlds key) key (item_or_zero o)
                      (src.secret (item_or_zero o).service (item_or_zero o).account) consec m s in
                  (any (λ k. k == key) (after_summary t).failed_items ≡ true)
                  ⊎ ((it : NativeItem age) × (item_in key (read (after_turn t)) ≡ some it)))
                (sym at)
                (copied-deals key item (src.secret item.service item.account) consec m s own k)));
    }

    -- a migration that has run to its end has dealt with a key
    unfoldable pub Finished : Bytes → Report × NativeStore age → Type 0
    Finished key (report, s) =
        (m : MigrateSummary) → report ≡ (some m, none) → Dealt r present key m s

    next-Finished :
        (key : Bytes) (Q : MigrateSummary → NativeStore age → Type 0)
        (rest : ℕ → MigrateSummary → NativeStore age → Report × NativeStore age) (t : Turn age)
        → ((consec : ℕ) (m : MigrateSummary) (s : NativeStore age)
            → Q m s
            → Finished key (rest consec m s))
        → Q (after_summary t) (after_turn t)
        → Finished key (next_turn rest t)
    unfolding Finished
    next-Finished key Q rest (go_on consec m s) h q = h consec m s q
    next-Finished key Q rest (give_up m s) h q = λ m' e. cc

    keys-stay :
        (key : Bytes) (keys : List Bytes) (consec : ℕ) (m : MigrateSummary) (s : NativeStore age)
        → Dealt r present key m s
        → Finished key (migrate_keys worlds src present by_key false keys consec m s)
    unfolding migrate_keys Finished
    keys-stay key [] consec m s d = λ m' e.
        subst (λ x. Dealt r present key x s) (some_injective m m' (ap (λ (p : Report). p.0) e)) d
    keys-stay key (other ∷ keys) consec m s d =
        next-Finished key (Dealt r present key) (migrate_keys worlds src present by_key false keys)
          (turn other consec m s) (keys-stay key keys) (turn-Dealt key other consec m s d)

    pub keys-deal :
        (key : Bytes) (item : Item) (keys : List Bytes) (consec : ℕ) (m : MigrateSummary)
        (s : NativeStore age)
        → lookup key by_key ≡ some item
        → key_of item ≡ key
        → any (λ k. k == key) keys ≡ true
        → s.pub_key ≡ some r
        → Finished key (migrate_keys worlds src present by_key false keys consec m s)
    unfolding migrate_keys any
    keys-deal key item [] consec m s at own among k = cc
    keys-deal key item (other ∷ keys) consec m s at own among k =
        elim (or-eq-true (other == key) (any (λ k. k == key) keys) among) [
          | inl e ↦
              next-Finished key (Dealt r present key)
                (migrate_keys worlds src present by_key false keys) (turn other consec m s)
                (keys-stay key keys)
                (subst
                  (λ j.
                    Dealt r present key (after_summary (turn j consec m s))
                      (after_turn (turn j consec m s)))
                  (sym ((eq_iff other key).0 e)) (turn-deals key item consec m s at own k))
          | inr e ↦
              next-Finished key (λ m' s'. s'.pub_key ≡ some r)
                (migrate_keys worlds src present by_key false keys) (turn other consec m s)
                (λ consec' m' s' k'. keys-deal key item keys consec' m' s' at own e k')
                (turn-knows other consec m s k)
        ]
