-- ===== src/Migrate/Counted.antt =====
-- engine/backendmigrate.go: the counts of a migration's summary.
use oma_seal.Prelude.{
  ℕ, suc, ◌+◌, ◌≤◌, ◌≡◌, refl, sym, ap, ◌∙◌, subst, ◌⊎◌, inl, inr, Bool, true, false, Option, none,
  some, List, [], ◌∷◌, arith, leb, leb→le, Bool-cases, nat_eq, bytes_eq, length, length-append, Map,
  lookup, if_cases, ◌≢◌,
}
use oma_seal.Errors.{Error, Result, ok, err, plain}
use oma_seal.Bytes.{Bytes}
use oma_seal.Bytes.Sort.{sort_strings, map_keys, insert_sorted, bytes_leb}
use oma_seal.Native.Crypto.{Age}
use oma_seal.Native.Items.{Item, read, set, list_item, keep_some}
use oma_seal.Native.Store.{NativeDoc, NativeStore, World, Outcome}
use oma_seal.Migrate.Distinct.{distinct, length-collapse}
use oma_seal.Migrate.{
  ItemSource, MigrateSummary, Report, Turn, go_on, give_up, max_consec_get_failures, nothing_yet,
  count_migrated, count_skipped, count_failed, collapse, is_item_exists, item_or_zero, written,
  copy_secret, migrate_key, next_turn, migrate_keys, is_among, migrate_items, migrate_items-listed,
  any,
}
use oma_seal.Prelude.{any, lookup, ◌≢◌}

abbrev pub total : MigrateSummary → ℕ
total m = m.migrated + m.skipped + m.failed

-- The counts are those of `n` keys, and the failures are named.
pub record Counted (n : ℕ) (dry_run : Bool) (m : MigrateSummary) : Type 0 where
  pub counts : total m ≡ n
  pub named : length m.failed_items ≡ m.failed
  pub dry : dry_run ≡ true → m.failed ≡ 0

-- the same of the end of a turn: enough reads have failed to give up
abbrev TurnCounted : {age : Age} → ℕ → Bool → Turn age → Type 0
TurnCounted n dry_run (go_on consec m s) = Counted n dry_run m × (consec ≤ m.failed)
TurnCounted n dry_run (give_up m s) =
    Counted n dry_run m × (max_consec_get_failures ≤ m.failed) × (dry_run ≡ false)

-- What a migration of `n` keys reports: it has dealt with all of them, or it has given up with an error
-- after enough failures, which a dry run never does.
pub record Accounted (n : ℕ) (dry_run : Bool) (report : Report) : Type 0 where
  pub summary : MigrateSummary
  pub failure : Option Error
  pub reported : report ≡ (some summary, failure)
  pub failures_named : length summary.failed_items ≡ summary.failed
  pub no_dry_failure : dry_run ≡ true → summary.failed ≡ 0
  pub all_or_enough :
      ((failure ≡ none) × (total summary ≡ n))
      ⊎ ((failure ≢ none)
          × (max_consec_get_failures ≤ summary.failed)
          × (total summary ≤ n)
          × (dry_run ≡ false))

count_migrated-Counted :
    (n : ℕ) (dry_run : Bool) (m : MigrateSummary)
    → Counted n dry_run m
    → Counted (suc n) dry_run (count_migrated m)
count_migrated-Counted n dry_run m c = record {
  counts = omega (arith, c.counts);
  named = c.named;
  dry = c.dry;
}

count_skipped-Counted :
    (n : ℕ) (dry_run : Bool) (m : MigrateSummary)
    → Counted n dry_run m
    → Counted (suc n) dry_run (count_skipped m)
count_skipped-Counted n dry_run m c = record {
  counts = omega (arith, c.counts);
  named = c.named;
  dry = c.dry;
}

count_failed-Counted :
    (n : ℕ) (dry_run : Bool) (key : Bytes) (m : MigrateSummary)
    → dry_run ≡ false
    → Counted n dry_run m
    → Counted (suc n) dry_run (count_failed key m)
count_failed-Counted n dry_run key m wet c = record {
  counts = omega (arith, c.counts);
  named = omega (arith, length-append m.failed_items (key ∷ []), c.named);
  dry = λ h. cc;
}

module _ {age : Age} (worlds : Bytes → World age) (src : ItemSource) (present : Bytes → Bool)
    (by_key : Map Bytes Item) (dry_run : Bool) where
  written-Counted :
      (n : ℕ) (key : Bytes) (consec : ℕ) (m : MigrateSummary) (o : Outcome (Unit {0}) age)
      → dry_run ≡ false
      → Counted n dry_run m
      → TurnCounted (suc n) dry_run (written key m o)
  written-Counted n key consec m (ok _, s) wet c =
      (count_migrated-Counted n dry_run m c, omega arith)
  written-Counted n key consec m (err e, s) wet c =
      if_cases (λ (t : Turn age). TurnCounted (suc n) dry_run t) (is_item_exists e.cause) _ _
        (λ _. (count_skipped-Counted n dry_run m c, omega arith))
        (λ _. (count_failed-Counted n dry_run key m wet c, omega arith))

  copied-Counted :
      (n : ℕ) (key : Bytes) (item : Item) (secret : Result Bytes) (consec : ℕ) (m : MigrateSummary)
      (s : NativeStore age)
      → dry_run ≡ false
      → Counted n dry_run m
      → consec ≤ m.failed
      → TurnCounted (suc n) dry_run (copy_secret (worlds key) key item secret consec m s)
  unfolding set
  copied-Counted n key item (err e) consec m s wet c le =
      if_cases (λ (t : Turn age). TurnCounted (suc n) dry_run t)
        (leb max_consec_get_failures (suc consec)) _ _
        (λ enough. (
          count_failed-Counted n dry_run key m wet c,
          omega (arith, leb→le max_consec_get_failures (suc consec) enough),
          wet,
        ))
        (λ _. (count_failed-Counted n dry_run key m wet c, omega arith))
  copied-Counted n key item (ok secret) consec m s wet c le = written-Counted n key consec m _ wet c

  turn-Counted :
      (n : ℕ) (key : Bytes) (consec : ℕ) (m : MigrateSummary) (s : NativeStore age)
      → Counted n dry_run m
      → consec ≤ m.failed
      → TurnCounted (suc n) dry_run (migrate_key worlds src present by_key dry_run key consec m s)
  unfolding migrate_key
  turn-Counted n key consec m s c le =
      let item = item_or_zero (lookup key by_key) in
      if_cases (λ (t : Turn age). TurnCounted (suc n) dry_run t) (present key) _ _
        (λ _. (count_skipped-Counted n dry_run m c, le))
        (λ _.
          if_cases (λ (t : Turn age). TurnCounted (suc n) dry_run t) dry_run _ _
            (λ _. (count_migrated-Counted n dry_run m c, le))
            (λ wet.
              copied-Counted n key item (src.secret item.service item.account) consec m s wet c le))

  next-Accounted :
      (n k : ℕ) (rest : ℕ → MigrateSummary → NativeStore age → Report × NativeStore age)
      (t : Turn age)
      → n ≤ k
      → ((consec : ℕ) (m : MigrateSummary) (s : NativeStore age)
          → Counted n dry_run m
          → consec ≤ m.failed
          → Accounted k dry_run (rest consec m s).0)
      → TurnCounted n dry_run t
      → Accounted k dry_run (next_turn rest t).0
  next-Accounted n k rest (go_on consec m s) le h (c, few) = h consec m s c few
  next-Accounted n k rest (give_up m s) le h (c, enough, wet) = record {
    summary = m;
    failure = some plain;
    reported = refl;
    failures_named = c.named;
    no_dry_failure = c.dry;
    all_or_enough = inr (λ e. cc e, enough, omega (arith, c.counts), wet);
  }

  keys-Accounted :
      (n : ℕ) (keys : List Bytes) (consec : ℕ) (m : MigrateSummary) (s : NativeStore age)
      → Counted n dry_run m
      → consec ≤ m.failed
      → Accounted
          (n + length keys)
          dry_run
          (migrate_keys worlds src present by_key dry_run keys consec m s).0
  unfolding migrate_keys
  keys-Accounted n [] consec m s c le = record {
    summary = m;
    failure = none;
    reported = refl;
    failures_named = c.named;
    no_dry_failure = c.dry;
    all_or_enough = inl (refl, omega (arith, c.counts));
  }
  keys-Accounted n (key ∷ keys) consec m s c le =
      next-Accounted (suc n) (n + length (key ∷ keys))
        (migrate_keys worlds src present by_key dry_run keys)
        (migrate_key worlds src present by_key dry_run key consec m s) (omega arith)
        (λ consec' m' s' c' le'.
          subst
            (λ k.
              Accounted k dry_run
                (migrate_keys worlds src present by_key dry_run keys consec' m' s').0)
            (omega arith) (keys-Accounted (suc n) keys consec' m' s' c' le'))
        (turn-Counted n key consec m s c le)

length-insert_sorted : (x : Bytes) (xs : List Bytes) → length (insert_sorted x xs) ≡ suc (length xs)
unfolding insert_sorted
length-insert_sorted x [] = refl
length-insert_sorted x (y ∷ ys) = elim (Bool-cases (bytes_leb x y)) [
  | inl e ↦ rw e refl
  | inr e ↦ rw e (ap suc (length-insert_sorted x ys))
]

length-sort_strings : (xs : List Bytes) → length (sort_strings xs) ≡ length xs
unfolding sort_strings
length-sort_strings [] = refl
length-sort_strings (x ∷ xs) =
    length-insert_sorted x (sort_strings xs) ∙ ap suc (length-sort_strings xs)

length-map_keys : {V : Type 0} (m : Map Bytes V) → length (map_keys m) ≡ length m
length-map_keys [] = refl
length-map_keys ((k, v) ∷ m) = ap suc (length-map_keys m)

-- If the store and the source can be listed, a migration accounts for every credential of the source:
-- migrated, skipped and failed add up to the number of distinct pairs of names of its items, those
-- without a service or an account left aside, the failures are listed, a dry run has none, and no
-- error is reported; or it gives up, with an error, after eight failures at least and a partial count.
pub migrate_items-Accounted :
    {age : Age} (w : World age) (worlds : Bytes → World age) (src : ItemSource) (dry_run : Bool)
    (r : age.Recipient) (d : NativeDoc age) (items : List Item) (s : NativeStore age)
    → s.pub_key ≡ some r
    → read s ≡ ok d
    → src.items ≡ ok items
    → Accounted (distinct [] items) dry_run (migrate_items w worlds src dry_run s).0
unfolding migrate_items collapse migrate_keys any
migrate_items-Accounted {age} w worlds src dry_run r d items s k rd listed =
    let by_key = collapse items [] in
    let existing = keep_some (list_item []) d in
    let keys = sort_strings (map_keys by_key) in
    let e = migrate_items-listed w worlds src dry_run r d items s k rd listed in
    let begun : Counted 0 dry_run nothing_yet = record {
      counts = refl;
      named = refl;
      dry = λ _. refl;
    } in
    let sizes = length-collapse items [] [] (λ k. unfold lookup in refl) in
    subst (λ (p : Report × NativeStore age). Accounted (distinct [] items) dry_run p.0) (sym e)
      (subst
        (λ n.
          Accounted n dry_run
            (migrate_keys worlds src (is_among existing) by_key dry_run keys 0 nothing_yet s).0)
        (omega (arith, length-sort_strings (map_keys by_key), length-map_keys by_key, sizes))
        (keys-Accounted worlds src (is_among existing) by_key dry_run 0 keys 0 nothing_yet s begun
          (omega arith)))
