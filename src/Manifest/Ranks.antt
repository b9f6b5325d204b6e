-- ===== src/Manifest/Ranks.antt =====
-- How the rank of a credential depends on the rules that govern it.
use oma_seal.Prelude.{
  ℕ, ◌≤◌, ◌≡◌, refl, sym, ap, ◌∙◌, subst, ◌⊎◌, inl, inr, Bool, true, false, Option, none, some,
  List, [], ◌∷◌, ◌++◌, arith, bytes_beq, Bool-cases, ◌==◌, eq_iff, nat_eq, bytes_eq, All,
}
use oma_seal.Bytes.{Bytes, lower, to_lower, equal_fold}
use oma_seal.Manifest.{
  ManifestRule, ProposalChange, Action, add_action, set_action, remove_action, unknown_action,
  first_rule, slash, star, is_catch_all, or_else, verdict_of, policy_rank, folds_to, remove_first,
  replace_first, new_rule, apply_action, apply_change_to_rules, governs_jev_credential,
}
use oma_seal.Manifest.Keys.{rule_at, catch_all, outcome}

-- A test that no rule of this key passes, and the rule that the change writes neither
abbrev Misses : Bytes → (ManifestRule → Bool) → Type 0
Misses k p = (r : ManifestRule) → to_lower r.pattern ≡ k → p r ≡ false

module _ (p : ManifestRule → Bool) (pattern : Bytes) (miss : Misses (to_lower pattern) p) where
  miss_fold : (r : ManifestRule) → folds_to pattern r ≡ true → p r ≡ false
  unfolding equal_fold
  miss_fold r h = miss r ((eq_iff (to_lower r.pattern) (to_lower pattern)).0 h)

  first-remove :
      (rules : List ManifestRule)
      → first_rule p (remove_first (folds_to pattern) rules) ≡ first_rule p rules
  unfolding first_rule remove_first
  first-remove [] = refl
  first-remove (r ∷ rules) = elim (Bool-cases (folds_to pattern r)) [
    | inl e ↦ rw (e, miss_fold r e) refl
    | inr e ↦ rw (e, first-remove rules) refl
  ]

  first-replace :
      (new : ManifestRule) (rules : List ManifestRule)
      → p new ≡ false
      → first_rule p (replace_first (folds_to pattern) new rules) ≡ first_rule p rules
  unfolding first_rule replace_first
  first-replace new [] h = refl
  first-replace new (r ∷ rules) h = elim (Bool-cases (folds_to pattern r)) [
    | inl e ↦ rw (e, miss_fold r e, h) refl
    | inr e ↦ rw (e, first-replace new rules h) refl
  ]

  first-add :
      (new : ManifestRule) (rules : List ManifestRule)
      → p new ≡ false
      → first_rule p (rules ++ new ∷ []) ≡ first_rule p rules
  unfolding first_rule
  first-add new [] h = rw h refl
  first-add new (r ∷ rules) h = rw (first-add new rules h) refl

-- A test that misses the key of a change gives the same rule before and after.
first_unchanged :
    (p : ManifestRule → Bool) (c : ProposalChange) (rules : List ManifestRule)
    → Misses (to_lower c.change_pattern) p
    → (action : Action) → first_rule p (apply_action action rules c) ≡ first_rule p rules
unfolding new_rule
first_unchanged p c rules miss remove_action = first-remove p c.change_pattern miss rules
first_unchanged p c rules miss set_action =
    first-replace p c.change_pattern miss (new_rule c) rules (miss (new_rule c) refl)
first_unchanged p c rules miss add_action =
    first-add p c.change_pattern miss (new_rule c) rules (miss (new_rule c) refl)
first_unchanged p c rules miss unknown_action = refl

other_key : (k t : Bytes) → (t == k) ≡ false → Misses k (λ r. to_lower r.pattern == t)
other_key k t h r e = ground (arith, eq_iff t k, eq_iff (to_lower r.pattern) t)

star_byte : (b c : ℕ) → (b ≡ b'*') ⊎ (b ≡ slash) → lower c ≡ b → c ≡ b
star_byte b c (inl e) h = ground arith
star_byte b c (inr e) h = ground arith

head-eq : (a b : ℕ) (s t : Bytes) → a ∷ s ≡ b ∷ t → (a ≡ b) × (s ≡ t)
head-eq a b s t e = (cc e, cc e)

-- a pattern of the bytes '*' and '/' has no other spelling
IsPlain : Bytes → Type 0
IsPlain = All (λ b. (b ≡ b'*') ⊎ (b ≡ slash))

plain_spelling : (k pattern : Bytes) → IsPlain k → to_lower pattern ≡ k → pattern ≡ k
unfolding to_lower IsPlain
plain_spelling [] [] h e = refl
plain_spelling [] (c ∷ s) h e = cc
plain_spelling (b ∷ k) [] h e = cc
plain_spelling (b ∷ k) (c ∷ s) (hb, h) e =
    let (eb, es) = head-eq (lower c) b (to_lower s) k e in
    cc (star_byte b c hb eb, plain_spelling k s h es)

plain-not_catch_all :
    (k pattern r : Bytes)
    → IsPlain k
    → governs_jev_credential k ≡ true
    → governs_jev_credential pattern ≡ false
    → to_lower r ≡ to_lower pattern
    → to_lower k ≡ k
    → (r == k) ≡ false
plain-not_catch_all k pattern r pk jev h e low = elim (Bool-cases (r == k)) [
  | inr ne ↦ ne
  | inl eq ↦
      let spelled = plain_spelling k pattern pk (sym e ∙ ap to_lower ((eq_iff r k).0 eq) ∙ low) in
      cc (ap governs_jev_credential spelled, h, jev)
]

-- The key of a change that does not govern Jev's credential is no catch-all's.
not_star :
    (pattern r : Bytes)
    → governs_jev_credential pattern ≡ false
    → to_lower r ≡ to_lower pattern
    → is_catch_all r ≡ false
unfolding governs_jev_credential IsPlain bytes_beq
not_star pattern r h e = ground (
  arith,
  plain-not_catch_all star pattern r (inl refl, tt) refl h e refl,
  plain-not_catch_all (b'*' ∷ slash ∷ star) pattern r (inl refl, (inr refl, (inl refl, tt))) refl h
      e refl,
)

abbrev pub ranked : Option ManifestRule → ℕ
ranked o = policy_rank (verdict_of o).0

ranked_mono :
    (o x y : Option ManifestRule)
    → ranked x ≤ ranked y
    → ranked (or_else o x) ≤ ranked (or_else o y)
ranked_mono none x y h = h
ranked_mono (some r) x y h = omega arith

or_else_twice : (x z : Option ManifestRule) → or_else x (or_else x z) ≡ or_else x z
or_else_twice none z = refl
or_else_twice (some r) z = refl

-- The change leaves an outcome that none of its two keys is the change's.
module _ (c : ProposalChange) (rules : List ManifestRule)
    (quiet : governs_jev_credential c.change_pattern ≡ false) where
  abbrev pub changed : List ManifestRule
  changed = apply_change_to_rules rules c

  at_other :
      (t : Bytes) → (t == to_lower c.change_pattern) ≡ false → rule_at t changed ≡ rule_at t rules
  unfolding apply_change_to_rules
  at_other t h =
      first_unchanged (λ r. to_lower r.pattern == t) c rules
        (other_key (to_lower c.change_pattern) t h) c.action

  catch_all-same : catch_all changed ≡ catch_all rules
  unfolding apply_change_to_rules
  catch_all-same =
      first_unchanged (λ r. is_catch_all r.pattern) c rules
        (λ r e. not_star c.change_pattern r.pattern quiet e) c.action

  pub outcome-other :
      (t w : Bytes)
      → (t == to_lower c.change_pattern) ≡ false
      → (w == to_lower c.change_pattern) ≡ false
      → outcome t w changed ≡ outcome t w rules
  outcome-other t w ht hw = rw (at_other t ht, at_other w hw, catch_all-same) refl

  -- The wildcard is the change's: the outcome is that of the wildcard, or a rule that stays.
  outcome-wildcard :
      (t w : Bytes)
      → (t == to_lower c.change_pattern) ≡ false
      → outcome w w changed ≤ outcome w w rules
      → outcome t w changed ≤ outcome t w rules
  outcome-wildcard t w ht h = rw (at_other t ht) (
      ranked_mono (rule_at t rules) (or_else (rule_at w changed) (catch_all changed))
        (or_else (rule_at w rules) (catch_all rules))
        (rw
          (
            ap ranked (or_else_twice (rule_at w changed) (catch_all changed)),
            ap ranked (or_else_twice (rule_at w rules) (catch_all rules)),
          )
          at h))

  -- if the probe is the pair of keys of the pattern
  pub outcome-any :
      (t w u : Bytes)
      → (t ≡ to_lower c.change_pattern → w ≡ u)
      → (w ≡ to_lower c.change_pattern → u ≡ w)
      → outcome (to_lower c.change_pattern) u changed ≤ outcome (to_lower c.change_pattern) u rules
      → outcome t w changed ≤ outcome t w rules
  outcome-any t w u on_t on_w h = elim (Bool-cases (t == to_lower c.change_pattern)) [
    | inl et ↦ let e = (eq_iff t (to_lower c.change_pattern)).0 et in rw (on_t e) (rw e h)
    | inr nt ↦ elim (Bool-cases (w == to_lower c.change_pattern)) [
      | inl ew ↦
          let e = (eq_iff w (to_lower c.change_pattern)).0 ew in
          outcome-wildcard t w nt (
            subst (λ (k : Bytes). outcome k w changed ≤ outcome k w rules) (sym e)
              (subst
                (λ (k : Bytes).
                  outcome (to_lower c.change_pattern) k changed
                  ≤ outcome (to_lower c.change_pattern) k rules)
                (on_w e) h))
      | inr nw ↦ rw (outcome-other t w nt nw) (omega arith)
    ]
  ]
