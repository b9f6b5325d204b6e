-- ===== src/Manifest/Applied.antt =====
-- What an applied change makes of the file (engine/manifestapply.go), from its bytes to the policy.
use oma_seal.Prelude.{
  ℕ, ◌≤◌, ◌≡◌, refl, sym, ap, ◌∙◌, ◌≢◌, ◌⊎◌, inl, inr, Bool, true, false, ◌||◌, Option, none, some,
  List, [], ◌∷◌, ◌++◌, arith, bytes_beq, if◌then◌else◌, Bool-cases, or-eq-false, ◌==◌, eq_iff,
  nat_eq, bytes_eq, any,
}
use oma_seal.Bytes.{Bytes, codes, to_lower, to_upper, is_space}
use oma_seal.Bytes.Cut.{Lacks}
use oma_seal.Manifest.{
  ManifestRule, ProposalChange, Action, add_action, set_action, remove_action, unknown_action,
  first_rule, folds_to, star, slash, is_catch_all, or_else, check_policy, policy_rank, policy_of,
  replace_first, new_rule, apply_action, apply_change_to_rules, is_expansion_change, acceptable,
  valid_proposal_action, valid_proposal_fields, valid_action, is_known, is_control,
}
use oma_seal.Manifest.Lines.{apply_changes, scan_manifest_rules, new_line, edit, quote}
use oma_seal.Manifest.Keys.{outcome, check_policy-outcome, key, rule_at, catch_all}
use oma_seal.Manifest.Expansion.{not_expanding_safe}
use oma_seal.Manifest.Ranks.{ranked}
use oma_seal.Manifest.Format.{NoSpace, PolicyWord, parse-format}
use oma_seal.Manifest.Edit.{scan_remove, edit_rules, edited_rules}

-- a rule without its description
abbrev strip : ManifestRule → ManifestRule
strip r = record r { description = [] }

abbrev stripped : Option ManifestRule → Option ManifestRule
stripped none = none
stripped (some r) = some (strip r)

-- Descriptions have no part in a policy.
ranked-stripped :
    (a b c : Option ManifestRule)
    → ranked (or_else a (or_else b c))
      ≡ ranked (or_else (stripped a) (or_else (stripped b) (stripped c)))
ranked-stripped (some r) b c = refl
ranked-stripped none (some r) c = refl
ranked-stripped none none (some r) = refl
ranked-stripped none none none = refl

module _ (p : ManifestRule → Bool) (on : (r s : ManifestRule) → r.pattern ≡ s.pattern → p r ≡ p s)
    (n m : ManifestRule) (same : strip n ≡ strip m) (same_pattern : n.pattern ≡ m.pattern) where
  one_rule :
      (rest : Option ManifestRule)
      → stripped (if p n then some n else rest) ≡ stripped (if p m then some m else rest)
  one_rule rest = elim (Bool-cases (p m)) [
    | inl e ↦ rw (on n m same_pattern, e) (ap some same)
    | inr e ↦ rw (on n m same_pattern, e) refl
  ]

  replaced-stripped :
      (q : ManifestRule → Bool) (rules : List ManifestRule)
      → stripped (first_rule p (replace_first q n rules))
        ≡ stripped (first_rule p (replace_first q m rules))
  unfolding first_rule replace_first
  replaced-stripped q [] = refl
  replaced-stripped q (r ∷ rules) = elim (Bool-cases (q r)) [
    | inl e ↦ rw e (one_rule (first_rule p rules))
    | inr e ↦
        rw e
          (elim (Bool-cases (p r)) [ inl f ↦ rw f refl | inr f ↦ rw f (replaced-stripped q rules) ])
  ]

  added-stripped :
      (rules : List ManifestRule)
      → stripped (first_rule p (rules ++ n ∷ [])) ≡ stripped (first_rule p (rules ++ m ∷ []))
  unfolding first_rule
  added-stripped [] = one_rule none
  added-stripped (r ∷ rules) = elim (Bool-cases (p r)) [
    | inl f ↦ rw f refl
    | inr f ↦ rw f (added-stripped rules)
  ]

  edited-stripped :
      (c : ProposalChange) (rules : List ManifestRule) (action : Action)
      → m ≡ new_rule c
      → stripped (first_rule p (edited_rules action n rules c))
        ≡ stripped (first_rule p (apply_action action rules c))
  edited-stripped c rules remove_action e = refl
  edited-stripped c rules set_action e =
      rw (sym e) (replaced-stripped (folds_to c.change_pattern) rules)
  edited-stripped c rules add_action e = rw (sym e) (added-stripped rules)
  edited-stripped c rules unknown_action e = refl

-- The edited file gives every target what the change in memory gives it.
edited-outcome :
    (c : ProposalChange) (n : ManifestRule) (rules : List ManifestRule) (action : Action)
    (t w : Bytes)
    → strip n ≡ strip (new_rule c)
    → outcome t w (edited_rules action n rules c) ≡ outcome t w (apply_action action rules c)
edited-outcome c n rules action t w same =
    let e = ap (λ (r : ManifestRule). r.pattern) same in
    let on_key : (k : Bytes)
        → stripped (rule_at k (edited_rules action n rules c))
          ≡ stripped (rule_at k (apply_action action rules c)) =
      λ k.
        edited-stripped (λ r. to_lower r.pattern == k) (λ r s h. ap (λ x. to_lower x == k) h) n
          (new_rule c) same e c rules action refl in
    let on_all =
      edited-stripped (λ r. is_catch_all r.pattern) (λ r s h. ap is_catch_all h) n (new_rule c) same
        e c rules action refl in
    ranked-stripped (rule_at t (edited_rules action n rules c))
      (rule_at w (edited_rules action n rules c)) (catch_all (edited_rules action n rules c))
    ∙ cc (on_key t, on_key w, on_all)
    ∙ sym (
        ranked-stripped (rule_at t (apply_action action rules c))
          (rule_at w (apply_action action rules c)) (catch_all (apply_action action rules c)))

pub is_word :
    (w : Bytes)
    → is_known (policy_of w) ≡ true
    → (w ≡ codes "ALLOW") ⊎ (w ≡ codes "DENY") ⊎ (w ≡ codes "ASK")
unfolding policy_of
is_word w h = elim (Bool-cases (w == codes "ALLOW")) [
  | inl e ↦ inl ((eq_iff w (codes "ALLOW")).0 e)
  | inr a ↦ elim (Bool-cases (w == codes "DENY")) [
    | inl e ↦ inr (inl ((eq_iff w (codes "DENY")).0 e))
    | inr d ↦ elim (Bool-cases (w == codes "ASK")) [
      | inl e ↦ inr (inr ((eq_iff w (codes "ASK")).0 e))
      | inr k ↦ ground arith
    ]
  ]
]

pub literal-PolicyWord :
    (w : Bytes) → (w ≡ codes "ALLOW") ⊎ (w ≡ codes "DENY") ⊎ (w ≡ codes "ASK") → PolicyWord w
unfolding policy_of to_upper bytes_beq
literal-PolicyWord w (inl e) = rw e (record {
  capital = refl;
  known = refl;
  unspaced = (refl, (refl, (refl, (refl, (refl, tt)))));
  first_letter = (b'A', codes "LLOW", refl, ground arith);
})
literal-PolicyWord w (inr (inl e)) = rw e (record {
  capital = refl;
  known = refl;
  unspaced = (refl, (refl, (refl, (refl, tt))));
  first_letter = (b'D', codes "ENY", refl, ground arith);
})
literal-PolicyWord w (inr (inr e)) = rw e (record {
  capital = refl;
  known = refl;
  unspaced = (refl, (refl, (refl, tt)));
  first_letter = (b'A', codes "SK", refl, ground arith);
})

no_space : (s : Bytes) → any (λ b. is_space b || is_control b) s ≡ false → NoSpace s
unfolding any
no_space [] h = tt
no_space (c ∷ s) h =
    let (head, tail) =
      or-eq-false (is_space c || is_control c) (any (λ b. is_space b || is_control b) s) h in
    ((or-eq-false (is_space c) (is_control c) head).0, no_space s tail)

pub fields-NoSpace :
    (rules : List ManifestRule) (c : ProposalChange)
    → acceptable rules c ≡ true
    → NoSpace c.change_pattern
unfolding acceptable valid_proposal_fields
fields-NoSpace rules c h = no_space c.change_pattern (ground arith)

pub action_known :
    (rules : List ManifestRule) (c : ProposalChange)
    → acceptable rules c ≡ true
    → valid_action c.action c.change_policy ≡ true
unfolding acceptable valid_proposal_action
action_known rules c h = ground arith

written_outcome :
    (lines : List Bytes) (c : ProposalChange) (action : Action) (b : ℕ) (more t w : Bytes)
    → is_known (policy_of (to_upper c.change_policy)) ≡ true
    → NoSpace c.change_pattern
    → c.change_pattern ≡ b ∷ more
    → b ≢ quote
    → outcome t w (scan_manifest_rules (edit action lines c))
      ≡ outcome t w (apply_action action (scan_manifest_rules lines) c)
unfolding new_line new_rule
written_outcome lines c action b more t w v ns e q =
    let (d, read) =
      parse-format (to_upper c.change_policy) c.change_pattern c.change_description
        (literal-PolicyWord (to_upper c.change_policy) (is_word (to_upper c.change_policy) v))
        (record { pattern_unspaced = ns; first_byte = (b, more, e, q) }) in
    ap (outcome t w) (edit_rules c _ lines action read)
    ∙ edited-outcome c _ (scan_manifest_rules lines) action t w refl

-- The policy that the edited lines give, against the one of the change in memory
pub applied-outcome :
    (lines : List Bytes) (c : ProposalChange) (action : Action) (b : ℕ) (more t w : Bytes)
    → valid_action action c.change_policy ≡ true
    → NoSpace c.change_pattern
    → c.change_pattern ≡ b ∷ more
    → b ≢ quote
    → outcome t w (scan_manifest_rules (edit action lines c))
      ≡ outcome t w (apply_action action (scan_manifest_rules lines) c)
applied-outcome lines c remove_action b more t w v ns e q =
    ap (outcome t w) (scan_remove c.change_pattern lines)
applied-outcome lines c unknown_action b more t w v ns e q = cc
applied-outcome lines c add_action b more t w v ns e q =
    written_outcome lines c add_action b more t w v ns e q
applied-outcome lines c set_action b more t w v ns e q =
    written_outcome lines c set_action b more t w v ns e q

-- A change that is acceptable and not flagged gives no credential a laxer policy in the file: the
-- lines that are written, read back as the next call of an agent reads them, rank every credential
-- of a service without '/' at most as high as before. The pattern must not start with a quote.
pub applied_change_safe :
    (lines : List Bytes) (c : ProposalChange) (service account : Bytes) (b : ℕ) (more : Bytes)
    → Lacks slash service
    → account ≢ []
    → acceptable (scan_manifest_rules lines) c ≡ true
    → is_expansion_change (scan_manifest_rules lines) c ≡ false
    → c.change_pattern ≡ b ∷ more
    → b ≢ quote
    → policy_rank
        (check_policy (scan_manifest_rules (apply_changes lines (c ∷ []))) service account).0
      ≤ policy_rank (check_policy (scan_manifest_rules lines) service account).0
unfolding apply_changes apply_change_to_rules
applied_change_safe lines c service account b more hs ha fine same e q =
    let rules = scan_manifest_rules lines in
    rw
      (check_policy-outcome (scan_manifest_rules (edit c.action lines c)) service account
        ∙ applied-outcome lines c c.action b more (key service account) (key service star)
            (action_known rules c fine) (fields-NoSpace rules c fine) e q
        ∙ sym (check_policy-outcome (apply_action c.action rules c) service account))
      (not_expanding_safe rules c service account hs ha fine same)
