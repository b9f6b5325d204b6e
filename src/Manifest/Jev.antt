-- ===== src/Manifest/Jev.antt =====
-- The advisor's own credential (engine/manifestapply.go, governsJevCredential).
use oma_seal.Prelude.{
  ◌≡◌, refl, sym, ap, ◌∙◌, ◌≢◌, true, false, List, [], ◌∷◌, ◌++◌, arith, or-eq-false, nat_eq,
  bytes_eq,
}
use oma_seal.Bytes.{Bytes, codes, to_lower, trim_left, trim_right, trim_space, has_prefix}
use oma_seal.Manifest.{
  ManifestRule, ProposalChange, slash, star, check_policy, policy_rank, apply_change_to_rules,
  acceptable, governs_jev_credential, ℕ,
}
use oma_seal.Manifest.Lines.{apply_changes, scan_manifest_rules, edit, quote}
use oma_seal.Manifest.Format.{NoSpace}
use oma_seal.Manifest.Keys.{key, check_policy-outcome, outcome}
use oma_seal.Manifest.Expansion.{not_equal, acceptable-quiet}
use oma_seal.Manifest.Ranks.{outcome-other}
use oma_seal.Manifest.Applied.{fields-NoSpace, applied-outcome, action_known}

trim_left-NoSpace : (s : Bytes) → NoSpace s → trim_left s ≡ s
unfolding trim_left
trim_left-NoSpace [] h = refl
trim_left-NoSpace (c ∷ s) (hc, h) = rw hc refl

trim_right-NoSpace : (s : Bytes) → NoSpace s → trim_right s ≡ s
unfolding trim_right
trim_right-NoSpace [] h = refl
trim_right-NoSpace (c ∷ s) (hc, h) = ground (arith, trim_right-NoSpace s h)

trim_space-NoSpace : (s : Bytes) → NoSpace s → trim_space s ≡ s
unfolding trim_space
trim_space-NoSpace s h = ap trim_right (trim_left-NoSpace s h) ∙ trim_right-NoSpace s h

jev_prefix : (s : Bytes) → has_prefix (codes "openrouter" ++ slash ∷ s) (codes "openrouter/") ≡ true
unfolding has_prefix
jev_prefix s = refl

quiet_prefix :
    (pattern : Bytes)
    → governs_jev_credential pattern ≡ false
    → has_prefix (to_lower (trim_space pattern)) (codes "openrouter/") ≡ false
unfolding governs_jev_credential
quiet_prefix pattern h = (or-eq-false _ _ h).1

-- a pattern whose key is one of the advisor's targets
jev_key :
    (pattern service account : Bytes)
    → NoSpace pattern
    → to_lower service ≡ codes "openrouter"
    → governs_jev_credential pattern ≡ false
    → key service account ≢ to_lower pattern
jev_key pattern service account ns e quiet k =
    let spelled : to_lower (trim_space pattern) ≡ codes "openrouter" ++ slash ∷ to_lower account =
      ap to_lower (trim_space-NoSpace pattern ns)
      ∙ sym k
      ∙ ap (λ (s : Bytes). s ++ slash ∷ to_lower account) e in
    absurd (
      cc (
        ap (λ s. has_prefix s (codes "openrouter/")) spelled,
        jev_prefix (to_lower account),
        quiet_prefix pattern quiet,
      ))

-- the rules in memory
outcome-quiet :
    (rules : List ManifestRule) (c : ProposalChange) (service account : Bytes)
    → to_lower service ≡ codes "openrouter"
    → acceptable rules c ≡ true
    → outcome (key service account) (key service star) (apply_change_to_rules rules c)
      ≡ outcome (key service account) (key service star) rules
outcome-quiet rules c service account e fine =
    let quiet = acceptable-quiet rules c fine in
    let ns = fields-NoSpace rules c fine in
    outcome-other c rules quiet (key service account) (key service star)
      (not_equal _ _ (jev_key c.change_pattern service account ns e quiet))
      (not_equal _ _ (jev_key c.change_pattern service star ns e quiet))

-- No acceptable change whose pattern does not start with a quote touches the policy of the advisor's
-- own credentials in the file, in either direction: the lines that are written, read back, give
-- every account of the service openrouter, in any letter case, the policy that it had.
pub jev_untouched :
    (lines : List Bytes) (c : ProposalChange) (service account : Bytes) (b : ℕ) (more : Bytes)
    → to_lower service ≡ codes "openrouter"
    → acceptable (scan_manifest_rules lines) c ≡ true
    → c.change_pattern ≡ b ∷ more
    → b ≢ quote
    → policy_rank
        (check_policy (scan_manifest_rules (apply_changes lines (c ∷ []))) service account).0
      ≡ policy_rank (check_policy (scan_manifest_rules lines) service account).0
unfolding apply_changes apply_change_to_rules
jev_untouched lines c service account b more e fine starts q =
    let rules = scan_manifest_rules lines in
    check_policy-outcome (scan_manifest_rules (edit c.action lines c)) service account
    ∙ applied-outcome lines c c.action b more (key service account) (key service star)
        (action_known rules c fine) (fields-NoSpace rules c fine) starts q
    ∙ outcome-quiet rules c service account e fine
    ∙ sym (check_policy-outcome rules service account)
