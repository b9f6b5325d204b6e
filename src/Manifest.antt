-- ===== src/Manifest.antt =====
-- engine/manifest.go and engine/manifestapply.go: the AI manifest, the policy it gives to a
-- credential, and the changes that a proposal makes to it.
pub mod Lines
pub mod Format
pub mod Edit
pub mod Applied
pub mod Jev
pub mod Ranks
pub mod Review
mod Examples
pub mod Keys
pub mod Expansion
use oma_seal.Prelude.{
  ℕ, zero, suc, ◌+◌, ◌-◌, ◌*◌, ◌/◌, ◌%◌, ◌^◌, ◌≤◌, ◌<◌, ◌≡◌, refl, sym, ap, ◌∙◌, subst, fun_ext,
  ◌≢◌, ◌↔◌, ◌⊎◌, inl, inr, Bool, true, false, not, ◌&&◌, ◌||◌, Option, none, some, List, [], ◌∷◌,
  ◌++◌, map, append-nil, append_assoc, arith, ltb, leb, ltb→lt, lt→ltb, leb→le, bytes_beq,
  if◌then◌else◌, Bool-cases, Option-cases, and-eq-true, or-eq-false, Eq, ◌==◌, eq_iff, eq_refl,
  nat_eq, bytes_eq, length, length-append, keep, any, All, All-append, take, drop, Map, lookup,
  remove, insert, lookup-insert, lookup-remove, if-true, if-false, not-true, lookup-insert_other,
  lookup-remove_other,
}
use oma_seal.Bytes.{Bytes, codes, to_lower, to_upper, equal_fold, is_space, trim_space, has_prefix}
use oma_seal.Bytes.Cut.{cut}

-- ALLOW, DENY and ASK; `unknown` is any other word of a proposal.
pub data RulePolicy : Type 0 where
  policy_allow policy_deny policy_ask policy_unknown : RulePolicy

pub record ManifestRule : Type 0 where
  pub policy : RulePolicy
  pub pattern : Bytes
  pub description : Bytes

pub data Action : Type 0 where
  add_action set_action remove_action unknown_action : Action

-- `change_policy` is the policy's word.
pub record ProposalChange : Type 0 where
  pub action : Action
  pub change_policy : Bytes
  pub change_pattern : Bytes
  pub change_description : Bytes
  pub rationale : Bytes

unfoldable pub policy_of : Bytes → RulePolicy
policy_of word =
    if word == codes "ALLOW"
    then policy_allow
    else if word == codes "DENY"
    then policy_deny
    else if word == codes "ASK"
    then policy_ask
    else policy_unknown

-- the first rule that passes a test
unfoldable pub first_rule : (ManifestRule → Bool) → List ManifestRule → Option ManifestRule
first_rule p [] = none
first_rule p (r ∷ rules) = if p r then some r else first_rule p rules

abbrev pub slash : ℕ
slash = b'/'

abbrev pub star : Bytes
star = b'*' ∷ []

abbrev pub folds_to : Bytes → ManifestRule → Bool
folds_to target r = equal_fold r.pattern target

abbrev pub is_catch_all : Bytes → Bool
is_catch_all pattern = pattern == star || pattern == b'*' ∷ slash ∷ star

abbrev pub or_else {ℓ} : {A : Type ℓ} → Option A → Option A → Option A
or_else (some a) o = some a
or_else none o = o

abbrev pub no_rule : RulePolicy × Bytes
no_rule = (policy_ask, codes "Unspecified in AI manifest; prompt confirmation required")

abbrev pub verdict_of : Option ManifestRule → RulePolicy × Bytes
verdict_of none = no_rule
verdict_of (some r) = (r.policy, r.description)

-- the rule that governs a target: an exact match, the service's wildcard, a catch-all
unfoldable pub governing : List ManifestRule → Bytes → Bytes → Option ManifestRule
unfolding first_rule equal_fold
governing rules target service_wildcard = or_else (first_rule (folds_to target) rules) (
    or_else (first_rule (folds_to service_wildcard) rules)
      (first_rule (λ r. is_catch_all r.pattern) rules))

unfoldable pub check_policy : List ManifestRule → Bytes → Bytes → RulePolicy × Bytes
unfolding governing to_lower
check_policy rules service account =
    let target = to_lower service ++ slash ∷ to_lower account in
    let service_wildcard = to_lower service ++ slash ∷ star in
    verdict_of (governing rules target service_wildcard)

-- Any policy that is none of the three ranks as ASK.
abbrev pub policy_rank : RulePolicy → ℕ
policy_rank policy_deny = 0
policy_rank policy_ask = 1
policy_rank policy_allow = 2
policy_rank policy_unknown = 1

unfoldable pub governs_jev_credential : Bytes → Bool
unfolding to_lower trim_space has_prefix
governs_jev_credential pattern =
    let p = to_lower (trim_space pattern) in
    is_catch_all p || p == codes "openrouter" || has_prefix p (codes "openrouter/")

abbrev pub is_control : ℕ → Bool
is_control c = ltb c 32 || c == 127

unfoldable pub valid_proposal_fields : ProposalChange → Bool
unfolding any
valid_proposal_fields c =
    not (c.change_pattern == [] || any (λ b. is_space b || is_control b) c.change_pattern)
    && not (any is_control c.change_description)
    && not (any is_control c.rationale)

unfoldable pub pattern_probe : Bytes → Bytes × Bytes
unfolding cut
pattern_probe pattern =
    let (svc, acct, _) = cut pattern slash in (svc, if acct == [] then star else acct)

unfoldable pub effective_rank : List ManifestRule → Bytes → ℕ
unfolding pattern_probe check_policy
effective_rank rules pattern =
    let (svc, acct) = pattern_probe pattern in policy_rank (check_policy rules svc acct).0

unfoldable pub remove_first : (ManifestRule → Bool) → List ManifestRule → List ManifestRule
remove_first p [] = []
remove_first p (r ∷ rules) = if p r then rules else r ∷ remove_first p rules

unfoldable pub replace_first :
    (ManifestRule → Bool) → ManifestRule → List ManifestRule → List ManifestRule
replace_first p new [] = []
replace_first p new (r ∷ rules) = if p r then new ∷ rules else r ∷ replace_first p new rules

-- the rule that an `add` or a `set` writes
unfoldable pub new_rule : ProposalChange → ManifestRule
unfolding policy_of to_upper
new_rule c = record {
  policy = policy_of (to_upper c.change_policy);
  pattern = c.change_pattern;
  description = c.change_description;
}

abbrev pub apply_action : Action → List ManifestRule → ProposalChange → List ManifestRule
apply_action remove_action rules c = remove_first (folds_to c.change_pattern) rules
apply_action set_action rules c = replace_first (folds_to c.change_pattern) (new_rule c) rules
apply_action add_action rules c = rules ++ new_rule c ∷ []
apply_action unknown_action rules c = rules

unfoldable pub apply_change_to_rules : List ManifestRule → ProposalChange → List ManifestRule
unfolding remove_first replace_first new_rule
apply_change_to_rules rules c = apply_action c.action rules c

unfoldable pub count_pattern_rules : List ManifestRule → Bytes → ℕ
unfolding equal_fold
count_pattern_rules [] pattern = 0
count_pattern_rules (r ∷ rules) pattern =
    let n = count_pattern_rules rules pattern in if folds_to pattern r then suc n else n

unfoldable pub is_expansion_change : List ManifestRule → ProposalChange → Bool
unfolding effective_rank apply_change_to_rules
is_expansion_change rules c =
    ltb (effective_rank rules c.change_pattern)
      (effective_rank (apply_change_to_rules rules c) c.change_pattern)

unfoldable pub is_reduction_change : List ManifestRule → ProposalChange → Bool
unfolding effective_rank apply_change_to_rules
is_reduction_change rules c =
    ltb (effective_rank (apply_change_to_rules rules c) c.change_pattern)
      (effective_rank rules c.change_pattern)

abbrev pub is_known : RulePolicy → Bool
is_known policy_unknown = false
is_known _ = true

abbrev pub valid_action : Action → Bytes → Bool
valid_action remove_action word = true
valid_action add_action word = is_known (policy_of (to_upper word))
valid_action set_action word = is_known (policy_of (to_upper word))
valid_action unknown_action word = false

unfoldable pub valid_proposal_action : ProposalChange → Bool
unfolding policy_of to_upper
valid_proposal_action c = valid_action c.action c.change_policy

abbrev pub valid_count : Action → ℕ → Bool
valid_count add_action n = n == 0
valid_count set_action n = n == 1
valid_count remove_action n = n == 1
valid_count unknown_action n = true

-- The checks that `handleManifestApply` makes of every change before it shows the proposal
unfoldable pub acceptable : List ManifestRule → ProposalChange → Bool
unfolding valid_proposal_action valid_proposal_fields governs_jev_credential count_pattern_rules
acceptable rules c =
    valid_proposal_action c
    && valid_proposal_fields c
    && not (governs_jev_credential c.change_pattern)
    && valid_count c.action (count_pattern_rules rules c.change_pattern)
