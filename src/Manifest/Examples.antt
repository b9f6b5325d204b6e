-- ===== src/Manifest/Examples.antt =====
-- Concrete manifests and changes (engine/manifest_test.go has such cases).
use oma_seal.Prelude.{
  ◌≤◌, ◌≡◌, refl, ◌⊎◌, inl, inr, true, false, some, List, [], ◌∷◌, arith, bytes_beq, nat_eq,
  bytes_eq, All,
}
use oma_seal.Bytes.{Bytes, codes, contains_byte, to_lower, trim_space}
use oma_seal.Manifest.{
  policy_allow, policy_deny, policy_ask, ProposalChange, add_action, remove_action, check_policy,
  policy_rank, policy_of, acceptable, is_expansion_change, set_action,
}
use oma_seal.Manifest.Lines.{
  parse_rule_line, format_rule_line, scan_manifest_rules, apply_changes, new_line,
}
use oma_seal.Manifest.Format.{parse-format}
use oma_seal.Manifest.Applied.{applied_change_safe, literal-PolicyWord}
use oma_seal.Presence.{broken}
use oma_seal.Manifest.Review.{
  Proposal, Review, Allowed, apply_proposal, accepted_changes, apply_proposal_guarded,
}
use oma_seal.Manifest.Jev.{jev_untouched}
use oma_seal.Manifest.Lines.{scan_fails}

abbrev lines : List Bytes
lines =
    codes "# rules"
    ∷ codes "ASK    github/work   - work account"
    ∷ codes "allow GitHub/* - the rest"
    ∷ codes "DENY \"bank/*\" - personal"
    ∷ codes "ASK *"
    ∷ []
    ∷ []

-- Exact rules come first, then the service's wildcard, then the catch-all.
scanned :
    ((check_policy (scan_manifest_rules lines) (codes "GITHUB") (codes "Work")).0 ≡ policy_ask)
    × ((check_policy (scan_manifest_rules lines) (codes "github") (codes "home")).0 ≡ policy_allow)
    × ((check_policy (scan_manifest_rules lines) (codes "bank") (codes "pin")).0 ≡ policy_deny)
    × ((check_policy (scan_manifest_rules lines) (codes "aws") (codes "key")).0 ≡ policy_ask)
unfolding scan_manifest_rules parse_rule_line check_policy bytes_beq
scanned = (refl, refl, refl, refl)

abbrev deny_home : ProposalChange
deny_home = record {
  action = add_action;
  change_policy = codes "deny";
  change_pattern = codes "github/home";
  change_description = codes "private";
  rationale = [];
}

-- Removing a rule that asks exposes the wildcard that allows.
exposes :
    is_expansion_change
      (scan_manifest_rules lines)
      (record deny_home { action = remove_action; change_pattern = codes "github/work" })
    ≡ true
unfolding scan_manifest_rules parse_rule_line is_expansion_change bytes_beq
exposes = refl

-- A quoted pattern passes every check, is not flagged, and comes to govern what it names without
-- the quotes: a wildcard that was denied asks afterwards.
abbrev smuggled : ProposalChange
smuggled = record {
  action = add_action;
  change_policy = codes "ASK";
  change_pattern = codes "\"bank/pin\"";
  change_description = [];
  rationale = [];
}

quotes_smuggle :
    (acceptable (scan_manifest_rules lines) smuggled ≡ true)
    × (is_expansion_change (scan_manifest_rules lines) smuggled ≡ false)
    × ((check_policy (scan_manifest_rules lines) (codes "bank") (codes "pin")).0 ≡ policy_deny)
    × ((check_policy
          (scan_manifest_rules (apply_changes lines (smuggled ∷ [])))
          (codes "bank")
          (codes "pin")).0
        ≡ policy_ask)
unfolding scan_manifest_rules parse_rule_line acceptable is_expansion_change apply_changes new_line
    format_rule_line contains_byte trim_space check_policy bytes_beq
quotes_smuggle = (refl, refl, refl, refl)

parse-format_example :
    (d : Bytes) × (parse_rule_line
        (format_rule_line (codes "DENY") (codes "github/home") (codes "private"))
      ≡ some (record {
        policy = policy_of (codes "DENY");
        pattern = codes "github/home";
        description = d;
      }))
parse-format_example =
    parse-format (codes "DENY") (codes "github/home") (codes "private")
      (literal-PolicyWord (codes "DENY") (inr (inl refl)))
      (record {
        pattern_unspaced = (
          refl,
          (refl, (refl, (refl, (refl, (refl, (refl, (refl, (refl, (refl, (refl, tt)))))))))),
        );
        first_byte = (b'g', codes "ithub/home", refl, ground arith);
      })

applied_change_safe_example :
    policy_rank
      (check_policy
        (scan_manifest_rules (apply_changes lines (deny_home ∷ [])))
        (codes "github")
        (codes "home")).0
    ≤ policy_rank (check_policy (scan_manifest_rules lines) (codes "github") (codes "home")).0
unfolding scan_manifest_rules parse_rule_line acceptable is_expansion_change bytes_beq
applied_change_safe_example =
    applied_change_safe lines deny_home (codes "github") (codes "home") (b'g') (codes "ithub/home")
      (ground arith) (λ e. cc) refl refl refl (ground arith)

jev_untouched_example :
    policy_rank
      (check_policy
        (scan_manifest_rules (apply_changes lines (deny_home ∷ [])))
        (codes "OpenRouter")
        (codes "key")).0
    ≡ policy_rank (check_policy (scan_manifest_rules lines) (codes "OpenRouter") (codes "key")).0
unfolding scan_manifest_rules parse_rule_line acceptable bytes_beq to_lower
jev_untouched_example =
    jev_untouched lines deny_home (codes "OpenRouter") (codes "key") (b'g') (codes "ithub/home")
      refl refl refl (ground arith)

abbrev allow_pin : ProposalChange
allow_pin = record {
  action = set_action;
  change_policy = codes "allow";
  change_pattern = codes "github/work";
  change_description = [];
  rationale = [];
}

abbrev proposal : Proposal
proposal = record {
  version = 1;
  manifest_sha256 = codes "ab";
  changes = deny_home ∷ allow_pin ∷ [];
}

-- nobody at a terminal, and `--yes`
abbrev unattended : Review
unattended = record {
  yes = true;
  tty = false;
  locks = true;
  file_sha256 = codes "ab";
  confirms = λ i. false;
  confirms_rest = false;
  desktop = record {
    fprintd_usable = false;
    fprintd_verified = false;
    graphical_session = false;
    gui_setting = [];
    available = λ k. false;
    confirm = λ k. broken;
  };
  write_ok = true;
}

-- It writes the change that denies.
unattended_denies :
    (check_policy
      (scan_manifest_rules (apply_proposal unattended proposal lines))
      (codes "github")
      (codes "home")).0
    ≡ policy_deny
unfolding apply_proposal scan_manifest_rules parse_rule_line acceptable is_expansion_change
    apply_changes new_line format_rule_line contains_byte trim_space check_policy accepted_changes
    bytes_beq scan_fails
unattended_denies = refl

-- at a terminal, with every question answered yes but the one of the expansion
abbrev attended : Review
attended = record unattended { yes = false; tty = true; confirms_rest = true }

-- The expansion that the user declines stays out.
declined :
    (check_policy
      (scan_manifest_rules (apply_proposal attended proposal lines))
      (codes "github")
      (codes "work")).0
    ≡ policy_ask
unfolding apply_proposal scan_manifest_rules parse_rule_line acceptable is_expansion_change
    apply_changes new_line format_rule_line contains_byte trim_space check_policy accepted_changes
    bytes_beq scan_fails
declined = refl

apply_proposal_guarded_example :
    (apply_proposal attended proposal lines ≡ lines)
    ⊎ ((accepted : List ProposalChange) × (apply_proposal attended proposal lines
          ≡ apply_changes lines accepted)
        × (scan_fails (apply_changes lines accepted) ≡ false)
        × All (Allowed attended proposal (scan_manifest_rules lines)) accepted)
apply_proposal_guarded_example = apply_proposal_guarded attended proposal lines
