-- ===== src/Manifest/Edit.antt =====
-- engine/manifestapply.go: the edit of the file's lines does to the rules what `applyChangeToRules`
-- does to them in memory.
use oma_seal.Prelude.{
  ◌≡◌, refl, ap, inl, inr, Option, none, some, List, [], ◌∷◌, ◌++◌, bytes_beq, if◌then◌else◌,
  Bool-cases, ◌==◌, eq_iff, nat_eq, bytes_eq,
}
use oma_seal.Bytes.{Bytes, trim_space}
use oma_seal.Manifest.{
  ManifestRule, ProposalChange, Action, add_action, set_action, remove_action, unknown_action,
  folds_to, remove_first, replace_first,
}
use oma_seal.Manifest.Lines.{
  with_rule, parse_rule_line, scan_manifest_rules, remove_line, replace_line, add_line, new_line,
  edit, line_matches,
}

-- what the edits make of one line, whatever rule it holds
remove_step :
    (pattern : Bytes) (ln : Bytes) (lines edited : List Bytes) (o : Option ManifestRule)
    → parse_rule_line ln ≡ o
    → scan_manifest_rules edited ≡ remove_first (folds_to pattern) (scan_manifest_rules lines)
    → scan_manifest_rules (if line_matches pattern o then lines else ln ∷ edited)
      ≡ remove_first (folds_to pattern) (with_rule o (scan_manifest_rules lines))
unfolding scan_manifest_rules remove_first
remove_step pattern ln lines edited none e h = rw e h
remove_step pattern ln lines edited (some r) e h = elim (Bool-cases (folds_to pattern r)) [
  | inl m ↦ rw m refl
  | inr n ↦ rw (n, e) (ap (λ rules. r ∷ rules) h)
]

pub scan_remove :
    (pattern : Bytes) (lines : List Bytes)
    → scan_manifest_rules (remove_line pattern lines)
      ≡ remove_first (folds_to pattern) (scan_manifest_rules lines)
unfolding scan_manifest_rules remove_line remove_first
scan_remove pattern [] = refl
scan_remove pattern (ln ∷ lines) =
    remove_step pattern ln lines (remove_line pattern lines) (parse_rule_line ln) refl
      (scan_remove pattern lines)

replace_step :
    (pattern new : Bytes) (n : ManifestRule) (ln : Bytes) (lines edited : List Bytes)
    (o : Option ManifestRule)
    → parse_rule_line new ≡ some n
    → parse_rule_line ln ≡ o
    → scan_manifest_rules edited ≡ replace_first (folds_to pattern) n (scan_manifest_rules lines)
    → scan_manifest_rules (if line_matches pattern o then new ∷ lines else ln ∷ edited)
      ≡ replace_first (folds_to pattern) n (with_rule o (scan_manifest_rules lines))
unfolding scan_manifest_rules replace_first
replace_step pattern new n ln lines edited none p e h = rw e h
replace_step pattern new n ln lines edited (some r) p e h = elim (Bool-cases (folds_to pattern r)) [
  | inl m ↦ rw (m, p) refl
  | inr k ↦ rw (k, e) (ap (λ rules. r ∷ rules) h)
]

scan_replace :
    (pattern new : Bytes) (n : ManifestRule) (lines : List Bytes)
    → parse_rule_line new ≡ some n
    → scan_manifest_rules (replace_line pattern new lines)
      ≡ replace_first (folds_to pattern) n (scan_manifest_rules lines)
unfolding scan_manifest_rules replace_line replace_first
scan_replace pattern new n [] p = refl
scan_replace pattern new n (ln ∷ lines) p =
    replace_step pattern new n ln lines (replace_line pattern new lines) (parse_rule_line ln) p refl
      (scan_replace pattern new n lines p)

blank-no_rule : (ln : Bytes) → trim_space ln ≡ [] → parse_rule_line ln ≡ none
unfolding parse_rule_line bytes_beq
blank-no_rule ln e = rw e refl

empty-no_rule : parse_rule_line [] ≡ none
unfolding parse_rule_line bytes_beq
empty-no_rule = refl

add_step :
    (ln : Bytes) (lines edited : List Bytes) (n : ManifestRule) (o : Option ManifestRule)
    → scan_manifest_rules edited ≡ scan_manifest_rules lines ++ n ∷ []
    → with_rule o (scan_manifest_rules edited) ≡ with_rule o (scan_manifest_rules lines) ++ n ∷ []
add_step ln lines edited n none h = h
add_step ln lines edited n (some r) h = ap (λ rules. r ∷ rules) h

scan_add :
    (new : Bytes) (n : ManifestRule) (lines : List Bytes)
    → parse_rule_line new ≡ some n
    → scan_manifest_rules (add_line new lines) ≡ scan_manifest_rules lines ++ n ∷ []
unfolding scan_manifest_rules add_line
scan_add new n [] p = rw p refl
scan_add new n (ln ∷ []) p = elim (Bool-cases (trim_space ln == [])) [
  | inl e ↦ rw (e, p, empty-no_rule, blank-no_rule ln ((eq_iff (trim_space ln) []).0 e)) refl
  | inr e ↦ rw e (add_step ln [] (new ∷ []) n (parse_rule_line ln) (rw p refl))
]
scan_add new n (ln ∷ next ∷ lines) p =
    add_step ln (next ∷ lines) (add_line new (next ∷ lines)) n (parse_rule_line ln)
      (scan_add new n (next ∷ lines) p)

-- `apply_action` with another new rule
abbrev pub edited_rules :
    Action → ManifestRule → List ManifestRule → ProposalChange → List ManifestRule
edited_rules remove_action n rules c = remove_first (folds_to c.change_pattern) rules
edited_rules set_action n rules c = replace_first (folds_to c.change_pattern) n rules
edited_rules add_action n rules c = rules ++ n ∷ []
edited_rules unknown_action n rules c = rules

-- Whatever the change, the rules that are read back from the edited lines are the rules that the
-- expansion check has judged, if the change's line reads as a rule.
pub edit_rules :
    (c : ProposalChange) (n : ManifestRule) (lines : List Bytes) (action : Action)
    → parse_rule_line (new_line c) ≡ some n
    → scan_manifest_rules (edit action lines c)
      ≡ edited_rules action n (scan_manifest_rules lines) c
edit_rules c n lines remove_action p = scan_remove c.change_pattern lines
edit_rules c n lines set_action p = scan_replace c.change_pattern (new_line c) n lines p
edit_rules c n lines add_action p = scan_add (new_line c) n lines p
edit_rules c n lines unknown_action p = refl
