-- ===== src/Manifest/Lines.antt =====
-- engine/manifest.go: the rule lines of the manifest; engine/manifestapply.go: the edit of the lines.
use oma_seal.Prelude.{
  any, length, leb, ℕ, zero, suc, ◌-◌, Bool, false, ◌||◌, Option, none, some, List, [], ◌∷◌, ◌++◌,
  ltb, if◌then◌else◌, ◌==◌, nat_eq, bytes_eq, length, keep, drop,
}
use oma_seal.Bytes.{
  Bytes, codes, to_upper, is_space, trim_left, trim_space, has_prefix, contains_byte, cut_prefix,
}
use oma_seal.Bytes.Cut.{cut}
use oma_seal.Manifest.{
  RulePolicy, ManifestRule, policy_of, Action, add_action, set_action, remove_action,
  unknown_action, ProposalChange, folds_to, is_known,
}

-- the bytes before the first white space, and the rest without the white space
unfoldable pub cut_field : Bytes → Bytes × Bytes
unfolding trim_left
cut_field [] = ([], [])
cut_field (c ∷ s) =
    let (head, tail) = cut_field s in if is_space c then ([], trim_left s) else (c ∷ head, tail)

-- strings.TrimPrefix
abbrev pub trim_prefix : Bytes → Bytes → Bytes
trim_prefix s p = elim (cut_prefix p s) [ none ↦ s | some rest ↦ rest ]

abbrev pub quote : ℕ
quote = b'"'

abbrev pub quoted_pattern : Bytes × Bytes × Bool → Option (Bytes × Bytes)
quoted_pattern (inside, tail, found) = if found then some (inside, trim_left tail) else none

-- the pattern and what follows it
abbrev pub cut_pattern : Bytes → Option (Bytes × Bytes)
cut_pattern rest =
    if has_prefix rest (quote ∷ [])
    then quoted_pattern (cut (drop 1 rest) quote)
    else some (cut_field rest)

abbrev pub described : RulePolicy → Option (Bytes × Bytes) → Option ManifestRule
described policy none = none
described policy (some (pattern, rest)) =
    if pattern == []
    then none
    else some (record {
      policy = policy;
      pattern = pattern;
      description = trim_space (trim_prefix (trim_space rest) (codes "- "));
    })

unfoldable pub parse_fields : Bytes × Bytes → Option ManifestRule
unfolding trim_space trim_left cut_field cut cut_prefix has_prefix policy_of to_upper
parse_fields (word, rest) =
    let policy = policy_of (to_upper word) in
    if is_known policy then described policy (cut_pattern rest) else none

-- a line without white space around it
unfoldable pub parse_trimmed : Bytes → Option ManifestRule
unfolding parse_fields cut_field has_prefix
parse_trimmed t = if t == [] || has_prefix t (codes "#") then none else parse_fields (cut_field t)

unfoldable pub parse_rule_line : Bytes → Option ManifestRule
unfolding parse_trimmed trim_space
parse_rule_line ln = parse_trimmed (trim_space ln)

abbrev pub spaces : ℕ → Bytes
spaces zero = []
spaces (suc n) = 32 ∷ spaces n

-- the number of runes of a UTF-8 string
unfoldable pub rune_count : Bytes → ℕ
unfolding keep
rune_count s = length (keep (λ c. ltb c 128 || ltb 191 c) s)

-- %-ns
unfoldable pub pad : ℕ → Bytes → Bytes
unfolding rune_count
pad n s = s ++ spaces (n - rune_count s)

-- `word` is the policy.
unfoldable pub format_rule_line : Bytes → Bytes → Bytes → Bytes
unfolding pad
format_rule_line word pattern desc =
    let tok =
      if contains_byte pattern 32 || contains_byte pattern 9
      then quote ∷ pattern ++ quote ∷ []
      else pattern in
    pad 6 word ++ (32 ∷ (pad 37 tok ++ (codes " - " ++ desc)))

abbrev pub with_rule : Option ManifestRule → List ManifestRule → List ManifestRule
with_rule none rules = rules
with_rule (some r) rules = r ∷ rules

-- bufio.MaxScanTokenSize: the scanner fails on a line that is not shorter.
abbrev pub max_scan_token_size : ℕ
max_scan_token_size = 65536

-- whether `scanManifestRules` returns the scanner's error
unfoldable pub scan_fails : List Bytes → Bool
unfolding any
scan_fails lines = any (λ ln. leb max_scan_token_size (length ln)) lines

-- The rules of a file's lines, if the scanner does not fail. A comment and a blank line are no rule lines either.
unfoldable pub scan_manifest_rules : List Bytes → List ManifestRule
scan_manifest_rules [] = []
scan_manifest_rules (ln ∷ lines) =
    let rest = scan_manifest_rules lines in with_rule (parse_rule_line ln) rest

abbrev pub line_matches : Bytes → Option ManifestRule → Bool
line_matches pattern none = false
line_matches pattern (some r) = folds_to pattern r

unfoldable pub remove_line : Bytes → List Bytes → List Bytes
remove_line pattern [] = []
remove_line pattern (ln ∷ lines) =
    if line_matches pattern (parse_rule_line ln) then lines else ln ∷ remove_line pattern lines

unfoldable pub replace_line : Bytes → Bytes → List Bytes → List Bytes
replace_line pattern new [] = []
replace_line pattern new (ln ∷ lines) =
    if line_matches pattern (parse_rule_line ln)
    then new ∷ lines
    else ln ∷ replace_line pattern new lines

-- before a blank last line, or at the end
unfoldable pub add_line : Bytes → List Bytes → List Bytes
add_line new [] = new ∷ []
add_line new (ln ∷ []) = if trim_space ln == [] then new ∷ [] ∷ [] else ln ∷ new ∷ []
add_line new (ln ∷ next ∷ lines) = ln ∷ add_line new (next ∷ lines)

unfoldable pub new_line : ProposalChange → Bytes
unfolding to_upper
new_line c = format_rule_line (to_upper c.change_policy) c.change_pattern c.change_description

abbrev pub edit : Action → List Bytes → ProposalChange → List Bytes
edit remove_action lines c = remove_line c.change_pattern lines
edit set_action lines c = replace_line c.change_pattern (new_line c) lines
edit add_action lines c = add_line (new_line c) lines
edit unknown_action lines c = lines

-- The lines of the file, as strings.Split at line breaks gives them.
unfoldable pub apply_changes : List Bytes → List ProposalChange → List Bytes
unfolding remove_line replace_line add_line
apply_changes lines [] = lines
apply_changes lines (c ∷ changes) = apply_changes (edit c.action lines c) changes
