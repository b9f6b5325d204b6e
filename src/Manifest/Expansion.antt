-- ===== src/Manifest/Expansion.antt =====
-- Which changes of the manifest let agents do more (engine/manifestapply.go).
use oma_seal.Prelude.{
  ℕ, ◌≤◌, ◌≡◌, refl, sym, ap, ◌∙◌, subst, ◌≢◌, inl, inr, true, false, List, [], ◌∷◌, ◌++◌, arith,
  ltb, Bool-cases, ◌==◌, eq_iff, nat_eq, bytes_eq,
}
use oma_seal.Bytes.{Bytes, to_lower}
use oma_seal.Bytes.Cut.{Lacks-cases, cut, Lacks, cut-append}
use oma_seal.Manifest.{
  ManifestRule, ProposalChange, slash, star, check_policy, policy_rank, apply_change_to_rules,
  pattern_probe, effective_rank, is_expansion_change, acceptable, governs_jev_credential,
}
use oma_seal.Manifest.Keys.{
  to_lower-slash, key, outcome, to_lower-Lacks, check_policy-outcome, key_injective, key-not_Lacks,
}
use oma_seal.Manifest.Ranks.{outcome-other, outcome-any}

pub not_equal : (x y : Bytes) → x ≢ y → (x == y) ≡ false
not_equal x y h = ground (arith, eq_iff x y)

lower_nil : to_lower [] ≡ []
unfolding to_lower
lower_nil = refl

star-not_empty : star ≢ []
star-not_empty e = cc

lower_empty : (s : Bytes) → to_lower s ≡ [] → s ≡ []
unfolding to_lower
lower_empty [] h = refl
lower_empty (c ∷ s) h = cc

key-cong : (s t : Bytes) → to_lower s ≡ to_lower t → key s star ≡ key t star
key-cong s t e = ap (λ (k : Bytes). k ++ slash ∷ to_lower star) e

effective_rank-outcome :
    (rules : List ManifestRule) (pattern ps pa : Bytes)
    → pattern ≡ ps ++ slash ∷ pa
    → Lacks slash ps
    → pa ≢ []
    → effective_rank rules pattern ≡ outcome (key ps pa) (key ps star) rules
unfolding effective_rank pattern_probe
effective_rank-outcome rules pattern ps pa e h n =
    let split : cut pattern slash ≡ (ps, pa, true) =
      ap (λ k. cut k slash) e ∙ cut-append ps pa slash h in
    rw (split, not_equal pa [] n) (check_policy-outcome rules ps pa)

not_above : (a b : ℕ) → ltb a b ≡ false → b ≤ a
not_above a b h = ground arith

-- the theorem on the keys of a pattern with a '/'
split_pattern :
    (rules : List ManifestRule) (c : ProposalChange) (service account ps pa : Bytes)
    → governs_jev_credential c.change_pattern ≡ false
    → Lacks slash service
    → account ≢ []
    → c.change_pattern ≡ ps ++ slash ∷ pa
    → Lacks slash ps
    → is_expansion_change rules c ≡ false
    → outcome (key service account) (key service star) (apply_change_to_rules rules c)
      ≤ outcome (key service account) (key service star) rules
unfolding is_expansion_change
split_pattern rules c service account ps pa quiet hs ha e h same =
    let ek : to_lower c.change_pattern ≡ key ps pa = ap to_lower e ∙ to_lower-slash ps pa in
    elim (Bool-cases (pa == [])) [
      | inl empty ↦
          let nothing = (eq_iff pa []).0 empty in
          rw
            (outcome-other c rules quiet (key service account) (key service star)
              (not_equal _ _ (λ k. ha (
                lower_empty account (
                  (key_injective service ps account pa hs h (k ∙ ek)).1
                  ∙ ap to_lower nothing
                  ∙ lower_nil))))
              (not_equal _ _ (λ k. star-not_empty (
                lower_empty star (
                  (key_injective service ps star pa hs h (k ∙ ek)).1
                  ∙ ap to_lower nothing
                  ∙ lower_nil)))))
            (omega arith)
      | inr n ↦
          let filled : pa ≢ [] = λ z. ground (arith, eq_iff pa []) in
          outcome-any c rules quiet (key service account) (key service star) (key ps star)
            (λ k. key-cong service ps (key_injective service ps account pa hs h (k ∙ ek)).0)
            (λ k. sym (key-cong service ps (key_injective service ps star pa hs h (k ∙ ek)).0))
            (rw ek (
              rw
                (
                  effective_rank-outcome (apply_change_to_rules rules c) c.change_pattern ps pa e h
                      filled,
                  effective_rank-outcome rules c.change_pattern ps pa e h filled,
                )
                at (not_above _ _ same)))
    ]

-- the pattern of an acceptable change does not govern Jev's credential
pub acceptable-quiet :
    (rules : List ManifestRule) (c : ProposalChange)
    → acceptable rules c ≡ true
    → governs_jev_credential c.change_pattern ≡ false
unfolding acceptable
acceptable-quiet rules c h = ground arith

-- The judgement of a change on the rules in memory, where a pattern is taken as it stands: what the
-- file gets can differ for a pattern that starts with a quote.
pub not_expanding_safe :
    (rules : List ManifestRule) (c : ProposalChange) (service account : Bytes)
    → Lacks slash service
    → account ≢ []
    → acceptable rules c ≡ true
    → is_expansion_change rules c ≡ false
    → policy_rank (check_policy (apply_change_to_rules rules c) service account).0
      ≤ policy_rank (check_policy rules service account).0
not_expanding_safe rules c service account hs ha fine same =
    let quiet = acceptable-quiet rules c fine in
    rw
      (
        check_policy-outcome (apply_change_to_rules rules c) service account,
        check_policy-outcome rules service account,
      )
      (elim (Lacks-cases c.change_pattern slash) [
        | inr (ps, pa, e, h) ↦ split_pattern rules c service account ps pa quiet hs ha e h same
        | inl h ↦
            rw
              (outcome-other c rules quiet (key service account) (key service star)
                (not_equal _ _ (λ k.
                  key-not_Lacks service account
                    (subst (Lacks slash) (sym k) (to_lower-Lacks c.change_pattern h))))
                (not_equal _ _ (λ k.
                  key-not_Lacks service star
                    (subst (Lacks slash) (sym k) (to_lower-Lacks c.change_pattern h)))))
              (omega arith)
      ])
