-- ===== src/Manifest/Keys.antt =====
-- The patterns of the manifest up to letter case (engine/manifest.go, CheckPolicy).
use oma_seal.Prelude.{
  ℕ, ◌≡◌, refl, sym, ap, ◌∙◌, Bool, true, Option, List, [], ◌∷◌, ◌++◌, arith, ◌==◌, nat_eq,
  bytes_eq, All-right,
}
use oma_seal.Bytes.{Bytes, lower, to_lower, equal_fold}
use oma_seal.Bytes.Cut.{cut, Lacks, cut-append}
use oma_seal.Manifest.{
  ManifestRule, first_rule, slash, star, is_catch_all, or_else, verdict_of, governing, check_policy,
  policy_rank,
}

-- lower-case service and account, joined
abbrev pub key : Bytes → Bytes → Bytes
key service account = to_lower service ++ slash ∷ to_lower account

-- the first rule with a pattern of this key
abbrev pub rule_at : Bytes → List ManifestRule → Option ManifestRule
rule_at k = first_rule (λ r. to_lower r.pattern == k)

abbrev pub catch_all : List ManifestRule → Option ManifestRule
catch_all = first_rule (λ r. is_catch_all r.pattern)

-- how much a target with this key and this wildcard may do
abbrev pub outcome : Bytes → Bytes → List ManifestRule → ℕ
outcome target wildcard rules =
    policy_rank
      (verdict_of
        (or_else (rule_at target rules) (or_else (rule_at wildcard rules) (catch_all rules)))).0

lower_idem : (c : ℕ) → lower (lower c) ≡ lower c
lower_idem c = ground arith

pub to_lower_idem : (s : Bytes) → to_lower (to_lower s) ≡ to_lower s
unfolding to_lower
to_lower_idem [] = refl
to_lower_idem (c ∷ s) = cc (lower_idem c, to_lower_idem s)

pub to_lower-append : (s t : Bytes) → to_lower (s ++ t) ≡ to_lower s ++ to_lower t
unfolding to_lower
to_lower-append [] t = refl
to_lower-append (c ∷ s) t = cc (to_lower-append s t)

pub to_lower-Lacks : (s : Bytes) → Lacks slash s → Lacks slash (to_lower s)
unfolding to_lower
to_lower-Lacks [] h = tt
to_lower-Lacks (c ∷ s) (hc, h) = (ground arith, to_lower-Lacks s h)

pub to_lower-key : (s a : Bytes) → to_lower (key s a) ≡ key s a
unfolding to_lower
to_lower-key s a =
    to_lower-append (to_lower s) (slash ∷ to_lower a) ∙ cc (to_lower_idem s, to_lower_idem a)

pub key-star : (s : Bytes) → key s star ≡ to_lower s ++ slash ∷ star
unfolding to_lower
key-star s = refl

pub check_policy-outcome :
    (rules : List ManifestRule) (s a : Bytes)
    → policy_rank (check_policy rules s a).0 ≡ outcome (key s a) (key s star) rules
unfolding check_policy governing equal_fold
check_policy-outcome rules s a =
    ap (λ (k : Bytes). outcome k (to_lower (to_lower s ++ slash ∷ star)) rules) (to_lower-key s a)
    ∙ ap (λ (k : Bytes). outcome (key s a) k rules)
        (ap to_lower (sym (key-star s)) ∙ to_lower-key s star)

-- A key splits in one way.
pub key_injective :
    (s t a b : Bytes)
    → Lacks slash s
    → Lacks slash t
    → key s a ≡ key t b
    → (to_lower s ≡ to_lower t) × (to_lower a ≡ to_lower b)
key_injective s t a b hs ht e =
    let same : (to_lower s, to_lower a, true) ≡ (to_lower t, to_lower b, true) =
      sym (cut-append (to_lower s) (to_lower a) slash (to_lower-Lacks s hs))
      ∙ ap (λ k. cut k slash) e
      ∙ cut-append (to_lower t) (to_lower b) slash (to_lower-Lacks t ht) in
    (ap (λ (p : Bytes × Bytes × Bool). p.0) same, ap (λ (p : Bytes × Bytes × Bool). p.1) same)

pub key-not_Lacks : (s a : Bytes) → ¬ Lacks slash (key s a)
key-not_Lacks s a h = (All-right _ (to_lower s) (slash ∷ to_lower a) h).0 refl

pub to_lower-slash : (s a : Bytes) → to_lower (s ++ slash ∷ a) ≡ key s a
unfolding to_lower
to_lower-slash s a = to_lower-append s (slash ∷ a)
