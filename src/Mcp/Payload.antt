-- ===== src/Mcp/Payload.antt =====
-- Which log payloads count as denied.
use oma_seal.Prelude.{
  or_right, ℕ, ◌≡◌, refl, sym, ap, subst, ◌↔◌, inl, inr, true, ◌&&◌, List, [], ◌∷◌, ◌++◌,
  append-nil, append_assoc, and-eq-true, or-eq-true, ◌==◌, eq_iff, nat_eq, bytes_eq,
}
use oma_seal.Bytes.{Bytes}
use oma_seal.Manifest.{
  RulePolicy, policy_allow, policy_deny, policy_ask, policy_unknown, ManifestRule, check_policy,
}
use oma_seal.Mcp.{is_deny, manifest_denies, denies_split, manifest_denies_payload}

abbrev pub Denied : List ManifestRule → Bytes → Bytes → Type 0
Denied rules service account = (check_policy rules service account).0 ≡ policy_deny

-- Some '/' of the payload splits it into a denied credential.
abbrev pub DeniedSplit : List ManifestRule → Bytes → Bytes → Type 0
DeniedSplit rules before s =
    (service : Bytes) × (account : Bytes) × (s ≡ service ++ b'/' ∷ account)
    × Denied rules (before ++ service) account

is_deny_sound : (p : RulePolicy) → is_deny p ≡ true → p ≡ policy_deny
is_deny_sound policy_deny h = refl
is_deny_sound policy_allow h = cc
is_deny_sound policy_ask h = cc
is_deny_sound policy_unknown h = cc

manifest_denies_sound :
    (rules : List ManifestRule) (service account : Bytes)
    → manifest_denies rules (service, account) ≡ true
    → Denied rules service account
unfolding manifest_denies
manifest_denies_sound rules service account h =
    is_deny_sound (check_policy rules service account).0 h

pub manifest_denies_complete :
    (rules : List ManifestRule) (service account : Bytes)
    → Denied rules service account
    → manifest_denies rules (service, account) ≡ true
unfolding manifest_denies
manifest_denies_complete rules service account h = ap is_deny h

later :
    (rules : List ManifestRule) (before : Bytes) (c : ℕ) (s : Bytes)
    → DeniedSplit rules (before ++ c ∷ []) s
    → DeniedSplit rules before (c ∷ s)
later rules before c s (service, account, e, denied) = (
  c ∷ service,
  account,
  ap (λ x. c ∷ x) e,
  subst (λ x. Denied rules x account) (append_assoc before (c ∷ []) service) denied,
)

split_sound :
    (rules : List ManifestRule) (before s : Bytes)
    → denies_split rules before s ≡ true
    → DeniedSplit rules before s
unfolding denies_split
split_sound rules before [] h = cc
split_sound rules before (c ∷ s) h =
    elim (or-eq-true (c == b'/' && manifest_denies rules (before, s)) _ h) [
      | inl here ↦
          let (slash, denied) = and-eq-true (c == b'/') _ here in
          (
            [],
            s,
            ap (λ x. x ∷ s) ((eq_iff c b'/').0 slash),
            subst (λ x. Denied rules x s) (sym (append-nil before))
                (manifest_denies_sound rules before s denied),
          )
      | inr rest ↦ later rules before c s (split_sound rules (before ++ c ∷ []) s rest)
    ]

split_complete :
    (rules : List ManifestRule) (before service account : Bytes)
    → Denied rules (before ++ service) account
    → denies_split rules before (service ++ b'/' ∷ account) ≡ true
unfolding denies_split
split_complete rules before [] account denied = rw (
    manifest_denies_complete rules before account
      (subst (λ x. Denied rules x account) (append-nil before) denied))
split_complete rules before (c ∷ service) account denied =
    or_right (c == b'/' && manifest_denies rules (before, service ++ b'/' ∷ account)) _ (
      split_complete rules (before ++ c ∷ []) service account
        (subst (λ x. Denied rules x account) (sym (append_assoc before (c ∷ []) service)) denied))

-- A log payload counts as denied exactly if some '/' in it splits it into the service and the account
-- of a credential that the rules deny.
pub manifest_denies_payload_iff :
    (rules : List ManifestRule) (payload : Bytes)
    → (manifest_denies_payload rules payload ≡ true) ↔ DeniedSplit rules [] payload
unfolding manifest_denies_payload
manifest_denies_payload_iff rules payload = (
  split_sound rules [] payload,
  λ (service, account, e, denied).
      subst (λ x. denies_split rules [] x ≡ true) (sym e)
        (split_complete rules [] service account denied),
)
