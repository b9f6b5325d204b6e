-- ===== src/Mcp/Permits.antt =====
-- What the manifest permits an agent, and the sessions that it asks for.
use oma_seal.Prelude.{
  ℕ, ◌<◌, ◌≡◌, refl, ◌∙◌, subst, ◌≢◌, inl, inr, Bool, true, false, List, [], ◌∷◌, arith, Bool-cases,
  nat_eq, bytes_eq,
}
use oma_seal.Errors.{Result, ok, err}
use oma_seal.Bytes.{Bytes}
use oma_seal.Files.{holds, at_unix}
use oma_seal.Agent.{
  Agent, Mode, open_mode, ask, lock, Policy, load_agent_policy, load_agent_policy_or_default,
  agent_session_active, check_agent_operation, check_mode, check_policy_result,
}
use oma_seal.Agent.Gate.{live_session}
use oma_seal.Manifest.{
  RulePolicy, policy_allow, policy_deny, policy_ask, policy_unknown, ManifestRule, check_policy,
}
use oma_seal.Mcp.{ask_session, Server, manifest_rules, enforce, policy_for, check_manifest_policy}

-- an unexpired session on file
abbrev pub Session : ℕ → Agent → Type 0
Session now a = (n : ℕ) × (a.session_file ≡ holds n) × (now < at_unix n)

-- What the manifest lets an agent do with a credential while `a` is on file.
abbrev pub Permits : Server → Agent → List ManifestRule → Bytes → Bytes → Type 0
Permits s a [] service account = Unit
Permits s a (r ∷ rules) service account =
    ((check_policy (r ∷ rules) service account).0 ≢ policy_deny)
    × ((check_policy (r ∷ rules) service account).0 ≡ policy_ask → Session s.now a)

not_live :
    (writes : Bool) (now : ℕ) (p : Policy) (a : Agent)
    → (agent_session_active writes now p a).0 ≡ false
    → (agent_session_active writes now p a).1 ≡ a
unfolding agent_session_active
not_live writes now p a h = ground arith

asked_agent :
    (writes : Bool) (now : ℕ) (p : Policy) (a : Agent)
    → (check_mode writes now p ask a).1 ≡ (agent_session_active writes now p a).1
unfolding agent_session_active
asked_agent writes now p a = ground arith

-- A policy check can renew a session, but not open one.
renewed_mode :
    (writes : Bool) (now : ℕ) (p : Policy) (m : Mode) (a : Agent)
    → Session now (check_mode writes now p m a).1
    → Session now a
renewed_mode writes now p open_mode a h = h
renewed_mode writes now p lock a h = h
renewed_mode writes now p ask a h = elim (Bool-cases (agent_session_active writes now p a).0) [
  | inl e ↦ live_session writes now p a e
  | inr e ↦ subst (Session now) (asked_agent writes now p a ∙ not_live writes now p a e) h
]

renewed_result :
    (writes : Bool) (now : ℕ) (r : Result Policy) (a : Agent)
    → Session now (check_policy_result writes now r a).1
    → Session now a
renewed_result writes now (err e) a h = h
renewed_result writes now (ok p) a h = renewed_mode writes now p p.mode a h

renewed :
    (writes : Bool) (now : ℕ) (a : Agent)
    → Session now (check_agent_operation writes now a).1
    → Session now a
unfolding check_agent_operation
renewed writes now a h = renewed_result writes now (load_agent_policy a.policy_file) a h

asked_ok : (r : Bool × Agent) → (ask_session r).0 ≡ ok tt → r.0 ≡ true
asked_ok (true, a) h = refl
asked_ok (false, a) h = cc

enforced :
    (s : Server) (p : RulePolicy) (a : Agent)
    → (enforce s p a).0 ≡ ok tt
    → (p ≢ policy_deny) × (p ≡ policy_ask → Session s.now a)
enforced s policy_allow a h = (λ e. cc, λ e. cc)
enforced s policy_unknown a h = (λ e. cc, λ e. cc)
enforced s policy_deny a h = cc
enforced s policy_ask a h = (
  λ e. cc,
  λ _. live_session s.writes s.now (load_agent_policy_or_default a.policy_file) a (
      asked_ok (agent_session_active s.writes s.now (load_agent_policy_or_default a.policy_file) a)
        h),
)

policy_for-Permits :
    (s : Server) (service account : Bytes) (a : Agent) (r : Result (List ManifestRule))
    → (policy_for s r service account a).0 ≡ ok tt
    → (rules : List ManifestRule) × (r ≡ ok rules) × Permits s a rules service account
policy_for-Permits s service account a (err e) h = cc
policy_for-Permits s service account a (ok []) h = ([], refl, tt)
policy_for-Permits s service account a (ok (r ∷ rules)) h =
    (r ∷ rules, refl, enforced s (check_policy (r ∷ rules) service account).0 a h)

pub checked-Permits :
    (s : Server) (service account : Bytes) (a : Agent)
    → (check_manifest_policy s service account a).0 ≡ ok tt
    → (rules : List ManifestRule) × (manifest_rules s.manifest ≡ ok rules)
      × Permits s a rules service account
unfolding check_manifest_policy
checked-Permits s service account a h =
    policy_for-Permits s service account a (manifest_rules s.manifest) h

-- A session that is live after the policy check was so before.
pub Permits-before :
    (s : Server) (rules : List ManifestRule) (service account : Bytes)
    → Permits s (check_agent_operation s.writes s.now s.agent).1 rules service account
    → Permits s s.agent rules service account
Permits-before s [] service account h = tt
Permits-before s (r ∷ rules) service account (allowed, asks) =
    (allowed, λ e. renewed s.writes s.now s.agent (asks e))
