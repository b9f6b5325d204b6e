-- ===== src/Mcp/Hidden.antt =====
-- What the listing tools leave out.
use oma_seal.Prelude.{
  ◌≡◌, refl, Bool, true, false, not, List, [], ◌∷◌, if◌then◌else◌, nat_eq, bytes_eq, keep, All,
}
use oma_seal.Errors.{Result, ok, err}
use oma_seal.Bytes.{Bytes}
use oma_seal.Agent.{Agent, check_agent_operation}
use oma_seal.Refs.{ref_aware_credentials}
use oma_seal.Manifest.{ManifestRule}
use oma_seal.Mcp.{
  check_manifest_policy, Tool, ToolCall, Arguments, no_arguments, malformed, arguments_of, Server,
  Effect, Content, text_content, names_content, payloads_content, tool_operation, get_tool,
  resolve_tool, set_tool, ask_save_tool, delete_tool, flag_tool, unflag_tool, list_tool, stats_tool,
  status_tool, unknown_tool, manifest_rules, manifest_denies, manifest_denies_payload, performed,
  after_policy, with_credentials, credential_tool, shown, items_in, service_filter, run_tool, gated,
  call_mcp_tool, is_strict,
}
use oma_seal.Mcp.Payload.{
  Denied, DeniedSplit, manifest_denies_complete, manifest_denies_payload_iff,
}

-- What a call answers names no credential that the manifest denies.
abbrev pub Conceals : Server → Result Content → Type 0
Conceals s (err e) = Unit
Conceals s (ok (text_content _)) = Unit
Conceals s (ok (names_content names)) =
    (rules : List ManifestRule) × (manifest_rules s.manifest ≡ ok rules)
    × All (λ i. ¬ Denied rules i.0 i.1) names
Conceals s (ok (payloads_content payloads)) =
    (rules : List ManifestRule) × (manifest_rules s.manifest ≡ ok rules)
    × All (λ p. ¬ DeniedSplit rules [] p) payloads

kept_next {ℓ} :
    {A : Type ℓ} (p : A → Bool) (x : A) (b : Bool) (rest : List A)
    → p x ≡ b
    → All (λ y. p y ≡ false) rest
    → All (λ y. p y ≡ false) (if not b then x ∷ rest else rest)
kept_next p x true rest e h = h
kept_next p x false rest e h = (e, h)

kept-All {ℓ} :
    {A : Type ℓ} (p : A → Bool) (xs : List A) → All (λ x. p x ≡ false) (keep (λ x. not (p x)) xs)
unfolding keep
kept-All p [] = tt
kept-All p (x ∷ xs) = kept_next p x (p x) _ refl (kept-All p xs)

All-map {ℓ κ} :
    {A : Type ℓ} {P Q : A → Type κ} → ((x : A) → P x → Q x) → (xs : List A) → All P xs → All Q xs
All-map f [] h = tt
All-map f (x ∷ xs) (px, h) = (f x px, All-map f xs h)

names_hidden :
    (rules : List ManifestRule) (i : Bytes × Bytes)
    → manifest_denies rules i ≡ false
    → ¬ Denied rules i.0 i.1
names_hidden rules (service, account) h denied =
    cc (h, manifest_denies_complete rules service account denied)

payloads_hidden :
    (rules : List ManifestRule) (p : Bytes)
    → manifest_denies_payload rules p ≡ false
    → ¬ DeniedSplit rules [] p
payloads_hidden rules p h split = cc (h, (manifest_denies_payload_iff rules p).1 split)

names_shown :
    (s : Server) (items : Result (List (Bytes × Bytes))) (r : Result (List ManifestRule))
    → manifest_rules s.manifest ≡ r
    → Conceals s (shown manifest_denies names_content items r)
names_shown s (err e) r h = tt
names_shown s (ok items) (err e) h = tt
names_shown s (ok items) (ok rules) h =
    (rules, h, All-map (names_hidden rules) _ (kept-All (manifest_denies rules) items))

payloads_shown :
    (s : Server) (payloads : Result (List Bytes)) (r : Result (List ManifestRule))
    → manifest_rules s.manifest ≡ r
    → Conceals s (shown manifest_denies_payload payloads_content payloads r)
payloads_shown s (err e) r h = tt
payloads_shown s (ok payloads) (err e) h = tt
payloads_shown s (ok payloads) (ok rules) h = (
  rules,
  h,
  All-map (payloads_hidden rules) _ (kept-All (manifest_denies_payload rules) payloads),
)

performed-Conceals :
    (s : Server) (r : Result Bytes) (e : Effect) (a : Agent) → Conceals s (performed r e a).0
performed-Conceals s (ok text) e a = tt
performed-Conceals s (err x) e a = tt

after_policy-Conceals :
    (s : Server) (tool : Tool) (n : Bytes × Bytes) (r : Result (Unit {0}) × Agent)
    → Conceals s (after_policy s tool n r).0
after_policy-Conceals s tool (service, account) (err e, a) = tt
after_policy-Conceals s tool (service, account) (ok u, a) =
    performed-Conceals s (s.perform tool service account) _ a

with_credentials-Conceals :
    (s : Server) (tool : Tool) (r : Result (Bytes × Bytes)) (a : Agent)
    → Conceals s (with_credentials s tool r a).0
with_credentials-Conceals s tool (err e) a = tt
with_credentials-Conceals s tool (ok (service, account)) a =
    after_policy-Conceals s tool (service, account) (check_manifest_policy s service account a)

credential_tool-Conceals :
    (s : Server) (tool : Tool) (args : Arguments) (a : Agent)
    → Conceals s (credential_tool s tool args a).0
unfolding ref_aware_credentials check_manifest_policy
credential_tool-Conceals s tool no_arguments a = tt
credential_tool-Conceals s tool malformed a = tt
credential_tool-Conceals s tool (arguments_of service account) a =
    with_credentials-Conceals s tool (ref_aware_credentials service account (is_strict tool)) a

run_tool-Conceals :
    (s : Server) (tool : Tool) (args : Arguments) (a : Agent)
    → Conceals s (run_tool s tool args a).0
run_tool-Conceals s list_tool args a =
    names_shown s (items_in s (service_filter args)) (manifest_rules s.manifest) refl
run_tool-Conceals s stats_tool args a = payloads_shown s s.payloads (manifest_rules s.manifest) refl
run_tool-Conceals s status_tool args a = tt
run_tool-Conceals s unknown_tool args a = tt
run_tool-Conceals s get_tool args a = credential_tool-Conceals s get_tool args a
run_tool-Conceals s resolve_tool args a = credential_tool-Conceals s resolve_tool args a
run_tool-Conceals s set_tool args a = credential_tool-Conceals s set_tool args a
run_tool-Conceals s ask_save_tool args a = credential_tool-Conceals s ask_save_tool args a
run_tool-Conceals s delete_tool args a = credential_tool-Conceals s delete_tool args a
run_tool-Conceals s flag_tool args a = credential_tool-Conceals s flag_tool args a
run_tool-Conceals s unflag_tool args a = credential_tool-Conceals s unflag_tool args a

gated-Conceals :
    (s : Server) (tool : Tool) (args : Arguments) (r : Result (Unit {0}) × Agent)
    → Conceals s (gated s tool args r).0
gated-Conceals s tool args (err e, a) = tt
gated-Conceals s tool args (ok u, a) = run_tool-Conceals s tool args a

dispatched-Conceals :
    (s : Server) (tool : Tool) (args : Arguments) (b : Bool)
    → Conceals s
        (if b
          then gated s tool args (check_agent_operation s.writes s.now s.agent)
          else run_tool s tool args s.agent).0
dispatched-Conceals s tool args true =
    gated-Conceals s tool args (check_agent_operation s.writes s.now s.agent)
dispatched-Conceals s tool args false = run_tool-Conceals s tool args s.agent

-- No answer of a tool call lists a credential that the manifest denies, or a log payload that some
-- '/' splits into such a credential; if the manifest cannot be read, nothing is listed.
pub call_mcp_tool-Conceals : (s : Server) (c : ToolCall) → Conceals s (call_mcp_tool s c).0
unfolding call_mcp_tool check_agent_operation
call_mcp_tool-Conceals s c = dispatched-Conceals s c.tool c.arguments (tool_operation c.tool)
