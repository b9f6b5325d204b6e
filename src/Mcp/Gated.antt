-- ===== src/Mcp/Gated.antt =====
-- What a call of an agent's tool may reach, and what the listing tools leave out.
use oma_seal.Prelude.{
  ◌≡◌, refl, ap, subst, Bool, true, false, List, if◌then◌else◌, nat_eq, bytes_eq, All,
}
use oma_seal.Errors.{Result, ok, err}
use oma_seal.Bytes.{Bytes}
use oma_seal.Refs.{ref_aware_credentials}
use oma_seal.Agent.{Agent, check_agent_operation}
use oma_seal.Agent.Gate.{Authorised, check_agent_operation_iff}
use oma_seal.Manifest.{ManifestRule}
use oma_seal.Mcp.{
  Tool, ToolCall, Arguments, no_arguments, malformed, arguments_of, Server, Effect, tool_operation,
  get_tool, resolve_tool, set_tool, ask_save_tool, delete_tool, flag_tool, unflag_tool, list_tool,
  stats_tool, status_tool, unknown_tool, manifest_rules, check_manifest_policy, performed,
  after_policy, with_credentials, credential_tool, run_tool, gated, call_mcp_tool, is_strict,
}
use oma_seal.Mcp.Permits.{Permits, checked-Permits, Permits-before}

-- Why a call may reach an operation on a credential: the call names the credential, the agent policy
-- authorises the agent, and the manifest permits it.
pub record Permitted (s : Server) (c : ToolCall) (e : Effect) : Type 0 where
  pub is_operation : tool_operation c.tool ≡ true
  pub same_tool : e.by_tool ≡ c.tool
  pub service : Bytes
  pub account : Bytes
  pub are_arguments : c.arguments ≡ arguments_of service account
  pub resolves :
      ref_aware_credentials service account (is_strict c.tool) ≡ ok (e.on_service, e.on_account)
  pub authorised : Authorised s.now s.agent
  pub rules : List ManifestRule
  pub are_rules : manifest_rules s.manifest ≡ ok rules
  pub permits : Permits s s.agent rules e.on_service e.on_account

performed-All {κ} :
    (P : Effect → Type κ) (r : Result Bytes) (e : Effect) (a : Agent)
    → P e
    → All P (performed r e a).1
performed-All P (ok text) e a h = (h, tt)
performed-All P (err x) e a h = (h, tt)

module _ (s : Server) (tool : Tool) (service account : Bytes) (op : tool_operation tool ≡ true)
    (auth : (check_agent_operation s.writes s.now s.agent).0 ≡ ok tt) where
  abbrev call : ToolCall
  call = record { tool = tool; arguments = arguments_of service account }

  after_policy-Permitted :
      (n : Bytes × Bytes)
      → ref_aware_credentials service account (is_strict tool) ≡ ok n
      → (r : Result (Unit {0}) × Agent)
      → check_manifest_policy s n.0 n.1 (check_agent_operation s.writes s.now s.agent).1 ≡ r
      → All (Permitted s call) (after_policy s tool n r).1
  after_policy-Permitted (svc, acct) resolved (err e, a) checked = tt
  after_policy-Permitted (svc, acct) resolved (ok u, a) checked =
      let (rules, are, permits) =
        checked-Permits s svc acct (check_agent_operation s.writes s.now s.agent).1
          (ap (λ x. x.0) checked) in
      performed-All (Permitted s call) (s.perform tool svc acct)
        (record { by_tool = tool; on_service = svc; on_account = acct }) a
        (record {
          is_operation = op;
          same_tool = refl;
          service = service;
          account = account;
          are_arguments = refl;
          resolves = resolved;
          authorised = (check_agent_operation_iff s.writes s.now s.agent).0 auth;
          rules = rules;
          are_rules = are;
          permits = Permits-before s rules svc acct permits;
        })

  with_credentials-Permitted :
      (r : Result (Bytes × Bytes))
      → ref_aware_credentials service account (is_strict tool) ≡ r
      → All
          (Permitted s call)
          (with_credentials s tool r (check_agent_operation s.writes s.now s.agent).1).1
  with_credentials-Permitted (err e) resolved = tt
  with_credentials-Permitted (ok (svc, acct)) resolved =
      after_policy-Permitted (svc, acct) resolved
        (check_manifest_policy s svc acct (check_agent_operation s.writes s.now s.agent).1) refl

  credential_tool-Permitted :
      All
        (Permitted s call)
        (credential_tool s tool
          (arguments_of service account)
          (check_agent_operation s.writes s.now s.agent).1).1
  unfolding ref_aware_credentials check_manifest_policy
  credential_tool-Permitted =
      with_credentials-Permitted (ref_aware_credentials service account (is_strict tool)) refl

credential_tool_with :
    (s : Server) (tool : Tool) (args : Arguments)
    → tool_operation tool ≡ true
    → (check_agent_operation s.writes s.now s.agent).0 ≡ ok tt
    → All
        (Permitted s (record { tool = tool; arguments = args }))
        (credential_tool s tool args (check_agent_operation s.writes s.now s.agent).1).1
credential_tool_with s tool no_arguments op auth = tt
credential_tool_with s tool malformed op auth = tt
credential_tool_with s tool (arguments_of service account) op auth =
    credential_tool-Permitted s tool service account op auth

run_tool-Permitted :
    (s : Server) (tool : Tool) (args : Arguments)
    → (check_agent_operation s.writes s.now s.agent).0 ≡ ok tt
    → All
        (Permitted s (record { tool = tool; arguments = args }))
        (run_tool s tool args (check_agent_operation s.writes s.now s.agent).1).1
run_tool-Permitted s list_tool args auth = tt
run_tool-Permitted s stats_tool args auth = tt
run_tool-Permitted s status_tool args auth = tt
run_tool-Permitted s unknown_tool args auth = tt
run_tool-Permitted s get_tool args auth = credential_tool_with s get_tool args refl auth
run_tool-Permitted s resolve_tool args auth = credential_tool_with s resolve_tool args refl auth
run_tool-Permitted s set_tool args auth = credential_tool_with s set_tool args refl auth
run_tool-Permitted s ask_save_tool args auth = credential_tool_with s ask_save_tool args refl auth
run_tool-Permitted s delete_tool args auth = credential_tool_with s delete_tool args refl auth
run_tool-Permitted s flag_tool args auth = credential_tool_with s flag_tool args refl auth
run_tool-Permitted s unflag_tool args auth = credential_tool_with s unflag_tool args refl auth

gated-Permitted :
    (s : Server) (tool : Tool) (args : Arguments) (r : Result (Unit {0}) × Agent)
    → check_agent_operation s.writes s.now s.agent ≡ r
    → All (Permitted s (record { tool = tool; arguments = args })) (gated s tool args r).1
gated-Permitted s tool args (err e, a) checked = tt
gated-Permitted s tool args (ok u, a) checked =
    subst
      (λ x. All (Permitted s (record { tool = tool; arguments = args })) (run_tool s tool args x).1)
      (ap (λ x. x.1) checked) (run_tool-Permitted s tool args (ap (λ x. x.0) checked))

ungated-Permitted :
    (s : Server) (tool : Tool) (args : Arguments) (a : Agent)
    → tool_operation tool ≡ false
    → All (Permitted s (record { tool = tool; arguments = args })) (run_tool s tool args a).1
ungated-Permitted s status_tool args a h = tt
ungated-Permitted s list_tool args a h = tt
ungated-Permitted s stats_tool args a h = tt
ungated-Permitted s unknown_tool args a h = tt
ungated-Permitted s get_tool args a h = cc
ungated-Permitted s resolve_tool args a h = cc
ungated-Permitted s set_tool args a h = cc
ungated-Permitted s ask_save_tool args a h = cc
ungated-Permitted s delete_tool args a h = cc
ungated-Permitted s flag_tool args a h = cc
ungated-Permitted s unflag_tool args a h = cc

dispatched-Permitted :
    (s : Server) (tool : Tool) (args : Arguments) (b : Bool)
    → tool_operation tool ≡ b
    → All
        (Permitted s (record { tool = tool; arguments = args }))
        (if b
          then gated s tool args (check_agent_operation s.writes s.now s.agent)
          else run_tool s tool args s.agent).1
dispatched-Permitted s tool args true h =
    gated-Permitted s tool args (check_agent_operation s.writes s.now s.agent) refl
dispatched-Permitted s tool args false h = ungated-Permitted s tool args s.agent h

-- Every operation that a tool call runs on a credential is one that the call names and that the
-- agent policy authorises, under a readable manifest that does not deny the credential; where the
-- manifest asks, an unexpired session was on file before the call.
pub call_mcp_tool_gated : (s : Server) (c : ToolCall) → All (Permitted s c) (call_mcp_tool s c).1
unfolding call_mcp_tool check_agent_operation check_manifest_policy ref_aware_credentials
call_mcp_tool_gated s c = dispatched-Permitted s c.tool c.arguments (tool_operation c.tool) refl
