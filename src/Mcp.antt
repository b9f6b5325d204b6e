-- ===== src/Mcp.antt =====
-- engine/mcp.go: the tools that agents call, behind the agent policy and the AI manifest.
mod Examples
pub mod Gated
pub mod Hidden
pub mod Payload
pub mod Permits
use oma_seal.Prelude.{
  ℕ, Bool, true, false, not, ◌&&◌, ◌||◌, List, [], ◌∷◌, ◌++◌, if◌then◌else◌, ◌==◌, nat_eq, bytes_eq,
  keep,
}
use oma_seal.Errors.{
  Result, ok, err, plain, new_error, message, manifest_error, manifest_denied, agent_unauthorized,
}
use oma_seal.Bytes.{Bytes}
use oma_seal.Files.{File, absent, unreadable, corrupt, holds}
use oma_seal.Refs.{ref_aware_credentials, ref_aware_service}
use oma_seal.Agent.{
  Agent, load_agent_policy_or_default, agent_session_active, check_agent_operation,
}
use oma_seal.Manifest.{
  RulePolicy, policy_allow, policy_deny, policy_ask, policy_unknown, ManifestRule, check_policy,
}

pub data Tool : Type 0 where
  get_tool resolve_tool set_tool ask_save_tool delete_tool flag_tool unflag_tool : Tool
  list_tool stats_tool status_tool unknown_tool : Tool

-- A call may have no arguments, or arguments that are no JSON object of strings; a name that is
-- left out is empty.
pub data Arguments : Type 0 where
  no_arguments malformed : Arguments
  arguments_of : Bytes → Bytes → Arguments

pub record ToolCall : Type 0 where
  pub tool : Tool
  pub arguments : Arguments

-- What one call finds. `perform` is what the operation behind a tool answers, `items` what
-- `listItems` answers for a service filter, and `payloads` the keys of what `ParseAccessLogs` reads.
pub record Server : Type 0 where
  pub now : ℕ
  pub writes : Bool
  pub agent : Agent
  pub manifest : File (List ManifestRule)
  pub perform : Tool → Bytes → Bytes → Result Bytes
  pub items : Bytes → Result (List (Bytes × Bytes))
  pub payloads : Result (List Bytes)

-- the operation that reached the store, and on which credential
pub record Effect : Type 0 where
  pub by_tool : Tool
  pub on_service : Bytes
  pub on_account : Bytes

pub data Content : Type 0 where
  text_content : Bytes → Content
  names_content : List (Bytes × Bytes) → Content
  payloads_content : List Bytes → Content

-- `toolOperation`: whether the tool is an agent operation
abbrev pub tool_operation : Tool → Bool
tool_operation status_tool = false
tool_operation unknown_tool = false
tool_operation _ = true

-- A missing manifest has no rules.
abbrev pub manifest_rules : File (List ManifestRule) → Result (List ManifestRule)
manifest_rules absent = ok []
manifest_rules unreadable = err (new_error manifest_error message)
manifest_rules corrupt = err (new_error manifest_error message)
manifest_rules (holds rules) = ok rules

abbrev pub ask_session : Bool × Agent → Result (Unit {0}) × Agent
ask_session (active, a) = (if active then ok tt else err (new_error agent_unauthorized message), a)

abbrev pub enforce : Server → RulePolicy → Agent → Result (Unit {0}) × Agent
enforce s policy_allow a = (ok tt, a)
enforce s policy_unknown a = (ok tt, a)
enforce s policy_deny a = (err (new_error manifest_denied message), a)
enforce s policy_ask a =
    ask_session (agent_session_active s.writes s.now (load_agent_policy_or_default a.policy_file) a)

abbrev pub policy_for :
    Server → Result (List ManifestRule) → Bytes → Bytes → Agent → Result (Unit {0}) × Agent
policy_for s (err e) service account a = (err e, a)
policy_for s (ok []) service account a = (ok tt, a)
policy_for s (ok (r ∷ rules)) service account a =
    enforce s (check_policy (r ∷ rules) service account).0 a

unfoldable pub check_manifest_policy : Server → Bytes → Bytes → Agent → Result (Unit {0}) × Agent
unfolding agent_session_active load_agent_policy_or_default
check_manifest_policy s service account a =
    policy_for s (manifest_rules s.manifest) service account a

abbrev pub is_deny : RulePolicy → Bool
is_deny policy_deny = true
is_deny _ = false

unfoldable pub manifest_denies : List ManifestRule → Bytes × Bytes → Bool
manifest_denies rules (service, account) = is_deny (check_policy rules service account).0

-- every split of a payload at a '/', with the bytes before it
unfoldable pub denies_split : List ManifestRule → Bytes → Bytes → Bool
denies_split rules before [] = false
denies_split rules before (c ∷ s) =
    c == b'/' && manifest_denies rules (before, s) || denies_split rules (before ++ c ∷ []) s

unfoldable pub manifest_denies_payload : List ManifestRule → Bytes → Bool
unfolding denies_split
manifest_denies_payload rules payload = denies_split rules [] payload

-- Names of writes are checked, names of reads are not.
abbrev pub is_strict : Tool → Bool
is_strict set_tool = true
is_strict ask_save_tool = true
is_strict _ = false

abbrev pub Reply : Type 0
Reply = Result Content × List Effect × Agent

abbrev pub performed : Result Bytes → Effect → Agent → Reply
performed (ok text) e a = (ok (text_content text), e ∷ [], a)
performed (err x) e a = (err x, e ∷ [], a)

abbrev pub after_policy : Server → Tool → Bytes × Bytes → Result (Unit {0}) × Agent → Reply
after_policy s tool (service, account) (err e, a) = (err e, [], a)
after_policy s tool (service, account) (ok _, a) =
    performed (s.perform tool service account)
      (record { by_tool = tool; on_service = service; on_account = account }) a

abbrev pub with_credentials : Server → Tool → Result (Bytes × Bytes) → Agent → Reply
with_credentials s tool (err e) a = (err e, [], a)
with_credentials s tool (ok (service, account)) a =
    after_policy s tool (service, account) (check_manifest_policy s service account a)

-- the tools on one credential
abbrev pub credential_tool : Server → Tool → Arguments → Agent → Reply
credential_tool s tool no_arguments a = (err plain, [], a)
credential_tool s tool malformed a = (err plain, [], a)
credential_tool s tool (arguments_of service account) a =
    with_credentials s tool (ref_aware_credentials service account (is_strict tool)) a

abbrev pub shown {ℓ} :
    {A : Type ℓ}
    → (List ManifestRule → A → Bool)
    → (List A → Content)
    → Result (List A)
    → Result (List ManifestRule)
    → Result Content
shown denies content (err e) rules = err e
shown denies content (ok items) (err e) = err e
shown denies content (ok items) (ok rules) = ok (content (keep (λ i. not (denies rules i)) items))

abbrev pub items_in : Server → Result Bytes → Result (List (Bytes × Bytes))
items_in s (err e) = err e
items_in s (ok service) = s.items service

-- Without arguments there is no filter.
abbrev pub service_filter : Arguments → Result Bytes
service_filter no_arguments = ok []
service_filter malformed = err plain
service_filter (arguments_of service _) = ref_aware_service service false

abbrev pub run_tool : Server → Tool → Arguments → Agent → Reply
run_tool s list_tool args a = (
  shown manifest_denies names_content (items_in s (service_filter args))
      (manifest_rules s.manifest),
  [],
  a,
)
run_tool s stats_tool args a =
    (shown manifest_denies_payload payloads_content s.payloads (manifest_rules s.manifest), [], a)
run_tool s status_tool args a = (ok (text_content []), [], a)
run_tool s unknown_tool args a = (err plain, [], a)
run_tool s tool args a = credential_tool s tool args a

abbrev pub gated : Server → Tool → Arguments → Result (Unit {0}) × Agent → Reply
gated s tool args (err e, a) = (err e, [], a)
gated s tool args (ok _, a) = run_tool s tool args a

unfoldable pub call_mcp_tool : Server → ToolCall → Reply
unfolding check_agent_operation check_manifest_policy ref_aware_credentials
call_mcp_tool s c =
    if tool_operation c.tool
    then gated s c.tool c.arguments (check_agent_operation s.writes s.now s.agent)
    else run_tool s c.tool c.arguments s.agent
