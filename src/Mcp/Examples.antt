-- ===== src/Mcp/Examples.antt =====
-- Tool calls under a concrete manifest.
use oma_seal.Prelude.{◌≡◌, refl, ◌↔◌, true, some, [], ◌∷◌, All, nat_eq, bytes_eq, Bool}
use oma_seal.Errors.{ok, err, new_error, manifest_denied, message}
use oma_seal.Bytes.{codes, Bytes}
use oma_seal.Files.{absent, holds, at_unix}
use oma_seal.Agent.{Agent}
use oma_seal.Manifest.{policy_allow, policy_deny, ManifestRule, check_policy}
use oma_seal.Mcp.{
  Tool, get_tool, list_tool, stats_tool, ToolCall, no_arguments, arguments_of, Server, Effect,
  text_content, names_content, payloads_content, manifest_denies_payload, call_mcp_tool,
}
use oma_seal.Mcp.Gated.{Permitted, call_mcp_tool_gated}
use oma_seal.Mcp.Hidden.{Conceals, call_mcp_tool-Conceals}

abbrev rule : Bytes → ManifestRule
rule pattern = record { policy = policy_deny; pattern = pattern; description = [] }

abbrev deny_stripe : ManifestRule
deny_stripe = rule (codes "stripe/*")

abbrev allow_rest : ManifestRule
allow_rest = record deny_stripe { policy = policy_allow; pattern = codes "*" }

abbrev asking : Agent
asking = record { policy_file = absent; session_file = holds 9000 }

-- A name with a '/' makes the log's payload ambiguous.
abbrev server : Server
server = record {
  now = at_unix 10;
  writes = true;
  agent = asking;
  manifest = holds (deny_stripe ∷ allow_rest ∷ []);
  perform = λ tool service account. ok (codes "secret");
  items = λ service. ok ((codes "stripe", codes "live") ∷ (codes "github", codes "token") ∷ []);
  payloads = ok (codes "stripe/live/eu" ∷ codes "github/token" ∷ []);
}

abbrev get_of : Bytes → ToolCall
get_of service = record { tool = get_tool; arguments = arguments_of service (codes "live") }

abbrev listing : ToolCall
listing = record { tool = list_tool; arguments = no_arguments }

abbrev stats : ToolCall
stats = record listing { tool = stats_tool }

allowed : (call_mcp_tool server (get_of (codes "github"))).0 ≡ ok (text_content (codes "secret"))
unfolding call_mcp_tool oma_seal.Refs.is_oma_seal_family oma_seal.Prelude.bytes_beq check_policy
allowed = refl

denied :
    (call_mcp_tool server (get_of (codes "stripe"))).0 ≡ err (new_error manifest_denied message)
unfolding call_mcp_tool oma_seal.Refs.is_oma_seal_family oma_seal.Prelude.bytes_beq check_policy
denied = refl

listed :
    (call_mcp_tool server listing).0 ≡ ok (names_content ((codes "github", codes "token") ∷ []))
unfolding call_mcp_tool oma_seal.Prelude.keep oma_seal.Mcp.manifest_denies check_policy
    oma_seal.Prelude.bytes_beq
listed = refl

counted : (call_mcp_tool server stats).0 ≡ ok (payloads_content (codes "github/token" ∷ []))
unfolding call_mcp_tool oma_seal.Prelude.keep manifest_denies_payload oma_seal.Mcp.manifest_denies
    check_policy oma_seal.Prelude.bytes_beq
counted = refl

call_mcp_tool_gated_example :
    All
      (Permitted server (get_of (codes "github")))
      (call_mcp_tool server (get_of (codes "github"))).1
call_mcp_tool_gated_example = call_mcp_tool_gated server (get_of (codes "github"))

call_mcp_tool-Conceals_example : Conceals server (call_mcp_tool server stats).0
call_mcp_tool-Conceals_example = call_mcp_tool-Conceals server stats
