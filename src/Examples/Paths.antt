-- ===== src/Examples/Paths.antt =====
-- A concrete graph of three types of resource.
use mcp_ai.Prelude.{
  ℕ, ◌≡◌, refl, elem, filterb, String, Bool, true, false, none, some, [], ◌∷◌, List, string_eq,
}
use mcp_ai.Registry.{ToolMetadata, Registry, low}
use mcp_ai.Capabilities.Search.{CapabilityEdge, path, unreachable, search, outgoing, expand, bfs}
use mcp_ai.Capabilities.Search.Outcomes.{Outcome, bfs-Outcome}
use mcp_ai.Capabilities.Allowed.{edge_allowed}

abbrev inspect : ToolMetadata
inspect = record {
  tool_name = "inspect";
  domain = "devices";
  description = "Inspect a device.";
  risk_level = low;
  required_permission = "devices:read";
  requires_approval = false;
  server = "device-mcp";
  category = "devices";
  tags = [];
  required_roles = [];
  idempotent = true;
  retry_safe = true;
  default_max_retries = 0;
  retry_strategy = "NO_RETRY";
  compensation_tool = none;
  executable = true;
  timeout_seconds = 5;
  rate_limit = "2/second";
  enabled = true;
}

abbrev known : Registry
known = ("inspect", inspect) ∷ []

abbrev by_tool : String → String → String → CapabilityEdge ℕ
by_tool source destination tool = record {
  source_type = source;
  destination_type = destination;
  tool_name = tool;
  mcp_server = "device-mcp";
  cost = 1;
  risk = "LOW";
  prerequisites = [];
  enabled = true;
}

abbrev graph : List (CapabilityEdge ℕ)
graph =
    by_tool "device" "log" "inspect"
    ∷ by_tool "log" "device" "inspect"
    ∷ by_tool "log" "ticket" "inspect"
    ∷ []

abbrev permits : CapabilityEdge ℕ → Bool
permits e = elim (edge_allowed known 0 "ENGINEER" "dev" [] e) [ none ↦ false | some b ↦ b ]

bfs-Outcome_example :
    Outcome graph permits true "ticket" "device" (bfs graph permits true "ticket" "device")
bfs-Outcome_example = bfs-Outcome graph permits true "ticket" "device"

-- without the filter there is a path of two edges
two_edges :
    bfs graph permits false "ticket" "device"
    ≡ path
        ("device" ∷ "log" ∷ "ticket" ∷ [])
        (by_tool "device" "log" "inspect" ∷ by_tool "log" "ticket" "inspect" ∷ [])
unfolding bfs search outgoing expand elem filterb
two_edges = refl

no_way : bfs graph permits false "device" "ticket" ≡ unreachable
unfolding bfs search outgoing expand elem filterb
no_way = refl
