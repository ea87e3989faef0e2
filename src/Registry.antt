-- ===== src/Registry.antt =====
-- packages/policy/src/mcp_ops_policy/tool_registry.py: the metadata of a tool.
-- `cost_weight`, a float that only the ranking of tools reads, is left out.
use mcp_ai.Prelude.{ℕ, String, Bool, true, false, Option, List}
use mcp_ai.Prelude.Dict.{Dict}

pub data RiskLevel : Type 0 where
  read_only low medium high critical : RiskLevel

abbrev pub risk_value : RiskLevel → String
risk_value read_only = "READ_ONLY"
risk_value low = "LOW"
risk_value medium = "MEDIUM"
risk_value high = "HIGH"
risk_value critical = "CRITICAL"

-- `risk in {RiskLevel.HIGH, RiskLevel.CRITICAL}`
abbrev pub is_high_risk : RiskLevel → Bool
is_high_risk high = true
is_high_risk critical = true
is_high_risk _ = false

-- `risk in {RiskLevel.READ_ONLY, RiskLevel.LOW}`
abbrev pub is_read_risk : RiskLevel → Bool
is_read_risk read_only = true
is_read_risk low = true
is_read_risk _ = false

pub record ToolMetadata : Type 0 where
  pub tool_name : String
  pub domain : String
  pub description : String
  pub risk_level : RiskLevel
  pub required_permission : String
  pub requires_approval : Bool
  pub server : String
  pub category : String
  pub tags : List String
  pub required_roles : List String
  pub idempotent : Bool
  pub retry_safe : Bool
  pub default_max_retries : ℕ
  pub retry_strategy : String
  pub compensation_tool : Option String
  pub executable : Bool
  pub timeout_seconds : ℕ
  pub rate_limit : String
  pub enabled : Bool

abbrev pub Registry : Type 0
Registry = Dict String ToolMetadata
