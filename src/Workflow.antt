-- ===== src/Workflow.antt =====
-- services/ai-agent/src/mcp_ops_ai_agent/workflows: workflows that a language model plans.
pub mod Models
pub mod Policy
pub mod Retry
pub mod Validator
pub mod Arguments
pub mod Conditions
pub mod Repository
pub mod Order
pub mod Engine
