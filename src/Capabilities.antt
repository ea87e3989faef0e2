-- ===== src/Capabilities.antt =====
-- services/ai-agent/src/mcp_ops_ai_agent/capabilities: the graph of resource types and tools.
pub mod Search
pub mod Allowed
