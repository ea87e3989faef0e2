-- ===== src/Gateway/Persistence.antt =====
-- services/mcp-gateway/src/mcp_ops_mcp_gateway/persistence.py: the stores of the gateway over a database.
pub mod Table
pub mod RateLimit
pub mod Rows
pub mod Approvals
pub mod Audit
