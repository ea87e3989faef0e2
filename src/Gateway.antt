-- ===== src/Gateway.antt =====
-- services/mcp-gateway: the gateway in front of the tool servers.
pub mod Errors
pub mod Models
pub mod Approvals
pub mod RateLimit
pub mod Idempotency
pub mod Authorizer
pub mod Service
pub mod Persistence
