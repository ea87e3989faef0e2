-- ===== src/Gateway/Authorizer.antt =====
-- services/mcp-gateway/src/mcp_ops_mcp_gateway/stores.py: the classes TokenAuthenticator and
-- GatewayAuthorizer.
pub mod Approver
use mcp_ai.Prelude.{
  String, Bool, true, false, Option, none, some, [], ◌∷◌, ◌==◌, string_eq, if◌then◌else◌,
}
use mcp_ai.Prelude.Text.{concat}
use mcp_ai.Prelude.Dict.{Dict, get}
use mcp_ai.Prelude.Exec.{Result, ok, err}
use mcp_ai.Auth.{
  admin, engineer, operator, viewer, Permission, approvals_approve, permission_value,
  parse_permission, role_value, has_permission,
}
use mcp_ai.Gateway.Errors.{Raised, raised, value_error, authentication_failed, permission_denied}
use mcp_ai.Gateway.Models.{human, ai_agent, is_ai_agent, Principal, ApprovalRecord}

-- the default `_principals`
abbrev pub default_principals : Dict String Principal
default_principals =
    ("viewer-token", record { principal_id = "viewer-1"; role = viewer; principal_type = human })
    ∷ (
      "engineer-token",
      record { principal_id = "engineer-1"; role = engineer; principal_type = human },
    )
    ∷ (
      "operator-token",
      record { principal_id = "operator-1"; role = operator; principal_type = human },
    )
    ∷ ("admin-token", record { principal_id = "admin-1"; role = admin; principal_type = human })
    ∷ ("admin2-token", record { principal_id = "admin-2"; role = admin; principal_type = human })
    ∷ (
      "ai-token",
      record { principal_id = "ai-agent-1"; role = engineer; principal_type = ai_agent },
    )
    ∷ (
      "ai-admin-token",
      record { principal_id = "ai-admin-1"; role = admin; principal_type = ai_agent },
    )
    ∷ []

principal_or : Option Principal → Result Raised Principal
principal_or none = err (raised authentication_failed "Authentication token is invalid.")
principal_or (some p) = ok p

unfoldable pub authenticate : Dict String Principal → String → Result Raised Principal
unfolding principal_or
authenticate principals token = principal_or (get token principals)

authorize_for : Principal → String → Option Permission → Result Raised (Unit {0})
authorize_for principal required none = err value_error
authorize_for principal required (some permission) =
    if has_permission principal.role permission
    then ok tt
    else err (
        raised permission_denied (
          concat
            ("Role " ∷ role_value principal.role ∷ " lacks permission " ∷ required ∷ "." ∷ [])))

unfoldable pub authorize : Principal → String → Result Raised (Unit {0})
unfolding authorize_for
authorize principal required_permission =
    authorize_for principal required_permission (parse_permission required_permission)

not_own : Principal → ApprovalRecord → Result Raised (Unit {0}) → Result Raised (Unit {0})
not_own principal approval (err e) = err e
not_own principal approval (ok _) =
    if is_ai_agent principal.principal_type
    then err (raised permission_denied "AI principals cannot approve operations.")
    else if principal.principal_id == approval.requester_id
    then err (raised permission_denied "Requesters cannot approve their own operation.")
    else ok tt

unfoldable pub authorize_approval : Principal → ApprovalRecord → Result Raised (Unit {0})
unfolding not_own
authorize_approval principal approval =
    not_own principal approval (authorize principal (permission_value approvals_approve))
