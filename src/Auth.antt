-- ===== src/Auth.antt =====
-- packages/auth/src/mcp_ops_auth/rbac.py: roles, permissions, and which role holds which.
-- An enumeration is a data type; `*_value` is its `.value`, and `parse_*` is the enumeration
-- applied to a text, which raises ValueError (`none`) for any other text.
use mcp_ai.Prelude.{
  String, ◌≡◌, Bool, true, false, Option, none, some, List, [], ◌∷◌, ◌==◌, string_eq, if◌then◌else◌,
  ◌↔◌, arith, refl,
}

pub data Role : Type 0 where
  admin engineer operator viewer : Role

pub data Permission : Type 0 where
  devices_read devices_diagnose devices_operate : Permission
  tickets_read tickets_create tickets_update : Permission
  knowledge_read : Permission
  cicd_read cicd_execute : Permission
  repositories_read : Permission
  deployments_read deployments_operate : Permission
  approvals_approve audit_read : Permission

abbrev pub role_value : Role → String
role_value admin = "ADMIN"
role_value engineer = "ENGINEER"
role_value operator = "OPERATOR"
role_value viewer = "VIEWER"

unfoldable pub parse_role : String → Option Role
parse_role s =
    if s == "ADMIN"
    then some admin
    else if s == "ENGINEER"
    then some engineer
    else if s == "OPERATOR"
    then some operator
    else if s == "VIEWER"
    then some viewer
    else none

abbrev pub permission_value : Permission → String
permission_value devices_read = "devices:read"
permission_value devices_diagnose = "devices:diagnose"
permission_value devices_operate = "devices:operate"
permission_value tickets_read = "tickets:read"
permission_value tickets_create = "tickets:create"
permission_value tickets_update = "tickets:update"
permission_value knowledge_read = "knowledge:read"
permission_value cicd_read = "cicd:read"
permission_value cicd_execute = "cicd:execute"
permission_value repositories_read = "repositories:read"
permission_value deployments_read = "deployments:read"
permission_value deployments_operate = "deployments:operate"
permission_value approvals_approve = "approvals:approve"
permission_value audit_read = "audit:read"

-- `frozenset(Permission)`
abbrev pub all_permissions : List Permission
all_permissions =
    devices_read ∷ devices_diagnose ∷ devices_operate ∷ tickets_read ∷ tickets_create
    ∷ tickets_update ∷ knowledge_read ∷ cicd_read ∷ cicd_execute ∷ repositories_read
    ∷ deployments_read ∷ deployments_operate ∷ approvals_approve ∷ audit_read ∷ []

find_permission : String → List Permission → Option Permission
find_permission s [] = none
find_permission s (p ∷ ps) = if s == permission_value p then some p else find_permission s ps

unfoldable pub parse_permission : String → Option Permission
unfolding find_permission
parse_permission s = find_permission s all_permissions

unfoldable pub role_permissions : Role → List Permission
role_permissions viewer =
    devices_read ∷ knowledge_read ∷ tickets_read ∷ cicd_read ∷ repositories_read ∷ deployments_read
    ∷ []
role_permissions engineer =
    devices_read ∷ knowledge_read ∷ tickets_read ∷ devices_diagnose ∷ tickets_create
    ∷ tickets_update ∷ cicd_read ∷ cicd_execute ∷ repositories_read ∷ deployments_read ∷ []
role_permissions operator =
    devices_read ∷ knowledge_read ∷ tickets_read ∷ devices_diagnose ∷ tickets_create
    ∷ tickets_update ∷ devices_operate ∷ cicd_read ∷ cicd_execute ∷ repositories_read
    ∷ deployments_read ∷ deployments_operate ∷ []
role_permissions admin = all_permissions

abbrev pub permission_beq : Permission → Permission → Bool
permission_beq p q = permission_value p == permission_value q

unfoldable pub contains : Permission → List Permission → Bool
contains p [] = false
contains p (q ∷ qs) = if permission_beq p q then true else contains p qs

unfoldable pub has_permission : Role → Permission → Bool
unfolding role_permissions contains
has_permission role permission = contains permission (role_permissions role)

-- The texts of the enumerations name one member each.
pub parse_permission-value : (p : Permission) → parse_permission (permission_value p) ≡ some p
unfolding parse_permission
parse_permission-value devices_read = refl
parse_permission-value _ = refl

pub parse_role-value : (r : Role) → parse_role (role_value r) ≡ some r
unfolding parse_role
parse_role-value admin = refl
parse_role-value _ = refl

-- Only an administrator may approve operations.
pub approver-admin : (r : Role) → (has_permission r approvals_approve ≡ true) ↔ (r ≡ admin)
unfolding has_permission
approver-admin r = ground arith
