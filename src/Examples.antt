-- ===== src/Examples.antt =====
-- Concrete runs: a gateway with one tool that needs approval, and the theorems applied to it.
mod Engine
mod Plans
mod Stored
mod Paths
use mathlib.Core.Option
use mcp_ai.Prelude.{
  ℕ, zero, suc, ◌+◌, ◌≤◌, ◌<◌, ◌≡◌, ◌↔◌, refl, ap, String, true, false, none, some, List, [], ◌∷◌,
  arith, string_eq, pair_eq, eq_iff, length, elem, All,
}
use mcp_ai.Prelude.Number.{pos, split_once, parse_int}
use mcp_ai.Prelude.Text.{strip, is_empty}
use mcp_ai.Prelude.Dict.{Dict, get, put}
use mcp_ai.Prelude.Exec.{ok}
use mcp_ai.Value.{Value, str, arguments_eq, field?, fields_length, py_eq}
use mcp_ai.Auth.{admin, engineer, has_permission, parse_permission}
use mcp_ai.Registry.{high, ToolMetadata}
use mcp_ai.Gateway.Models.{
  Uuid, Principal, human, ApprovalRecord, pending, allowed, GatewayToolRequest, GatewayToolResponse,
}
use mcp_ai.Gateway.Authorizer.{default_principals, authenticate, authorize, authorize_approval}
use mcp_ai.Gateway.Authorizer.Approver.{MayDecide, authorize_approval_exactly}
use mcp_ai.Gateway.Approvals
use mcp_ai.Gateway.Approvals.{ApprovalStore}
use mcp_ai.Gateway.Approvals.Effects.{IsKeyed}
use mcp_ai.Gateway.Approvals.Trail.{events_of}
use mcp_ai.Gateway.Approvals.History.{
  Operation, create', approve', mark_executed', perform, empty_store, Reaches, here, call,
}
use mcp_ai.Gateway.Approvals.Reached.{IsFresh}
use mcp_ai.Gateway.Approvals.Lifecycle.{Fixed, Moves, approval_lifecycle, executed_once}
use mcp_ai.Gateway.Approvals.Outcomes.{
  IsOk, IsOpen, IsApproved, Stores, granted_form, done_form, approve_exactly, mark_executed_exactly,
}
use mcp_ai.Gateway.RateLimit
use mcp_ai.Gateway.RateLimit.{RateLimiter, parse_rate_limit}
use mcp_ai.Gateway.RateLimit.Window.{Call, in_window, admitted, check_window}
use mcp_ai.Gateway.Idempotency
use mcp_ai.Gateway.Idempotency.{IdempotencyStore, succeeded, OperationStatus}
use mcp_ai.Gateway.Idempotency.Outcomes.{
  live, answer_for, Reserves, reserve_answer, complete-reserve,
}
use mcp_ai.Gateway.Idempotency.Capacity.{reserve_capacity}
use mcp_ai.Gateway.Service.{Environment, Gateway, result, strip_untrusted_model_fields}
use mcp_ai.Gateway.Service.Call.{matching_approval}
use mcp_ai.Gateway.Service.CallTool.{call_tool}
use mcp_ai.Gateway.Service.Operations.{approve_operation}
use mcp_ai.Gateway.Service.Dispatching.{Admitted, dispatch_is_gated}
use mcp_ai.Gateway.Service.Separation.{IsApprovedBy, approve_operation_separates}
use mcp_ai.Registry.{critical, Registry}
use mcp_ai.Prelude.{◌≢◌}
use mcp_ai.Prelude.Text.{lower, upper}
use mcp_ai.Workflow.Models.{
  WorkflowNode, pending, no_retry, not_required, allow, allow_with_approval,
}
use mcp_ai.Workflow.Policy.{
  decide, evaluate, normalize_environment, requires_context, resource_of, role_authorized,
  transform_node_with_policy,
}
use mcp_ai.Workflow.Policy.Decisions.{Harmless, decide-allow, decide-production, claims_ignored}
use mcp_ai.Gateway.Models.{seconds}
use mcp_ai.Workflow.Models.{WorkflowEdge, exponential_backoff}
use mcp_ai.Workflow.Retry.{next_retry_time, retry_due}
use mcp_ai.Workflow.Retry.Delays.{next_retry_time_grows}
use mcp_ai.Workflow.Validator.{
  validate_dependencies, validate_argument_references, validate_typed_conditions, validate_edges,
}
use mcp_ai.Workflow.Validator.Issues.{
  DependsOnKnown, ReferenceIsSound, ConditionIsSound, EdgeIsSound, validate_dependencies-none,
  validate_argument_references-none, validate_typed_conditions-none, validate_edges-none,
}

-- identifiers "", "a", "aa", …
tally : ℕ → Uuid
tally zero = ""
tally (suc n) = String.◌∷◌ "a" (tally n)

abbrev size : Uuid → ℕ
size String.[] = 0
size (String.◌∷◌ c s) = suc (size s)

size-tally : (n : ℕ) → size (tally n) ≡ n
unfolding tally
size-tally zero = refl
size-tally (suc n) = ap suc (size-tally n)

tally-IsFresh : IsFresh tally
tally-IsFresh i j e = cc (size-tally i, size-tally j, ap size e)

abbrev asker : Principal
asker = record { principal_id = "engineer-1"; role = engineer; principal_type = human }

abbrev approver : Principal
approver = record { principal_id = "admin-1"; role = admin; principal_type = human }

abbrev inputs : Dict String Value
inputs = ("job_id", str "build-7") ∷ []

abbrev asked : Operation
asked = create' asker "cicd.retry" inputs high 1 none none none none

abbrev s0 : ApprovalStore
s0 = empty_store 300

abbrev s1 : ApprovalStore
s1 = perform tally asked s0

abbrev s2 : ApprovalStore
s2 = perform tally (approve' "" approver 2) s1

s1-reached : Reaches tally s0 s1
s1-reached = call here asked

s2-reached : Reaches tally s0 s2
s2-reached = call s1-reached (approve' "" approver 2)

abbrev record1 : ApprovalRecord
record1 = record {
  approval_id = "";
  requester_id = "engineer-1";
  requester_type = human;
  tool_name = "cicd.retry";
  arguments = inputs;
  risk_level = high;
  status = pending;
  created_at = 1;
  expires_at = 300000001;
  approved_by = none;
  approved_at = none;
  rejected_by = none;
  rejected_at = none;
  executed_at = none;
  failure_reason = none;
  execution_result = none;
  workflow_id = none;
  workflow_node_id = none;
  arguments_hash = none;
  approval_binding_hash = none;
  version = 1;
}

s1-held : get "" s1.approvals ≡ some record1
unfolding tally Approvals.create get put
s1-held = refl

approval_lifecycle_example :
    (b : ApprovalRecord) × (get "" s2.approvals ≡ some b) × Fixed record1 b × Moves record1 b
approval_lifecycle_example =
    approval_lifecycle tally tally-IsFresh 300 s1 s2 s1-reached (call here (approve' "" approver 2))
      "" record1 s1-held

abbrev s3 : ApprovalStore
s3 = perform tally (mark_executed' record1 asker 3 []) s2

executed_once_example :
    (events_of "approval.executed" "" s3.events ≤ events_of "approval.approved" "" s3.events)
    × (events_of "approval.approved" "" s3.events ≤ 1)
executed_once_example =
    executed_once tally tally-IsFresh 300 s3 (call s2-reached (mark_executed' record1 asker 3 []))
      ""

approve_exactly_example :
    (IsOk (Approvals.approve tally "" approver 2 s1).0 ↔ IsOpen 2 (get "" s1.approvals))
    × Stores
        (granted_form approver 2)
        (get "" s1.approvals)
        (Approvals.approve tally "" approver 2 s1)
approve_exactly_example = approve_exactly tally s1 "" approver 2

mark_executed_exactly_example :
    (IsOk (Approvals.mark_executed tally record1 asker 3 [] s2).0
      ↔ IsApproved (get "" s2.approvals))
    × Stores
        (done_form 3 [])
        (get "" s2.approvals)
        (Approvals.mark_executed tally record1 asker 3 [] s2)
mark_executed_exactly_example = mark_executed_exactly tally s2 record1 asker 3 []

authorize_approval_exactly_example :
    (authorize_approval approver record1 ≡ ok tt) ↔ MayDecide approver record1
authorize_approval_exactly_example = authorize_approval_exactly approver record1

abbrev two_a_second : List Call
two_a_second =
    record { principal = asker; tool_name = "cicd.retry"; rate_limit = "2/second"; at = 0 }
    ∷ record { principal = asker; tool_name = "cicd.retry"; rate_limit = "2/second"; at = 1 }
    ∷ record { principal = asker; tool_name = "cicd.retry"; rate_limit = "2/second"; at = 2 }
    ∷ []

two_a_second-parsed : parse_rate_limit "2/second" ≡ ok (pos 2, 1000000)
unfolding parse_rate_limit split_once parse_int strip
two_a_second-parsed = refl

check_window_example :
    in_window 1000000 2 (admitted ("engineer-1", "cicd.retry") (record { calls = [] }) two_a_second)
    ≤ 2
check_window_example =
    check_window ("engineer-1", "cicd.retry") (pos 2) 1000000 two_a_second
      (omega arith, (omega arith, (omega arith, tt)))
      (λ _. two_a_second-parsed, (λ _. two_a_second-parsed, (λ _. two_a_second-parsed, tt))) 2

abbrev no_keys : IdempotencyStore
no_keys = record { ttl_seconds = 10; max_entries = 1; keys = [] }

abbrev reply : GatewayToolResponse
reply = record { ok = true; decision = allowed; correlation_id = "r"; payload = []; error = none }

abbrev one_key : IdempotencyStore
one_key = (Idempotency.complete asker "k" reply (some succeeded) 5 no_keys).1

reserve_answer_example :
    ((Idempotency.reserve asker "k" 6 one_key).0
      ≡ answer_for (live 10 6 (get ("engineer-1", "k") one_key.keys)))
    × Reserves ("engineer-1", "k") 6 one_key (Idempotency.reserve asker "k" 6 one_key).1
unfolding Idempotency.complete put
reserve_answer_example = reserve_answer asker "k" 6 one_key (unfold get in refl, tt)

complete-reserve_example : (Idempotency.reserve asker "k" 6 one_key).0 ≡ ok (some reply)
complete-reserve_example =
    complete-reserve asker "k" reply (some succeeded) 5 6 no_keys tt refl
      (unfold get in omega arith)

no_keys-fresh : (Idempotency.reserve asker "j" 6 no_keys).0 ≡ ok none
unfolding Idempotency.reserve Idempotency.expire get
no_keys-fresh = refl

reserve_capacity_example : length (Idempotency.reserve asker "j" 6 no_keys).1.keys ≤ 1
reserve_capacity_example = reserve_capacity asker "j" 6 no_keys no_keys-fresh

abbrev retry : ToolMetadata
retry = record {
  tool_name = "cicd.retry";
  domain = "cicd";
  description = "Retry a job.";
  risk_level = high;
  required_permission = "cicd:execute";
  requires_approval = true;
  server = "cicd-mcp";
  category = "cicd";
  tags = [];
  required_roles = [];
  idempotent = false;
  retry_safe = false;
  default_max_retries = 0;
  retry_strategy = "none";
  compensation_tool = none;
  executable = true;
  timeout_seconds = 5;
  rate_limit = "2/second";
  enabled = true;
}

-- a server that accepts everything, and a clock that ticks by one
abbrev world : Environment
world = record {
  uuid4 = tally;
  clock = λ n. n + 2;
  sha256_json = λ v. "hash";
  sanitize_value = λ v. v;
  str_of = λ v. "";
  validate_tool = λ m arguments. result false [];
  execute_tool = λ n m arguments. result false [];
}

abbrev with_approvals : ApprovalStore → Gateway
with_approvals s = record {
  registry = ("cicd.retry", retry) ∷ [];
  principals = default_principals;
  disabled_tools = [];
  limiter = record { calls = [] };
  idempotency = no_keys;
  approvals = s;
  dispatches = [];
  ticks = 0;
}

abbrev request : GatewayToolRequest
request = record {
  auth_token = "engineer-token";
  tool_name = "cicd.retry";
  arguments = inputs;
  idempotency_key = "k";
  approval_id = some "";
  correlation_id = "r";
  workflow_id = none;
  workflow_node_id = none;
}

dispatch_is_gated_example :
    Admitted world
      (with_approvals s2)
      request
      (call_tool world request (with_approvals s2)).1.dispatches
dispatch_is_gated_example = dispatch_is_gated world request (with_approvals s2)

-- the approved call does reach the tool server, once
one_dispatch : length (call_tool world request (with_approvals s2)).1.dispatches ≡ 1
unfolding call_tool get put tally authenticate elem authorize parse_permission has_permission
    RateLimit.check parse_rate_limit split_once parse_int strip RateLimit.drop_old
    Idempotency.reserve Idempotency.expire Approvals.get Approvals.approve Approvals.create
    matching_approval Approvals.mark_executed Idempotency.complete
    Idempotency.evict_oldest_if_needed Idempotency.mark_running strip_untrusted_model_fields
    is_empty arguments_eq field? fields_length py_eq
one_dispatch = refl

abbrev granted : GatewayToolResponse
granted = record {
  ok = true;
  decision = allowed;
  correlation_id = "";
  payload =
      ("approval_id", str "")
      ∷ ("approval_status", str "APPROVED")
      ∷ ("approved_by", str "admin-1")
      ∷ [];
  error = none;
}

admin_grants : (approve_operation world "admin-token" "" (with_approvals s1)).0 ≡ ok granted
unfolding approve_operation get put tally authenticate authorize authorize_approval parse_permission
    has_permission Approvals.get Approvals.approve Approvals.create
admin_grants = refl

s1-IsKeyed : IsKeyed s1
unfolding Approvals.create get put tally
s1-IsKeyed k a e = ground (arith, eq_iff "" k)

approve_operation_separates_example :
    (p : Principal) × (a : ApprovalRecord) × (authenticate default_principals "admin-token" ≡ ok p)
    × (get "" s1.approvals ≡ some a)
    × MayDecide p a
    × (a.status ≡ pending)
    × (2 < a.expires_at)
    × IsApprovedBy world p (
        get "" (approve_operation world "admin-token" "" (with_approvals s1)).1.approvals.approvals)
approve_operation_separates_example =
    approve_operation_separates world (with_approvals s1) "admin-token" "" granted s1-IsKeyed
      admin_grants refl

abbrev node : WorkflowNode
node = record {
  id = "n1";
  workflow_id = none;
  tool_name = "cicd.retry";
  tool_server = "cicd-mcp";
  description = "Retry the job.";
  arguments = ("pipeline_id", str "build") ∷ [];
  argument_references = [];
  depends_on = [];
  condition = none;
  typed_condition = none;
  risk_level = "LOW";
  approval_required = false;
  execution_status = pending;
  attempts = 0;
  max_retries = 0;
  retry_strategy = no_retry;
  timeout_seconds = 30;
  last_error = none;
  started_at = none;
  completed_at = none;
  last_attempt_at = none;
  next_retry_at = none;
  result_reference = none;
  approval_id = none;
  approval_state = not_required;
  compensation_tool = none;
  policy_evaluation = none;
  knowledge_references = [];
}

abbrev execution : String
execution = "execution"

decide-allow_example : ((decide retry "engineer" "local" "execution" node).0 ≡ allow) ↔ (
    (execution ≡ execution → retry.executable ≡ true)
    × (retry.enabled ≡ true)
    × (role_authorized "engineer" retry ≡ true)
    × (requires_context retry (normalize_environment "local") node ≡ false)
    × Harmless retry (normalize_environment "local"))
decide-allow_example = decide-allow retry "engineer" "local" "execution" node

prod-normalized : normalize_environment "Prod " ≡ "production"
unfolding normalize_environment strip lower is_empty
prod-normalized = refl

decide-production_example :
    ((decide retry "engineer" "Prod " "execution" node).0 ≢ allow)
    × ((decide retry "engineer" "Prod " "execution" node).0 ≡ allow_with_approval
        → (resource_of node ≢ none) × (high ≡ critical → upper "engineer" ≡ "ADMIN"))
decide-production_example =
    decide-production retry "engineer" "Prod " "execution" node prod-normalized refl

abbrev tools : Registry
tools = ("cicd.retry", retry) ∷ []

abbrev claimed : WorkflowNode
claimed = record node { risk_level = "HIGH"; approval_required = true }

claims_ignored_example :
    Option.map
      (λ v. transform_node_with_policy claimed v (get "cicd.retry" tools))
      (evaluate tools claimed "e" "engineer" "prod" "execution" 7)
    ≡ Option.map
        (λ v. transform_node_with_policy node v (get "cicd.retry" tools))
        (evaluate tools node "e" "engineer" "prod" "execution" 7)
claims_ignored_example = claims_ignored tools node "HIGH" true "e" "engineer" "prod" "execution" 7

abbrev tried : WorkflowNode
tried = record node { attempts = 3; retry_strategy = exponential_backoff }

abbrev later : WorkflowNode
later = record tried { attempts = tried.attempts + 4 }

next_retry_time_grows_example :
    (next_retry_time tried 5 ≤ next_retry_time later 5)
    × (next_retry_time later 5 ≤ 5 + seconds 60)
    × (retry_due
          (record later { next_retry_at = some (next_retry_time later 5) })
          (next_retry_time later 5)
        ≡ true)
next_retry_time_grows_example = next_retry_time_grows tried 4 5

abbrev plan : List WorkflowNode
plan =
    node
    ∷ record node {
      id = "n2";
      depends_on = "n1" ∷ [];
      argument_references =
          record { argument = "pipeline_id"; source_node_id = "n1"; output_path = "run.id" } ∷ [];
    }
    ∷ []

abbrev plan_ids : List String
plan_ids = "n1" ∷ "n2" ∷ []

abbrev plan_edges : List WorkflowEdge
plan_edges = record { source = "n1"; destination = "n2"; condition = none } ∷ []

validate_dependencies-none_example :
    (validate_dependencies plan plan_ids ≡ []) ↔ All (DependsOnKnown plan_ids) plan
validate_dependencies-none_example = validate_dependencies-none plan plan_ids

validate_argument_references-none_example :
    (validate_argument_references plan plan_ids ≡ [])
    ↔ All (λ n. All (ReferenceIsSound n plan_ids) n.argument_references) plan
validate_argument_references-none_example = validate_argument_references-none plan plan_ids

validate_typed_conditions-none_example :
    (validate_typed_conditions plan plan_ids ≡ [])
    ↔ All (λ n. ConditionIsSound plan_ids n n.typed_condition) plan
validate_typed_conditions-none_example = validate_typed_conditions-none plan plan_ids

validate_edges-none_example :
    (validate_edges plan_edges plan_ids ≡ []) ↔ All (EdgeIsSound plan_ids) plan_edges
validate_edges-none_example = validate_edges-none plan_edges plan_ids
