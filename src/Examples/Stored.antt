-- ===== src/Examples/Stored.antt =====
-- Concrete runs of the stores over a database, with a list of rows for a table.
use mcp_ai.Prelude.{ℕ, ◌≡◌, refl, String, none, some, string_eq, List, [], ◌∷◌, arith, filterb}
use mcp_ai.Prelude.Number.{ℤ, pos, split_once, parse_int}
use mcp_ai.Prelude.Text.{strip}
use mcp_ai.Prelude.Exec.{Result, ok, err}
use mcp_ai.Prelude.Dict.{Dict, get, put}
use mcp_ai.Registry.{high}
use mcp_ai.Auth.{engineer}
use mcp_ai.Gateway.Errors.{Raised, raised, rate_limit_exceeded}
use mcp_ai.Gateway.Models.{Uuid, Principal, ApprovalRecord, pending, human}
use mcp_ai.Gateway.RateLimit
use mcp_ai.Gateway.RateLimit.{parse_rate_limit, drop_old}
use mcp_ai.Gateway.RateLimit.Window.{Call}
use mcp_ai.Gateway.Approvals as Memory
use mcp_ai.Gateway.Approvals.{ApprovalStore}
use mcp_ai.Gateway.Persistence.Approvals as Kept
use mcp_ai.Gateway.Persistence.Approvals.{ApprovalTables}
use mcp_ai.Gateway.Persistence.Approvals.Agreement.{Decision, approve', reject', get'}
use mcp_ai.Gateway.Persistence.Rows.{
  GatewayApprovalRow, GatewayApprovalEventRow, approval_row, approval_record, approval_record-row,
}
use mcp_ai.Gateway.Persistence.Audit.{audit_row, audit_record, audit_record-row}
use mcp_ai.Gateway.Models.{AuditRecord, allowed}
use mcp_ai.Gateway.Persistence.Table.{Table, KeyedTable, list_table, dict_table, count_rows}
use mcp_ai.Gateway.Persistence.RateLimit as Stored
use mcp_ai.Gateway.Persistence.RateLimit.{CallRow}
use mcp_ai.Gateway.Persistence.RateLimit.Agreement.{
  Windowed, answers, stored_answers, stored_answers-answers,
}

abbrev caller : Principal
caller = record { principal_id = "engineer-1"; role = engineer; principal_type = human }

abbrev call_at : String → String → ℕ → Call
call_at tool rate_limit at = record {
  principal = caller;
  tool_name = tool;
  rate_limit = rate_limit;
  at = at;
}

abbrev rows : Table CallRow
rows = list_table

abbrev minutely : List Call
minutely =
    call_at "cicd.build" "1/minute" 0
    ∷ call_at "cicd.logs" "2/minute" 2000000
    ∷ call_at "cicd.build" "1/minute" 3000000
    ∷ []

one_a_minute : parse_rate_limit "1/minute" ≡ ok (pos 1, 60000000)
unfolding parse_rate_limit split_once parse_int strip
one_a_minute = refl

two_a_minute : parse_rate_limit "2/minute" ≡ ok (pos 2, 60000000)
unfolding parse_rate_limit split_once parse_int strip
two_a_minute = refl

second_of :
    (n : ℤ) (w : ℕ) (m : ℤ) (v : ℕ) (r : Result Raised (ℤ × ℕ))
    → r ≡ ok (m, v)
    → r ≡ ok (n, w)
    → w ≡ v
second_of n w m v r e f = ground (arith, e, f)

build-Windowed : Windowed 60000000 (call_at "cicd.build" "1/minute" 0)
build-Windowed n w e = second_of n w (pos 1) 60000000 (parse_rate_limit "1/minute") one_a_minute e

logs-Windowed : Windowed 60000000 (call_at "cicd.logs" "2/minute" 2000000)
logs-Windowed n w e = second_of n w (pos 2) 60000000 (parse_rate_limit "2/minute") two_a_minute e

stored_answers-answers_example :
    stored_answers rows [] minutely ≡ answers (record { calls = [] }) minutely
stored_answers-answers_example =
    stored_answers-answers rows 60000000 minutely (omega arith, (omega arith, (omega arith, tt)))
      (build-Windowed, (logs-Windowed, (build-Windowed, tt)))

-- Where the limits are per different windows, a call under the shorter one deletes the calls that count
-- under the longer one: the third call here is let through.
abbrev mixed : List Call
mixed =
    call_at "cicd.build" "1/minute" 0
    ∷ call_at "cicd.logs" "2/second" 2000000
    ∷ call_at "cicd.build" "1/minute" 3000000
    ∷ []

stored_forgets : stored_answers rows [] mixed ≡ ok tt ∷ ok tt ∷ ok tt ∷ []
unfolding stored_answers Stored.check parse_rate_limit split_once parse_int strip count_rows filterb
stored_forgets = refl

memory_refuses :
    answers (record { calls = [] }) mixed
    ≡ ok tt ∷ ok tt ∷ err (raised rate_limit_exceeded "Rate limit exceeded for cicd.build.") ∷ []
unfolding answers RateLimit.check parse_rate_limit split_once parse_int strip drop_old get put
memory_refuses = refl

abbrev approvals_table : KeyedTable GatewayApprovalRow
approvals_table = dict_table

abbrev events_table : Table GatewayApprovalEventRow
events_table = list_table

abbrev id_of : ℕ → Uuid
id_of n = "approval"

abbrev event_of : ℕ → Uuid
event_of n = "event"

abbrev tables : ApprovalTables (Dict Uuid GatewayApprovalRow) (List GatewayApprovalEventRow)
tables = record {
  ttl_seconds = 300;
  approvals = [];
  events = [];
  audit_log = none;
  drawn = 0;
  event_ids = 0;
}

abbrev memory : ApprovalStore
memory = record { ttl_seconds = 300; approvals = []; events = []; audit_log = []; drawn = 0 }

abbrev memory_1 : ApprovalStore
memory_1 = (Memory.create id_of caller "cicd.retry" [] high 1 none none none none memory).1

abbrev tables_1 : ApprovalTables (Dict Uuid GatewayApprovalRow) (List GatewayApprovalEventRow)
tables_1 =
    (Kept.create approvals_table events_table id_of event_of caller "cicd.retry" [] high 1 none none
      none none tables).1

abbrev decisions : List Decision
decisions = approve' "approval" caller 2 ∷ reject' "approval" caller "late" 3 ∷ get' "other" 4 ∷ []

abbrev request_record : ApprovalRecord
request_record = record {
  approval_id = "approval";
  requester_id = "engineer-1";
  requester_type = human;
  tool_name = "cicd.retry";
  arguments = [];
  risk_level = high;
  status = pending;
  created_at = 1;
  expires_at = 300000001;
  approved_by = none;
  approved_at = none;
  rejected_by = none;
  rejected_at = none;
  executed_at = none;
  failure_reason = none;
  execution_result = none;
  workflow_id = none;
  workflow_node_id = none;
  arguments_hash = none;
  approval_binding_hash = none;
  version = 1;
}

approval_record-row_example : approval_record (approval_row request_record) ≡ some request_record
approval_record-row_example = approval_record-row request_record

abbrev granted : AuditRecord
granted = record {
  timestamp = 2;
  actor_id = "engineer-1";
  actor_role = engineer;
  tool_name = "approval.approved";
  correlation_id = "approval";
  decision = allowed;
  authorization_result = "ALLOW";
  risk_level = some high;
  approval_status = some pending;
  execution_status = "APPROVED";
  result_summary = "Approval granted.";
  argument_hash = none;
  target_resource = none;
}

audit_record-row_example : audit_record (audit_row granted) ≡ some granted
audit_record-row_example = audit_record-row granted
