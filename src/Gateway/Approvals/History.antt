-- ===== src/Gateway/Approvals/History.antt =====
-- Every history of the store: its methods in any order, from an empty store.
use mcp_ai.Prelude.{ℕ, String, [], Option}
use mcp_ai.Prelude.Dict.{Dict}
use mcp_ai.Value.{Value}
use mcp_ai.Registry.{RiskLevel}
use mcp_ai.Gateway.Models.{Uuid, Principal, ApprovalRecord, ApprovalStatus}
use mcp_ai.Gateway.Approvals.{
  ApprovalStore, create, detail, get, list_approvals, approve, reject, expire_pending,
  mark_executed, mark_failed,
}
use mcp_ai.Gateway.Approvals.Effects.{
  expired_form, approved_form, rejected_form, executed_form, failed_form,
}
use mcp_ai.Prelude.{◌==◌, if◌then◌else◌, string_eq}

pub data Operation : Type 0 where
  create' :
      (principal : Principal) (tool_name : String) (arguments : Dict String Value)
      (risk_level : RiskLevel) (now : ℕ) (workflow_id workflow_node_id : Option String)
      (arguments_hash binding_hash : Option String)
      → Operation
  list_approvals' : (now : ℕ) (status : Option ApprovalStatus) → Operation
  detail' get' : (approval_id : Uuid) (now : ℕ) → Operation
  approve' : (approval_id : Uuid) (approver : Principal) (now : ℕ) → Operation
  reject' : (approval_id : Uuid) (rejector : Principal) (reason : String) (now : ℕ) → Operation
  expire_pending' : (now : ℕ) → Operation
  mark_executed' :
      (approval : ApprovalRecord) (actor : Principal) (now : ℕ) (result : Dict String Value)
      → Operation
  mark_failed' :
      (approval : ApprovalRecord) (actor : Principal) (now : ℕ) (reason : String) → Operation

-- The store after a call, whether it returned or raised.
abbrev pub perform : (ℕ → Uuid) → Operation → ApprovalStore → ApprovalStore
perform uuid4 (create' p t a r now w n h b) s = (create uuid4 p t a r now w n h b s).1
perform uuid4 (list_approvals' now status) s = (list_approvals uuid4 now status s).1
perform uuid4 (detail' k now) s = (detail uuid4 k now s).1
perform uuid4 (get' k now) s = (get uuid4 k now s).1
perform uuid4 (approve' k by now) s = (approve uuid4 k by now s).1
perform uuid4 (reject' k by reason now) s = (reject uuid4 k by reason now s).1
perform uuid4 (expire_pending' now) s = (expire_pending uuid4 now s).1
perform uuid4 (mark_executed' c by now result) s = (mark_executed uuid4 c by now result s).1
perform uuid4 (mark_failed' c by now reason) s = (mark_failed uuid4 c by now reason s).1

-- What a call does to a record that the store already holds under `j`.
abbrev pub effect : Operation → Uuid → ApprovalRecord → ApprovalRecord
effect (create' _ _ _ _ _ _ _ _ _) j a = a
effect (list_approvals' now _) j a = expired_form now a
effect (detail' k now) j a = if k == j then expired_form now a else a
effect (get' k now) j a = if k == j then expired_form now a else a
effect (approve' k by now) j a = if k == j then approved_form by now a else a
effect (reject' k by reason now) j a = if k == j then rejected_form by reason now a else a
effect (expire_pending' now) j a = expired_form now a
effect (mark_executed' c by now result) j a =
    if c.approval_id == j then executed_form now result a else a
effect (mark_failed' c by now reason) j a = if c.approval_id == j then failed_form reason a else a

abbrev pub empty_store : ℕ → ApprovalStore
empty_store ttl = record {
  ttl_seconds = ttl;
  approvals = [];
  events = [];
  audit_log = [];
  drawn = 0;
}

-- `t` is `s` after some calls.
pub data Reaches (uuid4 : ℕ → Uuid) (s : ApprovalStore) : ApprovalStore → Type 0 where
  here : Reaches uuid4 s s
  call :
      {t : ApprovalStore}
      → Reaches uuid4 s t
      → (o : Operation) → Reaches uuid4 s (perform uuid4 o t)
