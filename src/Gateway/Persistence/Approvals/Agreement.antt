-- ===== src/Gateway/Persistence/Approvals/Agreement.antt =====
-- The approval store over a database against the one in memory.
use mcp_ai.Prelude.{ℕ, ◌≡◌, refl, String, Option, List, [], ◌∷◌, string_eq}
use mcp_ai.Prelude.Dict.{Dict, get as dict_get}
use mcp_ai.Prelude.Exec.{Result}
use mcp_ai.Value.{Value}
use mcp_ai.Registry.{RiskLevel}
use mcp_ai.Gateway.Errors.{Raised}
use mcp_ai.Gateway.Models.{Uuid, Principal, ApprovalRecord}
use mcp_ai.Gateway.Approvals as Memory
use mcp_ai.Gateway.Approvals.{ApprovalStore}
use mcp_ai.Gateway.Persistence.Table.{KeyedTable, Table}
use mcp_ai.Gateway.Persistence.Rows.{
  GatewayApprovalRow, GatewayApprovalEventRow, approval_row, event_row,
}
use mcp_ai.Gateway.Persistence.Approvals as Stored
use mcp_ai.Gateway.Persistence.Approvals.{ApprovalTables}
use mcp_ai.Gateway.Persistence.Approvals.Held.{Tables, Holds, Alike, write-Agrees}

-- the methods that read or decide an approval
pub data Decision : Type 0 where
  detail' : Uuid → ℕ → Decision
  get' : Uuid → ℕ → Decision
  approve' : Uuid → Principal → ℕ → Decision
  reject' : Uuid → Principal → String → ℕ → Decision
  mark_executed' : ApprovalRecord → Principal → ℕ → Dict String Value → Decision
  mark_failed' : ApprovalRecord → Principal → ℕ → String → Decision

module _ (table : KeyedTable GatewayApprovalRow) (journal : Table GatewayApprovalEventRow)
    (id_factory uuid4 drawn_ids : ℕ → Uuid) where
  -- The record that is created is the same where both draw the same identifier for it.
  pub create-Alike :
      (by : Principal) (tool_name : String) (arguments : Dict String Value) (risk : RiskLevel)
      (now : ℕ) (workflow : Option Uuid) (place hash binding : Option String)
      → (s : ApprovalStore) (d : Tables table journal id_factory uuid4 drawn_ids)
      → Holds table journal id_factory uuid4 drawn_ids s d
      → id_factory d.drawn ≡ drawn_ids s.drawn
      → Alike table journal id_factory uuid4 drawn_ids
          (Memory.create drawn_ids by tool_name arguments risk now workflow place hash binding s)
          (Stored.create table journal id_factory uuid4 by tool_name arguments risk now workflow
            place hash binding d)
  unfolding Memory.create Stored.create approval_row event_row
  create-Alike by tool_name arguments risk now workflow place hash binding s d h same =
      rw (same, h.1)
        (
          refl,
          (
            write-Agrees table journal id_factory uuid4 drawn_ids s.approvals s.events d.approvals
                d.events _ _ (uuid4 d.event_ids) "approval.requested" by now refl h.0,
            refl,
          ),
        )

  unfoldable pub in_memory : Decision → ApprovalStore → Result Raised ApprovalRecord × ApprovalStore
  in_memory (detail' k now) = Memory.detail drawn_ids k now
  in_memory (get' k now) = Memory.get drawn_ids k now
  in_memory (approve' k by now) = Memory.approve drawn_ids k by now
  in_memory (reject' k by reason now) = Memory.reject drawn_ids k by reason now
  in_memory (mark_executed' a by now result) = Memory.mark_executed drawn_ids a by now result
  in_memory (mark_failed' a by now reason) = Memory.mark_failed drawn_ids a by now reason

  unfoldable pub in_tables :
      Decision
      → Tables table journal id_factory uuid4 drawn_ids
      → Result Raised ApprovalRecord × Tables table journal id_factory uuid4 drawn_ids
  in_tables (detail' k now) = Stored.detail table journal id_factory uuid4 k now
  in_tables (get' k now) = Stored.get table journal id_factory uuid4 k now
  in_tables (approve' k by now) = Stored.approve table journal id_factory uuid4 k by now
  in_tables (reject' k by reason now) = Stored.reject table journal id_factory uuid4 k by reason now
  in_tables (mark_executed' a by now result) =
      Stored.mark_executed table journal id_factory uuid4 a by now result
  in_tables (mark_failed' a by now reason) =
      Stored.mark_failed table journal id_factory uuid4 a by now reason

  -- the answers to decisions made in this order, and the store that is left
  unfoldable pub run_in_memory :
      List Decision → ApprovalStore → List (Result Raised ApprovalRecord) × ApprovalStore
  run_in_memory [] s = ([], s)
  run_in_memory (o ∷ os) s =
      let (r, s') = in_memory o s in let (rs, end) = run_in_memory os s' in (r ∷ rs, end)

  unfoldable pub run_in_tables :
      List Decision
      → Tables table journal id_factory uuid4 drawn_ids
      → List (Result Raised ApprovalRecord) × Tables table journal id_factory uuid4 drawn_ids
  run_in_tables [] d = ([], d)
  run_in_tables (o ∷ os) d =
      let (r, d') = in_tables o d in let (rs, end) = run_in_tables os d' in (r ∷ rs, end)
