-- ===== src/Gateway/Persistence/Approvals/Held.antt =====
-- When the tables hold what the store in memory holds.
use mathlib.Core.Option
use mcp_ai.Prelude.{
  ℕ, ◌≡◌, ◌∙◌, refl, sym, ap, ◌+◌, Bool, if◌then◌else◌, String, some, List, [], ◌∷◌, ◌++◌, map,
  string_eq, eq_iff, arith,
}
use mcp_ai.Prelude.Dict.{Dict, get as dict_get, put, get-put}
use mcp_ai.Prelude.Exec.{Result}
use mcp_ai.Gateway.Errors.{Raised}
use mcp_ai.Gateway.Models.{Uuid, status_value, Principal, ApprovalRecord, ApprovalEvent}
use mcp_ai.Gateway.Approvals.{ApprovalStore}
use mcp_ai.Gateway.Persistence.Table.{KeyedTable, Table, count_rows}
use mcp_ai.Gateway.Persistence.Rows.{
  GatewayApprovalRow, GatewayApprovalEventRow, approval_row, event_row,
}
use mcp_ai.Gateway.Persistence.Approvals.{ApprovalTables}

-- the row of an event, but for its identifier
abbrev pub row_of : ApprovalEvent → GatewayApprovalEventRow
row_of e = record {
  event_id = "";
  approval_id = e.approval_id;
  event_type = e.event_type;
  timestamp = e.timestamp;
  actor_id = e.actor_id;
  status = status_value e.status;
  tool_name = e.tool_name;
}

abbrev pub unnamed : GatewayApprovalEventRow → GatewayApprovalEventRow
unnamed r = record r { event_id = "" }

count_rows-push :
    (p : GatewayApprovalEventRow → Bool) (es : List ApprovalEvent) (e : ApprovalEvent)
    → count_rows p (map row_of (es ++ e ∷ []))
      ≡ count_rows p (map row_of es) + (if p (row_of e) then 1 else 0)
unfolding count_rows
count_rows-push p [] e = refl
count_rows-push p (d ∷ es) e = omega (arith, count_rows-push p es e)

module _ (table : KeyedTable GatewayApprovalRow) (journal : Table GatewayApprovalEventRow)
    (id_factory uuid4 drawn_ids : ℕ → Uuid) where
  abbrev pub Tables : Type 0
  Tables = ApprovalTables table.Rows journal.Rows

  abbrev pub Agrees :
      Dict Uuid ApprovalRecord → List ApprovalEvent → table.Rows → journal.Rows → Type 0
  Agrees approvals events rows event_rows =
      ((k : Uuid) → table.find k rows ≡ Option.map approval_row (dict_get k approvals))
      × ((k : Uuid) (a : ApprovalRecord) → dict_get k approvals ≡ some a → a.approval_id ≡ k)
      × ((p : GatewayApprovalEventRow → Bool)
          → journal.count_where (λ r. p (unnamed r)) event_rows ≡ count_rows p (map row_of events))

  -- the tables hold the rows of the store's approvals, as many rows of each event, and the time to
  -- live
  abbrev pub Holds : ApprovalStore → Tables → Type 0
  Holds s d = Agrees s.approvals s.events d.approvals d.events × (d.ttl_seconds ≡ s.ttl_seconds)

  -- both answer alike, and agree afterwards
  abbrev pub Alike :
      Result Raised ApprovalRecord × ApprovalStore → Result Raised ApprovalRecord × Tables → Type 0
  Alike (r, s) (q, d) = (r ≡ q) × Holds s d

  pub write-Agrees :
      (approvals : Dict Uuid ApprovalRecord) (events : List ApprovalEvent) (rows : table.Rows)
      (event_rows : journal.Rows) (a : ApprovalRecord) (e : ApprovalEvent) (id : Uuid)
      (event_type : String) (actor : Principal) (now : ℕ)
      → row_of e ≡ unnamed (event_row id a event_type actor now)
      → Agrees approvals events rows event_rows
      → Agrees
          (put a.approval_id a approvals)
          (events ++ e ∷ [])
          (table.merge a.approval_id (approval_row a) rows)
          (journal.add (event_row id a event_type actor now) event_rows)
  write-Agrees approvals events rows event_rows a e id event_type actor now same
        (held, keyed, told) =
      (
        λ k.
            table.find-merge a.approval_id k (approval_row a) rows
            ∙ ground (arith, get-put a.approval_id k a approvals, held k),
        λ k b f.
            ground
              (arith, f, get-put a.approval_id k a approvals, keyed k b, eq_iff a.approval_id k),
        λ p.
            journal.count-add (λ r. p (unnamed r)) (event_row id a event_type actor now) event_rows
            ∙ ap (λ n. n + (if p (unnamed (event_row id a event_type actor now)) then 1 else 0))
                (told p)
            ∙ ap (λ r. count_rows p (map row_of events) + (if p r then 1 else 0)) (sym same)
            ∙ sym (count_rows-push p events e),
      )
