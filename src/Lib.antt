-- ===== src/Lib.antt =====
-- A model of the governed part of MCP_AI, a platform in which a language model plans operations and
-- calls tools, and of the checks that stand between the model and the tools.
--
-- The program. A client, human or model, sends the gateway (services/mcp-gateway) a token, the name
-- of a tool, arguments and an idempotency key. The gateway finds the principal of the token and the
-- tool's metadata, checks that the role may use it and the rate limit, reserves the key, finds or
-- creates an approval for a tool that needs one, calls the tool server, and records the outcome in
-- the approval, the key and the audit log. An administrator other than the requester grants or
-- refuses approvals. Workflows (services/ai-agent) are plans of such calls, and a policy decides
-- which of their nodes may run. The engine runs the nodes of a workflow in topological order: it checks
-- dependencies, the condition and the policy of each, binds its arguments to earlier outputs, sends
-- the gateway a request, and stores the workflow with an event after every step.
--
-- The files:
--   Auth                  packages/auth/src/mcp_ops_auth/rbac.py
--   Registry              packages/policy/src/mcp_ops_policy/tool_registry.py (ToolMetadata)
--   Value                 the values of JSON and Python's `==` on them
--   Gateway/Errors        services/mcp-gateway/src/mcp_ops_mcp_gateway/errors.py
--   Gateway/Models        services/mcp-gateway/src/mcp_ops_mcp_gateway/models.py
--   Gateway/Authorizer    stores.py there: TokenAuthenticator, GatewayAuthorizer
--   Gateway/RateLimit     stores.py: FixedWindowRateLimiter, _parse_rate_limit
--   Gateway/Idempotency   stores.py: IdempotencyStore
--   Gateway/Approvals     stores.py: ApprovalStore, AuditLog
--   Gateway/Service       service.py there: McpGateway, GatewayPolicyEvaluator
--   Gateway/Persistence   persistence.py there: SqlAlchemyFixedWindowRateLimiter, SqlAlchemyApprovalStore,
--                         SqlAlchemyAuditLog and their rows, over the tables of Gateway/Persistence/Table
--   Workflow/Models       services/ai-agent/src/mcp_ops_ai_agent/workflows/models.py
--   Workflow/Policy       services/ai-agent/src/mcp_ops_ai_agent/workflows/policy.py
--   Workflow/Validator    validator.py there, with the search for cycles and the check of schemas
--   Workflow/Retry        service.py there: the rules on retries and on waiting for approval
--   Workflow/Arguments    arguments.py there: references to outputs, and their binding
--   Workflow/Conditions   conditions.py there
--   Workflow/Repository   repository.py (the one in memory) and events.py (the outbox's publisher)
--   Workflow/Order        service.py: _topological_nodes
--   Workflow/Engine       service.py: the state, the checkpoints, _replace_nodes, _execute_node
--   Workflow/Engine/Node  service.py: _execute_node_with_recovery, _compensate_node
--   Workflow/Engine/Loop  service.py: _run_workflow, _finish_workflow
--   Workflow/Engine/Api   service.py: get_workflow, execute, resume, retry_node, cancel
--   Capabilities/Search   services/ai-agent/src/mcp_ops_ai_agent/capabilities/service.py: _bfs, _outgoing
--   Capabilities/Allowed  service.py there: _edge_allowed
--   Prelude               shared: Boolean tests, lists, texts, dictionaries, actions that may raise
--   Examples              concrete runs
-- A definition has the name of the function that it models, without a leading underscore; children
-- of a module hold what is proved of it.
--
-- How state and errors are modelled. A method of an object is a function from the object's state
-- to a result and a state (`Exec`), and the state comes back beside an error too, since what was
-- written before a raise stays written. A lock makes each method one step, so what threads do to a
-- store is a sequence of its methods. Dictionaries are association lists in the order of insertion.
-- A time is a number of microseconds and an identifier its text. The supply of identifiers and the
-- clock are functions from a count of the readings so far.
--
-- A database is what its tables do: Gateway/Persistence/Table has records of operations with the laws that
-- the code relies on, and the theorems hold for any tables that have them; lists and dictionaries do.
-- A session is a transaction, which writes nothing if it raises; sessions of two requests may
-- interleave in the program, and the theorems are about calls one after the other.
--
-- Loops. Loops over a list are structural recursion. The eviction of idempotency keys runs on as
-- much fuel as there are keys; each round removes a key, so that is enough. The rounds of the
-- topological order run on as much fuel as there are nodes; a round that goes on takes one away at
-- least. The search for cycles runs on one more unit of fuel than the graph has keys, since each
-- call that goes deeper has put one more key among those being visited; that for a path in the
-- graph of capabilities, on one more than there are edges, since an edge puts at most one entry on
-- the queue. The loop of an attempt always returns in its first round, and so it is none here.
--
-- Not modelled. Hashing, sanitizing, `str`, the tool servers and their deadline are fields of the
-- environment, which the theorems leave open. Of pydantic's checks on models, those of GatewayToolRequest,
-- WorkflowPolicyEvaluation and WorkflowAuditEvent are modelled where a run makes one, with the
-- ValidationError that leaves the run; the others are not, and neither are those of the audit events
-- that resume, retry_node and cancel write. Metrics, tracing, the isolation of tool processes, the
-- idempotency store over SQL, the HTTP servers, the planner, the search by cost in the graph of
-- capabilities, whose costs are floats, the retrieval services, the front end and the evaluation are
-- left out. The zone of a time that is read back (`_aware`) is not modelled, a scalar that only
-- `float` reads stays a text, and the upper and lower case of letters are those of ASCII.
mod Prelude
pub mod Value
pub mod Auth
pub mod Registry
pub mod Gateway
pub mod Workflow
pub mod Capabilities
mod Examples
