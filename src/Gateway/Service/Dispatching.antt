-- ===== src/Gateway/Service/Dispatching.antt =====
-- services/mcp-gateway/src/mcp_ops_mcp_gateway/service.py: which calls `call_tool` passes on to a tool
-- server.
use mcp_ai.Prelude.{
  ℕ, ◌+◌, ◌≡◌, ◌∙◌, sym, subst, refl, ap, false, Option, none, some, List, [], ◌∷◌, ◌++◌, ◌⊎◌, inl,
  inr, string_eq, arith,
}
use mcp_ai.Prelude.Exec.{Result, ok, err, and_then, handle, ◌>>=◌}
use mcp_ai.Registry.{ToolMetadata}
use mcp_ai.Gateway.Errors.{Raised}
use mcp_ai.Gateway.Models.{
  Principal, ApprovalStatus, allowed, pending_approval, denied, GatewayDecision, ApprovalRecord,
  GatewayToolRequest, GatewayToolResponse,
}
use mcp_ai.Gateway.Idempotency
use mcp_ai.Gateway.Idempotency.{succeeded}
use mcp_ai.Gateway.Approvals.{ApprovalStore}
use mcp_ai.Gateway.Service.{
  Environment, Arguments, Gateway, Dispatch, Action, strip_untrusted_model_fields,
  trusted_domain_arguments, now, in_idempotency,
}
use mcp_ai.Gateway.Service.Call.{
  Frame, evaluate_before_execution, approval_for_request, success, failure,
}
use mcp_ai.Gateway.Service.CallTool.{
  id_of, attempt, settle, completed_call, settled_call, allowed_call, pending_call, decided_call,
  governed_call, reserved_call, reserve_then_call, admit, try_call, refused_call, complete_failed,
  call_tool,
}
use mcp_ai.Gateway.Service.Checks.{
  IsAdmitted, Gated, admit-quiet, admit-ok, approval-quiet, approval-ok,
}

abbrev IsQuiet : {A : Type 0} → Action A → Type 0
IsQuiet e = (g : Gateway) → (e g).1.dispatches ≡ g.dispatches

module _ {A B : Type 0} where
  and_then-dispatches :
      (r : Result Raised A) (k : A → Action B) (g : Gateway) {d : List Dispatch}
      → g.dispatches ≡ d
      → ((a : A) → IsQuiet (k a))
      → (and_then r k g).1.dispatches ≡ d
  and_then-dispatches (ok a) k g before quiet = quiet a g ∙ before
  and_then-dispatches (err e) k g before quiet = before

  -- what follows a step makes no dispatch
  after :
      (e : Action A) (k : A → Action B) (g : Gateway) {d : List Dispatch}
      → (e g).1.dispatches ≡ d
      → ((a : A) → IsQuiet (k a))
      → ((e >>= k) g).1.dispatches ≡ d
  after e k g before quiet = and_then-dispatches (e g).0 k (e g).1 before quiet

  then-IsQuiet :
      (e : Action A) (k : A → Action B) → IsQuiet e → ((a : A) → IsQuiet (k a)) → IsQuiet (e >>= k)
  then-IsQuiet e k first quiet g = after e k g (first g) quiet

module _ (env : Environment) where
  module _ (request : GatewayToolRequest) (p : Principal) (m : ToolMetadata) where
    abbrev pub the_dispatch : Option ApprovalRecord → Dispatch
    the_dispatch o = record {
      tool = m;
      arguments = trusted_domain_arguments (strip_untrusted_model_fields request.arguments) p m;
      approval = id_of o;
    }

    attempt-dispatches :
        (o : Option ApprovalRecord) (g : Gateway)
        → (attempt env request p m
            (strip_untrusted_model_fields request.arguments)
            o
            g).1.dispatches
          ≡ g.dispatches ++ the_dispatch o ∷ []
    unfolding attempt Idempotency.mark_running
    attempt-dispatches none g = ground arith
    attempt-dispatches (some a) g = ground arith

    settle-IsQuiet :
        (o : Option ApprovalRecord) (content : Arguments) (g : Gateway)
        → (settle env o p content g).1.dispatches ≡ g.dispatches
    unfolding settle
    settle-IsQuiet none content g = refl
    settle-IsQuiet (some a) content g = ground arith

    completed_call-IsQuiet :
        (content : Arguments) (st : Option ApprovalStatus)
        → IsQuiet (completed_call env request p m content st)
    unfolding completed_call success now in_idempotency
    completed_call-IsQuiet content st g = ground arith

    settled_call-IsQuiet :
        (o : Option ApprovalRecord) (content : Arguments)
        → IsQuiet (settled_call env request p m o content)
    unfolding settled_call
    settled_call-IsQuiet o content =
        then-IsQuiet (settle env o p content) (completed_call env request p m content)
          (settle-IsQuiet o content) (completed_call-IsQuiet content)

    allowed_call-dispatches :
        (o : Option ApprovalRecord) (g : Gateway)
        → (allowed_call env request p m
            (strip_untrusted_model_fields request.arguments)
            o
            g).1.dispatches
          ≡ g.dispatches ++ the_dispatch o ∷ []
    unfolding allowed_call
    allowed_call-dispatches o g =
        after (attempt env request p m (strip_untrusted_model_fields request.arguments) o)
          (settled_call env request p m o) g (attempt-dispatches o g) (settled_call-IsQuiet o)

    pending_call-IsQuiet :
        (at : ℕ)
        → IsQuiet (pending_call env request p m (strip_untrusted_model_fields request.arguments) at)
    unfolding pending_call success
    pending_call-IsQuiet at g = ground arith

    -- one dispatch more, and a gated one, or none
    abbrev pub Within : ApprovalStore → List Dispatch → List Dispatch → Type 0
    Within s before now =
        (now ≡ before)
        ⊎ ((o : Option ApprovalRecord) × (now ≡ before ++ the_dispatch o ∷ [])
            × Gated s request m o)

    Within-from :
        (s : ApprovalStore) {before later now : List Dispatch}
        → later ≡ before
        → Within s later now
        → Within s before now
    Within-from s e (inl h) = inl (h ∙ e)
    Within-from s e (inr (o, h, gated)) = inr (o, h ∙ ap (λ x. x ++ the_dispatch o ∷ []) e, gated)

    decided_call-Within :
        (d : GatewayDecision) (o : Option ApprovalRecord) (at : ℕ) (s : ApprovalStore) (g : Gateway)
        → evaluate_before_execution env m o ≡ d
        → (d ≡ allowed → Gated s request m o)
        → Within s g.dispatches
            (decided_call env d request p m
              (strip_untrusted_model_fields request.arguments)
              at
              o
              g).1.dispatches
    unfolding decided_call
    decided_call-Within pending_approval o at s g e gated = inl (pending_call-IsQuiet at g)
    decided_call-Within allowed o at s g e gated = inr (o, allowed_call-dispatches o g, gated refl)
    decided_call-Within denied none at s g e gated = ground arith
    decided_call-Within denied (some a) at s g e gated = ground arith

    and_then-Within :
        (r : Result Raised (Option ApprovalRecord)) (at : ℕ) (s : ApprovalStore) (g : Gateway)
        → ((o : Option ApprovalRecord)
            → r ≡ ok o
            → evaluate_before_execution env m o ≡ allowed
            → Gated s request m o)
        → Within s g.dispatches
            (and_then r
              (λ o.
                decided_call env
                  (evaluate_before_execution env m o)
                  request
                  p
                  m
                  (strip_untrusted_model_fields request.arguments)
                  at
                  o)
              g).1.dispatches
    and_then-Within (ok o) at s g gated =
        decided_call-Within (evaluate_before_execution env m o) o at s g refl (gated o refl)
    and_then-Within (err e) at s g gated = inl refl

    governed_call-Within :
        (at : ℕ) (g : Gateway)
        → Within g.approvals g.dispatches
            (governed_call env request p m
              (strip_untrusted_model_fields request.arguments)
              at
              g).1.dispatches
    unfolding governed_call
    governed_call-Within at g =
        let args = strip_untrusted_model_fields request.arguments in
        let step = approval_for_request env request m args at g in
        Within-from g.approvals (approval-quiet env request m args at g)
          (and_then-Within step.0 at g.approvals step.1 (approval-ok env request m at g))

    reserved_call-Within :
        (r : Result Raised (Option GatewayToolResponse)) (at : ℕ) (f : Frame)
        → Within f.gateway.approvals f.gateway.dispatches
            (and_then r
              (λ replay.
                reserved_call env replay request p m
                  (strip_untrusted_model_fields request.arguments)
                  at)
              f).1.gateway.dispatches
    unfolding reserved_call
    reserved_call-Within (ok none) at f = governed_call-Within at f.gateway
    reserved_call-Within (ok (some reply)) at f = inl refl
    reserved_call-Within (err e) at f = inl refl

  abbrev pub Admitted : Gateway → GatewayToolRequest → List Dispatch → Type 0
  Admitted g request now =
      (now ≡ g.dispatches)
      ⊎ ((p : Principal) × (m : ToolMetadata) × (o : Option ApprovalRecord) × (now
            ≡ g.dispatches ++ the_dispatch request p m o ∷ [])
          × IsAdmitted g request p m
          × Gated g.approvals request m o)

  Admitted-from :
      (g : Gateway) (request : GatewayToolRequest) (p : Principal) (m : ToolMetadata)
      {now : List Dispatch}
      → IsAdmitted g request p m
      → Within request p m g.approvals g.dispatches now
      → Admitted g request now
  Admitted-from g request p m ad (inl h) = inl h
  Admitted-from g request p m ad (inr (o, h, gated)) = inr (p, m, o, h, ad, gated)

  reserve_then_call-Within :
      (request : GatewayToolRequest) (p : Principal) (m : ToolMetadata) (at : ℕ) (f : Frame)
      → Within request p m f.gateway.approvals f.gateway.dispatches
          (reserve_then_call env request p m at f).1.gateway.dispatches
  unfolding reserve_then_call
  reserve_then_call-Within request p m at f =
      reserved_call-Within request p m
        (Idempotency.reserve p request.idempotency_key at f.gateway.idempotency).0 at _

  admit-then :
      (g : Gateway) (request : GatewayToolRequest) (at : ℕ)
      (r : Result Raised (Principal × ToolMetadata)) (f : Frame)
      → f.gateway.dispatches ≡ g.dispatches
      → f.gateway.approvals ≡ g.approvals
      → ((p : Principal) (m : ToolMetadata) → r ≡ ok (p, m) → IsAdmitted g request p m)
      → Admitted g request
          (and_then r (λ (p, m). reserve_then_call env request p m at) f).1.gateway.dispatches
  admit-then g request at (ok (p, m)) f d s ad = Admitted-from g request p m (ad p m refl) (
      Within-from request p m g.approvals d (
        subst
          (λ st.
            Within request p m st f.gateway.dispatches
              (reserve_then_call env request p m at f).1.gateway.dispatches)
          s (reserve_then_call-Within request p m at f)))
  admit-then g request at (err e) f d s ad = inl d

  try_call-Admitted :
      (g : Gateway) (request : GatewayToolRequest) (at : ℕ) (f : Frame)
      → f.gateway.dispatches ≡ g.dispatches
      → f.gateway.approvals ≡ g.approvals
      → ((p : Principal) (m : ToolMetadata)
          → IsAdmitted f.gateway request p m
          → IsAdmitted g request p m)
      → Admitted g request (try_call env request at f).1.gateway.dispatches
  unfolding try_call
  try_call-Admitted g request at f d s same =
      let (dispatched, stored) = admit-quiet env request at f in
      admit-then g request at (admit env request at f).0 (admit env request at f).1 (dispatched ∙ d)
        (stored ∙ s) (λ p m e. same p m (admit-ok env request at f e))

  refused_call-quiet :
      (request : GatewayToolRequest) (r : Result Raised GatewayToolResponse) (f : Frame)
      → (handle r (refused_call env request) f).1.gateway.dispatches ≡ f.gateway.dispatches
  unfolding refused_call failure complete_failed now in_idempotency
  refused_call-quiet request (ok response) f = refl
  refused_call-quiet request (err e) f = ground arith

  -- A call of a tool reaches a tool server at most once. Where it does, the token of the request is
  -- a principal's, the tool is registered, enabled, not disabled and executable, and that
  -- principal's role holds the tool's permission; the server gets the request's arguments without
  -- the fields that a model may not set, and with the role of that principal; and a tool that needs
  -- approval has one: it is stored under the identifier of the request, it is approved, and it was
  -- granted for this tool and these arguments.
  pub dispatch_is_gated :
      (request : GatewayToolRequest) (g : Gateway)
      → Admitted g request (call_tool env request g).1.dispatches
  unfolding call_tool
  dispatch_is_gated request g =
      let f : Frame = record {
        gateway = record g { ticks = g.ticks + 1 };
        principal = none;
        metadata = none;
        reserved = false;
      } in
      let tried = try_call env request (env.clock g.ticks) f in
      subst (Admitted g request) (sym (refused_call-quiet request tried.0 tried.1)) (
        try_call-Admitted g request (env.clock g.ticks) f refl refl (λ p m ad. record {
          authentic = ad.authentic;
          registered = ad.registered;
          enabled = ad.enabled;
          not_disabled = ad.not_disabled;
          executable = ad.executable;
          authorized = ad.authorized;
        }))
