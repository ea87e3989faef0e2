-- ===== src/Gateway/Approvals/Reached.antt =====
-- Every call keeps the invariant, so it holds after every history.
use mcp_ai.Prelude.{
  ℕ, ◌≡◌, ◌∙◌, refl, String, Option, none, some, inl, inr, ◌==◌, string_eq, Option-cases,
  Bool-cases, arith, eq_iff,
}
use mcp_ai.Prelude.Dict.{Dict, get as dict_get}
use mcp_ai.Value.{Value}
use mcp_ai.Registry.{RiskLevel}
use mcp_ai.Gateway.Models.{Uuid, Principal, ApprovalRecord}
use mcp_ai.Gateway.Approvals.{ApprovalStore, create}
use mcp_ai.Gateway.Approvals.Effects.{create-get}
use mcp_ai.Gateway.Approvals.Trail.{events_of}
use mcp_ai.Gateway.Approvals.History.{
  Operation, create', perform, effect, Reaches, here, call, empty_store,
}
use mcp_ai.Gateway.Approvals.Invariant.{
  Inv, IsCreate, perform-get, perform-kept, effect-keeps, perform-IsCounted,
}

-- The supply of identifiers never repeats one.
abbrev pub IsFresh : (ℕ → Uuid) → Type 0
IsFresh uuid4 = (i j : ℕ) → uuid4 i ≡ uuid4 j → i ≡ j

module _ (uuid4 : ℕ → Uuid) (fresh : IsFresh uuid4) where
  pub next-unused : (s : ApprovalStore) → Inv uuid4 s → dict_get (uuid4 s.drawn) s.approvals ≡ none
  next-unused s v = elim (Option-cases (dict_get (uuid4 s.drawn) s.approvals)) [
    | inl e ↦ e
    | inr (a, e) ↦
        let (i, lt, same) = v.given (uuid4 s.drawn) a e in
        absurd (omega (arith, fresh i s.drawn same))
  ]

  -- a record of the store afterwards comes from one before, by the effect of the call
  came_from :
      (o : Operation) (s : ApprovalStore) (k : Uuid) (b : ApprovalRecord)
      → Inv uuid4 s
      → ¬ IsCreate uuid4 o
      → dict_get k (perform uuid4 o s).approvals ≡ some b
      → (a : ApprovalRecord) × (dict_get k s.approvals ≡ some a) × (b ≡ effect o k a)
  came_from o s k b v n e = elim (Option-cases (dict_get k s.approvals)) [
    | inl gone ↦ cc (perform-get uuid4 o s k v n, gone, e)
    | inr (a, old) ↦ (a, old, cc (perform-get uuid4 o s k v n, old, e))
  ]

  change-Inv :
      (o : Operation) (s : ApprovalStore)
      → ¬ IsCreate uuid4 o
      → Inv uuid4 s
      → Inv uuid4 (perform uuid4 o s)
  change-Inv o s n v =
      let kept = perform-kept uuid4 o s v.distinct in
      record {
        keyed = λ k b e.
            let (a, old, same) = came_from o s k b v n e in
            rw same ((effect-keeps uuid4 o k a).0 ∙ v.keyed k a old);
        distinct = kept.0;
        given = λ k b e.
            let (a, old, same) = came_from o s k b v n e in
            let (i, lt, is) = v.given k a old in (i, omega (arith, kept.1), is);
        counted = λ k. perform-IsCounted uuid4 o s k (next-unused s v) v;
        standing = λ k b e.
            let (a, old, same) = came_from o s k b v n e in
            rw same ((effect-keeps uuid4 o k a).1 (v.standing k a old));
      }

  create-Inv :
      (p : Principal) (tool : String) (arguments : Dict String Value) (risk : RiskLevel) (now : ℕ)
      (w n h b : Option String) (s : ApprovalStore)
      → Inv uuid4 s
      → Inv uuid4 (create uuid4 p tool arguments risk now w n h b s).1
  create-Inv p tool arguments risk now w n h b s v =
      let kept = perform-kept uuid4 (create' p tool arguments risk now w n h b) s v.distinct in
      let (a, id, status, by, added, more) = create-get uuid4 s p tool arguments risk now w n h b in
      record {
        keyed = λ k c e. ground (arith, eq_iff (uuid4 s.drawn) k, added k, v.keyed k c);
        distinct = kept.0;
        given = λ k c e. elim (Bool-cases (uuid4 s.drawn == k)) [
          | inl new ↦ (s.drawn, more, (eq_iff (uuid4 s.drawn) k).0 new)
          | inr old ↦
              let (i, lt, is) = v.given k c (ground (arith, added k)) in
              (i, omega (arith, kept.1), is)
        ];
        counted = λ k.
            perform-IsCounted uuid4 (create' p tool arguments risk now w n h b) s k
              (next-unused s v) v;
        standing = λ k c e. ground (arith, eq_iff (uuid4 s.drawn) k, added k, v.standing k c);
      }

  pub perform-Inv :
      (o : Operation) (s : ApprovalStore) → Inv uuid4 s → Inv uuid4 (perform uuid4 o s)
  perform-Inv (create' p t r x now w n h b) s v = create-Inv p t r x now w n h b s v
  perform-Inv o s v = change-Inv o s (λ h. h) v

  pub Reaches-Inv : {s t : ApprovalStore} → Inv uuid4 s → Reaches uuid4 s t → Inv uuid4 t
  Reaches-Inv v here = v
  Reaches-Inv v (call {t} r o) = perform-Inv o t (Reaches-Inv v r)

pub empty_store-Inv : (uuid4 : ℕ → Uuid) (ttl : ℕ) → Inv uuid4 (empty_store ttl)
unfolding dict_get events_of
empty_store-Inv uuid4 ttl = record {
  keyed = λ k a e. cc;
  distinct = tt;
  given = λ k a e. cc;
  counted = λ k. record { executed_events = refl; granted_events = refl };
  standing = λ k a e. cc;
}
