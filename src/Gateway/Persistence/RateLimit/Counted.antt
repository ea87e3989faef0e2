-- ===== src/Gateway/Persistence/RateLimit/Counted.antt =====
-- The rows of the limiter over a database count the calls that the limiter in memory keeps.
use mcp_ai.Prelude.{
  ℕ, ◌+◌, ◌≤◌, ◌≡◌, ◌∙◌, refl, sym, ap, subst, String, Bool, false, not, ◌&&◌, List, [], ◌∷◌, ◌++◌,
  ◌==◌, leb, length, if◌then◌else◌, string_eq, pair_eq, eq_iff, arith, Bool-cases, inl, inr, All,
  All-append,
}
use mcp_ai.Prelude.Dict.{get, put, get-put, beq_refl}
use mcp_ai.Gateway.RateLimit.{RateLimiter, drop_old, calls_of}
use mcp_ai.Gateway.Persistence.Table.{Table}
use mcp_ai.Gateway.Persistence.RateLimit.{CallRow, has_left, counts_for}

drop_old-again :
    (now later window : ℕ) (cs : List ℕ)
    → now ≤ later
    → drop_old later window (drop_old now window cs) ≡ drop_old later window cs
unfolding drop_old
drop_old-again now later window [] le = refl
drop_old-again now later window (c ∷ cs) le =
    ground (arith, drop_old-again now later window cs le, le)

length-push : (c : ℕ) (cs : List ℕ) → length (cs ++ c ∷ []) ≡ length cs + 1
length-push c [] = refl
length-push c (d ∷ cs) = omega (arith, length-push c cs)

drop_old-push :
    (now later window : ℕ) (cs : List ℕ)
    → All (λ c. c ≤ now) cs
    → length (drop_old later window (cs ++ now ∷ []))
      ≡ length (drop_old later window cs) + (if not (leb (now + window) later) then 1 else 0)
unfolding drop_old
drop_old-push now later window [] past = ground arith
drop_old-push now later window (c ∷ cs) past =
    ground (arith, drop_old-push now later window cs past.1, past.0, length-push now cs)

drop_old-All :
    (P : ℕ → Type 0) (now window : ℕ) (cs : List ℕ) → All P cs → All P (drop_old now window cs)
unfolding drop_old
drop_old-All P now window [] h = tt
drop_old-All P now window (c ∷ cs) h = elim (Bool-cases (leb (c + window) now)) [
  | inl e ↦ rw e (drop_old-All P now window cs h.1)
  | inr e ↦ rw e h
]

All-later :
    (now later : ℕ) (cs : List ℕ) → now ≤ later → All (λ c. c ≤ now) cs → All (λ c. c ≤ later) cs
All-later now later [] le h = tt
All-later now later (c ∷ cs) le h = (omega arith, All-later now later cs le h.1)

abbrev pub Kept : Type 0
Kept = String → String → List ℕ

abbrev pub kept : RateLimiter → Kept
kept s p tool = calls_of (get (p, tool) s.calls)

abbrev same_key : String → String → String → String → Bool
same_key p tool p' tool' = p == p' && tool == tool'

abbrev update : String → String → List ℕ → Kept → Kept
update p tool cs f p' tool' = if same_key p tool p' tool' then cs else f p' tool'

-- A property of what is kept, for the key that is written and for the others.
update-All :
    (P : String → String → List ℕ → Type 0) (p tool : String) (cs : List ℕ) (f : Kept)
    → P p tool cs
    → ((p' tool' : String) → same_key p tool p' tool' ≡ false → P p' tool' (f p' tool'))
    → (p' tool' : String) → P p' tool' (update p tool cs f p' tool')
update-All P p tool cs f new old p' tool' = elim (Bool-cases (same_key p tool p' tool')) [
  | inl same ↦
      let one : p ≡ p' = (eq_iff p p').0 (ground (arith, same)) in
      let two : tool ≡ tool' = (eq_iff tool tool').0 (ground (arith, same)) in
      subst (λ b. P p' tool' (if b then cs else f p' tool')) (sym same)
        (subst (λ q. P q tool' cs) one (subst (λ q. P p q cs) two new))
  | inr other ↦
      subst (λ b. P p' tool' (if b then cs else f p' tool')) (sym other) (old p' tool' other)
]

kept-put :
    (p tool : String) (cs : List ℕ) (s : RateLimiter)
    → kept (record s { calls = put (p, tool) cs s.calls }) ≡ update p tool cs (kept s)
kept-put p tool cs s = λ i p' tool'. same p' tool' i
  where
    same :
        (p' tool' : String)
        → kept (record s { calls = put (p, tool) cs s.calls }) p' tool'
          ≡ update p tool cs (kept s) p' tool'
    same p' tool' = ground (arith, get-put (p, tool) (p', tool') cs s.calls)

module _ (table : Table CallRow) (window : ℕ) where
  -- the rows count as many calls, at any later time, as the limiter in memory keeps
  abbrev pub Agrees : ℕ → Kept → table.Rows → Type 0
  Agrees now f t =
      ((p tool : String) (later : ℕ)
        → now ≤ later
        → table.count_where (counts_for p tool later window) t
          ≡ length (drop_old later window (f p tool)))
      × ((p tool : String) → All (λ c. c ≤ now) (f p tool))

  pub later-Agrees :
      (now later : ℕ) (f : Kept) (t : table.Rows) → now ≤ later → Agrees now f t → Agrees later f t
  later-Agrees now later f t le (counts, past) = (
    λ p tool end le'. counts p tool end (omega (arith, le, le')),
    λ p tool. All-later now later (f p tool) le (past p tool),
  )

  pub delete-Agrees :
      (now : ℕ) (f : Kept) (t : table.Rows)
      → Agrees now f t
      → Agrees now f (table.delete_where (has_left now window) t)
  delete-Agrees now f t (counts, past) =
      (λ p tool later le. left p tool later le ∙ counts p tool later le, past)
    where
      same :
          (p tool : String) (later : ℕ)
          → now ≤ later
          → (r : CallRow)
          → (counts_for p tool later window r && not (has_left now window r))
            ≡ counts_for p tool later window r
      same p tool later le r = ground (arith, le, r.principal_id == p, r.tool_name == tool)

      left :
          (p tool : String) (later : ℕ)
          → now ≤ later
          → table.count_where
              (counts_for p tool later window)
              (table.delete_where (has_left now window) t)
            ≡ table.count_where (counts_for p tool later window) t
      left p tool later le =
          table.count-delete (counts_for p tool later window) (has_left now window) t
          ∙ ap (λ q. table.count_where q t) (λ i r. same p tool later le r i)

  drop-Agrees :
      (p tool : String) (now : ℕ) (f : Kept) (t : table.Rows)
      → Agrees now f t
      → Agrees now (update p tool (drop_old now window (f p tool)) f) t
  drop-Agrees p tool now f t (counts, past) = (
    update-All
        (λ p' tool' cs.
          (later : ℕ)
          → now ≤ later
          → table.count_where (counts_for p' tool' later window) t
            ≡ length (drop_old later window cs))
        p tool (drop_old now window (f p tool)) f
        (λ later le.
          counts p tool later le ∙ ap length (sym (drop_old-again now later window (f p tool) le)))
        (λ p' tool' other. counts p' tool'),
    update-All (λ p' tool' cs. All (λ c. c ≤ now) cs) p tool (drop_old now window (f p tool)) f
        (drop_old-All (λ c. c ≤ now) now window (f p tool) (past p tool))
        (λ p' tool' other. past p' tool'),
  )

  add-Agrees :
      (p tool : String) (now : ℕ) (f : Kept) (t : table.Rows)
      → Agrees now f t
      → Agrees now
          (update p tool (f p tool ++ now ∷ []) f)
          (table.add (record { principal_id = p; tool_name = tool; called_at = now }) t)
  add-Agrees p tool now f t (counts, past) = (
    update-All
        (λ p' tool' cs.
          (later : ℕ)
          → now ≤ later
          → table.count_where (counts_for p' tool' later window) (table.add row t)
            ≡ length (drop_old later window cs))
        p tool (f p tool ++ now ∷ []) f
        (λ later le.
          table.count-add (counts_for p tool later window) row t
          ∙ ground (
            arith,
            counts p tool later le,
            drop_old-push now later window (f p tool) (past p tool),
            beq_refl p,
            beq_refl tool,
          ))
        (λ p' tool' other later le.
          table.count-add (counts_for p' tool' later window) row t
          ∙ ground (arith, counts p' tool' later le, other)),
    update-All (λ p' tool' cs. All (λ c. c ≤ now) cs) p tool (f p tool ++ now ∷ []) f
        (All-append (λ c. c ≤ now) (f p tool) (now ∷ []) (past p tool) (omega arith, tt))
        (λ p' tool' other. past p' tool'),
  )
    where
      row : CallRow
      row = record { principal_id = p; tool_name = tool; called_at = now }

  pub dropped-Agrees :
      (p tool : String) (now : ℕ) (s : RateLimiter) (t : table.Rows)
      → Agrees now (kept s) t
      → Agrees now
          (kept (record s { calls = put (p, tool) (drop_old now window (kept s p tool)) s.calls }))
          t
  dropped-Agrees p tool now s t h =
      subst (λ f. Agrees now f t) (sym (kept-put p tool (drop_old now window (kept s p tool)) s))
        (drop-Agrees p tool now (kept s) t h)

  pub added-Agrees :
      (p tool : String) (now : ℕ) (s : RateLimiter) (t : table.Rows)
      → Agrees now (kept s) t
      → Agrees now
          (kept (record s {
            calls =
                put
                  (p, tool)
                  (drop_old now window (kept s p tool) ++ now ∷ [])
                  (put (p, tool) (drop_old now window (kept s p tool)) s.calls);
          }))
          (table.add (record { principal_id = p; tool_name = tool; called_at = now }) t)
  added-Agrees p tool now s t h =
      let left = drop_old now window (kept s p tool) in
      let s1 : RateLimiter = record s { calls = put (p, tool) left s.calls } in
      let here : kept s1 p tool ≡ left = simp (get-put, beq_refl) in
      subst
        (λ f.
          Agrees now f
            (table.add (record { principal_id = p; tool_name = tool; called_at = now }) t))
        (ap (λ cs. update p tool (cs ++ now ∷ []) (kept s1)) here
          ∙ sym (kept-put p tool (left ++ now ∷ []) s1))
        (add-Agrees p tool now (kept s1) t (dropped-Agrees p tool now s t h))
