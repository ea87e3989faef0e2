-- ===== src/Workflow/Validator/Acyclic/Search.antt =====
-- services/ai-agent/src/mcp_ops_ai_agent/workflows/validator.py: what `visit` finds.
use mcp_ai.Prelude.{
  ℕ, zero, suc, ◌≤◌, ◌<◌, ◌≡◌, ◌∙◌, refl, sym, ap, subst, String, Bool, true, false, not, List, [],
  ◌∷◌, ◌==◌, elem, filterb, length, All, Bool-cases, string_eq, eq_iff, inl, inr, if◌then◌else◌,
  arith,
}
use mcp_ai.Prelude.Dict.{keys, beq_refl}
use mcp_ai.Workflow.Validator.Acyclic.{
  Graph, dependencies, Marks, Walk, fine, cyclic, exhausted, then_walk, leave, visit_each, visit,
}

-- one key of the graph depends on another
abbrev pub Step : Graph → String → String → Type 0
Step graph a b = (elem b (keys graph) ≡ true) × (elem b (dependencies graph a) ≡ true)

-- a chain of dependencies
pub data Reaches (graph : Graph) (a : String) : String → Type 0 where
  one : {b : String} → Step graph a b → Reaches graph a b
  more : {b c : String} → Reaches graph a b → Step graph b c → Reaches graph a c

pub elem-cons : (k j : String) (xs : List String) → elem k xs ≡ true → elem k (j ∷ xs) ≡ true
unfolding elem
elem-cons k j xs h = ground (arith, h)

pub elem-head : (k : String) (xs : List String) → elem k (k ∷ xs) ≡ true
unfolding elem
elem-head k xs = ground (arith, beq_refl k)

All-elem : (P : String → Type 0) (k : String) (xs : List String) → All P xs → elem k xs ≡ true → P k
unfolding elem
All-elem P k [] h e = absurd (ground (arith, e))
All-elem P k (x ∷ xs) h e = elim (Bool-cases (x == k)) [
  | inl same ↦ subst P ((eq_iff x k).0 same) h.0
  | inr other ↦ All-elem P k xs h.1 (ground (arith, e, other))
]

without-absent :
    (k : String) (xs : List String) → elem k xs ≡ false → filterb (λ v. not (v == k)) xs ≡ xs
unfolding filterb elem
without-absent k [] h = refl
without-absent k (x ∷ xs) h = ground (arith, h, without-absent k xs)

without-head :
    (k : String) (xs : List String) → elem k xs ≡ false → filterb (λ v. not (v == k)) (k ∷ xs) ≡ xs
unfolding filterb
without-head k xs h = ground (arith, beq_refl k, without-absent k xs h)

-- how many keys are not being visited
abbrev pub room : List String → List String → ℕ
room ks vs = length (filterb (λ k. not (elem k vs)) ks)

room-le : (n : String) (ks vs : List String) → room ks (n ∷ vs) ≤ room ks vs
unfolding filterb elem
room-le n [] vs = omega arith
room-le n (k ∷ ks) vs = ground (arith, room-le n ks vs)

room-lt :
    (n : String) (ks vs : List String)
    → elem n ks ≡ true
    → elem n vs ≡ false
    → room ks (n ∷ vs) < room ks vs
unfolding filterb elem
room-lt n [] vs e h = absurd (ground (arith, e))
room-lt n (k ∷ ks) vs e h = elim (Bool-cases (k == n)) [
  | inl same ↦
      let there : elem k vs ≡ false =
        subst (λ j. elem j vs ≡ false) (sym ((eq_iff k n).0 same)) h in
      let back : (n == k) ≡ true = (eq_iff n k).1 (sym ((eq_iff k n).0 same)) in
      ground (arith, there, back, room-le n ks vs)
  | inr other ↦ ground (arith, room-lt n ks vs (ground (arith, e, other)) h)
]

module _ (graph : Graph) where
  -- each finished key comes after those of its dependencies that are keys
  abbrev pub Finished : List String → Type 0
  Finished [] = Unit
  Finished (v ∷ vs) =
      All (λ d. elem d (keys graph) ≡ true → elem d vs ≡ true) (dependencies graph v) × Finished vs

  abbrev pub Includes : List String → List String → Type 0
  Includes xs ys = (k : String) → elem k xs ≡ true → elem k ys ≡ true

  abbrev pub Cycle : Type 0
  Cycle = (k : String) × Reaches graph k k

  -- the marks of a search that went well, from others
  abbrev pub Advanced : Marks → Marks → Type 0
  Advanced s t = (t.visiting ≡ s.visiting) × Finished t.visited × Includes s.visited t.visited

  -- what a walk finds: its marks are such, or there is a cycle; and the fuel is enough
  abbrev pub Finds : (Marks → Type 0) → Walk → Type 0
  Finds P (fine t) = P t
  Finds P cyclic = Cycle
  Finds P exhausted = ⊥

  map-Finds :
      (P Q : Marks → Type 0) → ((t : Marks) → P t → Q t) → (w : Walk) → Finds P w → Finds Q w
  map-Finds P Q to (fine t) h = to t h
  map-Finds P Q to cyclic h = h
  map-Finds P Q to exhausted h = h

  then-Finds :
      (P Q : Marks → Type 0) (w : Walk) (k : Marks → Walk)
      → Finds P w
      → ((t : Marks) → P t → Finds Q (k t))
      → Finds Q (then_walk w k)
  then-Finds P Q (fine t) k h each = each t h
  then-Finds P Q cyclic k h each = h
  then-Finds P Q exhausted k h each = absurd h

  -- the keys that are being visited lead to this one
  abbrev pub Leads : String → Marks → Type 0
  Leads n s = All (λ v. Reaches graph v n) s.visiting

  abbrev pub Visits : (String → Marks → Walk) → Marks → Type 0
  Visits visit s =
      (d : String) (t : Marks)
      → elem d (keys graph) ≡ true
      → Leads d t
      → (t.visiting ≡ s.visiting)
      → Finished t.visited
      → Finds (λ u. Advanced t u × (elem d u.visited ≡ true)) (visit d t)

  Leads-step :
      (n d : String) (vs : List String)
      → All (λ v. Reaches graph v n) vs
      → Step graph n d
      → All (λ v. Reaches graph v d) vs
  Leads-step n d [] h e = tt
  Leads-step n d (v ∷ vs) h e = (more h.0 e, Leads-step n d vs h.1 e)

  if-Finds :
      (P : Marks → Type 0) (b : Bool) (v w : Walk)
      → (b ≡ true → Finds P v)
      → (b ≡ false → Finds P w)
      → Finds P (if b then v else w)
  if-Finds P true v w hv hw = hv refl
  if-Finds P false v w hv hw = hw refl

  Includes-All :
      (xs ys ds : List String)
      → Includes xs ys
      → All (λ d. elem d (keys graph) ≡ true → elem d xs ≡ true) ds
      → All (λ d. elem d (keys graph) ≡ true → elem d ys ≡ true) ds
  Includes-All xs ys [] h a = tt
  Includes-All xs ys (d ∷ ds) h a = (λ e. h d (a.0 e), Includes-All xs ys ds h a.1)

  visit_each-Finds :
      (visit : String → Marks → Walk) (n : String) (vs ds : List String) (s : Marks)
      → Visits visit s
      → (s.visiting ≡ n ∷ vs)
      → All (λ v. Reaches graph v n) vs
      → All (λ d. elem d (dependencies graph n) ≡ true) ds
      → Finished s.visited
      → Finds
          (λ t. Advanced s t × All (λ d. elem d (keys graph) ≡ true → elem d t.visited ≡ true) ds)
          (visit_each graph visit ds s)
  unfolding visit_each
  visit_each-Finds visit n vs [] s visits top leads deps fin = ((refl, fin, λ k e. e), tt)
  visit_each-Finds visit n vs (d ∷ ds) s visits top leads deps fin =
      then-Finds (λ t. Advanced s t × (elem d (keys graph) ≡ true → elem d t.visited ≡ true)) _
        (if elem d (keys graph) then visit d s else fine s) (visit_each graph visit ds)
        (if-Finds _ (elem d (keys graph)) (visit d s) (fine s)
          (λ key.
            map-Finds _ _ (λ u h. (h.0, λ k. h.1)) (visit d s)
              (visits d s key
                (subst (All (λ v. Reaches graph v d)) (sym top)
                  (one (key, deps.0), Leads-step n d vs leads (key, deps.0)))
                refl fin))
          (λ no. ((refl, fin, λ k e. e), λ key. absurd (ground (arith, key, no)))))
        λ t (adv, there).
          map-Finds _ _
            (λ u (later, all). (
              (later.0 ∙ adv.0, later.1, λ k e. later.2 k (adv.2 k e)),
              (λ key. later.2 d (there key), all),
            ))
            (visit_each graph visit ds t)
            (visit_each-Finds visit n vs ds t
              (λ j u key lead same. visits j u key lead (same ∙ adv.0)) (adv.0 ∙ top) leads deps.1
              adv.1)

  -- With more fuel than keys that are not being visited, a visit ends: it marks the key, with its
  -- dependencies before it, or there is a cycle.
  pub visit-Finds :
      (fuel : ℕ) (n : String) (s : Marks)
      → room (keys graph) s.visiting < fuel
      → elem n (keys graph) ≡ true
      → Leads n s
      → Finished s.visited
      → Finds (λ t. Advanced s t × (elem n t.visited ≡ true)) (visit graph fuel n s)
  unfolding visit
  visit-Finds zero n s enough key leads fin = absurd (omega (arith, enough))
  visit-Finds (suc fuel) n s enough key leads fin =
      if-Finds (λ t. Advanced s t × (elem n t.visited ≡ true)) (elem n s.visiting) cyclic _
        (λ inside. (n, All-elem (λ v. Reaches graph v n) n s.visiting leads inside))
        λ outside.
          if-Finds (λ t. Advanced s t × (elem n t.visited ≡ true)) (elem n s.visited) (fine s) _
            (λ done. ((refl, fin, λ k e. e), done))
            λ fresh.
              then-Finds
                (λ t.
                  Advanced (entered n s) t
                  × All (λ d. elem d (keys graph) ≡ true → elem d t.visited ≡ true)
                      (dependencies graph n))
                (λ t. Advanced s t × (elem n t.visited ≡ true))
                (visit_each graph (visit graph fuel) (dependencies graph n) (entered n s)) (leave n)
                (visit_each-Finds (visit graph fuel) n s.visiting (dependencies graph n)
                  (entered n s)
                  (λ d t dkey dleads same dfin.
                    visit-Finds fuel d t
                      (subst (λ vs. room (keys graph) vs < fuel) (sym same)
                        (omega (arith, enough, room-lt n (keys graph) s.visiting key outside)))
                      dkey dleads dfin)
                  refl leads (own (dependencies graph n) (λ k e. e)) fin)
                λ t (adv, deps). (
                  (
                    ap (filterb (λ v. not (v == n))) adv.0 ∙ without-head n s.visiting outside,
                    (deps, adv.1),
                    λ k e. elem-cons k n t.visited (adv.2 k e),
                  ),
                  elem-head n t.visited,
                )
    where
      entered : String → Marks → Marks
      entered id m = record m { visiting = id ∷ m.visiting }

      own :
          (ds : List String)
          → Includes ds (dependencies graph n)
          → All (λ d. elem d (dependencies graph n) ≡ true) ds
      own [] h = tt
      own (d ∷ ds) h = (h d (elem-head d ds), own ds λ k e. h k (elem-cons k d ds e))
