-- ===== src/Workflow/Routing.antt =====
-- EvaluateRouting (internal/workflow/workflow.go): the next nodes of a result.
use nitejaguar.Base.{
  true, false, none, some, List, [], ◌∷◌, ◌++◌, String, Any, ◌≡◌, ◌↔◌, ◌⊎◌, arith, inl, inr,
}
use nitejaguar.Condition.{Outside, evaluate}
use nitejaguar.Result.{ok, err, Result-cases}
use nitejaguar.Value.{Value, Fields}
use nitejaguar.Workflow.{Entry, Node, Decision, add_outcome, route_entries, evaluate_routing}
use nitejaguar.Workflow.Target.{In}

-- membership in two lists in a row
pub In-append : (x : String) (xs ys : List String) → In x (xs ++ ys) ↔ (In x xs ⊎ In x ys)
In-append x [] ys = ground arith
In-append x (z ∷ xs) ys = ground (arith, In-append x xs ys)

module _ (outside : Outside) (arguments : Fields) (payload : Value) where
  -- An entry whose condition holds lists `x` as a next node.
  abbrev pub Leads : String → String × Entry → Type 0
  Leads x (id, e) = (evaluate outside e.condition arguments payload ≡ ok true) × In x e.nexts

  route_entries-nexts :
      (x : String) (es : List (String × Entry)) (d : Decision)
      → In x (route_entries outside arguments payload es d).nexts
        ↔ (In x d.nexts ⊎ Any (Leads x) es)
  unfolding route_entries add_outcome
  route_entries-nexts x [] d = ground arith
  route_entries-nexts x ((id, e) ∷ es) d =
      elim (Result-cases (evaluate outside e.condition arguments payload)) [
        | inl (true, eq) ↦
            let step = route_entries-nexts x es (add_outcome id e (ok true) d) in
            rw eq (ground (arith, step, In-append x d.nexts e.nexts, eq))
        | inl (false, eq) ↦
            let step = route_entries-nexts x es (add_outcome id e (ok false) d) in
            rw eq (ground (arith, step, eq))
        | inr (y, eq) ↦
            let step = route_entries-nexts x es (add_outcome id e (err y) d) in
            rw eq (ground (arith, step, eq))
      ]

  -- A node with conditions routes to exactly the nodes that one of its entries lists whose condition
  -- evaluates to true without an error.
  pub evaluate_routing-nexts :
      (x : String) (n : Node) (es : List (String × Entry))
      → n.conditions ≡ some es
      → n.arguments ≡ arguments
      → In x (evaluate_routing outside n payload).nexts ↔ Any (Leads x) es
  unfolding evaluate_routing
  evaluate_routing-nexts x n es e same =
      let all =
        route_entries-nexts x es (record { nexts = []; results = []; condition_error = none }) in
      rw (e, same) (ground (arith, all))
