-- ===== src/Workflow/Clone/Copies.antt =====
-- The clone of a workflow (CloneWorkflowJSON, internal/workflow/workflow.go) routes as the workflow does.
use nitejaguar.Base.{
  Bool, true, false, none, some, List, [], ◌∷◌, ◌++◌, String, str_eq, str_eq_self, str_eq_ne,
  eq_iff, Option-cases, All, ◌≡◌, ◌≢◌, refl, sym, ap, ◌∙◌, arith, Bool-cases, inl, inr,
}
use nitejaguar.Condition.{Outside, ConditionError, evaluate}
use nitejaguar.Result.{Result, ok, err}
use nitejaguar.Value.{Value, Fields}
use nitejaguar.Workflow.Clone.{
  put_node, map_id, map_ids, map_entries, map_edges, map_nodes, new_id, id_map, clone_nodes,
  clone_workflow,
}
use nitejaguar.Workflow.{
  Entry, Node, Workflow, Decision, find_node, add_outcome, route_entries, evaluate_routing,
}

find-put_self :
    (k : String) (n : Node) (ns : List (String × Node)) → find_node k (put_node k n ns) ≡ some n
unfolding find_node put_node
find-put_self k n [] = rw (str_eq_self k) refl
find-put_self k n ((j, m) ∷ ns) = elim (Bool-cases (str_eq j k)) [
  | inl same ↦ rw (same, same) refl
  | inr other ↦ rw (other, other) (find-put_self k n ns)
]

find-put_other :
    (k j : String) (n : Node) (ns : List (String × Node))
    → j ≢ k
    → find_node k (put_node j n ns) ≡ find_node k ns
unfolding find_node put_node
find-put_other k j n [] h = rw (str_eq_ne j k h) refl
find-put_other k j n ((i, m) ∷ ns) h = elim (Bool-cases (str_eq i j)) [
  | inl same ↦
      let e : i ≡ j = ground (arith, eq_iff i j) in
      let other : str_eq i k ≡ false = rw e (str_eq_ne j k h) in rw (same, other) refl
  | inr kept ↦ elim (Bool-cases (str_eq i k)) [
    | inl found ↦ rw (kept, found) refl
    | inr other ↦ rw (kept, other) (find-put_other k j n ns h)
  ]
]

find-map_nodes :
    (ids : List (String × String)) (k : String) (n : Node) (ns : List (String × Node))
    → find_node k ns ≡ some n
    → find_node k (map_nodes ids ns) ≡ some (map_edges ids n)
unfolding find_node map_nodes
find-map_nodes ids k n [] h = absurd (cc h)
find-map_nodes ids k n ((j, m) ∷ ns) h = elim (Bool-cases (str_eq j k)) [
  | inl same ↦ let e : some m ≡ some n = rw same at h in let e' : m ≡ n = cc e in rw (same, e') refl
  | inr other ↦ rw other (find-map_nodes ids k n ns (rw other at h))
]

-- A decision whose next nodes are renamed.
abbrev pub renamed : List (String × String) → Decision → Decision
renamed ids d = record d { nexts = map_ids ids d.nexts }

map_ids-append :
    (ids : List (String × String)) (xs ys : List String)
    → map_ids ids (xs ++ ys) ≡ map_ids ids xs ++ map_ids ids ys
unfolding map_ids
map_ids-append ids [] ys = refl
map_ids-append ids (x ∷ xs) ys = ap (◌∷◌ (map_id ids x)) (map_ids-append ids xs ys)

add_outcome-renamed :
    (ids : List (String × String)) (id : String) (e : Entry) (r : Result ConditionError Bool)
    (d : Decision)
    → add_outcome id (record e { nexts = map_ids ids e.nexts }) r (renamed ids d)
      ≡ renamed ids (add_outcome id e r d)
unfolding add_outcome
add_outcome-renamed ids id e (ok true) d = rw (map_ids-append ids d.nexts e.nexts) refl
add_outcome-renamed ids id e (ok false) d = refl
add_outcome-renamed ids id e (err x) d = refl

module _ (outside : Outside) where
  route_entries-renamed :
      (ids : List (String × String)) (arguments : Fields) (payload : Value)
      (es : List (String × Entry)) (d : Decision)
      → route_entries outside arguments payload (map_entries ids es) (renamed ids d)
        ≡ renamed ids (route_entries outside arguments payload es d)
  unfolding route_entries map_entries
  route_entries-renamed ids arguments payload [] d = refl
  route_entries-renamed ids arguments payload ((id, e) ∷ es) d =
      ap (route_entries outside arguments payload (map_entries ids es))
        (add_outcome-renamed ids id e (evaluate outside e.condition arguments payload) d)
      ∙ route_entries-renamed ids arguments payload es
          (add_outcome id e (evaluate outside e.condition arguments payload) d)

  evaluate_routing-map_edges :
      (ids : List (String × String)) (n : Node) (payload : Value)
      → evaluate_routing outside (map_edges ids n) payload
        ≡ renamed ids (evaluate_routing outside n payload)
  unfolding evaluate_routing map_edges
  evaluate_routing-map_edges ids n payload = elim (Option-cases (n.conditions)) [
    | inl e ↦ rw (evaluate_routing, map_edges, e) refl
    | inr (es, e) ↦
        rw (evaluate_routing, map_edges, e)
          (route_entries-renamed ids n.arguments payload es
            (record { nexts = []; results = []; condition_error = none }))
  ]

-- No two nodes have one id.
abbrev pub AreDistinct : (String × Node → String) → List (String × Node) → Type 0
AreDistinct key [] = Unit
AreDistinct key (p ∷ ps) = All (λ q. key q ≢ key p) ps × AreDistinct key ps

module _ (fresh : String → String) where
  clone_nodes-keep :
      (k : String) (m : Node) (ns done : List (String × Node))
      → find_node k done ≡ some m
      → All (λ p. new_id fresh p ≢ k) ns
      → find_node k (clone_nodes fresh done ns) ≡ some m
  unfolding clone_nodes
  clone_nodes-keep k m [] done e h = e
  clone_nodes-keep k m ((id, n) ∷ ns) done e h =
      clone_nodes-keep k m ns
        (put_node (new_id fresh (id, n)) (record n { id = new_id fresh (id, n) }) done)
        (find-put_other k (new_id fresh (id, n)) _ done h.0 ∙ e) h.1

  clone_nodes-find :
      (id : String) (n : Node) (ns done : List (String × Node))
      → find_node id ns ≡ some n
      → AreDistinct (new_id fresh) ns
      → find_node (new_id fresh (id, n)) (clone_nodes fresh done ns)
        ≡ some (record n { id = new_id fresh (id, n) })
  unfolding clone_nodes find_node
  clone_nodes-find id n [] done e h = absurd (cc e)
  clone_nodes-find id n ((j, m) ∷ ns) done e h = elim (Bool-cases (str_eq j id)) [
    | inl same ↦
        let here : j ≡ id = ground (arith, eq_iff j id) in
        let it : some m ≡ some n = rw same at e in
        let it' : m ≡ n = cc it in
        rw (sym here, sym it')
          (clone_nodes-keep (new_id fresh (j, m)) (record m { id = new_id fresh (j, m) }) ns
            (put_node (new_id fresh (j, m)) (record m { id = new_id fresh (j, m) }) done)
            (find-put_self (new_id fresh (j, m)) _ done) h.0)
    | inr other ↦
        clone_nodes-find id n ns
          (put_node (new_id fresh (j, m)) (record m { id = new_id fresh (j, m) }) done)
          (rw other at e) h.1
  ]

  map_id-absent :
      (id : String) (ns : List (String × Node))
      → All (λ p. p.0 ≢ id) ns
      → map_id (id_map fresh ns) id ≡ id
  unfolding map_id id_map
  map_id-absent id [] h = refl
  map_id-absent id ((j, m) ∷ ns) h = elim (Bool-cases (str_eq (new_id fresh (j, m)) j)) [
    | inl kept ↦ rw kept (map_id-absent id ns h.1)
    | inr moved ↦ rw (moved, str_eq_ne j id h.0) (map_id-absent id ns h.1)
  ]

  map_id-new :
      (id : String) (n : Node) (ns : List (String × Node))
      → find_node id ns ≡ some n
      → AreDistinct (λ p. p.0) ns
      → map_id (id_map fresh ns) id ≡ new_id fresh (id, n)
  unfolding map_id id_map find_node
  map_id-new id n [] e h = absurd (cc e)
  map_id-new id n ((j, m) ∷ ns) e h = elim (Bool-cases (str_eq j id)) [
    | inl same ↦
        let here : j ≡ id = ground (arith, eq_iff j id) in
        let it : some m ≡ some n = rw same at e in
        let it' : m ≡ n = cc it in
        rw (sym here, sym it')
          (elim (Bool-cases (str_eq (new_id fresh (j, m)) j)) [
            | inl kept ↦
                let e' : new_id fresh (j, m) ≡ j = ground (arith, eq_iff (new_id fresh (j, m)) j) in
                rw kept (map_id-absent j ns h.0 ∙ sym e')
            | inr moved ↦ rw (moved, str_eq_self j) refl
          ])
    | inr other ↦ elim (Bool-cases (str_eq (new_id fresh (j, m)) j)) [
      | inl kept ↦ rw kept (map_id-new id n ns (rw other at e) h.1)
      | inr moved ↦ rw (moved, other) (map_id-new id n ns (rw other at e) h.1)
    ]
  ]

  -- What the clone has for a node: a node under the renamed id, with the same action and arguments,
  -- the renamed dependencies, and the same routing to renamed nodes.
  pub record HasCopy (outside : Outside) (w : Workflow) (clone : Workflow) (id : String) (n : Node)
      : Type 0 where
    pub copy : Node
    pub stored : find_node (map_id (id_map fresh w.nodes) id) clone.nodes ≡ some copy
    pub labelled : copy.id ≡ map_id (id_map fresh w.nodes) id
    pub same_type : copy.action_type ≡ n.action_type
    pub same_action : copy.action_name ≡ n.action_name
    pub same_arguments : copy.arguments ≡ n.arguments
    pub depends : copy.dependencies ≡ map_ids (id_map fresh w.nodes) n.dependencies
    pub routes :
        (payload : Value)
        → evaluate_routing outside copy payload
          ≡ renamed (id_map fresh w.nodes) (evaluate_routing outside n payload)

  -- Cloning a workflow gives each of its nodes a copy that is stored under the new id of the node,
  -- has its action and arguments, depends on the copies of its dependencies, and routes every
  -- payload to the copies of the nodes that the node routes it to, with the same outcomes of the
  -- conditions. This holds if the ids of the nodes are distinct, and the new ones are too.
  pub clone_workflow-HasCopy :
      (outside : Outside) (id : String) (w : Workflow) (k : String) (n : Node)
      → AreDistinct (λ p. p.0) w.nodes
      → AreDistinct (new_id fresh) w.nodes
      → find_node k w.nodes ≡ some n
      → HasCopy outside w (clone_workflow fresh id w) k n
  unfolding clone_workflow
  clone_workflow-HasCopy outside id w k n keys ids e =
      let at_new = map_id-new k n w.nodes e keys in
      record {
        copy = map_edges (id_map fresh w.nodes) (record n { id = new_id fresh (k, n) });
        stored =
            rw at_new
              (find-map_nodes (id_map fresh w.nodes) _ _ _ (clone_nodes-find k n w.nodes [] e ids));
        labelled = unfold map_edges in sym at_new;
        same_type = unfold map_edges in refl;
        same_action = unfold map_edges in refl;
        same_arguments = unfold map_edges in refl;
        depends = unfold map_edges in refl;
        routes = λ payload.
            unfold evaluate_routing in
            evaluate_routing-map_edges outside (id_map fresh w.nodes)
              (record n { id = new_id fresh (k, n) }) payload;
      }
