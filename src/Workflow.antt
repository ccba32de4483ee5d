-- ===== src/Workflow.antt =====
-- internal/workflow/workflow.go: workflows and their nodes, which client a node is for, the routing
-- of a node's result, and the split of the next nodes between their owners. Go maps are association
-- lists, in the order in which `range` visits them.
pub mod Routing
pub mod Owners
pub mod Target
pub mod Clone
use nitejaguar.Base.{
  ℤ, pos, Bool, true, false, not, ◌&&◌, ◌||◌, Option, none, some, List, [], ◌∷◌, ◌++◌, String,
  str_eq, contains, if◌then◌else◌,
}
use nitejaguar.Condition.{Condition, ConditionError, Outside, evaluate}
use nitejaguar.Result.{Result, ok, err}
use nitejaguar.Value.{Value, Fields}

-- type conditionEntry; the dictionary of a node maps ids to entries
pub record Entry : Type 0 where
  pub condition : Option Condition
  pub nexts : List String

-- type Node, with `none` for a nil condition dictionary
pub record Node : Type 0 where
  pub id : String
  pub name : String
  pub action_type : String
  pub action_name : String
  pub arguments : Fields
  pub conditions : Option (List (String × Entry))
  pub dependencies : List String
  pub client : String
  pub client_tags : List String
  pub credential_ref : String
  pub merge_input : Bool

-- type Workflow
pub record Workflow : Type 0 where
  pub id : String
  pub name : String
  pub tenant_id : String
  pub default_client : String
  pub default_client_tags : List String
  pub nodes : List (String × Node)

-- nodes[id], with the map's "is present"
unfoldable pub find_node : String → List (String × Node) → Option Node
find_node id [] = none
find_node id ((k, n) ∷ ns) = if str_eq k id then some n else find_node id ns

no_tags : List String → Bool
no_tags [] = true
no_tags (t ∷ ts) = false

-- the last loop of AssignedTo
unfoldable pub some_tag_in : List String → List String → Bool
some_tag_in [] tags = false
some_tag_in (t ∷ ts) tags = contains tags t || some_tag_in ts tags

-- func AssignedTo, on a node's client and tags
unfoldable pub assigned_to : String → List String → String → List String → Bool
unfolding no_tags some_tag_in
assigned_to client client_tags client_id tags =
    if str_eq client "" && no_tags client_tags
    then true
    else if not (str_eq client "") && str_eq client client_id
    then true
    else if not (no_tags client_tags) && not (no_tags tags)
    then some_tag_in client_tags tags
    else false

-- func EffectiveTarget
unfoldable pub effective_target : Workflow → Node → String × List String
unfolding no_tags
effective_target w n =
    if not (str_eq n.client "") || not (no_tags n.client_tags)
    then (n.client, n.client_tags)
    else (w.default_client, w.default_client_tags)

-- func NodeAssignedTo
unfoldable pub node_assigned_to : Workflow → Node → String → List String → Bool
unfolding effective_target assigned_to
node_assigned_to w n client_id tags =
    let target = effective_target w n in assigned_to target.0 target.1 client_id tags

-- type RoutingDecision; no error is `none` for ""
pub record Decision : Type 0 where
  pub nexts : List String
  pub results : List (String × Bool)
  pub condition_error : Option ConditionError

first_error : Option ConditionError → ConditionError → Option ConditionError
first_error none e = some e
first_error (some d) e = some d

-- one round of EvaluateRouting, behind the evaluation
unfoldable pub add_outcome : String → Entry → Result ConditionError Bool → Decision → Decision
unfolding first_error
add_outcome id e (ok true) d = record d {
  nexts = d.nexts ++ e.nexts;
  results = d.results ++ ((id, true) ∷ []);
}
add_outcome id e (ok false) d = record d { results = d.results ++ ((id, false) ∷ []) }
add_outcome id e (err x) d = record d {
  results = d.results ++ ((id, false) ∷ []);
  condition_error = first_error d.condition_error x;
}

module _ (outside : Outside) where
  -- the loop of EvaluateRouting
  unfoldable pub route_entries : Fields → Value → List (String × Entry) → Decision → Decision
  unfolding add_outcome
  route_entries arguments payload [] d = d
  route_entries arguments payload ((id, e) ∷ es) d =
      route_entries arguments payload es
        (add_outcome id e (evaluate outside e.condition arguments payload) d)

  -- func EvaluateRouting
  unfoldable pub evaluate_routing : Node → Value → Decision
  unfolding route_entries
  evaluate_routing n payload = elim (n.conditions) [
    | none ↦ record { nexts = []; results = []; condition_error = none }
    | some es ↦
        route_entries n.arguments payload es
          (record { nexts = []; results = []; condition_error = none })
  ]

-- func GetAllNextNodes
unfoldable pub all_next_nodes : Option (List (String × Entry)) → List String
all_next_nodes none = []
all_next_nodes (some []) = []
all_next_nodes (some ((id, e) ∷ es)) = e.nexts ++ all_next_nodes (some es)

pub record Dispatch : Type 0 where
  pub client_owned : List String
  pub server_owned : List String
  pub routed : List String

-- whether the reporting client owns a next node
unfoldable pub is_owned : Workflow → String → List String → String → Bool
unfolding find_node node_assigned_to
is_owned w executor tags id = elim (find_node id w.nodes) [
  | none ↦ false
  | some n ↦ node_assigned_to w n executor tags
]

-- the loop of dispatchNexts
unfoldable pub dispatch_loop : Workflow → String → List String → List String → Dispatch → Dispatch
unfolding is_owned
dispatch_loop w executor tags [] d = d
dispatch_loop w executor tags (id ∷ ids) d = dispatch_loop w executor tags ids (
    if is_owned w executor tags id
    then record d { client_owned = d.client_owned ++ (id ∷ []) }
    else record d { routed = d.routed ++ (id ∷ []) })

-- func dispatchNexts: the executor's tags, the server's own executor id, the definition, the next
-- nodes, and the executor
unfoldable pub dispatch_nexts :
    (String → List String) → String → Workflow → List String → String → Dispatch
unfolding dispatch_loop
dispatch_nexts client_tags server w nexts executor =
    if str_eq executor "" || str_eq executor server
    then record { client_owned = []; server_owned = nexts; routed = [] }
    else dispatch_loop w executor (client_tags executor) nexts
        (record { client_owned = []; server_owned = []; routed = [] })
