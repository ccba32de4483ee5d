-- ===== src/Ingest.antt =====
-- internal/workflow/workflow.go: IngestResult, which takes a result that a client reports, stores it,
-- routes it, and hands each next node to its owner. The database is present and its writes, like
-- the result's file, succeed unless the code refuses them; ids and the time are handed in.
pub mod Call
pub mod Rows
pub mod Handover
pub mod Handed
use nitejaguar.Base.{
  ℕ, Bool, true, false, not, ◌&&◌, ◌||◌, Option, none, some, List, [], ◌∷◌, ◌++◌, String, str_eq,
  codes, trim_space, ◌==◌, if◌then◌else◌,
}
use nitejaguar.Assignments.{
  Assignment, Key, enqueue_node_assignment, complete_node_assignment, save_result,
}
use nitejaguar.Condition.{ConditionError, Outside}
use nitejaguar.Merge.{merge_payloads}
use nitejaguar.Registry.{Client, find_client}
use nitejaguar.Result.{Result, ok, err}
use nitejaguar.ResultData.{ResultData}
use nitejaguar.Tenants.{normalize_tenant}
use nitejaguar.Value.{Value, Fields}
use nitejaguar.Workflow.{
  Node, Workflow, Decision, Dispatch, find_node, evaluate_routing, dispatch_nexts,
}

-- a row of the workflows' table; a definition that does not unmarshal is `none`
pub record Row : Type 0 where
  pub id : String
  pub tenant_id : String
  pub definition : Option Workflow

-- type CredentialBinding
pub record Binding : Type 0 where
  pub ref : String
  pub kind : String
  pub secret : String
  pub failure : String

-- a call of ActionManager.ExecuteAction, with the credential behind the result in its inputs
pub record Execution : Type 0 where
  pub node_id : String
  pub execution_id : String
  pub input : ResultData
  pub binding : Option Binding

-- one entry of execHistory; a later one for the same node stands before an earlier one
pub record Memory : Type 0 where
  pub execution_id : String
  pub node_id : String
  pub payload : Value

-- LogAudit's row for "assignment.enqueue"
pub record Enqueued : Type 0 where
  pub tenant_id : String
  pub actor : String
  pub target : String
  pub execution_id : String
  pub workflow_id : String

-- type workflowManager, with the tables that it reads and writes
pub record Manager : Type 0 where
  pub executor_id : String
  pub enable_actions : Bool
  pub workflows : List (String × Workflow)
  pub actions_to_workflow : List (String × String)
  pub rows : List Row
  pub clients : List Client
  pub assignments : List Assignment
  pub results : List ResultData
  pub history : List Memory
  pub executions : List Execution
  pub audit : List Enqueued

-- what a call mints: ids for the result, the execution and each assignment, and the time
pub record Fresh : Type 0 where
  pub result_id : String
  pub execution_id : String
  pub assignment_id : String → String
  pub now : ℕ

pub data IngestError : Type 0 where
  action_id_required unknown_action : IngestError

pub record Resolved : Type 0 where
  pub node : Node
  pub definition : Workflow
  pub workflow_id : String
  pub tenant_id : String

or_else : String → String → String
or_else s t = if str_eq s "" then t else s

-- wm.Actions2Workflow[id]
unfoldable pub index_of : String → List (String × String) → String
index_of id [] = ""
index_of id ((k, w) ∷ ws) = if str_eq k id then w else index_of id ws

-- wm.Workflows[id]
unfoldable pub find_workflow : String → List (String × Workflow) → Option Workflow
find_workflow id [] = none
find_workflow id ((k, w) ∷ ws) = if str_eq k id then some w else find_workflow id ws

in_definition : String → String → Option Workflow → Option Resolved
in_definition action id none = none
in_definition action id (some w) = elim (find_node action w.nodes) [
  | none ↦ none
  | some n ↦ some (record { node = n; definition = w; workflow_id = id; tenant_id = w.tenant_id })
]

-- the scan of the definitions in memory
in_memory : String → List (String × Workflow) → Option Resolved
unfolding in_definition
in_memory action [] = none
in_memory action ((id, w) ∷ ws) = elim (in_definition action id (some w)) [
  | some r ↦ some r
  | none ↦ in_memory action ws
]

-- the scan of the database's rows
in_rows : String → List Row → Option Resolved
unfolding or_else in_definition
in_rows action [] = none
in_rows action (row ∷ rows) = elim (in_definition action row.id row.definition) [
  | some r ↦ some (record r {
    workflow_id = or_else r.definition.id row.id;
    tenant_id = or_else r.definition.tenant_id row.tenant_id;
  })
  | none ↦ in_rows action rows
]

-- the node of a result: by the workflow that it names or that the index gives, then by the scans
unfoldable pub resolve_node : String → String → Manager → Option Resolved
unfolding in_definition in_memory in_rows or_else
resolve_node workflow_id action m =
    let id = or_else workflow_id (index_of action m.actions_to_workflow) in
    let named =
      if str_eq id "" then none else in_definition action id (find_workflow id m.workflows) in
    elim named [
      | some r ↦ some r
      | none ↦ elim (in_memory action m.workflows) [
        | some r ↦ some r
        | none ↦ in_rows action m.rows
      ]
    ]

-- func clientTags, without its flag, which dispatchNexts passes over
unfoldable pub client_tags : List Client → String → List String
client_tags clients id =
    if str_eq id "" then [] else elim (find_client id clients) [ some c ↦ c.tags | none ↦ [] ]

-- byNode[dep]
unfoldable pub recall : String → String → List Memory → Option Value
recall execution node [] = none
recall execution node (h ∷ hs) =
    if str_eq h.execution_id execution && str_eq h.node_id node
    then some h.payload
    else recall execution node hs

-- func rememberResult
unfoldable pub remember_result : ResultData → List Memory → List Memory
remember_result r hs =
    if str_eq r.execution_id "" || str_eq r.action_id ""
    then hs
    else record { execution_id = r.execution_id; node_id = r.action_id; payload = r.payload } ∷ hs

-- the loops of applyMergeInput
unfoldable pub merge_dependencies :
    (Value → Option Fields) → String → List String → List Memory → Value → Value
merge_dependencies as_string_map execution [] hs merged = merged
merge_dependencies as_string_map execution (dep ∷ deps) hs merged = elim (recall execution dep hs) [
  | none ↦ merge_dependencies as_string_map execution deps hs merged
  | some input ↦
      merge_dependencies as_string_map execution deps hs (merge_payloads as_string_map input merged)
]

-- func applyMergeInput
unfoldable pub apply_merge_input : (Value → Option Fields) → ResultData → Node → List Memory → Value
unfolding merge_dependencies
apply_merge_input as_string_map r n hs =
    if str_eq r.execution_id ""
    then r.payload
    else merge_dependencies as_string_map r.execution_id n.dependencies hs r.payload

-- saveResult and rememberResult
unfoldable pub record_result : ResultData → Manager → Manager
record_result r m = record m {
  results = (save_result r m.results).1;
  history = remember_result r m.history;
}

-- func WithCredential, behind the lookup of withCredential
unfoldable pub bind_credential : String → Result String (String × String) → Option Binding
bind_credential ref (ok (secret, kind)) =
    if str_eq secret ""
    then none
    else some (record { ref = ref; kind = kind; secret = secret; failure = "" })
bind_credential ref (err e) =
    if str_eq e "" then none else some (record { ref = ref; kind = ""; secret = ""; failure = e })

unfoldable pub is_blank : String → Bool
is_blank s = elim (trim_space (codes s)) [ [] ↦ true | _ ∷ _ ↦ false ]

node_of : String → Option Workflow → Option (Node × String)
node_of id none = none
node_of id (some w) = elim (find_node id w.nodes) [ some n ↦ some (n, w.tenant_id) | none ↦ none ]

-- func withCredential: the binding that it adds to the inputs
unfoldable pub with_credential :
    (String → String → Result String (String × String)) → String → String → Manager → Option Binding
unfolding is_blank node_of
with_credential secret_of workflow_id node_id m =
    elim (node_of node_id (find_workflow workflow_id m.workflows)) [
      | none ↦ none
      | some (n, tenant) ↦
          if is_blank n.credential_ref
          then none
          else bind_credential n.credential_ref (secret_of tenant n.credential_ref)
    ]
