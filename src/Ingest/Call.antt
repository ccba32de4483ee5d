-- ===== src/Ingest/Call.antt =====
-- internal/workflow/workflow.go: the steps of IngestResult, and the call.
use nitejaguar.Base.{
  ℕ, ◌&&◌, Option, none, some, List, [], ◌∷◌, ◌++◌, String, str_eq, ◌==◌, if◌then◌else◌,
}
use nitejaguar.Assignments.{Key, enqueue_node_assignment, complete_node_assignment}
use nitejaguar.Condition.{ConditionError, Outside}
use nitejaguar.Result.{Result, ok, err}
use nitejaguar.ResultData.{ResultData}
use nitejaguar.Tenants.{normalize_tenant}
use nitejaguar.Value.{Value, Fields}
use nitejaguar.Workflow.{Node, evaluate_routing, dispatch_nexts}
use nitejaguar.Ingest.{
  Execution, Enqueued, Manager, Fresh, IngestError, Resolved, or_else, resolve_node, client_tags,
  apply_merge_input, record_result, with_credential, action_id_required, unknown_action,
}

module _ (outside : Outside) (as_string_map : Value → Option Fields)
    (secret_of : String → String → Result String (String × String)) where
  -- the key of a next node's assignment
  abbrev pub key_of : String → ResultData → String → Key
  key_of workflow_id r next = record {
    workflow_id = workflow_id;
    execution_id = r.execution_id;
    node_id = next;
  }

  -- one round of the loop over the routed nodes
  unfoldable pub enqueue_next : Fresh → String → String → ResultData → String → Manager → Manager
  enqueue_next fresh tenant workflow_id r next m =
      let added =
        enqueue_node_assignment (fresh.assignment_id next) tenant (key_of workflow_id r next)
          r.action_id r.payload m.assignments in
      let entry : Enqueued = record {
        tenant_id = normalize_tenant tenant;
        actor = r.executor_id;
        target = next;
        execution_id = r.execution_id;
        workflow_id = workflow_id;
      } in
      record m {
        assignments = added.1;
        audit = elim added.0 [ ok _ ↦ m.audit ++ (entry ∷ []) | err _ ↦ m.audit ];
      }

  -- the loop over the routed nodes
  unfoldable pub enqueue_all :
      Fresh → String → String → ResultData → List String → Manager → Manager
  enqueue_all fresh tenant workflow_id r [] m = m
  enqueue_all fresh tenant workflow_id r (next ∷ nexts) m =
      enqueue_all fresh tenant workflow_id r nexts (enqueue_next fresh tenant workflow_id r next m)

  -- what stands under `if wm.db != nil && result.ExecutionID != ""`
  unfoldable pub persist_dispatch :
      Fresh → String → String → ResultData → List String → Manager → Manager
  unfolding enqueue_all
  persist_dispatch fresh tenant workflow_id r routed m =
      if str_eq r.execution_id ""
      then m
      else enqueue_all fresh tenant workflow_id r routed (record m {
        assignments = (complete_node_assignment (key_of workflow_id r r.action_id) m.assignments).1;
      })

  -- the loop over the server's own nodes
  unfoldable pub execute_all : String → ResultData → List String → Manager → Manager
  execute_all workflow_id r [] m = m
  execute_all workflow_id r (next ∷ nexts) m =
      let run : Execution = record {
        node_id = next;
        execution_id = r.execution_id;
        input = r;
        binding = with_credential secret_of workflow_id next m;
      } in
      execute_all workflow_id r nexts
        (if m.enable_actions then record m { executions = m.executions ++ (run ∷ []) } else m)

  -- the fields that IngestResult fills in before it looks for the node
  unfoldable pub fill_in : Fresh → Manager → ResultData → ResultData
  unfolding or_else
  fill_in fresh m r = record r {
    result_id = or_else r.result_id fresh.result_id;
    created_at = if r.created_at == 0 then fresh.now else r.created_at;
    executor_id = or_else r.executor_id m.executor_id;
  }

  -- the workflow, the execution of a trigger's result, and the payload with its dependencies
  unfoldable pub place : Fresh → Resolved → Manager → ResultData → ResultData
  place fresh found m r =
      let placed = record r {
        workflow_id = found.workflow_id;
        execution_id =
            if str_eq found.node.action_type "trigger" && str_eq r.execution_id ""
            then fresh.execution_id
            else r.execution_id;
      } in
      if found.node.merge_input
      then record placed { payload = apply_merge_input as_string_map placed found.node m.history }
      else placed

  -- result.ConditionResults, Nexts and ConditionError; `message` is the text of an error
  unfoldable pub decide : (ConditionError → List ℕ) → Node → ResultData → ResultData
  decide message n r =
      let d = evaluate_routing outside n r.payload in
      record r {
        condition_results = d.results;
        nexts = d.nexts;
        condition_error = elim (d.condition_error) [ none ↦ none | some e ↦ some (message e) ];
      }

  -- what follows the routing
  unfoldable pub hand_over : Fresh → Resolved → ResultData → Manager → List String × Manager
  unfolding or_else persist_dispatch execute_all
  hand_over fresh found r m =
      let owners =
        dispatch_nexts (client_tags m.clients) m.executor_id found.definition r.nexts
          r.executor_id in
      let tenant = or_else r.tenant_id found.tenant_id in
      (
        owners.client_owned,
        execute_all found.workflow_id r owners.server_owned
            (persist_dispatch fresh tenant found.workflow_id r owners.routed m),
      )

  unfoldable pub ingest_found :
      (ConditionError → List ℕ)
      → Fresh
      → Resolved
      → ResultData
      → Manager
      → Result IngestError (ResultData × List String) × Manager
  unfolding place decide hand_over
  ingest_found message fresh found r m =
      let placed = place fresh found m r in
      let decided = decide message found.node placed in
      let handed = hand_over fresh found decided (record_result decided m) in
      if placed.retrying
      then (ok (placed, []), record_result placed m)
      else (ok (decided, handed.0), handed.1)

  -- func IngestResult
  unfoldable pub ingest_result :
      (ConditionError → List ℕ)
      → Fresh
      → ResultData
      → Manager
      → Result IngestError (ResultData × List String) × Manager
  unfolding fill_in ingest_found
  ingest_result message fresh r m =
      let filled = fill_in fresh m r in
      if str_eq r.action_id ""
      then (err action_id_required, m)
      else elim (resolve_node filled.workflow_id filled.action_id m) [
        | none ↦ (err unknown_action, m)
        | some found ↦ ingest_found message fresh found filled m
      ]
