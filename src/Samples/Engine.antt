-- ===== src/Samples/Engine.antt =====
-- The engine's properties at a workflow of three nodes: the first leads to one that is another
-- client's and to one that any client may run.
use nitejaguar.Base.{
  ℕ, ◌≤◌, leb, ltb, true, false, not, Option, none, some, List, [], ◌∷◌, String, str_eq, eq_iff,
  codes, length, Any, ◌≡◌, ◌≢◌, ◌↔◌, ◌⊎◌, inl, refl, subst, arith, if◌then◌else◌, ◌||◌,
}
use nitejaguar.Assignments.{matching}
use nitejaguar.Assignments.Unique.{IsUnique}
use nitejaguar.Condition.{ConditionError, Outside, evaluate}
use nitejaguar.Ingest.{Manager, Fresh, IngestError, resolve_node, find_workflow, record_result}
use nitejaguar.Ingest.Call.{key_of, ingest_result}
use nitejaguar.Ingest.Handed.{ingest_result-IsUnique, ingest_result-reaches, ingest_result-reserves}
use nitejaguar.Merge.{merge_payloads, overlay}
use nitejaguar.Merge.Deep.{HasKeys, HaveKeys, IsMerged, merge_payloads-IsMerged}
use nitejaguar.Result.{Result, ok, err}
use nitejaguar.ResultData.{ResultData}
use nitejaguar.Samples.{registry}
use nitejaguar.Value.{Value, null, boolean, Fields, end, field, object, get_field, put_field}
use nitejaguar.Workflow.{
  Entry, Node, Workflow, dispatch_nexts, evaluate_routing, is_owned, node_assigned_to, find_node,
}
use nitejaguar.Workflow.Owners.{keep, dispatch_nexts-keep}
use nitejaguar.Workflow.Routing.{Leads, evaluate_routing-nexts}
use nitejaguar.Workflow.Target.{In, IsTarget, node_assigned_to_iff}

abbrev pub outside : Outside
outside = record {
  deep_equal = λ a b. true;
  float_of = λ z. 0;
  float_lt = λ a b. ltb a b;
  float_le = λ a b. leb a b;
  match_regex = λ p t. none;
  match_path = λ p t. none;
}

abbrev pub node_for : String → String → Option (List (String × Entry)) → Node
node_for id client entries = record {
  id = id;
  name = id;
  action_type = "action";
  action_name = "email";
  arguments = end;
  conditions = entries;
  dependencies = [];
  client = client;
  client_tags = [];
  credential_ref = "";
  merge_input = false;
}

abbrev pub entries : List (String × Entry)
entries = ("c", record { condition = none; nexts = "n2" ∷ "n3" ∷ [] }) ∷ []

abbrev pub workflow : Workflow
workflow = record {
  id = "w";
  name = "w";
  tenant_id = "t1";
  default_client = "";
  default_client_tags = [];
  nodes =
      ("n1", node_for "n1" "" (some entries))
      ∷ ("n2", node_for "n2" "b" none)
      ∷ ("n3", node_for "n3" "" none)
      ∷ [];
}

abbrev manager : Manager
manager = record {
  executor_id = "server";
  enable_actions = true;
  workflows = ("w", workflow) ∷ [];
  actions_to_workflow = [];
  rows = [];
  clients = registry.clients;
  assignments = [];
  results = [];
  history = [];
  executions = [];
  audit = [];
}

abbrev fresh : Fresh
fresh = record { result_id = "r"; execution_id = "x"; assignment_id = λ n. n; now = 1 }

abbrev reported : ResultData
reported = record {
  result_id = "r1";
  workflow_id = "w";
  execution_id = "e";
  action_id = "n1";
  action_type = "action";
  action_name = "email";
  executor_id = "a";
  tenant_id = "t1";
  created_at = 7;
  payload = null;
  condition_results = [];
  nexts = [];
  condition_error = none;
  attempt = 1;
  retrying = false;
}

-- the result as it is stored and answered
abbrev routed_result : ResultData
routed_result = record reported { condition_results = ("c", true) ∷ []; nexts = "n2" ∷ "n3" ∷ [] }

abbrev pub as_fields : Value → Option Fields
as_fields v = none

abbrev no_secret : String → String → Result String (String × String)
no_secret tenant ref = err "no store"

abbrev message : ConditionError → List ℕ
message e = codes "error"

abbrev ingested : Result IngestError (ResultData × List String) × Manager
ingested = ingest_result outside as_fields no_secret message fresh reported manager

ingested-value : ingested.0 ≡ ok (routed_result, "n3" ∷ [])
unfolding ingest_result resolve_node find_workflow find_node evaluate_routing dispatch_nexts
    evaluate record_result
ingested-value = refl

distinct : (s t : String) → str_eq s t ≡ false → s ≢ t
distinct s t e p = absurd (cc (e, (eq_iff s t).1 p))

no_rows : IsUnique []
unfolding matching
no_rows k = omega arith

ingest_result-IsUnique_example : IsUnique ingested.1.assignments
ingest_result-IsUnique_example =
    ingest_result-IsUnique outside as_fields no_secret message fresh reported manager no_rows

ingest_result-reaches_example :
    In "n2" ("n3" ∷ [])
    ⊎ (1
        ≤ length (
            matching
              (key_of outside as_fields no_secret "w" routed_result "n2")
              ingested.1.assignments))
ingest_result-reaches_example =
    ingest_result-reaches outside as_fields no_secret message fresh reported routed_result manager
      ("n3" ∷ []) "n2" ingested-value refl (distinct "a" "" refl) (distinct "a" "server" refl)
      (inl refl)
      (record {
        workflow = distinct "w" "" refl;
        execution = distinct "e" "" refl;
        node = distinct "n2" "" refl;
      })

ingest_result-reserves_example :
    length
      (matching (key_of outside as_fields no_secret "w" routed_result "n3") ingested.1.assignments)
    ≡ length
        (matching (key_of outside as_fields no_secret "w" routed_result "n3") manager.assignments)
ingest_result-reserves_example =
    ingest_result-reserves outside as_fields no_secret message fresh reported routed_result manager
      ("n3" ∷ []) "n3" ingested-value (inl refl)

abbrev no_tags : String → List String
no_tags c = []

dispatch_nexts-keep_example : dispatch_nexts no_tags "server" workflow ("n2" ∷ "n3" ∷ []) "a" ≡ (
    if str_eq "a" "" || str_eq "a" "server"
    then record { client_owned = []; server_owned = "n2" ∷ "n3" ∷ []; routed = [] }
    else record {
      client_owned = keep (is_owned workflow "a" []) ("n2" ∷ "n3" ∷ []);
      server_owned = [];
      routed = keep (λ id. not (is_owned workflow "a" [] id)) ("n2" ∷ "n3" ∷ []);
    })
dispatch_nexts-keep_example = dispatch_nexts-keep no_tags "server" workflow ("n2" ∷ "n3" ∷ []) "a"

abbrev second : Node
second = node_for "n2" "b" none

node_assigned_to_iff_example : (node_assigned_to workflow second "a" [] ≡ true) ↔ (
    (((second.client ≢ "") ⊎ (second.client_tags ≢ []))
      × IsTarget second.client second.client_tags "a" [])
    ⊎ (((second.client ≡ "") × (second.client_tags ≡ [])) × IsTarget "" [] "a" []))
node_assigned_to_iff_example = node_assigned_to_iff workflow second "a" []

evaluate_routing-nexts_example :
    In "n2" (evaluate_routing outside (node_for "n1" "" (some entries)) null).nexts
    ↔ Any (Leads outside end null "n2") entries
evaluate_routing-nexts_example =
    evaluate_routing-nexts outside end null "n2" (node_for "n1" "" (some entries)) entries refl refl

-- an object over another one, which both hold an object under one key
abbrev base : Fields
base =
    field (codes "a") (object (field (codes "x") (boolean true) end)) (field (codes "b") null end)

abbrev override : Fields
override = field (codes "a") (object (field (codes "y") (boolean false) end)) end

abbrev merged : Fields
merged =
    field (codes "a")
      (object (field (codes "x") (boolean true) (field (codes "y") (boolean false) end)))
      (field (codes "b") null end)

abbrev fields_of : Value → Option Fields
fields_of (object fs) = some fs
fields_of _ = none

override-HasKeys : HasKeys (object override)
unfolding HasKeys HaveKeys get_field
override-HasKeys = ((refl, tt), (((refl, tt), (tt, tt)), tt))

kept-HasKeys : (fs : Fields) → fields_of (object override) ≡ some fs → HasKeys (object fs)
kept-HasKeys fs e =
    let same : override ≡ fs = cc e in subst (λ gs. HasKeys (object gs)) same override-HasKeys

merge_payloads-IsMerged_example : IsMerged fields_of (object base) (object override) (object merged)
unfolding merge_payloads put_field get_field overlay
merge_payloads-IsMerged_example =
    merge_payloads-IsMerged fields_of (object base) (object override) kept-HasKeys
