-- ===== src/Assignments.antt =====
-- internal/database/database.go: pending node assignments and saved results, each written at most
-- once per key. The JSON text of a payload is the payload itself; a row holds what the queries read.
pub mod Unique
use nitejaguar.Base.{
  ℕ, Bool, true, false, ◌&&◌, Option, none, some, List, [], ◌∷◌, ◌++◌, String, str_eq,
  if◌then◌else◌,
}
use nitejaguar.Result.{Result, ok, err}
use nitejaguar.ResultData.{ResultData}
use nitejaguar.Tenants.{normalize_tenant}
use nitejaguar.Value.{Value}

pub data Progress : Type 0 where
  pending finished : Progress

-- type NodeAssignment
pub record Assignment : Type 0 where
  pub id : String
  pub tenant_id : String
  pub workflow_id : String
  pub execution_id : String
  pub node_id : String
  pub parent_action_id : String
  pub payload : Value
  pub status : Progress

pub record Key : Type 0 where
  pub workflow_id : String
  pub execution_id : String
  pub node_id : String

-- the predicates of both queries
unfoldable pub is_for : Key → Assignment → Bool
is_for k a =
    str_eq a.workflow_id k.workflow_id
    && str_eq a.execution_id k.execution_id
    && str_eq a.node_id k.node_id

-- NodeAssignment.Query().Where(...)
unfoldable pub matching : Key → List Assignment → List Assignment
unfolding is_for
matching k [] = []
matching k (a ∷ rest) = if is_for k a then a ∷ matching k rest else matching k rest

pub data StoreError : Type 0 where
  keys_required not_singular result_id_required : StoreError

-- what Only gives for the rows that match
by_count : {A : Type 0} → List Assignment → A → (Assignment → A) → A → A
by_count [] no_row one_row more = no_row
by_count (a ∷ []) no_row one_row more = one_row a
by_count (a ∷ b ∷ rest) no_row one_row more = more

-- func EnqueueNodeAssignment; `id` is the fresh id of a row
unfoldable pub enqueue_node_assignment :
    String
    → String
    → Key
    → String
    → Value
    → List Assignment
    → Result StoreError Assignment × List Assignment
unfolding matching by_count normalize_tenant
enqueue_node_assignment id tenant k parent payload rows =
    let row : Assignment = record {
      id = id;
      tenant_id = normalize_tenant tenant;
      workflow_id = k.workflow_id;
      execution_id = k.execution_id;
      node_id = k.node_id;
      parent_action_id = parent;
      payload = payload;
      status = pending;
    } in
    if str_eq k.workflow_id ""
    then (err keys_required, rows)
    else if str_eq k.execution_id ""
    then (err keys_required, rows)
    else if str_eq k.node_id ""
    then (err keys_required, rows)
    else by_count (matching k rows) (ok row, rows ++ (row ∷ [])) (λ a. (ok a, rows))
        (err not_singular, rows)

-- the rows that ListPendingAssignments selects, oldest first
unfoldable pub list_pending_assignments : List Assignment → List Assignment
list_pending_assignments [] = []
list_pending_assignments (a ∷ rest) = elim (a.status) [
  | pending ↦ a ∷ list_pending_assignments rest
  | finished ↦ list_pending_assignments rest
]

-- UpdateOneID(row.ID).SetStatus("done"), on the one row of the key
unfoldable pub finish_rows : Key → List Assignment → List Assignment
unfolding is_for
finish_rows k [] = []
finish_rows k (a ∷ rest) =
    (if is_for k a then record a { status = finished } else a) ∷ finish_rows k rest

-- func CompleteNodeAssignment. Writing "done" on a row that is done changes nothing, so the early
-- return for it is the same write.
unfoldable pub complete_node_assignment :
    Key → List Assignment → Result StoreError Unit × List Assignment
unfolding matching by_count finish_rows
complete_node_assignment k rows =
    by_count (matching k rows) (ok tt, rows) (λ _. (ok tt, finish_rows k rows))
      (err not_singular, rows)

-- WorkflowResult.Get
unfoldable pub find_result : String → List ResultData → Option ResultData
find_result id [] = none
find_result id (r ∷ rs) = if str_eq r.result_id id then some r else find_result id rs

-- func SaveResult
unfoldable pub save_result :
    ResultData → List ResultData → Result StoreError ResultData × List ResultData
unfolding find_result normalize_tenant
save_result r rs =
    let row = record r { tenant_id = normalize_tenant r.tenant_id } in
    if str_eq r.result_id ""
    then (err result_id_required, rs)
    else elim (find_result r.result_id rs) [
      | some old ↦ (ok old, rs)
      | none ↦ (ok row, rs ++ (row ∷ []))
    ]
