-- ===== src/Runner/Sync.antt =====
-- syncAssignments, buildManagedWorkflow and registerWorkflowIndices (internal/client/client.go): a
-- client installs the workflows that the server lists. Whether an action or trigger can be built from
-- a node is a parameter. A Go map is walked in the order of its list; the two levels of the retired
-- workflows are one list of rows.
use nitejaguar.Base.{
  Bool, not, ◌&&◌, Option, none, some, List, [], ◌∷◌, ◌++◌, map, String, str_eq, if◌then◌else◌,
}
use nitejaguar.Runner.{Runner, NodeConfig, transfer_target_from_args}
use nitejaguar.Workflow.{Node}

-- type Workflow of the client, as far as the runner reads it
pub record ClientWorkflow : Type 0 where
  pub id : String
  pub revision : String
  pub nodes : List (String × Node)

-- type managedWorkflow
pub record Managed : Type 0 where
  pub workflow_id : String
  pub revision : String
  pub actions : List String
  pub triggers : List String
  pub meta : List (String × NodeConfig)

-- a row of r.retired
pub record Retired : Type 0 where
  pub workflow_id : String
  pub revision : String
  pub managed : Managed

-- the runner with its workflows, and the calls of Stop on triggers, each with its workflow
pub record Installed : Type 0 where
  pub runner : Runner
  pub active : List (String × Managed)
  pub retired : List Retired
  pub stopped : List (String × String)

module _ {A : Type 0} where
  -- a lookup in a Go map
  unfoldable pub lookup : String → List (String × A) → Option A
  lookup id [] = none
  lookup id ((k, a) ∷ rest) = if str_eq k id then some a else lookup id rest

-- fetchedMap; a workflow that is listed later stands first
unfoldable pub fetched_map :
    List ClientWorkflow → List (String × ClientWorkflow) → List (String × ClientWorkflow)
fetched_map [] acc = acc
fetched_map (w ∷ ws) acc = fetched_map ws ((w.id, w) ∷ acc)

config_for : Node → NodeConfig
config_for n = record {
  merge_input = n.merge_input;
  dependencies = n.dependencies;
  credential_ref = n.credential_ref;
  action_name = n.action_name;
  transfer_dest = transfer_target_from_args n.action_name n.arguments;
}

-- the row of a workflow and revision is deleted
unfoldable pub drop_retired : String → String → List Retired → List Retired
drop_retired id revision [] = []
drop_retired id revision (r ∷ rs) =
    if str_eq r.workflow_id id && str_eq r.revision revision
    then drop_retired id revision rs
    else r ∷ drop_retired id revision rs

-- its triggers are stopped, and it is kept among the retired
unfoldable pub retire : String → Managed → Installed → Installed
retire id m s = record s {
  stopped = s.stopped ++ map (λ t. (id, t)) m.triggers;
  retired =
      record { workflow_id = id; revision = m.revision; managed = m }
      ∷ drop_retired id m.revision s.retired;
}

register_actions : Managed → List String → Runner → Runner
register_actions m [] r = r
register_actions m (id ∷ ids) r = register_actions m ids (record r {
  node_workflow = (id, m.workflow_id) ∷ r.node_workflow;
  node_meta = elim (lookup id m.meta) [ some c ↦ (id, c) ∷ r.node_meta | none ↦ r.node_meta ];
  node_action = id ∷ r.node_action;
})

-- func registerWorkflowIndices
unfoldable pub register_workflow_indices : Managed → Installed → Installed
unfolding register_actions
register_workflow_indices m s = record s { runner = register_actions m m.actions s.runner }

module _ (builds : String → Node → Bool) where
  unfoldable pub add_node : String → Node → Managed → Managed
  unfolding config_for
  add_node id n m =
      let noted = record m { meta = (id, config_for n) ∷ m.meta } in
      if str_eq n.action_type "action" && builds id n
      then record noted { actions = id ∷ m.actions }
      else if str_eq n.action_type "trigger" && builds id n
      then record noted { actions = id ∷ m.actions; triggers = id ∷ m.triggers }
      else noted

  unfoldable pub add_nodes : List (String × Node) → Managed → Managed
  add_nodes [] m = m
  add_nodes ((id, n) ∷ ns) m = add_nodes ns (add_node id n m)

  -- func buildManagedWorkflow
  unfoldable pub build_managed_workflow : ClientWorkflow → Managed
  build_managed_workflow w =
      add_nodes w.nodes (record {
        workflow_id = w.id;
        revision = w.revision;
        actions = [];
        triggers = [];
        meta = [];
      })

  -- an active workflow behind a sync, `none` for one that is not listed
  unfoldable pub update_one :
      Option ClientWorkflow → String → Managed → Installed → Option Managed × Installed
  update_one none id m s = (none, retire id m s)
  update_one (some w) id m s =
      if not (str_eq w.revision m.revision)
      then (
        some (build_managed_workflow w),
        register_workflow_indices (build_managed_workflow w) (retire id m s),
      )
      else (some m, s)

  unfoldable pub put : String → Option Managed → List (String × Managed) → List (String × Managed)
  put id none ms = ms
  put id (some m) ms = (id, m) ∷ ms

  -- the first loop of syncAssignments
  unfoldable pub update_active :
      List (String × ClientWorkflow)
      → List (String × Managed)
      → Installed
      → List (String × Managed) × Installed
  update_active fetched [] s = ([], s)
  update_active fetched ((id, m) ∷ ms) s =
      let one = update_one (lookup id fetched) id m s in
      let rest = update_active fetched ms one.1 in (put id one.0 rest.0, rest.1)

  unfoldable pub install_one : String → ClientWorkflow → Option Managed → Installed → Installed
  install_one id w (some _) s = s
  install_one id w none s = register_workflow_indices (build_managed_workflow w) (record s {
    retired = drop_retired id w.revision s.retired;
    active = (id, build_managed_workflow w) ∷ s.active;
  })

  -- the second loop
  unfoldable pub install_new : List (String × ClientWorkflow) → Installed → Installed
  install_new [] s = s
  install_new ((id, w) ∷ ws) s = install_new ws (install_one id w (lookup id s.active) s)

  -- func syncAssignments
  unfoldable pub sync_assignments : List ClientWorkflow → Installed → Installed
  sync_assignments ws s =
      let fetched = fetched_map ws [] in
      let updated = update_active fetched s.active s in
      install_new fetched (record updated.1 { active = updated.0 })
