-- ===== src/Workflow/Clone.antt =====
-- CloneWorkflowJSON (internal/workflow/workflow.go), from the decoded definition to the one that is
-- saved. The new id of a node's clone comes from outside, by the node's old id. The loops that map the
-- ids in a node's edges overwrite the slices of a definition that nothing else refers to.
pub mod Copies
use Prim.Native.String.{◌++◌ as str_append}
use nitejaguar.Base.{
  Bool, true, false, not, ◌||◌, ◌&&◌, Option, none, some, List, [], ◌∷◌, String, str_eq,
  if◌then◌else◌,
}
use nitejaguar.Workflow.{Entry, Node, Workflow}

-- m[k] = n
unfoldable pub put_node : String → Node → List (String × Node) → List (String × Node)
put_node k n [] = (k, n) ∷ []
put_node k n ((j, m) ∷ ns) = if str_eq j k then (j, n) ∷ ns else (j, m) ∷ put_node k n ns

-- idMap[id], and the id itself where there is none
unfoldable pub map_id : List (String × String) → String → String
map_id [] id = id
map_id ((old, fresh) ∷ ids) id = if str_eq old id then fresh else map_id ids id

unfoldable pub map_ids : List (String × String) → List String → List String
unfolding map_id
map_ids ids [] = []
map_ids ids (x ∷ xs) = map_id ids x ∷ map_ids ids xs

unfoldable pub map_entries : List (String × String) → List (String × Entry) → List (String × Entry)
unfolding map_ids
map_entries ids [] = []
map_entries ids ((id, e) ∷ es) = (id, record e { nexts = map_ids ids e.nexts }) ∷ map_entries ids es

unfoldable pub map_conditions :
    List (String × String) → Option (List (String × Entry)) → Option (List (String × Entry))
unfolding map_entries
map_conditions ids none = none
map_conditions ids (some es) = some (map_entries ids es)

-- one round of the second loop
unfoldable pub map_edges : List (String × String) → Node → Node
unfolding map_conditions map_ids
map_edges ids n = record n {
  conditions = map_conditions ids n.conditions;
  dependencies = map_ids ids n.dependencies;
}

unfoldable pub map_nodes : List (String × String) → List (String × Node) → List (String × Node)
unfolding map_edges
map_nodes ids [] = []
map_nodes ids ((id, n) ∷ ns) = (id, map_edges ids n) ∷ map_nodes ids ns

module _ (fresh : String → String) where
  -- newID of a node: a fresh one for a trigger and for an action
  unfoldable pub new_id : String × Node → String
  new_id (id, n) =
      if str_eq n.action_type "trigger" || str_eq n.action_type "action" then fresh id else id

  -- idMap behind the first loop
  unfoldable pub id_map : List (String × Node) → List (String × String)
  unfolding new_id
  id_map [] = []
  id_map ((id, n) ∷ ns) =
      if not (str_eq (new_id (id, n)) id) then (id, new_id (id, n)) ∷ id_map ns else id_map ns

  -- clonedNodes behind the first loop
  unfoldable pub clone_nodes : List (String × Node) → List (String × Node) → List (String × Node)
  unfolding new_id put_node
  clone_nodes done [] = done
  clone_nodes done ((id, n) ∷ ns) =
      clone_nodes (put_node (new_id (id, n)) (record n { id = new_id (id, n) }) done) ns

  -- func CloneWorkflowJSON: the definition that is saved under a new id
  unfoldable pub clone_workflow : String → Workflow → Workflow
  unfolding clone_nodes id_map map_nodes
  clone_workflow id w = record w {
    id = id;
    name = str_append "Clone of: " w.name;
    nodes = map_nodes (id_map w.nodes) (clone_nodes [] w.nodes);
  }
