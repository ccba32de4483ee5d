-- ===== src/Samples/Clones.antt =====
-- The property of clones at the workflow of three nodes.
use Prim.Native.String.{◌++◌ as str_append}
use nitejaguar.Base.{false, some, String, str_eq, eq_iff, arith, ◌≡◌, ◌≢◌, refl}
use nitejaguar.Samples.Engine.{outside, node_for, entries, workflow}
use nitejaguar.Workflow.Clone.{new_id, clone_workflow}
use nitejaguar.Workflow.Clone.Copies.{AreDistinct, HasCopy, clone_workflow-HasCopy}
use nitejaguar.Workflow.{find_node}

abbrev fresh : String → String
fresh id = str_append "x" id

differ : (s t : String) → str_eq s t ≡ false → s ≢ t
differ s t h e = ground (arith, eq_iff s t)

old-AreDistinct : AreDistinct (λ p. p.0) workflow.nodes
old-AreDistinct =
    ((differ "n2" "n1" refl, (differ "n3" "n1" refl, tt)), ((differ "n3" "n2" refl, tt), (tt, tt)))

new-AreDistinct : AreDistinct (new_id fresh) workflow.nodes
unfolding new_id
new-AreDistinct = (
  (differ "xn2" "xn1" refl, (differ "xn3" "xn1" refl, tt)),
  ((differ "xn3" "xn2" refl, tt), (tt, tt)),
)

clone_workflow-HasCopy_example :
    HasCopy fresh outside workflow
      (clone_workflow fresh "w2" workflow)
      "n1"
      (node_for "n1" "" (some entries))
unfolding find_node
clone_workflow-HasCopy_example =
    clone_workflow-HasCopy fresh outside "w2" workflow "n1" (node_for "n1" "" (some entries))
      old-AreDistinct new-AreDistinct refl
