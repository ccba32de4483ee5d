-- ===== src/Ingest/Rows.antt =====
-- The loops of IngestResult (internal/workflow/workflow.go) and the assignments.
use nitejaguar.Base.{
  ◌≤◌, List, [], ◌∷◌, String, length, ◌≡◌, ◌≢◌, inl, inr, refl, ◌∙◌, arith, Option, if-holds,
}
use nitejaguar.Assignments.{Assignment, Key, matching, enqueue_node_assignment}
use nitejaguar.Assignments.Unique.{
  IsUnique, IsFull, enqueue-IsUnique, enqueue-others, enqueue-keeps, enqueue-has,
}
use nitejaguar.Condition.{Outside}
use nitejaguar.Ingest.{Manager, Fresh}
use nitejaguar.Ingest.Call.{key_of, enqueue_next, enqueue_all, execute_all}
use nitejaguar.Result.{Result}
use nitejaguar.ResultData.{ResultData}
use nitejaguar.Value.{Value, Fields}
use nitejaguar.Workflow.Target.{In}

module _ (outside : Outside) (as_string_map : Value → Option Fields)
    (secret_of : String → String → Result String (String × String)) where
  pub execute_all-assignments :
      (workflow_id : String) (r : ResultData) (nexts : List String) (m : Manager)
      → (execute_all outside as_string_map secret_of workflow_id r nexts m).assignments
        ≡ m.assignments
  unfolding execute_all
  execute_all-assignments workflow_id r [] m = refl
  execute_all-assignments workflow_id r (next ∷ nexts) m =
      execute_all-assignments workflow_id r nexts _
      ∙ if-holds (λ (t : Manager). t.assignments ≡ m.assignments) m.enable_actions _ _ (λ _. refl)
          (λ _. refl)

  module _ (fresh : Fresh) (tenant workflow_id : String) (r : ResultData) where
    abbrev key : String → Key
    key = key_of outside as_string_map secret_of workflow_id r

    abbrev enqueued : List String → Manager → Manager
    enqueued = enqueue_all outside as_string_map secret_of fresh tenant workflow_id r

    abbrev rows_then : String → List Assignment → List Assignment
    rows_then next rows =
        (enqueue_node_assignment (fresh.assignment_id next) tenant (key next) r.action_id r.payload
          rows).1

    next_then : String → Manager → Manager
    next_then = enqueue_next outside as_string_map secret_of fresh tenant workflow_id r

    next_then-assignments :
        (next : String) (m : Manager)
        → (next_then next m).assignments ≡ rows_then next m.assignments
    unfolding next_then enqueue_next
    next_then-assignments next m = refl

    enqueue_all-next :
        (next : String) (nexts : List String) (m : Manager)
        → enqueued (next ∷ nexts) m ≡ enqueued nexts (next_then next m)
    unfolding enqueue_all next_then
    enqueue_all-next next nexts m = refl

    pub enqueue_all-IsUnique :
        (nexts : List String) (m : Manager)
        → IsUnique m.assignments
        → IsUnique (enqueued nexts m).assignments
    enqueue_all-IsUnique [] m h = unfold enqueue_all in h
    enqueue_all-IsUnique (next ∷ nexts) m h = rw (enqueue_all-next next nexts m) (
        enqueue_all-IsUnique nexts (next_then next m) (
          rw (next_then-assignments next m) (
            enqueue-IsUnique (fresh.assignment_id next) tenant (key next) r.action_id r.payload
              m.assignments h)))

    pub enqueue_all-others :
        (j : Key) (nexts : List String) (m : Manager)
        → ((x : String) → In x nexts → j ≢ key x)
        → matching j (enqueued nexts m).assignments ≡ matching j m.assignments
    enqueue_all-others j [] m ne = unfold enqueue_all in refl
    enqueue_all-others j (next ∷ nexts) m ne = rw (enqueue_all-next next nexts m) (
        enqueue_all-others j nexts (next_then next m) (λ x i. ne x (inr i))
        ∙ rw (next_then-assignments next m) (
            enqueue-others (fresh.assignment_id next) tenant j (key next) r.action_id r.payload
              m.assignments (ne next (inl refl))))

    pub enqueue_all-keeps :
        (j : Key) (nexts : List String) (m : Manager)
        → length (matching j m.assignments) ≤ length (matching j (enqueued nexts m).assignments)
    enqueue_all-keeps j [] m = unfold enqueue_all in omega arith
    enqueue_all-keeps j (next ∷ nexts) m =
        let now : length (matching j m.assignments)
            ≤ length (matching j (next_then next m).assignments) =
          rw (next_then-assignments next m) (
            enqueue-keeps (fresh.assignment_id next) tenant j (key next) r.action_id r.payload
              m.assignments) in
        rw (enqueue_all-next next nexts m)
          (omega (arith, now, enqueue_all-keeps j nexts (next_then next m)))

    pub enqueue_all-has :
        (x : String) (nexts : List String) (m : Manager)
        → In x nexts
        → IsFull (key x)
        → 1 ≤ length (matching (key x) (enqueued nexts m).assignments)
    enqueue_all-has x [] m i full = absurd i
    enqueue_all-has x (next ∷ nexts) m (inr i) full =
        rw (enqueue_all-next next nexts m) (enqueue_all-has x nexts (next_then next m) i full)
    enqueue_all-has x (next ∷ nexts) m (inl e) full =
        let now : 1 ≤ length (matching (key x) (next_then next m).assignments) =
          rw (next_then-assignments next m, e)
            (enqueue-has (fresh.assignment_id x) tenant (key x) r.action_id r.payload m.assignments
              full) in
        rw (enqueue_all-next next nexts m)
          (omega (arith, now, enqueue_all-keeps (key x) nexts (next_then next m)))
