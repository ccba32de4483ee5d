-- ===== src/Ingest/Handover.antt =====
-- What handing over the next nodes of a result does to the assignments.
use nitejaguar.Base.{
  ◌≤◌, Bool, true, false, not, ◌||◌, List, [], ◌∷◌, String, str_eq, str_eq_ne, length,
  if◌then◌else◌, ◌≡◌, ◌≢◌, ◌⊎◌, inl, inr, refl, ap, ◌∙◌, arith, Bool-cases, Option,
}
use nitejaguar.Assignments.{Assignment, Key, matching, complete_node_assignment}
use nitejaguar.Assignments.Unique.{IsUnique, IsFull, complete-IsUnique, length-matching_complete}
use nitejaguar.Condition.{Outside}
use nitejaguar.Ingest.{or_else, Manager, Fresh, Resolved, client_tags}
use nitejaguar.Ingest.Call.{key_of, persist_dispatch, hand_over}
use nitejaguar.Ingest.Rows.{
  execute_all-assignments, enqueue_all-IsUnique, enqueue_all-others, enqueue_all-has,
}
use nitejaguar.Result.{Result}
use nitejaguar.ResultData.{ResultData}
use nitejaguar.Value.{Value, Fields}
use nitejaguar.Workflow.{Dispatch, dispatch_nexts, is_owned}
use nitejaguar.Workflow.Owners.{keep, dispatch_nexts-keep}
use nitejaguar.Workflow.Target.{In}

In-keep : (p : String → Bool) (x : String) (xs : List String) → In x (keep p xs) → p x ≡ true
In-keep p x [] i = absurd i
In-keep p x (y ∷ ys) i = elim (Bool-cases (p y)) [
  | inl e ↦
      let i' : In x (y ∷ keep p ys) = rw e at i in
      elim i' [ inl same ↦ rw same at e | inr later ↦ In-keep p x ys later ]
  | inr e ↦ In-keep p x ys (rw e at i)
]

In-keep_either :
    (p : String → Bool) (x : String) (xs : List String)
    → In x xs
    → In x (keep p xs) ⊎ In x (keep (λ y. not (p y)) xs)
In-keep_either p x [] i = absurd i
In-keep_either p x (y ∷ ys) (inl same) = elim (Bool-cases (p y)) [
  | inl e ↦ rw e (inl (inl same))
  | inr e ↦ rw e (inr (inl same))
]
In-keep_either p x (y ∷ ys) (inr later) = ground (arith, In-keep_either p x ys later)

module _ (outside : Outside) (as_string_map : Value → Option Fields)
    (secret_of : String → String → Result String (String × String)) where
  abbrev key : ResultData → String → Key
  key r = key_of outside as_string_map secret_of r.workflow_id r

  module _ (fresh : Fresh) (tenant : String) (r : ResultData) where
    abbrev persisted : List String → Manager → Manager
    persisted = persist_dispatch outside as_string_map secret_of fresh tenant r.workflow_id r

    -- the manager behind CompleteNodeAssignment
    abbrev completed : Manager → Manager
    completed m = record m {
      assignments = (complete_node_assignment (key r r.action_id) m.assignments).1;
    }

    persisted-IsUnique :
        (routed : List String) (m : Manager)
        → IsUnique m.assignments
        → IsUnique (persisted routed m).assignments
    unfolding persist_dispatch
    persisted-IsUnique routed m h = elim (Bool-cases (str_eq r.execution_id "")) [
      | inl e ↦ rw e h
      | inr e ↦ rw e (
          enqueue_all-IsUnique outside as_string_map secret_of fresh tenant r.workflow_id r routed
            (completed m) (complete-IsUnique (key r r.action_id) m.assignments h))
    ]

    persisted-others :
        (x : String) (routed : List String) (m : Manager)
        → ((y : String) → In y routed → x ≢ y)
        → length (matching (key r x) (persisted routed m).assignments)
          ≡ length (matching (key r x) m.assignments)
    unfolding persist_dispatch
    persisted-others x routed m ne = elim (Bool-cases (str_eq r.execution_id "")) [
      | inl e ↦ rw e refl
      | inr e ↦ rw e (
          ap (λ (rows : List Assignment). length rows)
            (enqueue_all-others outside as_string_map secret_of fresh tenant r.workflow_id r
              (key r x) routed (completed m)
              (λ y i same. ne y i (ap (λ (k : Key). k.node_id) same)))
          ∙ length-matching_complete (key r x) (key r r.action_id) m.assignments)
    ]

    persisted-has :
        (x : String) (routed : List String) (m : Manager)
        → In x routed
        → IsFull (key r x)
        → 1 ≤ length (matching (key r x) (persisted routed m).assignments)
    unfolding persist_dispatch
    persisted-has x routed m i full = rw (str_eq_ne r.execution_id "" full.execution) (
        enqueue_all-has outside as_string_map secret_of fresh tenant r.workflow_id r x routed
          (completed m) i full)

  module _ (fresh : Fresh) (found : Resolved) (r : ResultData) where
    abbrev handed : Manager → List String × Manager
    handed = hand_over outside as_string_map secret_of fresh found r

    abbrev owners : Manager → Dispatch
    owners m =
        dispatch_nexts (client_tags m.clients) m.executor_id found.definition r.nexts r.executor_id

    abbrev own : Manager → String → Bool
    own m = is_owned found.definition r.executor_id (client_tags m.clients r.executor_id)

    -- whether the result is the server's own
    abbrev is_local : Manager → Bool
    is_local m = str_eq r.executor_id "" || str_eq r.executor_id m.executor_id

    owners-keep :
        (m : Manager)
        → owners m ≡ (
            if is_local m
            then record { client_owned = []; server_owned = r.nexts; routed = [] }
            else record {
              client_owned = keep (own m) r.nexts;
              server_owned = [];
              routed = keep (λ id. not (own m id)) r.nexts;
            })
    owners-keep m =
        dispatch_nexts-keep (client_tags m.clients) m.executor_id found.definition r.nexts
          r.executor_id

    owners_disjoint :
        (m : Manager) (x y : String) → In x (owners m).client_owned → In y (owners m).routed → x ≢ y
    owners_disjoint m x y i j = elim (Bool-cases (is_local m)) [
      | inl e ↦ let i' : In x [] = rw (owners-keep m, e) at i in absurd i'
      | inr e ↦
          let i' : In x (keep (own m) r.nexts) = rw (owners-keep m, e) at i in
          let j' : In y (keep (λ id. not (own m id)) r.nexts) = rw (owners-keep m, e) at j in
          let mine = In-keep (own m) x r.nexts i' in
          let rest : not (own m y) ≡ true = In-keep (λ id. not (own m id)) y r.nexts j' in
          λ same. ground (arith, rw same at mine, rest)
    ]

    abbrev tenant_of : String
    tenant_of = if str_eq r.tenant_id "" then found.tenant_id else r.tenant_id

    handed-assignments :
        (m : Manager)
        → r.workflow_id ≡ found.workflow_id
        → (handed m).1.assignments ≡ (persisted fresh tenant_of r (owners m).routed m).assignments
    unfolding hand_over or_else
    handed-assignments m same = rw⁻¹ same (
        execute_all-assignments outside as_string_map secret_of r.workflow_id r
          (owners m).server_owned _)

    handed-owned : (m : Manager) → (handed m).0 ≡ (owners m).client_owned
    unfolding hand_over
    handed-owned m = refl

    pub handed-IsUnique :
        (m : Manager)
        → r.workflow_id ≡ found.workflow_id
        → IsUnique m.assignments
        → IsUnique (handed m).1.assignments
    handed-IsUnique m same h =
        rw (handed-assignments m same) (persisted-IsUnique fresh tenant_of r (owners m).routed m h)

    pub handed-others :
        (x : String) (m : Manager)
        → r.workflow_id ≡ found.workflow_id
        → In x (handed m).0
        → length (matching (key r x) (handed m).1.assignments)
          ≡ length (matching (key r x) m.assignments)
    handed-others x m same i = rw (handed-assignments m same) (
        persisted-others fresh tenant_of r x (owners m).routed m
          (λ y. owners_disjoint m x y (rw (handed-owned m) at i)))

    pub handed-has :
        (x : String) (m : Manager)
        → r.workflow_id ≡ found.workflow_id
        → r.executor_id ≢ ""
        → r.executor_id ≢ m.executor_id
        → In x r.nexts
        → IsFull (key r x)
        → In x (handed m).0 ⊎ (1 ≤ length (matching (key r x) (handed m).1.assignments))
    handed-has x m same client other i full =
        let away : is_local m ≡ false =
          rw (str_eq_ne r.executor_id "" client, str_eq_ne r.executor_id m.executor_id other)
            refl in
        elim (In-keep_either (own m) x r.nexts i) [
          | inl mine ↦ inl (rw (handed-owned m, owners-keep m, away) mine)
          | inr rest ↦
              let routed : In x (owners m).routed = rw (owners-keep m, away) rest in
              inr (
                rw (handed-assignments m same)
                  (persisted-has fresh tenant_of r x (owners m).routed m routed full))
        ]
