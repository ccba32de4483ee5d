-- ===== src/Ingest/Handed.antt =====
-- IngestResult (internal/workflow/workflow.go): the owners of the next nodes of a result.
use nitejaguar.Base.{
  ℕ, ◌≤◌, true, false, List, [], String, str_eq, length, if-holds, ◌≡◌, ◌≢◌, ◌⊎◌, refl, ap, subst,
  Option, none, some,
}
use nitejaguar.Assignments.{Key, matching}
use nitejaguar.Assignments.Unique.{IsUnique, IsFull}
use nitejaguar.Condition.{ConditionError, Outside}
use nitejaguar.Ingest.{
  Manager, Fresh, Resolved, IngestError, unknown_action, action_id_required, record_result,
  resolve_node,
}
use nitejaguar.Ingest.Call.{key_of, hand_over, ingest_found, ingest_result, place, decide, fill_in}
use nitejaguar.Result.{Result, ok, err}
use nitejaguar.ResultData.{ResultData}
use nitejaguar.Value.{Value, Fields}
use nitejaguar.Workflow.Target.{In}
use nitejaguar.Ingest.Handover.{handed-IsUnique, handed-others, handed-has}

module _ (outside : Outside) (as_string_map : Value → Option Fields)
    (secret_of : String → String → Result String (String × String)) where
  abbrev key : ResultData → String → Key
  key r = key_of outside as_string_map secret_of r.workflow_id r

  abbrev handed : Fresh → Resolved → ResultData → Manager → List String × Manager
  handed = hand_over outside as_string_map secret_of

  module _ (message : ConditionError → List ℕ) (fresh : Fresh) where
    abbrev ingested : ResultData → Manager → Result IngestError (ResultData × List String) × Manager
    ingested = ingest_result outside as_string_map secret_of message fresh

    -- the cases of an ingestion: refused, or recorded only, or recorded and handed over
    data Ingested (m : Manager)
        : Result IngestError (ResultData × List String) × Manager → Type 0 where
      refusal : (e : IngestError) → Ingested m (err e, m)
      interim : (r : ResultData) → r.retrying ≡ true → Ingested m (ok (r, []), record_result r m)
      handed_on :
          (found : Resolved) (r : ResultData)
          → r.workflow_id ≡ found.workflow_id
          → Ingested m (
            ok (r, (handed fresh found r (record_result r m)).0),
            (handed fresh found r (record_result r m)).1,
          )

    decided-workflow :
        (found : Resolved) (m : Manager) (r : ResultData)
        → (decide outside as_string_map secret_of message found.node
            (place outside as_string_map secret_of fresh found m r)).workflow_id
          ≡ found.workflow_id
    unfolding decide place
    decided-workflow found m r =
        if-holds (λ (s : ResultData). s.workflow_id ≡ found.workflow_id) found.node.merge_input _ _
          (λ _. refl) (λ _. refl)

    -- the result as it is looked up, and as it is placed
    abbrev filled : Manager → ResultData → ResultData
    filled = fill_in outside as_string_map secret_of fresh

    abbrev placed : Resolved → Manager → ResultData → ResultData
    placed found m r = place outside as_string_map secret_of fresh found m (filled m r)

    ingested-Ingested : (r : ResultData) (m : Manager) → Ingested m (ingested r m)
    unfolding ingest_result ingest_found
    ingested-Ingested r m =
        if-holds (Ingested m) (str_eq r.action_id "") _ _ (λ _. refusal action_id_required)
          (λ _. by_node (resolve_node (filled m r).workflow_id (filled m r).action_id m))
      where
        by_node :
            (o : Option Resolved)
            → Ingested m (elim o [
              | none ↦ (err unknown_action, m)
              | some found ↦
                  ingest_found outside as_string_map secret_of message fresh found (filled m r) m
            ])
        by_node none = refusal unknown_action
        by_node (some found) =
            if-holds (Ingested m) (placed found m r).retrying _ _
              (λ e. interim (placed found m r) e)
              (λ _.
                handed_on found
                  (decide outside as_string_map secret_of message found.node (placed found m r))
                  (decided-workflow found m (filled m r)))

    -- Ingesting a result keeps the assignments at one row per workflow, execution and node.
    pub ingest_result-IsUnique :
        (r : ResultData) (m : Manager)
        → IsUnique m.assignments
        → IsUnique (ingested r m).1.assignments
    unfolding record_result
    ingest_result-IsUnique r m h = go (ingested r m) (ingested-Ingested r m)
      where
        go :
            (out : Result IngestError (ResultData × List String) × Manager)
            → Ingested m out
            → IsUnique out.1.assignments
        go _ (refusal e) = h
        go _ (interim s e) = h
        go _ (handed_on found s same) =
            handed-IsUnique outside as_string_map secret_of fresh found s (record_result s m) same h

    -- When a result is taken in that is not an intermediate one and whose executor is named and is not
    -- the server, each of its next nodes is handed to that executor or has an assignment behind the
    -- call, if the ids of the workflow, the execution and the node are not empty.
    pub ingest_result-reaches :
        (r res : ResultData) (m : Manager) (mine : List String) (x : String)
        → (ingested r m).0 ≡ ok (res, mine)
        → res.retrying ≡ false
        → res.executor_id ≢ ""
        → res.executor_id ≢ m.executor_id
        → In x res.nexts
        → IsFull (key res x)
        → In x mine ⊎ (1 ≤ length (matching (key res x) (ingested r m).1.assignments))
    unfolding record_result
    ingest_result-reaches r res m mine x e last client other i full =
        go (ingested r m) (ingested-Ingested r m) e
      where
        go :
            (out : Result IngestError (ResultData × List String) × Manager)
            → Ingested m out
            → out.0 ≡ ok (res, mine)
            → In x mine ⊎ (1 ≤ length (matching (key res x) out.1.assignments))
        go _ (refusal y) eq = absurd (cc eq)
        go _ (interim s y) eq =
            let same : s ≡ res = cc eq in
            absurd (cc (ap (λ (t : ResultData). t.retrying) same, y, last))
        go _ (handed_on found s same) eq =
            let as_res : s ≡ res = cc eq in
            let as_mine : (handed fresh found s (record_result s m)).0 ≡ mine = cc eq in
            subst
              (λ (t : ResultData).
                t.executor_id ≢ ""
                → t.executor_id ≢ m.executor_id
                → In x t.nexts
                → IsFull (key t x)
                → In x mine
                  ⊎ (1
                      ≤ length (
                          matching (key t x)
                            (handed fresh found s (record_result s m)).1.assignments)))
              as_res
              (subst
                (λ (ids : List String).
                  s.executor_id ≢ ""
                  → s.executor_id ≢ m.executor_id
                  → In x s.nexts
                  → IsFull (key s x)
                  → In x ids
                    ⊎ (1
                        ≤ length (
                            matching (key s x)
                              (handed fresh found s (record_result s m)).1.assignments)))
                as_mine
                (handed-has outside as_string_map secret_of fresh found s x (record_result s m)
                  same))
              client other i full

    -- When a result is taken in, each node that is handed back to its reporter has as many assignments
    -- behind the call as before it.
    pub ingest_result-reserves :
        (r res : ResultData) (m : Manager) (mine : List String) (x : String)
        → (ingested r m).0 ≡ ok (res, mine)
        → In x mine
        → length (matching (key res x) (ingested r m).1.assignments)
          ≡ length (matching (key res x) m.assignments)
    unfolding record_result
    ingest_result-reserves r res m mine x e i = go (ingested r m) (ingested-Ingested r m) e
      where
        go :
            (out : Result IngestError (ResultData × List String) × Manager)
            → Ingested m out
            → out.0 ≡ ok (res, mine)
            → length (matching (key res x) out.1.assignments)
              ≡ length (matching (key res x) m.assignments)
        go _ (refusal y) eq = absurd (cc eq)
        go _ (interim s y) eq = unfold record_result in refl
        go _ (handed_on found s same) eq =
            let as_res : s ≡ res = cc eq in
            let as_mine : (handed fresh found s (record_result s m)).0 ≡ mine = cc eq in
            let kept =
              handed-others outside as_string_map secret_of fresh found s x (record_result s m) same
                (rw as_mine i) in
            subst
              (λ (t : ResultData).
                length (matching (key t x) (handed fresh found s (record_result s m)).1.assignments)
                ≡ length (matching (key t x) m.assignments))
              as_res (unfold record_result in kept)
