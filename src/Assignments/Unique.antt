-- ===== src/Assignments/Unique.antt =====
-- The assignments of internal/database/database.go, per workflow, execution and node.
use nitejaguar.Base.{
  ◌≤◌, true, false, List, [], ◌∷◌, ◌++◌, String, str_eq, eq_iff, length, append-nil, length-append,
  str_eq_self, str_eq_ne, ◌≡◌, ◌≢◌, refl, sym, ap, arith, Bool-cases, inl, inr, ◌⊎◌,
}
use nitejaguar.Result.{Result, ok, err}
use nitejaguar.Assignments.{
  Assignment, Key, pending, StoreError, not_singular, is_for, matching, by_count,
  enqueue_node_assignment, complete_node_assignment, finish_rows,
}
use nitejaguar.Tenants.{normalize_tenant}
use nitejaguar.Value.{Value}

-- No key has two rows.
abbrev pub IsUnique : List Assignment → Type 0
IsUnique rows = (k : Key) → length (matching k rows) ≤ 1

pub matching-append :
    (k : Key) (xs ys : List Assignment) → matching k (xs ++ ys) ≡ matching k xs ++ matching k ys
unfolding matching
matching-append k [] ys = refl
matching-append k (x ∷ xs) ys = elim (Bool-cases (is_for k x)) [
  | inl e ↦ rw e (ap (◌∷◌ x) (matching-append k xs ys))
  | inr e ↦ rw e (matching-append k xs ys)
]

pub length-matching-finish :
    (j k : Key) (rows : List Assignment)
    → length (matching j (finish_rows k rows)) ≡ length (matching j rows)
unfolding matching finish_rows is_for
length-matching-finish j k [] = refl
length-matching-finish j k (a ∷ rows) = ground (arith, length-matching-finish j k rows)

-- the row that an enqueue inserts
abbrev row_of : String → String → Key → String → Value → Assignment
row_of id tenant k parent payload = record {
  id = id;
  tenant_id = normalize_tenant tenant;
  workflow_id = k.workflow_id;
  execution_id = k.execution_id;
  node_id = k.node_id;
  parent_action_id = parent;
  payload = payload;
  status = pending;
}

is_for-key :
    (j k : Key) (id tenant parent : String) (payload : Value)
    → is_for j (row_of id tenant k parent payload) ≡ true
    → j ≡ k
unfolding is_for
is_for-key j k id tenant parent payload e =
    let a : k.workflow_id ≡ j.workflow_id = ground (arith, eq_iff k.workflow_id j.workflow_id) in
    let b : k.execution_id ≡ j.execution_id =
      ground (arith, eq_iff k.execution_id j.execution_id) in
    let c : k.node_id ≡ j.node_id = ground (arith, eq_iff k.node_id j.node_id) in
    λ i. record { workflow_id = sym a i; execution_id = sym b i; node_id = sym c i }

-- an enqueue changes nothing, or adds the row of a key that has none
enqueue-Writes :
    (id tenant : String) (k : Key) (parent : String) (payload : Value) (rows : List Assignment)
    → ((enqueue_node_assignment id tenant k parent payload rows).1 ≡ rows)
      ⊎ ((matching k rows ≡ [])
          × ((enqueue_node_assignment id tenant k parent payload rows).1
              ≡ rows ++ (row_of id tenant k parent payload ∷ [])))
unfolding enqueue_node_assignment by_count
enqueue-Writes id tenant k parent payload rows = ground arith

complete-Writes :
    (k : Key) (rows : List Assignment)
    → ((complete_node_assignment k rows).1 ≡ rows)
      ⊎ ((complete_node_assignment k rows).1 ≡ finish_rows k rows)
unfolding complete_node_assignment by_count
complete-Writes k rows = ground arith

-- one row gives one match at most, and none if it has another key
matching_one : (j : Key) (a : Assignment) → length (matching j (a ∷ [])) ≤ 1
unfolding matching
matching_one j a = ground arith

matching_ne : (j : Key) (a : Assignment) → is_for j a ≡ false → matching j (a ∷ []) ≡ []
unfolding matching
matching_ne j a e = rw e refl

-- An enqueue leaves at most one row per key.
pub enqueue-IsUnique :
    (id tenant : String) (k : Key) (parent : String) (payload : Value) (rows : List Assignment)
    → IsUnique rows
    → IsUnique (enqueue_node_assignment id tenant k parent payload rows).1
enqueue-IsUnique id tenant k parent payload rows h j =
    elim (enqueue-Writes id tenant k parent payload rows) [
      | inl e ↦ rw e (h j)
      | inr (none_yet, e) ↦
          rw (e, matching-append)
            (elim (Bool-cases (is_for j (row_of id tenant k parent payload))) [
              | inl mine ↦
                  let same = is_for-key j k id tenant parent payload mine in
                  let empty : matching j rows ≡ [] = rw same none_yet in
                  rw empty (matching_one j (row_of id tenant k parent payload))
              | inr other ↦
                  rw
                    (
                      matching_ne j (row_of id tenant k parent payload) other,
                      append-nil (matching j rows),
                    )
                    (h j)
            ])
    ]

pub complete-IsUnique :
    (k : Key) (rows : List Assignment)
    → IsUnique rows
    → IsUnique (complete_node_assignment k rows).1
complete-IsUnique k rows h j = elim (complete-Writes k rows) [
  | inl e ↦ rw e (h j)
  | inr e ↦ rw (e, length-matching-finish j k rows) (h j)
]

-- An enqueue for one key keeps what other keys have, and never removes a row.
pub enqueue-others :
    (id tenant : String) (j k : Key) (parent : String) (payload : Value) (rows : List Assignment)
    → j ≢ k
    → matching j (enqueue_node_assignment id tenant k parent payload rows).1 ≡ matching j rows
enqueue-others id tenant j k parent payload rows ne =
    elim (enqueue-Writes id tenant k parent payload rows) [
      | inl e ↦ rw e refl
      | inr (_, e) ↦ elim (Bool-cases (is_for j (row_of id tenant k parent payload))) [
        | inl mine ↦ absurd (ne (is_for-key j k id tenant parent payload mine))
        | inr other ↦
            rw (e, matching-append, matching_ne j (row_of id tenant k parent payload) other)
              (append-nil (matching j rows))
      ]
    ]

pub enqueue-keeps :
    (id tenant : String) (j k : Key) (parent : String) (payload : Value) (rows : List Assignment)
    → length (matching j rows)
      ≤ length (matching j (enqueue_node_assignment id tenant k parent payload rows).1)
enqueue-keeps id tenant j k parent payload rows =
    elim (enqueue-Writes id tenant k parent payload rows) [
      | inl e ↦ rw e (omega arith)
      | inr (_, e) ↦ rw (e, matching-append, length-append) (omega arith)
    ]

-- a key whose parts are all given
pub record IsFull (k : Key) : Type 0 where
  pub workflow : k.workflow_id ≢ ""
  pub execution : k.execution_id ≢ ""
  pub node : k.node_id ≢ ""

is_for-row :
    (k : Key) (id tenant parent : String) (payload : Value)
    → is_for k (row_of id tenant k parent payload) ≡ true
unfolding is_for
is_for-row k id tenant parent payload =
    rw (str_eq_self k.workflow_id, str_eq_self k.execution_id, str_eq_self k.node_id) refl

-- Behind an enqueue with a full key, the key has a row.
pub enqueue-has :
    (id tenant : String) (k : Key) (parent : String) (payload : Value) (rows : List Assignment)
    → IsFull k
    → 1 ≤ length (matching k (enqueue_node_assignment id tenant k parent payload rows).1)
unfolding enqueue_node_assignment by_count
enqueue-has id tenant k parent payload rows full =
    let w : str_eq k.workflow_id "" ≡ false = str_eq_ne k.workflow_id "" full.workflow in
    let x : str_eq k.execution_id "" ≡ false = str_eq_ne k.execution_id "" full.execution in
    let n : str_eq k.node_id "" ≡ false = str_eq_ne k.node_id "" full.node in
    rw (w, x, n) (by_matches (matching k rows) refl)
  where
    row : Assignment
    row = row_of id tenant k parent payload

    by_matches :
        (found : List Assignment)
        → matching k rows ≡ found
        → 1
          ≤ length (
              matching k
                (by_count {A = Result StoreError Assignment × List Assignment} found
                  (ok row, rows ++ (row ∷ []))
                  (λ a. (ok a, rows))
                  (err not_singular, rows)).1)
    by_matches [] e = rw (matching-append, e, is_for-row k id tenant parent payload) (omega arith)
    by_matches (a ∷ []) e = rw e (omega arith)
    by_matches (a ∷ b ∷ found) e = rw e (omega arith)

pub length-matching_complete :
    (j k : Key) (rows : List Assignment)
    → length (matching j (complete_node_assignment k rows).1) ≡ length (matching j rows)
length-matching_complete j k rows = elim (complete-Writes k rows) [
  | inl e ↦ rw e refl
  | inr e ↦ rw e (length-matching-finish j k rows)
]
