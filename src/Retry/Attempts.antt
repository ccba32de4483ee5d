-- ===== src/Retry/Attempts.antt =====
-- The attempt loop of Execute (common/retry.go): what it sends, in which order, and how it ends.
use nitejaguar.Base.{
  ℕ, zero, suc, ◌+◌, ◌≤◌, ◌<◌, ℤ, Bool, true, false, List, [], ◌∷◌, String, Text, ltb, ◌≡◌, ◌≢◌,
  refl, arith, if◌then◌else◌,
}
use nitejaguar.ResultData.{ResultData}
use nitejaguar.Retry.{
  RetryPolicy, ActionArgs, Round, Outcome, returned, stopped, blocked, Event, send, wait, Ending,
  finished, exhausted, Run, after_attempt, execute_rounds, execute, attempts_of, run_attempt,
  backoff_for, is_failure,
}

-- The events of a run from round `i` on: every result but the last is marked as retried and is
-- followed by the delay for its attempt; results are numbered upwards from `i`.
abbrev pub IsTrace : RetryPolicy → ℕ → List Event → Type 0
IsTrace p i [] = Unit
IsTrace p i (send r ∷ []) = (r.attempt ≡ i) × (r.retrying ≡ false)
IsTrace p i (send r ∷ wait d ∷ es) =
    (r.attempt ≡ i)
    × (r.retrying ≡ true)
    × (is_failure r.payload ≡ true)
    × (d ≡ backoff_for p i)
    × IsTrace p (i + 1) es
IsTrace p i (send r ∷ send q ∷ es) = ⊥
IsTrace p i (wait d ∷ es) = ⊥

-- How many results the engine is to route.
abbrev pub routed : List Event → ℕ
routed [] = 0
routed (send r ∷ es) = (if r.retrying then 0 else 1) + routed es
routed (wait d ∷ es) = routed es

abbrev pub sends : List Event → ℕ
sends [] = 0
sends (send r ∷ es) = 1 + sends es
sends (wait d ∷ es) = sends es

abbrev pub routed_at_end : Ending → ℕ
routed_at_end finished = 1
routed_at_end _ = 0

-- What holds of the run of the last `left` rounds, the first of them round `i`.
record IsRun (p : RetryPolicy) (left i : ℕ) (run : Run) : Type 0 where
  trace : IsTrace p i run.events
  bounded : sends run.events ≤ left
  routes : routed run.events ≡ routed_at_end run.ending
  ends : run.ending ≢ exhausted

after_attempt-IsRun :
    (p : RetryPolicy) (left i attempts : ℕ) (asleep : Bool) (o : Outcome) (rest : Run)
    → (ltb i attempts ≡ true → IsRun p left (i + 1) rest)
    → IsRun p (suc left) i (after_attempt p i attempts asleep o rest)
unfolding after_attempt
after_attempt-IsRun p left i attempts asleep stopped rest h = ground arith
after_attempt-IsRun p left i attempts asleep blocked rest h = ground arith
after_attempt-IsRun p left i attempts asleep (returned res timed_out) rest h = ground arith

module _ (timeout_text : ℤ → Text) (args : ActionArgs) (execution_id : String)
    (rounds : ℕ → Round) where
  rounds-IsRun :
      (left i attempts : ℕ)
      → left + i ≡ attempts + 1
      → 1 ≤ left
      → IsRun args.retry left i
          (execute_rounds timeout_text args execution_id rounds left i attempts)
  unfolding execute_rounds
  rounds-IsRun zero i attempts e h = absurd (omega arith)
  rounds-IsRun (suc left) i attempts e h =
      after_attempt-IsRun args.retry left i attempts (rounds i).stopped_asleep _ _
        (λ more. rounds-IsRun left (i + 1) attempts (omega arith) (ground arith))

  -- Whatever the environment does, Execute numbers its results 1, 2, …, sends no more of them than
  -- there are attempts, marks as retried exactly those that fail and are followed by the delay
  -- for their attempt, and never runs out of rounds. Just one result is left to be routed, the
  -- last, if the loop finishes, and none if it is interrupted or hangs.
  pub execute-IsTrace :
      let run = execute timeout_text args execution_id rounds in
      IsTrace args.retry 1 run.events
      × (sends run.events ≤ attempts_of args.retry)
      × (routed run.events ≡ routed_at_end run.ending)
      × (run.ending ≢ exhausted)
  unfolding execute
  execute-IsTrace =
      let h =
        rounds-IsRun (attempts_of args.retry) 1 (attempts_of args.retry) refl (ground arith) in
      (h.trace, h.bounded, h.routes, h.ends)

  -- A round whose action reports a failure, with no stop during the wait behind it.
  abbrev pub Fails : ℕ → Type 0
  Fails i =
      (res : ResultData) × (run_attempt timeout_text args execution_id (rounds i)
        ≡ returned res false)
      × (is_failure res.payload ≡ true)
      × ((rounds i).stopped_asleep ≡ false)

  rounds_succeed :
      (k left i attempts : ℕ) (res : ResultData) (late : Bool)
      → left + i ≡ attempts + 1
      → k < left
      → ((j : ℕ) → j < k → Fails (i + j))
      → run_attempt timeout_text args execution_id (rounds (i + k)) ≡ returned res late
      → is_failure res.payload ≡ false
      → let run = execute_rounds timeout_text args execution_id rounds left i attempts in
        (run.ending ≡ finished) × (sends run.events ≡ k + 1)
  unfolding execute_rounds after_attempt
  rounds_succeed k zero i attempts res late e h f r s = absurd (omega arith)
  rounds_succeed zero (suc left) i attempts res late e h f r s =
      let z : i + 0 ≡ i = omega arith in ground (arith, rw z at r)
  rounds_succeed (suc k) (suc left) i attempts res late e h f r s =
      let z : i + 0 ≡ i = omega arith in
      let fails : Fails i = rw z at (f 0 (omega arith)) in
      let shift : i + suc k ≡ i + 1 + k = omega arith in
      let ih =
        rounds_succeed k left (i + 1) attempts res late (omega arith) (omega arith)
          (λ j lt.
            let e' : i + suc j ≡ i + 1 + j = omega arith in rw e' at (f (suc j) (omega arith)))
          (rw shift at r) s in
      ground (arith, ih, fails)

  -- If the first `k` attempts fail, the next one is within the policy and reports no failure, then
  -- Execute finishes with that attempt: it sends `k + 1` results and no more.
  pub execute_succeeds :
      (k : ℕ) (res : ResultData) (late : Bool)
      → k < attempts_of args.retry
      → ((j : ℕ) → j < k → Fails (1 + j))
      → run_attempt timeout_text args execution_id (rounds (1 + k)) ≡ returned res late
      → is_failure res.payload ≡ false
      → let run = execute timeout_text args execution_id rounds in
        (run.ending ≡ finished) × (sends run.events ≡ k + 1)
  unfolding execute
  execute_succeeds k res late h f r s =
      rounds_succeed k (attempts_of args.retry) 1 (attempts_of args.retry) res late refl h f r s
