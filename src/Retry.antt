-- ===== src/Retry.antt =====
-- common/retry.go: the decorator that re-runs a node's action under its RetryPolicy
-- (common/common.go). Channels and timers enter as what the select statements receive, in order.
pub mod Delay
pub mod Attempts
use nitejaguar.Base.{
  ℕ, zero, suc, ◌+◌, ◌-◌, ◌*◌, ℤ, pos, nat_of, leb_int, ltb_int, double64, Bool, true, false, not,
  ◌&&◌, ◌||◌, Option, none, some, List, [], ◌∷◌, ◌++◌, String, Text, codes, text_eq, ltb,
  if◌then◌else◌,
}
use nitejaguar.ResultData.{ResultData}
use nitejaguar.Value.{
  Value, null, text, object, structure, nil_pointer, pointer, Fields, end, field, Members, done,
  member, boolean, get_field,
}

-- type RetryPolicy; a duration is an int64 of nanoseconds
pub record RetryPolicy : Type 0 where
  pub retries : ℤ
  pub backoff : ℤ
  pub backoff_max : ℤ
  pub timeout : ℤ

-- func (p RetryPolicy) Enabled
pub enabled : RetryPolicy → Bool
enabled p = ltb_int (pos 0) p.retries || ltb_int (pos 0) p.timeout

abbrev pub second : ℕ
second = 1_000_000_000

-- the loop of backoffFor, with the number of rounds left
unfoldable pub backoff_rounds : ℕ → ℤ → ℤ → ℤ
backoff_rounds zero max d = d
backoff_rounds (suc n) max d =
    let rest = backoff_rounds n max (double64 d) in if leb_int max d then d else rest

abbrev pub base_of : RetryPolicy → ℤ
base_of p = if leb_int p.backoff (pos 0) then pos second else p.backoff

abbrev pub cap_of : RetryPolicy → ℤ
cap_of p = if leb_int p.backoff_max (pos 0) then pos (30 * second) else p.backoff_max

-- func backoffFor
unfoldable pub backoff_for : RetryPolicy → ℕ → ℤ
backoff_for p attempt =
    let max = cap_of p in
    let d = backoff_rounds (attempt - 1) max (base_of p) in if ltb_int max d then max else d

-- m["type"] as a string is "error"
is_error_text : Option Value → Bool
is_error_text (some (text s)) = text_eq s (codes "error")
is_error_text _ = false

-- the loop over a struct's fields; a `type` field that holds no string is passed over
members_fail : Members → Bool
members_fail done = false
members_fail (member name tag exported (text s) ms) =
    if exported && (text_eq tag (codes "type") || text_eq name (codes "Type"))
    then text_eq s (codes "error")
    else members_fail ms
members_fail (member name tag exported _ ms) = members_fail ms

-- the switch on the dereferenced value's kind
struct_fails : Value → Bool
struct_fails (pointer v) = struct_fails v
struct_fails (structure ms) = members_fail ms
struct_fails _ = false

-- func isFailure
unfoldable pub is_failure : Value → Bool
unfolding is_error_text members_fail struct_fails
is_failure null = false
is_failure (object fs) = is_error_text (get_field (codes "type") fs)
is_failure v = struct_fails v

-- What an attempt's select receives.
pub data Signal : Type 0 where
  emitted : ResultData → Signal
  deadline : Signal
  stop_closed : Signal

-- One round of the loop as its environment decides it: the builder's error, what becomes ready
-- for the select in `attempt`, and whether Stop comes before the backoff timer.
pub record Round : Type 0 where
  pub build_error : Option Text
  pub signals : List Signal
  pub stopped_asleep : Bool

-- the results of `attempt`; `blocked` when nothing that the select waits for ever comes
pub data Outcome : Type 0 where
  returned : ResultData → Bool → Outcome
  stopped : Outcome
  blocked : Outcome

pub record ActionArgs : Type 0 where
  pub id : String
  pub name : String
  pub action_type : String
  pub action_name : String
  pub retry : RetryPolicy

-- the payload of synthError
error_fields : Text → Bool → Fields
error_fields msg timeout = field (codes "type") (text (codes "error")) (
    field (codes "result") (text msg)
      (if timeout then field (codes "timeout") (boolean true) end else end))

-- func synthError
unfoldable pub synth_error : ActionArgs → String → Text → Bool → ResultData
unfolding error_fields
synth_error args execution_id msg timeout = record {
  result_id = "";
  workflow_id = "";
  execution_id = execution_id;
  action_id = args.id;
  action_type = args.action_type;
  action_name = args.action_name;
  executor_id = "";
  tenant_id = "";
  created_at = 0;
  payload = object (error_fields msg timeout);
  condition_results = [];
  nexts = [];
  condition_error = none;
  attempt = 0;
  retrying = false;
}

-- The select of `attempt`: with no timeout there is no timer to receive from.
select_signal : ActionArgs → String → Text → Bool → List Signal → Outcome
select_signal args execution_id msg timer [] = blocked
select_signal args execution_id msg timer (emitted res ∷ rest) = returned res false
select_signal args execution_id msg timer (stop_closed ∷ rest) = stopped
select_signal args execution_id msg timer (deadline ∷ rest) =
    if timer
    then returned (synth_error args execution_id msg true) true
    else select_signal args execution_id msg timer rest

-- func attempt; `timeout_text` is the message that fmt.Sprintf makes for the deadline
unfoldable pub run_attempt : (ℤ → Text) → ActionArgs → String → Round → Outcome
unfolding select_signal
run_attempt timeout_text args execution_id round = elim round.build_error [
  | some msg ↦ returned (synth_error args execution_id msg false) false
  | none ↦
      select_signal args execution_id (timeout_text args.retry.timeout)
        (ltb_int (pos 0) args.retry.timeout) round.signals
]

-- What the loop does that others see: a result sent to the engine, or a wait.
pub data Event : Type 0 where
  send : ResultData → Event
  wait : ℤ → Event

pub data Ending : Type 0 where
  finished interrupted hung exhausted : Ending

pub record Run : Type 0 where
  pub events : List Event
  pub ending : Ending

-- The body of the loop behind `attempt`, round `i`, with what the remaining rounds do.
after_attempt : RetryPolicy → ℕ → ℕ → Bool → Outcome → Run → Run
after_attempt p i attempts asleep stopped rest = record { events = []; ending = interrupted }
after_attempt p i attempts asleep blocked rest = record { events = []; ending = hung }
after_attempt p i attempts asleep (returned res timed_out) rest =
    let again = is_failure res.payload && not timed_out && ltb i attempts in
    let sent = record res { attempt = i; retrying = again } in
    if not again
    then record { events = send sent ∷ []; ending = finished }
    else if asleep
    then record { events = send sent ∷ wait (backoff_for p i) ∷ []; ending = interrupted }
    else record rest { events = send sent ∷ wait (backoff_for p i) ∷ rest.events }

module _ (timeout_text : ℤ → Text) (args : ActionArgs) (execution_id : String) where
  -- `for i := i; i <= attempts; i++`, with the number of rounds left
  unfoldable pub execute_rounds : (ℕ → Round) → ℕ → ℕ → ℕ → Run
  unfolding after_attempt
  execute_rounds rounds zero i attempts = record { events = []; ending = exhausted }
  execute_rounds rounds (suc left) i attempts =
      let rest = execute_rounds rounds left (i + 1) attempts in
      after_attempt args.retry i attempts (rounds i).stopped_asleep
        (run_attempt timeout_text args execution_id (rounds i)) rest

-- 1 + Max if Max > 0, else 1
abbrev pub attempts_of : RetryPolicy → ℕ
attempts_of p = if ltb_int (pos 0) p.retries then 1 + nat_of p.retries else 1

-- func Execute
unfoldable pub execute : (ℤ → Text) → ActionArgs → String → (ℕ → Round) → Run
execute timeout_text args execution_id rounds =
    execute_rounds timeout_text args execution_id rounds (attempts_of args.retry) 1
      (attempts_of args.retry)
