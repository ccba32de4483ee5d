-- ===== src/Samples/Runs.antt =====
-- The retry decorator's properties at short policies.
use nitejaguar.Base.{
  ℕ, ◌+◌, ◌*◌, ◌-◌, ◌^◌, ◌≤◌, min, ℤ, pos, nat_of, ltb_int, true, false, none, [], ◌∷◌, Text, codes,
  if◌then◌else◌, ◌==◌, subst, sym, ◌≡◌, ◌≢◌, refl, arith,
}
use nitejaguar.ResultData.{ResultData}
use nitejaguar.Retry.{
  RetryPolicy, ActionArgs, Round, emitted, finished, exhausted, execute, attempts_of, run_attempt,
  is_failure, backoff_for, base_of, cap_of, synth_error,
}
use nitejaguar.Retry.Attempts.{
  IsTrace, routed, Fails, routed_at_end, sends, execute-IsTrace, execute_succeeds,
}
use nitejaguar.Retry.Delay.{backoff_for-min, backoff_for_overflow}
use nitejaguar.Value.{null, get_field}

abbrev policy : RetryPolicy
policy = record { retries = pos 2; backoff = pos 100; backoff_max = pos 1000; timeout = pos 0 }

abbrev args : ActionArgs
args = record {
  id = "n";
  name = "n";
  action_type = "action";
  action_name = "email";
  retry = policy;
}

abbrev late : ℤ → Text
late t = codes "late"

abbrev failed_result : ResultData
failed_result = synth_error args "e" (codes "no") false

abbrev good_result : ResultData
good_result = record failed_result { payload = null }

-- the first attempt fails, those behind it succeed
abbrev rounds : ℕ → Round
rounds i = record {
  build_error = none;
  signals = emitted (if i == 1 then failed_result else good_result) ∷ [];
  stopped_asleep = false;
}

execute-IsTrace_example :
    let run = execute late args "e" rounds in
    IsTrace policy 1 run.events
    × (sends run.events ≤ attempts_of policy)
    × (routed run.events ≡ routed_at_end run.ending)
    × (run.ending ≢ exhausted)
execute-IsTrace_example = execute-IsTrace late args "e" rounds

execute_succeeds_example :
    let run = execute late args "e" rounds in (run.ending ≡ finished) × (sends run.events ≡ 1 + 1)
unfolding run_attempt is_failure synth_error get_field
execute_succeeds_example =
    execute_succeeds late args "e" rounds 1 good_result false (omega arith)
      (λ j lt.
        let z : j ≡ 0 = omega arith in
        subst (λ k. Fails late args "e" rounds (1 + k)) (sym z) (failed_result, refl, refl, refl))
      refl refl

backoff_for-min_example :
    backoff_for policy 3
    ≡ pos (min (nat_of (base_of policy) * 2 ^ (3 - 1)) (nat_of (cap_of policy)))
backoff_for-min_example = backoff_for-min policy 3 (omega arith)

-- 2^62 nanoseconds, below a cap that is one larger
abbrev long_policy : RetryPolicy
long_policy = record {
  retries = pos 2;
  backoff = pos (2 ^ 62);
  backoff_max = pos (2 ^ 62 + 1);
  timeout = pos 0;
}

backoff_for_overflow_example : ltb_int (backoff_for long_policy 2) (pos 0) ≡ true
backoff_for_overflow_example =
    backoff_for_overflow long_policy (omega arith) (omega arith) (omega arith)
