-- ===== src/Samples/Polls.antt =====
-- The properties of a client's runner at an assignment that the server lists twice.
use nitejaguar.Base.{false, none, [], ◌∷◌, pos, trim_space}
use nitejaguar.Result.{ok}
use nitejaguar.Runner.{
  Runner, Pending, Times, local, drain_pending, drain_one, admit, key_of, gate, begin, execute_node,
  config_of, credential_inputs, fetch_credential_full, cached, keep_fetched, lifetime, launch,
  run_result, merged_payload, remember, follow, seed_history, parent_of,
}
use nitejaguar.Ingest.{is_blank, bind_credential, index_of, recall, remember_result}
use nitejaguar.Runner.Once.{polled, reported, IsOnce, run-IsOnce}
use nitejaguar.Samples.Engine.{as_fields}
use nitejaguar.Value.{null}

abbrev pub runner : Runner
runner = record {
  node_workflow = ("n1", "w") ∷ [];
  node_meta =
      (
        "n1",
        record {
          merge_input = false;
          dependencies = [];
          credential_ref = "db";
          action_name = "email";
          transfer_dest = local;
        },
      )
      ∷ [];
  node_action = "n1" ∷ [];
  history = [];
  pending_seen = [];
  cred_cache = [];
  self_id = "a";
  launches = [];
}

abbrev assignment : Pending
assignment = record {
  id = "p1";
  workflow_id = "w";
  execution_id = "x";
  node_id = "n1";
  parent_action_id = "n0";
  payload = null;
}

abbrev times : Pending → Times
times p = record { gate = 1; use_at = 2 }

-- two polls, and the result of the node between them
run-IsOnce_example : IsOnce [] (assignment ∷ []) ("p1" ∷ [])
unfolding drain_pending drain_one admit key_of gate begin execute_node config_of credential_inputs
    fetch_credential_full cached keep_fetched lifetime launch run_result merged_payload remember
    follow seed_history parent_of is_blank bind_credential index_of recall remember_result
    trim_space
run-IsOnce_example =
    run-IsOnce
      (λ now ref w node. ok (record { kind = "token"; secret = "y"; ttl_seconds = pos 60 }))
      as_fields (λ result. none)
      (polled times (assignment ∷ assignment ∷ [])
        ∷ reported 3 (parent_of assignment)
        ∷ polled times (assignment ∷ [])
        ∷ [])
      runner
