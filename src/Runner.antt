-- ===== src/Runner.antt =====
-- internal/client/client.go and internal/client/transfer_runner.go: the runner of a client, which
-- starts the nodes that the server hands to it. An action that is started is kept as a launch: what
-- it does is its own. What the server answers to a fetch and to a posted result is a parameter; times
-- are seconds.
pub mod Seen
pub mod Once
pub mod Sync
pub mod Listed
pub mod Identity
use nitejaguar.Base.{
  ℕ, ◌+◌, Bool, true, false, not, ◌&&◌, ◌||◌, Option, none, some, List, [], ◌∷◌, ◌++◌, String,
  str_eq, ltb, contains, Text, codes, trim_space, text_eq, string_of, ℤ, pos, negsuc, ◌==◌,
  if◌then◌else◌,
}
use nitejaguar.Ingest.{
  Binding, Memory, index_of, recall, merge_dependencies, remember_result, bind_credential, is_blank,
}
use nitejaguar.Reference.{split}
use nitejaguar.Result.{Result, ok, err}
use nitejaguar.ResultData.{ResultData}
use nitejaguar.Value.{Value, text, Fields, get_field}

-- type transferTarget
pub record Target : Type 0 where
  pub dest_client : String
  pub dest_tags : List String

-- type nodeConfig, without the method of a webhook
pub record NodeConfig : Type 0 where
  pub merge_input : Bool
  pub dependencies : List String
  pub credential_ref : String
  pub action_name : String
  pub transfer_dest : Target

-- type credentialCacheEntry
pub record CacheEntry : Type 0 where
  pub secret : String
  pub kind : String
  pub expires_at : ℕ

-- type CredentialFetch, as far as the runner reads it
pub record Fetched : Type 0 where
  pub kind : String
  pub secret : String
  pub ttl_seconds : ℤ

-- type PendingAssignment
pub record Pending : Type 0 where
  pub id : String
  pub workflow_id : String
  pub execution_id : String
  pub node_id : String
  pub parent_action_id : String
  pub payload : Value

-- what executeNode starts: an action with its inputs, or the sender of a transfer
pub data Launch : Type 0 where
  action_launched : String → String → ResultData → Option Binding → Launch
  sender_launched : String → String → ResultData → Launch

-- type runner; `node_action` lists the nodes that have an action
pub record Runner : Type 0 where
  pub node_workflow : List (String × String)
  pub node_meta : List (String × NodeConfig)
  pub node_action : List String
  pub history : List Memory
  pub pending_seen : List String
  pub cred_cache : List (String × CacheEntry)
  pub self_id : String
  pub launches : List Launch

split_tags : List Text → List String
split_tags [] = []
split_tags (t ∷ ts) =
    let rest = split_tags ts in
    if text_eq (trim_space t) [] then rest else string_of (trim_space t) ∷ rest

tags_of : Text → List String
unfolding split_tags
tags_of [] = []
tags_of (c ∷ cs) = split_tags (split b',' (c ∷ cs))

-- args[key], in arguments that are texts
argument : Text → Fields → Text
argument key args = elim (get_field key args) [ some (text s) ↦ s | _ ↦ [] ]

abbrev pub local : Target
local = record { dest_client = ""; dest_tags = [] }

-- func transferTargetFromArgs
unfoldable pub transfer_target_from_args : String → Fields → Target
unfolding tags_of argument
transfer_target_from_args action_name args =
    if not (str_eq action_name "transfer") then local else record {
      dest_client = string_of (trim_space (argument (codes "destination_client") args));
      dest_tags = tags_of (trim_space (argument (codes "destination_client_tags") args));
    }

is_empty : List String → Bool
is_empty [] = true
is_empty (_ ∷ _) = false

-- func isRemoteTransfer
unfoldable pub is_remote_transfer : Target → String → Bool
unfolding is_empty
is_remote_transfer t self_id =
    if not (str_eq t.dest_client "")
    then not (str_eq t.dest_client self_id)
    else not (is_empty t.dest_tags)

-- r.nodeMeta[id], the zero value where there is none
abbrev pub no_config : NodeConfig
no_config = record {
  merge_input = false;
  dependencies = [];
  credential_ref = "";
  action_name = "";
  transfer_dest = local;
}

find_config : String → List (String × NodeConfig) → Option NodeConfig
find_config id [] = none
find_config id ((k, c) ∷ cs) = if str_eq k id then some c else find_config id cs

unfoldable pub config_of : String → Runner → NodeConfig
unfolding find_config
config_of id r = elim (find_config id r.node_meta) [ none ↦ no_config | some c ↦ c ]

find_entry : String → List (String × CacheEntry) → Option CacheEntry
find_entry ref [] = none
find_entry ref ((k, e) ∷ es) = if str_eq k ref then some e else find_entry ref es

-- r.credCache[ref], if it has not expired
unfoldable pub cached : String → ℕ → Runner → Option CacheEntry
unfolding find_entry
cached ref now r = elim (find_entry ref r.cred_cache) [
  | none ↦ none
  | some e ↦ if ltb now e.expires_at then some e else none
]

-- ttl, with 60 seconds for one that is not positive
unfoldable pub lifetime : ℤ → ℕ
lifetime (pos n) = if n == 0 then 60 else n
lifetime (negsuc n) = 60

-- func rememberLocked
unfoldable pub remember : ResultData → Runner → Runner
remember result r = record r { history = remember_result result r.history }

-- func mergedPayloadLocked
unfoldable pub merged_payload : (Value → Option Fields) → ResultData → Runner → Value
unfolding is_empty
merged_payload as_string_map result r =
    let cfg = config_of result.action_id r in
    if not cfg.merge_input || str_eq result.execution_id "" || is_empty cfg.dependencies
    then result.payload
    else merge_dependencies as_string_map result.execution_id cfg.dependencies r.history
        result.payload

-- the key of an assignment in pendingSeen
unfoldable pub key_of : Pending → String
key_of p =
    if str_eq p.id ""
    then string_of
        (codes p.workflow_id ++ (b'/' ∷ codes p.execution_id) ++ (b'/' ∷ codes p.node_id))
    else p.id

-- delete(r.pendingSeen, key)
unfoldable pub remove : String → List String → List String
remove key [] = []
remove key (k ∷ ks) = if str_eq k key then remove key ks else k ∷ remove key ks

-- the payload of the parent, if the runner has none from it
unfoldable pub seed_history : Pending → List Memory → List Memory
seed_history p hs =
    if str_eq p.parent_action_id ""
    then hs
    else elim (recall p.execution_id p.parent_action_id hs) [
      | some _ ↦ hs
      | none ↦
          record {
            execution_id = p.execution_id;
            node_id = p.parent_action_id;
            payload = p.payload;
          }
          ∷ hs
    ]

unfoldable pub admit : Pending → Runner → Runner
admit p r = record r {
  pending_seen = key_of p ∷ r.pending_seen;
  history = seed_history p r.history;
}

-- the result that stands for the parent in the inputs
unfoldable pub parent_of : Pending → ResultData
parent_of p = record {
  result_id = "";
  workflow_id = p.workflow_id;
  execution_id = p.execution_id;
  action_id = p.parent_action_id;
  action_type = "";
  action_name = "";
  executor_id = "";
  tenant_id = "";
  created_at = 0;
  payload = p.payload;
  condition_results = [];
  nexts = [];
  condition_error = none;
  attempt = 0;
  retrying = false;
}

-- the times at which an assignment's credential is fetched: before it is started, and for its inputs
pub record Times : Type 0 where
  pub gate : ℕ
  pub use_at : ℕ

module _ (fetch : ℕ → String → String → String → Result String Fetched) where
  -- the answer of the server, which goes to the cache
  unfoldable pub keep_fetched :
      ℕ → String → Result String Fetched → Runner → Result String (String × String) × Runner
  keep_fetched now ref (err e) r = (err e, r)
  keep_fetched now ref (ok f) r = (
    ok (f.secret, f.kind),
    record r {
      cred_cache =
          (
            ref,
            record { secret = f.secret; kind = f.kind; expires_at = now + lifetime f.ttl_seconds },
          )
          ∷ r.cred_cache;
    },
  )

  -- func fetchCredentialFull
  unfoldable pub fetch_credential_full :
      ℕ → String → Runner → Result String (String × String) × Runner
  fetch_credential_full now node r =
      let ref = (config_of node r).credential_ref in
      if str_eq ref "" then (ok ("", ""), r) else elim (cached ref now r) [
        | some e ↦ (ok (e.secret, e.kind), r)
        | none ↦ keep_fetched now ref (fetch now ref (index_of node r.node_workflow) node) r
      ]

  -- func credentialInputs: the binding that it adds
  unfoldable pub credential_inputs : ℕ → String → Runner → Option Binding × Runner
  credential_inputs now node r =
      let ref = (config_of node r).credential_ref in
      if is_blank ref
      then (none, r)
      else let got = fetch_credential_full now node r in (bind_credential ref got.0, got.1)

  unfoldable pub launch : Launch → Runner → Runner
  launch l r = record r { launches = r.launches ++ (l ∷ []) }

  -- func executeNode
  unfoldable pub execute_node : ℕ → String → String → ResultData → Runner → Runner
  execute_node now node execution input r =
      let cfg = config_of node r in
      if not (contains r.node_action node)
      then r
      else if str_eq cfg.action_name "transfer" && is_remote_transfer cfg.transfer_dest r.self_id
      then launch (sender_launched node execution input) r
      else let bound = credential_inputs now node r in
        launch (action_launched node execution input bound.0) bound.1

  -- the credential of a node before it is started
  unfoldable pub gate : ℕ → String → Runner → Result String (String × String) × Runner
  gate now node r =
      if str_eq (config_of node r).credential_ref ""
      then (ok ("", ""), r)
      else fetch_credential_full now node r

  -- whether an assignment is started, behind its credential
  unfoldable pub begin : Times → Pending → Result String (String × String) × Runner → Bool × Runner
  begin t p (err e, r) = (false, record r { pending_seen = remove (key_of p) r.pending_seen })
  begin t p (ok _, r) =
      if contains r.node_action p.node_id
      then (true, execute_node t.use_at p.node_id p.execution_id (parent_of p) r)
      else (false, r)

  -- one round of drainPending
  unfoldable pub drain_one : Times → Pending → Runner → Bool × Runner
  drain_one t p r =
      if str_eq p.node_id "" || str_eq p.execution_id ""
      then (false, r)
      else if contains r.pending_seen (key_of p)
      then (false, r)
      else begin t p (gate t.gate p.node_id (admit p r))

  -- func drainPending, with the assignments that it starts
  unfoldable pub drain_pending : (Pending → Times) → List Pending → Runner → List Pending × Runner
  drain_pending times [] r = ([], r)
  drain_pending times (p ∷ ps) r =
      let one = drain_one (times p) p r in
      let rest = drain_pending times ps one.1 in (if one.0 then p ∷ rest.0 else rest.0, rest.1)

  -- the next nodes that the server leaves to the client
  unfoldable pub execute_nexts : ℕ → ResultData → List String → Runner → Runner
  execute_nexts now result [] r = r
  execute_nexts now result (id ∷ ids) r =
      execute_nexts now result ids (execute_node now id result.execution_id result r)

  -- what runResult does with the answer
  unfoldable pub follow : ℕ → ResultData → Option (List String) → Runner → Runner
  follow now result none r = r
  follow now result (some nexts) r = execute_nexts now result nexts r

  -- func runResult, with the answer of the server to the result
  unfoldable pub run_result :
      (Value → Option Fields)
      → (ResultData → Option (List String))
      → ℕ
      → ResultData
      → Runner
      → Runner
  run_result as_string_map post now result r =
      let merged = record result { payload = merged_payload as_string_map result r } in
      let s = remember merged r in follow now merged (post merged) s
