-- ===== src/Server.antt =====
-- internal/server/transfers.go: the HTTP handlers of the transfer control plane, over the client
-- registry, the relay's tables and the audit log. A handler gets the token that bearerToken found
-- in the headers. Base64 decoding and the two digests are parameters. An audit row is kept without
-- its free-text detail.
pub mod Isolation
use nitejaguar.Base.{
  ℕ, ℤ, pos, ltb_int, Bool, true, false, not, ◌&&◌, ◌||◌, Option, none, some, List, [], ◌∷◌, ◌++◌,
  String, str_eq, Text, text_eq, trim_space, map, if◌then◌else◌,
}
use nitejaguar.Result.{Result, ok, err}
use nitejaguar.Registry.{Client, Registry, find_client, transfer_caller, authenticate_client}
use nitejaguar.Relay.{
  Bytes, Session, Chunk, Signal, Store, RelayError, InitRequest, Op, get_session,
  transfer_visible_to, init_transfer_session, append_transfer_chunk, max_transfer_bytes,
}
use nitejaguar.Relay.Complete.{
  complete_transfer_session, list_transfer_chunks, list_pending_transfers, post_transfer_signal,
  list_transfer_signals,
}

-- type AuditLog
pub record Audit : Type 0 where
  pub action : String
  pub tenant_id : String
  pub actor : String
  pub target : String

pub record Server : Type 0 where
  pub registry : Registry
  pub relay : Store
  pub audit : List Audit

pub data HttpError : Type 0 where
  unauthorized forbidden missing destination_required size_out_of_range : HttpError
  unknown_receiver invalid_data : HttpError
  refused : RelayError → HttpError

abbrev pub Response : Type 0 → Type 0
Response A = Result HttpError A × Server

-- An operation on the relay's tables, answered by 400 if it fails.
abbrev pub with_relay :
    {A B : Type 0} → Result RelayError A × Store → (A → B) → (A → List Audit) → Server → Response B
with_relay (err e, t) f log s = (err (refused e), record s { relay = t })
with_relay (ok a, t) f log s = (ok (f a), record s { relay = t; audit = s.audit ++ log a })

-- the body of POST /api/transfers/init
pub record InitBody : Type 0 where
  pub workflow_id : String
  pub execution_id : String
  pub node_id : String
  pub receiver_client_id : String
  pub receiver_tags : List String
  pub file_name : Text
  pub destination_file : Text
  pub permissions : Text
  pub size : ℤ
  pub sha256 : Text

abbrev pub request_of : Client → InitBody → InitRequest
request_of caller b = record {
  tenant_id = caller.tenant_id;
  workflow_id = b.workflow_id;
  execution_id = b.execution_id;
  node_id = b.node_id;
  sender_client_id = caller.id;
  receiver_client_id = b.receiver_client_id;
  receiver_tags = b.receiver_tags;
  file_name = b.file_name;
  destination_file = b.destination_file;
  permissions = b.permissions;
  size = b.size;
  sha256 = b.sha256;
}

-- rc, ok := getClient(…); !ok || rc.TenantID != caller.TenantID
abbrev foreign_receiver : Option Client → Client → Bool
foreign_receiver none caller = true
foreign_receiver (some rc) caller = not (str_eq rc.tenant_id caller.tenant_id)

module _ (hash_token : String → String) (digest : Bytes → Text) (decode : Text → Option Bytes) where
  init_by : Option Client → String → InitBody → Server → Response String
  init_by none id b s = (err unauthorized, s)
  init_by (some caller) id b s =
      if text_eq (trim_space b.destination_file) []
      then (err destination_required, s)
      else if ltb_int b.size (pos 0) || ltb_int (pos max_transfer_bytes) b.size
      then (err size_out_of_range, s)
      else if not (str_eq b.receiver_client_id "")
          && foreign_receiver (find_client b.receiver_client_id s.registry.clients) caller
      then (err unknown_receiver, s)
      else with_relay (init_transfer_session id (request_of caller b) s.relay) (λ row. row.id)
          (λ row.
            (record {
              action = "transfer.init";
              tenant_id = caller.tenant_id;
              actor = caller.id;
              target = row.id;
            })
            ∷ [])
          s

  -- func InitTransfer, with the new session's id
  unfoldable pub init_transfer : String → String → InitBody → Server → Response String
  unfolding init_by
  init_transfer token id b s = init_by (transfer_caller hash_token token s.registry.clients) id b s

  -- The part that the handlers on one session share: its row, if the caller may see it.
  visible_row : Option Client → Option Session → Result HttpError (Client × Session)
  visible_row none row = err unauthorized
  visible_row (some c) none = err missing
  visible_row (some c) (some row) =
      if not (transfer_visible_to row c.id c.tags c.tenant_id) then err missing else ok (c, row)

  unfoldable pub session_for : String → String → Server → Result HttpError (Client × Session)
  unfolding visible_row
  session_for token id s =
      visible_row (transfer_caller hash_token token s.registry.clients)
        (get_session id s.relay.sessions)

  unfoldable pub store_decoded : Option Bytes → String → ℤ → Server → Response ℕ
  store_decoded none id seq s = (err invalid_data, s)
  store_decoded (some raw) id seq s =
      with_relay (append_transfer_chunk id seq raw s.relay) (λ n. n) (λ _. []) s

  unfoldable pub upload_to :
      Result HttpError (Client × Session) → String → ℤ → Text → Server → Response ℕ
  upload_to (err e) id seq data_b64 s = (err e, s)
  upload_to (ok (caller, row)) id seq data_b64 s =
      if not (str_eq row.sender_client_id caller.id)
      then (err forbidden, s)
      else store_decoded (decode data_b64) id seq s

  -- func UploadChunk
  unfoldable pub upload_chunk : String → String → ℤ → Text → Server → Response ℕ
  unfolding store_decoded upload_to
  upload_chunk token id seq data_b64 s = upload_to (session_for token id s) id seq data_b64 s

  -- func FetchChunks, with the rows before they are encoded
  unfoldable pub fetch_chunks : String → String → ℤ → Server → Result HttpError (List Chunk)
  fetch_chunks token id n s = elim (session_for token id s) [
    | err e ↦ err e
    | ok _ ↦ ok (list_transfer_chunks id (if ltb_int n (pos 0) then pos 0 else n) s.relay)
  ]

  complete_for :
      Result HttpError (Client × Session) → String → Text → Bool → Server → Response Session
  complete_for (err e) id sha via s = (err e, s)
  complete_for (ok (caller, row)) id sha via s =
      if str_eq row.sender_client_id caller.id && not (str_eq row.receiver_client_id caller.id)
      then (err forbidden, s)
      else with_relay (complete_transfer_session digest id sha via s.relay) (λ r. r)
          (λ _.
            (record {
              action = "transfer.complete";
              tenant_id = caller.tenant_id;
              actor = caller.id;
              target = id;
            })
            ∷ [])
          s

  -- func CompleteTransfer
  unfoldable pub complete_transfer : String → String → Text → Bool → Server → Response Session
  unfolding complete_for
  complete_transfer token id sha via s = complete_for (session_for token id s) id sha via s

  signal_for :
      Result HttpError (Client × Session) → String → Text → Text → ℕ → Server → Response Unit
  signal_for (err e) id kind payload now s = (err e, s)
  signal_for (ok (caller, row)) id kind payload now s =
      with_relay (post_transfer_signal id caller.id kind payload now s.relay) (λ _. tt)
        (λ _.
          (record {
            action = "transfer.signal";
            tenant_id = caller.tenant_id;
            actor = caller.id;
            target = id;
          })
          ∷ [])
        s

  -- func PostSignal
  unfoldable pub post_signal : String → String → Text → Text → ℕ → Server → Response Unit
  unfolding signal_for
  post_signal token id kind payload now s =
      signal_for (session_for token id s) id kind payload now s

  -- func ListSignals, with the time that the handler parsed from the query
  unfoldable pub list_signals : String → String → ℕ → Server → Result HttpError (List Signal)
  list_signals token id since s = elim (session_for token id s) [
    | err e ↦ err e
    | ok _ ↦ ok (list_transfer_signals id since s.relay)
  ]

  -- func PendingTransfers
  unfoldable pub pending_transfers : String → String → Server → Result HttpError (List Session)
  pending_transfers token id s = elim (authenticate_client hash_token id token s.registry.clients) [
    | none ↦ err unauthorized
    | some _ ↦ elim (find_client id s.registry.clients) [
      | none ↦ err missing
      | some c ↦ ok (list_pending_transfers c.id c.tags c.tenant_id s.relay)
    ]
  ]
