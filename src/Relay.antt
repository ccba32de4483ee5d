-- ===== src/Relay.antt =====
-- internal/database/transfers.go: the tables of the file transfer relay and the operations on them.
-- A query returns rows in the order in which they were created unless it sorts them; a row's id is
-- an argument of the operation that creates it; the database itself is taken to be available, so
-- a call fails by a missing row or a violated constraint only.
pub mod Complete
pub mod Invariant
pub mod Steps
pub mod Accept
pub mod Final
pub mod Frame
pub mod Refinement
use nitejaguar.Base.{
  ℕ, zero, suc, ◌+◌, ◌*◌, ◌-◌, ℤ, pos, negsuc, nat_of, ltb_int, eq_int, Bool, true, false, not,
  ◌&&◌, ◌||◌, Option, none, some, List, [], ◌∷◌, ◌++◌, String, str_eq, Text, codes, text_eq,
  trim_space, to_lower, equal_fold, contains, length, ltb, leb, ◌==◌, if◌then◌else◌,
}
use nitejaguar.Result.{Result, ok, err, fail_if}
use nitejaguar.Tenants.{normalize_tenant}

abbrev pub Bytes : Type 0
Bytes = List ℕ

-- const MaxTransferChunkBytes, MaxTransferChunks, MaxTransferBytes, MaxSignalBytes
abbrev pub max_transfer_chunk_bytes : ℕ
max_transfer_chunk_bytes = 64 * 1024

abbrev pub max_transfer_chunks : ℕ
max_transfer_chunks = 512

abbrev pub max_transfer_bytes : ℕ
max_transfer_bytes = max_transfer_chunks * max_transfer_chunk_bytes

abbrev pub max_signal_bytes : ℕ
max_signal_bytes = 64 * 1024

-- the values of the status column
pub data Status : Type 0 where
  offered uploading ready done failed : Status

-- type TransferSession
pub record Session : Type 0 where
  pub id : String
  pub tenant_id : String
  pub workflow_id : String
  pub execution_id : String
  pub node_id : String
  pub sender_client_id : String
  pub receiver_client_id : String
  pub receiver_tags : List String
  pub file_name : Text
  pub destination_file : Text
  pub permissions : Text
  pub size : ℕ
  pub sha256 : Text
  pub status : Status
  pub via_p2p : Bool

-- type TransferChunk
pub record Chunk : Type 0 where
  pub transfer_id : String
  pub seq : ℕ
  pub bytes : Bytes

-- type TransferSignal
pub record Signal : Type 0 where
  pub transfer_id : String
  pub from_client_id : String
  pub kind : Text
  pub payload : Text
  pub created_at : ℕ

pub record Store : Type 0 where
  pub sessions : List Session
  pub chunks : List Chunk
  pub signals : List Signal

pub data RelayError : Type 0 where
  required_missing size_out_of_range transfer_not_found transfer_failed chunk_exceeds : RelayError
  transfer_is_done too_many_chunks store_failed sha_mismatch signal_exceeds : RelayError
  expected_seq : ℕ → RelayError
  chunk_gap : ℕ → RelayError
  incomplete : ℕ → RelayError
  unknown_kind : Text → RelayError

-- The tag set of a client and the tags of a session have one in common.
abbrev pub tags_overlap : List String → List String → Bool
tags_overlap tags [] = false
tags_overlap tags (t ∷ ts) = contains tags t || tags_overlap tags ts

-- func transferVisibleTo
unfoldable pub transfer_visible_to : Session → String → List String → String → Bool
transfer_visible_to row client_id tags tenant_id =
    if not (str_eq (normalize_tenant row.tenant_id) (normalize_tenant tenant_id))
    then false
    else if str_eq row.sender_client_id client_id || str_eq row.receiver_client_id client_id
    then true
    else str_eq row.receiver_client_id "" && tags_overlap tags row.receiver_tags

-- TransferSession.Get
unfoldable pub get_session : String → List Session → Option Session
get_session id [] = none
get_session id (r ∷ rs) = if str_eq r.id id then some r else get_session id rs

-- TransferSession.UpdateOneID(id).SetStatus(status).SetViaP2p(via)
unfoldable pub update_session : String → Status → Bool → List Session → List Session
update_session id status via [] = []
update_session id status via (r ∷ rs) =
    (if str_eq r.id id then record r { status = status; via_p2p = via } else r)
    ∷ update_session id status via rs

-- the arguments of InitTransferSession; a size is an int64
pub record InitRequest : Type 0 where
  pub tenant_id : String
  pub workflow_id : String
  pub execution_id : String
  pub node_id : String
  pub sender_client_id : String
  pub receiver_client_id : String
  pub receiver_tags : List String
  pub file_name : Text
  pub destination_file : Text
  pub permissions : Text
  pub size : ℤ
  pub sha256 : Text

-- the row that InitTransferSession creates
abbrev pub new_session : String → InitRequest → Session
new_session id r = record {
  id = id;
  tenant_id = if str_eq r.tenant_id "" then "default" else r.tenant_id;
  workflow_id = r.workflow_id;
  execution_id = r.execution_id;
  node_id = r.node_id;
  sender_client_id = r.sender_client_id;
  receiver_client_id = r.receiver_client_id;
  receiver_tags = r.receiver_tags;
  file_name = r.file_name;
  destination_file = r.destination_file;
  permissions = r.permissions;
  size = nat_of r.size;
  sha256 = to_lower r.sha256;
  status = offered;
  via_p2p = false;
}

-- An operation returns its value or error, and the tables behind it.
abbrev pub Op : Type 0 → Type 0
Op A = Store → Result RelayError A × Store

-- the insertion; the id is the primary key
insert_session : Option Session → String → InitRequest → Op Session
insert_session (some _) id r s = (err store_failed, s)
insert_session none id r s =
    (ok (new_session id r), record s { sessions = s.sessions ++ new_session id r ∷ [] })

-- func InitTransferSession
unfoldable pub init_transfer_session : String → InitRequest → Op Session
unfolding insert_session
init_transfer_session id r s =
    if str_eq r.sender_client_id "" || text_eq r.destination_file []
    then (err required_missing, s)
    else if ltb_int r.size (pos 0) || ltb_int (pos max_transfer_bytes) r.size
    then (err size_out_of_range, s)
    else insert_session (get_session id s.sessions) id r s

-- TransferChunk.Query().Where(TransferID(id))
unfoldable pub chunks_of : String → List Chunk → List Chunk
chunks_of id [] = []
chunks_of id (c ∷ cs) = if str_eq c.transfer_id id then c ∷ chunks_of id cs else chunks_of id cs

-- transferStoredBytes
unfoldable pub stored_bytes : List Chunk → ℕ
stored_bytes [] = 0
stored_bytes (c ∷ cs) = length c.bytes + stored_bytes cs

-- whether the unique index on (transfer_id, seq) refuses a new row
unfoldable pub has_seq : ℕ → List Chunk → Bool
has_seq n [] = false
has_seq n (c ∷ cs) = c.seq == n || has_seq n cs

-- the status that AppendTransferChunk sets
abbrev pub status_after : ℕ → ℕ → Bytes → Status
status_after stored size bytes =
    if leb size stored && ltb 0 size
    then ready
    else if size == 0 && length bytes == 0
    then ready
    else uploading

-- the writes of AppendTransferChunk
abbrev pub push_chunk : Session → ℕ → Bytes → Store → Store
push_chunk row n bytes s =
    let chunks = s.chunks ++ (record { transfer_id = row.id; seq = n; bytes = bytes } ∷ []) in
    let status = status_after (stored_bytes (chunks_of row.id chunks)) row.size bytes in
    record s { chunks = chunks; sessions = update_session row.id status row.via_p2p s.sessions }

-- the guard on the session's status, and what follows it
unfoldable pub append_to : Session → ℤ → Bytes → Op ℕ
append_to row seq bytes s =
    let mine = chunks_of row.id s.chunks in
    let count = length mine in
    if not (eq_int seq (pos count))
    then (err (expected_seq count), s)
    else if leb max_transfer_chunks count
    then (err too_many_chunks, s)
    else if has_seq count mine
    then (err store_failed, s)
    else (ok (count + 1), push_chunk row count bytes s)

unfoldable pub append_by_status : Status → Session → ℤ → Bytes → Op ℕ
append_by_status done row seq bytes s = (err transfer_is_done, s)
append_by_status failed row seq bytes s = (err transfer_failed, s)
append_by_status _ row seq bytes s = append_to row seq bytes s

unfoldable pub append_found : Option Session → ℤ → Bytes → Op ℕ
append_found none seq bytes s = (err transfer_not_found, s)
append_found (some row) seq bytes s = append_by_status row.status row seq bytes s

-- func AppendTransferChunk
unfoldable pub append_transfer_chunk : String → ℤ → Bytes → Op ℕ
unfolding append_to append_by_status append_found
append_transfer_chunk id seq bytes s =
    if ltb max_transfer_chunk_bytes (length bytes)
    then (err chunk_exceeds, s)
    else append_found (get_session id s.sessions) seq bytes s
