-- ===== src/Relay/Refinement.antt =====
-- The relay's tables (internal/database/transfers.go) as a file that grows: what one transfer is to its
-- sender and receiver, without rows, numbers of chunks and indexes.
pub mod Agrees
use nitejaguar.Base.{
  ℕ, ◌+◌, ◌≤◌, ℤ, pos, eq_int, Bool, true, false, not, ◌&&◌, ◌||◌, Option, none, some, List, [],
  ◌∷◌, ◌++◌, append-nil, String, str_eq_self, Text, length, length-append, ltb, leb, ◌==◌,
  if◌then◌else◌, ◌≡◌, refl, sym, ap, ◌∙◌, subst, arith, Option-cases, Bool-cases, inl, inr,
}
use nitejaguar.Relay.{
  Bytes, Status, done, failed, offered, uploading, ready, Session, Chunk, Store, RelayError,
  chunk_exceeds, transfer_is_done, transfer_failed, expected_seq, too_many_chunks, incomplete,
  sha_mismatch, transfer_not_found, store_failed, max_transfer_chunk_bytes, max_transfer_chunks,
  chunks_of, stored_bytes, has_seq, get_session, update_session, status_after, push_chunk,
  append_transfer_chunk, append_found, append_by_status, append_to,
}
use nitejaguar.Relay.Complete.{
  complete_transfer_session, complete_found, complete_by_status, close_session, verify, check_bytes,
  gather, order_by_seq, equal_hex,
}
use nitejaguar.Relay.Complete.Verify.{content, content-append, order-Contiguous, gather-Contiguous}
use nitejaguar.Relay.Final.{get_session-id}
use nitejaguar.Relay.Invariant.{IsRelay, chunks_of-append, has_seq-Contiguous, append-IsRelay}
use nitejaguar.Result.{Result, ok, err}

-- A transfer as its participants see it.
pub record File : Type 0 where
  pub status : Status
  pub size : ℕ
  pub sha256 : Text
  pub count : ℕ
  pub bytes : Bytes

-- A request of a participant: the next chunk with its number, or the completion.
pub data Request : Type 0 where
  append : ℤ → Bytes → Request
  complete : Text → Bool → Request

abbrev pub Answer : Type 0
Answer = Result RelayError Unit

abbrev pub forget : {A : Type 0} → Result RelayError A → Answer
forget (ok a) = ok tt
forget (err e) = err e

-- whether all bytes are there, behind a chunk
abbrev pub settled : ℕ → ℕ → Bytes → Bool
settled size total chunk = (ltb 0 size && leb size total) || (size == 0 && length chunk == 0)

-- a chunk that the file takes
abbrev pub extended : Bytes → File → File
extended chunk f = record f {
  status = if settled f.size (length (f.bytes ++ chunk)) chunk then ready else uploading;
  count = f.count + 1;
  bytes = f.bytes ++ chunk;
}

abbrev pub take_chunk : ℤ → Bytes → File → Answer × File
take_chunk n chunk f =
    if not (eq_int n (pos f.count))
    then (err (expected_seq f.count), f)
    else if leb max_transfer_chunks f.count
    then (err too_many_chunks, f)
    else (ok tt, extended chunk f)

abbrev pub take_by_status : Status → ℤ → Bytes → File → Answer × File
take_by_status done n chunk f = (err transfer_is_done, f)
take_by_status failed n chunk f = (err transfer_failed, f)
take_by_status _ n chunk f = take_chunk n chunk f

module _ (digest : Bytes → Text) where
  abbrev pub close : Text → Bool → File → Answer × File
  close sha via f =
      if via
      then (ok tt, record f { status = done })
      else if not (length f.bytes == f.size)
      then (err (incomplete (length f.bytes)), f)
      else if not (equal_hex (digest f.bytes) f.sha256) || not (equal_hex sha f.sha256)
      then (err sha_mismatch, f)
      else (ok tt, record f { status = done })

  abbrev pub close_by_status : Status → Text → Bool → File → Answer × File
  close_by_status done sha via f = (ok tt, f)
  close_by_status _ sha via f = close sha via f

  -- What a request is to do.
  abbrev pub spec : Request → File → Answer × File
  spec (append n chunk) f =
      if ltb max_transfer_chunk_bytes (length chunk)
      then (err chunk_exceeds, f)
      else take_by_status f.status n chunk f
  spec (complete sha via) f = close_by_status f.status sha via f

  -- What it does to the tables.
  abbrev pub perform : Request → String → Store → Answer × Store
  perform (append n chunk) id s =
      let out = append_transfer_chunk id n chunk s in (forget out.0, out.1)
  perform (complete sha via) id s =
      let out = complete_transfer_session digest id sha via s in (forget out.0, out.1)

abbrev pub file_of : Session → List Chunk → File
file_of row cs = record {
  status = row.status;
  size = row.size;
  sha256 = row.sha256;
  count = length cs;
  bytes = content cs;
}

-- The tables hold the file under the id.
pub record Shows (id : String) (s : Store) (f : File) : Type 0 where
  pub row : Session
  pub found : get_session id s.sessions ≡ some row
  pub same : file_of row (chunks_of id s.chunks) ≡ f
