-- ===== src/Relay/Accept.antt =====
-- When AppendTransferChunk (internal/database/transfers.go) accepts a chunk.
use nitejaguar.Base.{◌+◌, ◌≤◌, ◌<◌, ℤ, pos, false, some, String, length, ◌≡◌, ◌≢◌, ◌↔◌, arith}
use nitejaguar.Result.{ok}
use nitejaguar.Relay.{
  Bytes, Status, done, failed, Session, Store, chunks_of, has_seq, get_session, push_chunk,
  append_transfer_chunk, append_to, max_transfer_chunks, max_transfer_chunk_bytes,
}
use nitejaguar.Relay.Invariant.{IsRelay, has_seq-Contiguous}

-- The status lets chunks in.
abbrev pub IsLive : Status → Type 0
IsLive st = (st ≢ done) × (st ≢ failed)

append_to-ok :
    (row : Session) (bytes : Bytes) (s : Store)
    → has_seq (length (chunks_of row.id s.chunks)) (chunks_of row.id s.chunks) ≡ false
    → (seq : ℤ)
    → ((append_to row seq bytes s) ≡ (
      ok (length (chunks_of row.id s.chunks) + 1),
      push_chunk row (length (chunks_of row.id s.chunks)) bytes s,
    ))
      ↔ ((seq ≡ pos (length (chunks_of row.id s.chunks)))
          × (length (chunks_of row.id s.chunks) < max_transfer_chunks))
unfolding append_to
append_to-ok row bytes s fresh seq = ground arith

-- In well-formed tables, AppendTransferChunk stores a chunk for a session exactly when the chunk is
-- within its cap, the session is neither done nor failed, the number is the count of the chunks
-- that are stored, and that count is below the cap on chunks; it then returns the new count.
pub append_iff :
    (id : String) (row : Session) (seq : ℤ) (bytes : Bytes) (s : Store)
    → IsRelay s
    → get_session id s.sessions ≡ some row
    → (append_transfer_chunk id seq bytes s ≡ (
      ok (length (chunks_of row.id s.chunks) + 1),
      push_chunk row (length (chunks_of row.id s.chunks)) bytes s,
    ))
      ↔ ((length bytes ≤ max_transfer_chunk_bytes)
          × IsLive row.status
          × (seq ≡ pos (length (chunks_of row.id s.chunks)))
          × (length (chunks_of row.id s.chunks) < max_transfer_chunks))
unfolding append_transfer_chunk
append_iff id row seq bytes s h e =
    let fresh =
      has_seq-Contiguous 0 (length (chunks_of row.id s.chunks)) (chunks_of row.id s.chunks)
        (h.numbered row.id) (omega arith) in
    ground arith
