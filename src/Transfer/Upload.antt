-- ===== src/Transfer/Upload.antt =====
-- One upload of a chunk by a session's sender: what it returns and what it leaves.
use nitejaguar.Base.{
  ℕ, ◌+◌, ◌≤◌, ◌<◌, pos, Option, some, [], ◌∷◌, ◌++◌, String, str_eq_self, Text, length,
  length-append, append-nil, ◌≡◌, sym, ap, arith, ◌∙◌,
}
use nitejaguar.Result.{ok}
use nitejaguar.Tenants.{normalize_tenant}
use nitejaguar.Registry.{Client, transfer_caller}
use nitejaguar.Relay.{
  Bytes, Status, ready, Session, chunks_of, get_session, stored_bytes, push_chunk,
  append_transfer_chunk, max_transfer_chunks, max_transfer_chunk_bytes, transfer_visible_to,
  status_after,
}
use nitejaguar.Relay.Accept.{IsLive, append_iff}
use nitejaguar.Relay.Complete.Verify.{content, content-append, stored_bytes-content}
use nitejaguar.Relay.Final.{get_session-update_self}
use nitejaguar.Relay.Invariant.{IsRelay, append-IsRelay, chunks_of-append}
use nitejaguar.Server.{Server, session_for, upload_chunk}

-- A sender and one of its sessions, over the outside operations that an upload uses.
pub record Delivery : Type 0 where
  pub hash_token : String → String
  pub digest : Bytes → Text
  pub encode : Bytes → Text
  pub decode : Text → Option Bytes
  pub decode-encode : (b : Bytes) → decode (encode b) ≡ some b
  pub token : String
  pub caller : Client
  pub row : Session
  pub sender : row.sender_client_id ≡ caller.id
  pub same_tenant : normalize_tenant row.tenant_id ≡ normalize_tenant caller.tenant_id

module _ (d : Delivery) where
  open d use {
    hash_token, digest, encode, decode, decode-encode, token, caller, row, sender, same_tenant,
  }

  -- The sender is known, and the session holds `n` chunks with these bytes and lets more in.
  pub record Holding (n : ℕ) (bytes : Bytes) (s : Server) : Type 0 where
    pub status : Status
    pub live : IsLive status
    pub known : transfer_caller hash_token token s.registry.clients ≡ some caller
    pub found : get_session row.id s.relay.sessions ≡ some (record row { status = status })
    pub count : length (chunks_of row.id s.relay.chunks) ≡ n
    pub held : content (chunks_of row.id s.relay.chunks) ≡ bytes
    pub valid : IsRelay s.relay
    pub completes : 1 ≤ n → row.size ≡ length bytes → status ≡ ready

  -- behind one upload
  abbrev pub pushed : ℕ → Bytes → Status → Server → Server
  pushed n chunk status s = record s {
    relay = push_chunk (record row { status = status }) n chunk s.relay;
    audit = s.audit ++ [];
  }

  chunks_of-pushed :
      (n : ℕ) (chunk : Bytes) (status : Status) (s : Server)
      → chunks_of row.id (pushed n chunk status s).relay.chunks
        ≡ chunks_of row.id s.relay.chunks
          ++ (record { transfer_id = row.id; seq = n; bytes = chunk } ∷ [])
  unfolding chunks_of
  chunks_of-pushed n chunk status s = rw chunks_of-append (rw (str_eq_self row.id))

  pub session-ok :
      (n : ℕ) (bytes : Bytes) (s : Server) (h : Holding n bytes s)
      → session_for hash_token digest decode token row.id s
        ≡ ok (caller, record row { status = h.status })
  unfolding session_for transfer_visible_to
  session-ok n bytes s h =
      rw (h.known, h.found)
        (rw (
          same_tenant,
          str_eq_self (normalize_tenant caller.tenant_id),
          sender,
          str_eq_self caller.id,
        ))

  accepted :
      (n : ℕ) (bytes chunk : Bytes) (s : Server) (h : Holding n bytes s)
      → n < max_transfer_chunks
      → length chunk ≤ max_transfer_chunk_bytes
      → append_transfer_chunk row.id (pos n) chunk s.relay
        ≡ (ok (n + 1), push_chunk (record row { status = h.status }) n chunk s.relay)
  accepted n bytes chunk s h room fits = rw h.count at (
      (append_iff row.id (record row { status = h.status }) (pos n) chunk s.relay h.valid h.found).1
        (fits, h.live, ap pos (sym h.count), omega (arith, h.count)))

  pub upload-ok :
      (n : ℕ) (bytes chunk : Bytes) (s : Server) (h : Holding n bytes s)
      → n < max_transfer_chunks
      → length chunk ≤ max_transfer_chunk_bytes
      → upload_chunk hash_token digest decode token row.id (pos n) (encode chunk) s
        ≡ (ok (n + 1), pushed n chunk h.status s)
  unfolding upload_chunk
  upload-ok n bytes chunk s h room fits =
      rw (session-ok n bytes s h, sender, str_eq_self caller.id)
        (rw decode-encode (rw (accepted n bytes chunk s h room fits)))

  -- the status behind an upload, and that it lets more in
  abbrev status_then : Bytes → Bytes → Status
  status_then bytes chunk = status_after (length bytes + length chunk) row.size chunk

  status_then-IsLive : (bytes chunk : Bytes) → IsLive (status_then bytes chunk)
  status_then-IsLive bytes chunk = ground arith

  status_then-ready :
      (bytes chunk : Bytes) → row.size ≡ length (bytes ++ chunk) → status_then bytes chunk ≡ ready
  status_then-ready bytes chunk e = ground (arith, length-append bytes chunk)

  content-pushed :
      (n : ℕ) (bytes chunk : Bytes) (status : Status) (s : Server)
      → content (chunks_of row.id s.relay.chunks) ≡ bytes
      → content (chunks_of row.id (pushed n chunk status s).relay.chunks) ≡ bytes ++ chunk
  unfolding content
  content-pushed n bytes chunk status s e =
      rw (chunks_of-pushed n chunk status s) (rw content-append (rw (e, append-nil chunk)))

  stored-pushed :
      (n : ℕ) (bytes chunk : Bytes) (status : Status) (s : Server)
      → content (chunks_of row.id s.relay.chunks) ≡ bytes
      → stored_bytes (chunks_of row.id (pushed n chunk status s).relay.chunks)
        ≡ length bytes + length chunk
  stored-pushed n bytes chunk status s e =
      stored_bytes-content _
      ∙ ap (λ (b : Bytes). length b) (content-pushed n bytes chunk status s e)
      ∙ length-append bytes chunk

  pub pushed-Holding :
      (n : ℕ) (bytes chunk : Bytes) (s : Server) (h : Holding n bytes s)
      → n < max_transfer_chunks
      → length chunk ≤ max_transfer_chunk_bytes
      → Holding (n + 1) (bytes ++ chunk) (pushed n chunk h.status s)
  pushed-Holding n bytes chunk s h room fits = record {
    status = status_then bytes chunk;
    live = status_then-IsLive bytes chunk;
    known = h.known;
    found = rw (stored-pushed n bytes chunk h.status s h.held) (
        get_session-update_self row.id (status_then bytes chunk) row.via_p2p s.relay.sessions
          (record row { status = h.status }) h.found);
    count = rw (chunks_of-pushed n chunk h.status s) (rw length-append (omega (arith, h.count)));
    held = content-pushed n bytes chunk h.status s h.held;
    valid =
        rw (accepted n bytes chunk s h room fits) at
          (append-IsRelay row.id (pos n) chunk s.relay h.valid);
    completes = λ _ e. status_then-ready bytes chunk e;
  }
