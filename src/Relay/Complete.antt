-- ===== src/Relay/Complete.antt =====
-- internal/database/transfers.go: verifying and completing a session, the chunk and session
-- listings and the signals. The hexadecimal SHA-256 digest is a function of the bytes.
pub mod Verify
use nitejaguar.Base.{
  ℕ, ◌+◌, ℤ, pos, ltb_int, Bool, true, false, not, ◌&&◌, ◌||◌, Option, none, some, List, [], ◌∷◌,
  ◌++◌, String, str_eq, Text, codes, text_eq, trim_space, equal_fold, length, ltb, leb, ◌==◌,
  nat_of, if◌then◌else◌,
}
use nitejaguar.Result.{Result, ok, err}
use nitejaguar.Relay.{
  Bytes, Status, offered, uploading, ready, done, failed, Session, Chunk, Signal, Store, RelayError,
  transfer_not_found, store_failed, chunk_gap, incomplete, sha_mismatch, unknown_kind,
  signal_exceeds, Op, chunks_of, get_session, update_session, transfer_visible_to, max_signal_bytes,
}

unfoldable pub insert_by_seq : Chunk → List Chunk → List Chunk
insert_by_seq c [] = c ∷ []
insert_by_seq c (d ∷ ds) = if leb c.seq d.seq then c ∷ d ∷ ds else d ∷ insert_by_seq c ds

-- Order(ent.Asc(transferchunk.FieldSeq))
unfoldable pub order_by_seq : List Chunk → List Chunk
unfolding insert_by_seq
order_by_seq [] = []
order_by_seq (c ∷ cs) = insert_by_seq c (order_by_seq cs)

-- func equalHex
unfoldable pub equal_hex : Text → Text → Bool
equal_hex a b = equal_fold (trim_space a) (trim_space b)

-- The loop over the ordered rows: what was hashed so far, or the first gap. The running total of
-- the loop is the length of what was hashed.
unfoldable pub gather : ℕ → Bytes → List Chunk → Result RelayError Bytes
gather i hashed [] = ok hashed
gather i hashed (c ∷ cs) =
    if not (c.seq == i) then err (chunk_gap i) else gather (i + 1) (hashed ++ c.bytes) cs

module _ (digest : Bytes → Text) where
  -- the tests behind the loop
  unfoldable pub check_bytes : Session → Text → Bytes → Result RelayError Unit
  check_bytes row sha hashed =
      if not (length hashed == row.size)
      then err (incomplete (length hashed))
      else if not (equal_hex (digest hashed) row.sha256) || not (equal_hex sha row.sha256)
      then err sha_mismatch
      else ok tt

  unfoldable pub verify : Session → Text → Result RelayError Bytes → Result RelayError Unit
  verify row sha (err e) = err e
  verify row sha (ok hashed) = check_bytes row sha hashed

  unfoldable pub close_session : Session → Bool → Result RelayError Unit → Op Session
  close_session row via (err e) s = (err e, s)
  close_session row via (ok _) s = (
    ok (record row { status = done; via_p2p = via }),
    record s { sessions = update_session row.id done via s.sessions },
  )

  unfoldable pub complete_by_status : Status → Session → Text → Bool → Op Session
  complete_by_status done row sha via s = (ok row, s)
  complete_by_status _ row sha via s =
      close_session row via
        (if via
          then ok tt
          else verify row sha (gather 0 [] (order_by_seq (chunks_of row.id s.chunks))))
        s

  unfoldable pub complete_found : Option Session → Text → Bool → Op Session
  complete_found none sha via s = (err transfer_not_found, s)
  complete_found (some row) sha via s = complete_by_status row.status row sha via s

  -- func CompleteTransferSession
  unfoldable pub complete_transfer_session : String → Text → Bool → Op Session
  unfolding verify close_session complete_by_status complete_found
  complete_transfer_session id sha via s = complete_found (get_session id s.sessions) sha via s

unfoldable pub from_seq : ℤ → List Chunk → List Chunk
from_seq n [] = []
from_seq n (c ∷ cs) = if ltb_int (pos c.seq) n then from_seq n cs else c ∷ from_seq n cs

-- func ListTransferChunks
unfoldable pub list_transfer_chunks : String → ℤ → Store → List Chunk
unfolding from_seq
list_transfer_chunks id n s = order_by_seq (from_seq n (chunks_of id s.chunks))

-- StatusIn("offered", "uploading", "ready")
abbrev pub is_open : Status → Bool
is_open done = false
is_open failed = false
is_open _ = true

-- func ListPendingTransfers
unfoldable pub pending_of : String → List String → String → List Session → List Session
pending_of client_id tags tenant_id [] = []
pending_of client_id tags tenant_id (r ∷ rs) =
    let rest = pending_of client_id tags tenant_id rs in
    if not (is_open r.status)
    then rest
    else if not (transfer_visible_to r client_id tags tenant_id)
    then rest
    else if str_eq r.sender_client_id client_id && not (str_eq r.receiver_client_id client_id)
    then rest
    else r ∷ rest

abbrev pub list_pending_transfers : String → List String → String → Store → List Session
list_pending_transfers client_id tags tenant_id s = pending_of client_id tags tenant_id s.sessions

-- case "offer", "answer", "ice", "bye"
abbrev pub is_kind : Text → Bool
is_kind k =
    text_eq k (codes "offer")
    || text_eq k (codes "answer")
    || text_eq k (codes "ice")
    || text_eq k (codes "bye")

-- func PostTransferSignal
unfoldable pub post_transfer_signal : String → String → Text → Text → ℕ → Op Signal
post_transfer_signal id from kind payload now s =
    let row : Signal = record {
      transfer_id = id;
      from_client_id = from;
      kind = kind;
      payload = payload;
      created_at = now;
    } in
    if not (is_kind kind)
    then (err (unknown_kind kind), s)
    else if ltb max_signal_bytes (length payload)
    then (err signal_exceeds, s)
    else (ok row, record s { signals = s.signals ++ row ∷ [] })

-- func ListTransferSignals, before the rows are put in the order of their creation
signals_since : String → ℕ → List Signal → List Signal
signals_since id since [] = []
signals_since id since (g ∷ gs) =
    if str_eq g.transfer_id id && ltb since g.created_at
    then g ∷ signals_since id since gs
    else signals_since id since gs

insert_by_time : Signal → List Signal → List Signal
insert_by_time g [] = g ∷ []
insert_by_time g (h ∷ hs) =
    if leb g.created_at h.created_at then g ∷ h ∷ hs else h ∷ insert_by_time g hs

order_by_time : List Signal → List Signal
order_by_time [] = []
order_by_time (g ∷ gs) = insert_by_time g (order_by_time gs)

unfoldable pub list_transfer_signals : String → ℕ → Store → List Signal
unfolding signals_since insert_by_time order_by_time
list_transfer_signals id since s = order_by_time (signals_since id since s.signals)
