-- ===== src/Relay/Final.antt =====
-- The operations of internal/database/transfers.go and a session that is done.
use nitejaguar.Base.{
  some, List, [], ◌∷◌, ◌++◌, String, eq_iff, Text, Bool, append-nil, length, ◌≡◌, ◌≢◌, refl, arith,
  ◌∙◌, inl, inr,
}
use nitejaguar.Relay.{
  Bytes, Status, done, Session, Chunk, Store, chunks_of, get_session, update_session, push_chunk,
}
use nitejaguar.Relay.Complete.Verify.{complete-Writes}
use nitejaguar.Relay.Invariant.{init-Writes, append-Writes, chunks_of-append}
use nitejaguar.Relay.Steps.{
  Step, opened, appended, completed, signalled, Reach, here, next, signal-Writes,
}

pub get_session-id :
    (id : String) (rs : List Session) (row : Session) → get_session id rs ≡ some row → row.id ≡ id
unfolding get_session
get_session-id id [] row e = cc
get_session-id id (r ∷ rs) row e = ground (arith, eq_iff r.id id, get_session-id id rs row)

pub get_session-update_self :
    (id : String) (status : Status) (via : Bool) (rs : List Session) (row : Session)
    → get_session id rs ≡ some row
    → get_session id (update_session id status via rs)
      ≡ some (record row { status = status; via_p2p = via })
unfolding get_session update_session
get_session-update_self id status via [] row e = cc
get_session-update_self id status via (r ∷ rs) row e =
    ground (arith, get_session-update_self id status via rs row)

pub get_session-append :
    (id : String) (rs : List Session) (r row : Session)
    → get_session id rs ≡ some row
    → get_session id (rs ++ r ∷ []) ≡ some row
unfolding get_session
get_session-append id [] r row e = cc
get_session-append id (x ∷ rs) r row e = ground (arith, get_session-append id rs r row)

pub get_session-update_ne :
    (id j : String) (status : Status) (via : Bool) (rs : List Session)
    → j ≢ id
    → get_session id (update_session j status via rs) ≡ get_session id rs
unfolding get_session update_session
get_session-update_ne id j status via [] ne = refl
get_session-update_ne id j status via (r ∷ rs) ne =
    ground (arith, get_session-update_ne id j status via rs, eq_iff r.id j, eq_iff r.id id)

pub chunks_of-push_ne :
    (id : String) (c : Chunk) (cs : List Chunk)
    → c.transfer_id ≢ id
    → chunks_of id (cs ++ c ∷ []) ≡ chunks_of id cs
chunks_of-push_ne id c cs ne =
    rw chunks_of-append
      (unfold chunks_of in ground (arith, eq_iff c.transfer_id id, append-nil (chunks_of id cs)))

-- The session `id` has the row `row`, which is done, and the chunks `cs`.
pub record IsDone (id : String) (row : Session) (cs : List Chunk) (s : Store) : Type 0 where
  pub found : get_session id s.sessions ≡ some row
  pub closed : row.status ≡ done
  pub kept : chunks_of id s.chunks ≡ cs

module _ (id : String) (row : Session) (cs : List Chunk) where
  -- a session that is not done is another one
  other :
      (j : String) (s : Store) (r : Session)
      → IsDone id row cs s
      → get_session j s.sessions ≡ some r
      → r.status ≢ done
      → r.id ≢ id
  other j s r d e o p =
      let q = get_session-id j s.sessions r e in o (cc (d.found, d.closed, e, q, p))

  append-IsDone :
      (j : String) (s : Store) (bytes : Bytes) (r : Session)
      → IsDone id row cs s
      → get_session j s.sessions ≡ some r
      → r.status ≢ done
      → IsDone id row cs (push_chunk r (length (chunks_of r.id s.chunks)) bytes s)
  append-IsDone j s bytes r d e o =
      let ne = other j s r d e o in
      record {
        found = get_session-update_ne id r.id _ _ s.sessions ne ∙ d.found;
        closed = d.closed;
        kept = chunks_of-push_ne id _ s.chunks ne ∙ d.kept;
      }

  complete-IsDone :
      (j : String) (via : Bool) (s : Store) (r : Session)
      → IsDone id row cs s
      → get_session j s.sessions ≡ some r
      → r.status ≢ done
      → IsDone id row cs (record s { sessions = update_session r.id done via s.sessions })
  complete-IsDone j via s r d e o = record {
    found = get_session-update_ne id r.id done via s.sessions (other j s r d e o) ∙ d.found;
    closed = d.closed;
    kept = d.kept;
  }

  Step-IsDone :
      (digest : Bytes → Text) {s t : Store}
      → Step digest s t
      → IsDone id row cs s
      → IsDone id row cs t
  Step-IsDone digest {s} (opened j r e) d = elim (init-Writes j r s) [
    | inl same ↦ rw (e, same) d
    | inr (w, _) ↦
        rw (e, w)
          (record {
            found = get_session-append id s.sessions _ row d.found;
            closed = d.closed;
            kept = d.kept;
          })
  ]
  Step-IsDone digest {s} (appended j seq bytes e) d = elim (append-Writes j seq bytes s) [
    | inl same ↦ rw (e, same) d
    | inr (r, f, o, w) ↦ rw (e, w) (append-IsDone j s bytes r d f o)
  ]
  Step-IsDone digest {s} (completed j sha via e) d = elim (complete-Writes digest j sha via s) [
    | inl same ↦ rw (e, same) d
    | inr (r, f, o, w) ↦ rw (e, w) (complete-IsDone j via s r d f o)
  ]
  Step-IsDone digest {s} (signalled j from kind payload now e) d =
      let (p, q) = signal-Writes digest j from kind payload now s in
      rw e (record { found = rw p d.found; closed = d.closed; kept = rw q d.kept })

  -- Once a session is done, no sequence of operations changes its row or its chunks.
  pub Reach-IsDone :
      (digest : Bytes → Text) {s t : Store}
      → Reach digest s t
      → IsDone id row cs s
      → IsDone id row cs t
  Reach-IsDone digest here d = d
  Reach-IsDone digest (next r st) d = Step-IsDone digest st (Reach-IsDone digest r d)
