-- ===== src/Relay/Complete/Verify.antt =====
-- CompleteTransferSession (internal/database/transfers.go): the tests on the bytes, and the writes.
use nitejaguar.Base.{
  ℕ, ◌+◌, Bool, true, false, some, List, [], ◌∷◌, ◌++◌, String, Text, length, length-append,
  append-nil, append_assoc, ◌≡◌, ◌≢◌, ◌↔◌, refl, arith, ◌∙◌, inl, inr, ◌⊎◌, ==_self, Option-cases,
}
use nitejaguar.Result.{Result, ok, err}
use nitejaguar.Relay.{
  Bytes, Status, done, Session, Chunk, Store, RelayError, chunks_of, stored_bytes, get_session,
  update_session,
}
use nitejaguar.Relay.Complete.{
  order_by_seq, insert_by_seq, gather, check_bytes, verify, close_session, complete_by_status,
  complete_found, complete_transfer_session, equal_hex,
}
use nitejaguar.Relay.Invariant.{Contiguous, IsRelay}

-- The bytes of a transfer, in the order of its chunks.
unfoldable pub content : List Chunk → Bytes
content [] = []
content (c ∷ cs) = c.bytes ++ content cs

pub content-append : (xs ys : List Chunk) → content (xs ++ ys) ≡ content xs ++ content ys
unfolding content
content-append [] ys = refl
content-append (c ∷ cs) ys = simp (content-append cs ys, append_assoc)

-- the stored bytes are the length of the content
pub stored_bytes-content : (cs : List Chunk) → stored_bytes cs ≡ length (content cs)
unfolding stored_bytes content
stored_bytes-content [] = refl
stored_bytes-content (c ∷ cs) = rw length-append (omega (arith, stored_bytes-content cs))

insert_first :
    (i : ℕ) (c : Chunk) (cs : List Chunk)
    → c.seq ≡ i
    → Contiguous (i + 1) cs
    → insert_by_seq c cs ≡ c ∷ cs
unfolding insert_by_seq
insert_first i c [] e h = refl
insert_first i c (d ∷ ds) e h = ground arith

-- Numbered chunks are in order already.
pub order-Contiguous : (i : ℕ) (cs : List Chunk) → Contiguous i cs → order_by_seq cs ≡ cs
unfolding order_by_seq
order-Contiguous i [] h = refl
order-Contiguous i (c ∷ cs) h = rw (order-Contiguous (i + 1) cs h.2) (insert_first i c cs h.0 h.2)

pub gather-Contiguous :
    (i : ℕ) (hashed : Bytes) (cs : List Chunk)
    → Contiguous i cs
    → gather i hashed cs ≡ ok (hashed ++ content cs)
unfolding gather content
gather-Contiguous i hashed [] h = rw append-nil
gather-Contiguous i hashed (c ∷ cs) h =
    rw (h.0, ==_self) (rw (gather-Contiguous (i + 1) (hashed ++ c.bytes) cs h.2) (rw append_assoc))

module _ (digest : Bytes → Text) where
  -- The bytes have the announced size and digest, and the caller names that digest.
  abbrev pub Matches : Session → Text → Bytes → Type 0
  Matches row sha bytes =
      (length bytes ≡ row.size)
      × (equal_hex (digest bytes) row.sha256 ≡ true)
      × (equal_hex sha row.sha256 ≡ true)

  check_bytes_iff :
      (row : Session) (sha : Text) (bytes : Bytes)
      → (check_bytes digest row sha bytes ≡ ok tt) ↔ Matches row sha bytes
  unfolding check_bytes
  check_bytes_iff row sha bytes = ground arith

  -- The result of completing through the relay a session that is not done.
  abbrev closed_row : Session → Session
  closed_row row = record row { status = done; via_p2p = false }

  read_chunks :
      (row : Session) (sha : Text) (s : Store)
      → IsRelay s
      → verify digest row sha (gather 0 [] (order_by_seq (chunks_of row.id s.chunks)))
        ≡ check_bytes digest row sha (content (chunks_of row.id s.chunks))
  unfolding verify
  read_chunks row sha s h =
      let n = h.numbered row.id in rw (order-Contiguous 0 _ n) (rw (gather-Contiguous 0 [] _ n))

  open_status :
      (status : Status) (row : Session) (sha : Text) (s : Store)
      → status ≢ done
      → complete_by_status digest status row sha false s
        ≡ close_session digest row false
            (verify digest row sha (gather 0 [] (order_by_seq (chunks_of row.id s.chunks))))
            s
  unfolding complete_by_status
  open_status done row sha s h = absurd (h refl)
  open_status _ row sha s h = refl

  -- Completing through the relay a session that is not done comes down to the tests on the bytes
  -- of its chunks.
  complete_open :
      (id : String) (sha : Text) (s : Store) (row : Session)
      → IsRelay s
      → get_session id s.sessions ≡ some row
      → row.status ≢ done
      → complete_transfer_session digest id sha false s
        ≡ close_session digest row false
            (check_bytes digest row sha (content (chunks_of row.id s.chunks)))
            s
  unfolding complete_transfer_session
  complete_open id sha s row h e o =
      rw (e, complete_found) (open_status row.status row sha s o ∙ rw (read_chunks row sha s h))

  -- In well-formed tables, a session that is not done is completed through the relay exactly when
  -- the bytes of its chunks, in order, have the announced size and digest and the caller names
  -- that digest; it is then marked done, and nothing else changes but its rows.
  pub complete_iff :
      (id : String) (sha : Text) (s : Store) (row : Session)
      → IsRelay s
      → get_session id s.sessions ≡ some row
      → row.status ≢ done
      → (complete_transfer_session digest id sha false s ≡ (
        ok (closed_row row),
        record s { sessions = update_session row.id done false s.sessions },
      ))
        ↔ Matches row sha (content (chunks_of row.id s.chunks))
  unfolding close_session
  complete_iff id sha s row h e o = rw (complete_open id sha s row h e o) (
      decided (check_bytes digest row sha (content (chunks_of row.id s.chunks)))
        (check_bytes_iff row sha (content (chunks_of row.id s.chunks))))
    where
      decided :
          (r : Result RelayError Unit)
          → ((r ≡ ok tt) ↔ Matches row sha (content (chunks_of row.id s.chunks)))
          → (close_session digest row false r s ≡ (
            ok (closed_row row),
            record s { sessions = update_session row.id done false s.sessions },
          ))
            ↔ Matches row sha (content (chunks_of row.id s.chunks))
      decided (ok _) m = ((λ _. m.0 refl), (λ _. refl))
      decided (err x) m = ((λ p. cc p), (λ q. cc (m.1 q)))

  -- A completion that is refused changes nothing.
  pub complete_refused :
      (id : String) (sha : Text) (via : Bool) (s : Store) {x : RelayError}
      → (complete_transfer_session digest id sha via s).0 ≡ err x
      → (complete_transfer_session digest id sha via s).1 ≡ s
  unfolding complete_transfer_session
  complete_refused id sha via s h = ground arith

  complete_row-Writes :
      (row : Session) (sha : Text) (via : Bool) (s : Store)
      → ((complete_found digest (some row) sha via s).1 ≡ s)
        ⊎ ((row.status ≢ done)
            × ((complete_found digest (some row) sha via s).1
                ≡ record s { sessions = update_session row.id done via s.sessions }))
  unfolding complete_found complete_by_status close_session
  complete_row-Writes row sha via s = ground arith

  -- The tables behind CompleteTransferSession: those before it, or with a session that was not
  -- done marked done.
  pub complete-Writes :
      (id : String) (sha : Text) (via : Bool) (s : Store)
      → ((complete_transfer_session digest id sha via s).1 ≡ s)
        ⊎ ((row : Session) × (get_session id s.sessions ≡ some row)
            × (row.status ≢ done)
            × ((complete_transfer_session digest id sha via s).1
                ≡ record s { sessions = update_session row.id done via s.sessions }))
  unfolding complete_transfer_session
  complete-Writes id sha via s = elim (Option-cases (get_session id s.sessions)) [
    | inl e ↦ inl (unfold complete_found in ground arith)
    | inr (row, e) ↦ elim (complete_row-Writes row sha via s) [
      | inl same ↦ inl (rw e same)
      | inr (o, w) ↦ inr (row, e, o, rw e w)
    ]
  ]
