-- ===== src/Relay/Frame.antt =====
-- The operations of internal/database/transfers.go on one session, and the rows of another.
use nitejaguar.Base.{ℕ, ℤ, Bool, some, List, String, Text, ◌≡◌, ◌≢◌, ◌∙◌, sym, inl, inr}
use nitejaguar.Relay.{
  Bytes, done, Session, Chunk, Store, InitRequest, chunks_of, get_session, init_transfer_session,
  append_transfer_chunk,
}
use nitejaguar.Relay.Complete.{complete_transfer_session, post_transfer_signal}
use nitejaguar.Relay.Complete.Verify.{complete-Writes}
use nitejaguar.Relay.Invariant.{init-Writes, append-Writes}
use nitejaguar.Relay.Steps.{signal-Writes}
use nitejaguar.Relay.Final.{
  get_session-id, get_session-append, get_session-update_ne, chunks_of-push_ne,
}

-- The session `id` has the row `row` and the chunks `cs`.
pub record Holds (id : String) (row : Session) (cs : List Chunk) (s : Store) : Type 0 where
  pub found : get_session id s.sessions ≡ some row
  pub kept : chunks_of id s.chunks ≡ cs

module _ {id : String} {row : Session} {cs : List Chunk} where
  pub init-Holds :
      (j : String) (r : InitRequest) (s : Store)
      → Holds id row cs s
      → Holds id row cs (init_transfer_session j r s).1
  init-Holds j r s h = elim (init-Writes j r s) [
    | inl e ↦ rw e h
    | inr (e, _) ↦
        rw e (record { found = get_session-append id s.sessions _ row h.found; kept = h.kept })
  ]

  pub append-Holds :
      (j : String) (seq : ℤ) (bytes : Bytes) (s : Store)
      → j ≢ id
      → Holds id row cs s
      → Holds id row cs (append_transfer_chunk j seq bytes s).1
  append-Holds j seq bytes s ne h = elim (append-Writes j seq bytes s) [
    | inl e ↦ rw e h
    | inr (r, found, _, e) ↦
        let other = λ (p : r.id ≡ id). ne (sym (get_session-id j s.sessions r found) ∙ p) in
        rw e (record {
          found = get_session-update_ne id r.id _ _ s.sessions other ∙ h.found;
          kept = chunks_of-push_ne id _ s.chunks other ∙ h.kept;
        })
  ]

  pub complete-Holds :
      (digest : Bytes → Text) (j : String) (sha : Text) (via : Bool) (s : Store)
      → j ≢ id
      → Holds id row cs s
      → Holds id row cs (complete_transfer_session digest j sha via s).1
  complete-Holds digest j sha via s ne h = elim (complete-Writes digest j sha via s) [
    | inl e ↦ rw e h
    | inr (r, found, _, e) ↦
        let other = λ (p : r.id ≡ id). ne (sym (get_session-id j s.sessions r found) ∙ p) in
        rw e (record {
          found = get_session-update_ne id r.id done via s.sessions other ∙ h.found;
          kept = h.kept;
        })
  ]

  pub signal-Holds :
      (digest : Bytes → Text) (j from : String) (kind payload : Text) (now : ℕ) (s : Store)
      → Holds id row cs s
      → Holds id row cs (post_transfer_signal j from kind payload now s).1
  signal-Holds digest j from kind payload now s h =
      let (p, q) = signal-Writes digest j from kind payload now s in
      record { found = rw p h.found; kept = rw q h.kept }
