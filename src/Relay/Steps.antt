-- ===== src/Relay/Steps.antt =====
-- Sequences of the operations of internal/database/transfers.go that write.
use nitejaguar.Base.{ℕ, ℤ, Bool, [], String, Text, ◌≡◌, arith, inl, inr}
use nitejaguar.Relay.{
  Bytes, done, Store, InitRequest, chunks_of, init_transfer_session, append_transfer_chunk,
}
use nitejaguar.Relay.Complete.{complete_transfer_session, post_transfer_signal}
use nitejaguar.Relay.Complete.Verify.{complete-Writes}
use nitejaguar.Relay.Invariant.{IsRelay, SizesFit-update, init-IsRelay, append-IsRelay}

abbrev pub empty_store : Store
empty_store = record { sessions = []; chunks = []; signals = [] }

module _ (digest : Bytes → Text) where
  -- One call of an operation that writes.
  pub data Step (s t : Store) : Type 0 where
    opened : (id : String) (r : InitRequest) → t ≡ (init_transfer_session id r s).1 → Step s t
    appended :
        (id : String) (seq : ℤ) (bytes : Bytes)
        → t ≡ (append_transfer_chunk id seq bytes s).1
        → Step s t
    completed :
        (id : String) (sha : Text) (via : Bool)
        → t ≡ (complete_transfer_session digest id sha via s).1
        → Step s t
    signalled :
        (id from : String) (kind payload : Text) (now : ℕ)
        → t ≡ (post_transfer_signal id from kind payload now s).1
        → Step s t

  pub data Reach (s : Store) : Store → Type 0 where
    here : Reach s s
    next : {t u : Store} → Reach s t → Step t u → Reach s u

  pub signal-Writes :
      (id from : String) (kind payload : Text) (now : ℕ) (s : Store)
      → let t = (post_transfer_signal id from kind payload now s).1 in
        (t.sessions ≡ s.sessions) × (t.chunks ≡ s.chunks)
  unfolding post_transfer_signal
  signal-Writes id from kind payload now s = ground arith

  IsRelay-same :
      {s t : Store} → t.sessions ≡ s.sessions → t.chunks ≡ s.chunks → IsRelay s → IsRelay t
  IsRelay-same p q h = record {
    numbered = λ id. rw q (h.numbered id);
    capped = λ id. rw q (h.capped id);
    sizes = rw p h.sizes;
  }

  pub complete-IsRelay :
      (id : String) (sha : Text) (via : Bool) (s : Store)
      → IsRelay s
      → IsRelay (complete_transfer_session digest id sha via s).1
  complete-IsRelay id sha via s h = elim (complete-Writes digest id sha via s) [
    | inl e ↦ rw e h
    | inr (row, _, _, e) ↦ rw e (record {
      numbered = h.numbered;
      capped = h.capped;
      sizes = SizesFit-update row.id done via s.sessions h.sizes;
    })
  ]

  pub Step-IsRelay : {s t : Store} → Step s t → IsRelay s → IsRelay t
  Step-IsRelay {s} (opened id r e) h = rw e (init-IsRelay id r s h)
  Step-IsRelay {s} (appended id seq bytes e) h = rw e (append-IsRelay id seq bytes s h)
  Step-IsRelay {s} (completed id sha via e) h = rw e (complete-IsRelay id sha via s h)
  Step-IsRelay {s} (signalled id from kind payload now e) h =
      let (p, q) = signal-Writes id from kind payload now s in rw e (IsRelay-same p q h)

  empty-IsRelay : IsRelay empty_store
  unfolding chunks_of
  empty-IsRelay = record { numbered = λ id. tt; capped = λ id. omega arith; sizes = tt }

  -- Whatever sequence of operations starts from empty tables, each transfer's chunks are numbered
  -- 0, 1, … with no gap and are within the caps, and so are the sessions' sizes.
  pub Reach-IsRelay : {t : Store} → Reach empty_store t → IsRelay t
  Reach-IsRelay here = empty-IsRelay
  Reach-IsRelay (next r st) = Step-IsRelay st (Reach-IsRelay r)
