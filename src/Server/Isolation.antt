-- ===== src/Server/Isolation.antt =====
-- The transfer handlers (internal/server/transfers.go) and the tenants of their callers.
use nitejaguar.Base.{
  ℕ, ℤ, Bool, not, ◌&&◌, Bool-cases, Option, none, some, List, String, str_eq, eq_iff, Text, ◌≡◌,
  ◌≢◌, refl, arith, inl, inr, ◌⊎◌,
}
use nitejaguar.Result.{Result, ok, err, Result-cases}
use nitejaguar.Tenants.{normalize_tenant}
use nitejaguar.Registry.{Client, transfer_caller}
use nitejaguar.Relay.{
  Bytes, RelayError, Store, Session, Chunk, get_session, transfer_visible_to, append_transfer_chunk,
  init_transfer_session,
}
use nitejaguar.Relay.Complete.{complete_transfer_session, post_transfer_signal}
use nitejaguar.Relay.Frame.{Holds, init-Holds, append-Holds, complete-Holds, signal-Holds}
use nitejaguar.Server.{
  Server, Audit, with_relay, InitBody, request_of, init_by, init_transfer, session_for,
  upload_chunk, store_decoded, complete_transfer, post_signal,
}

-- A request that may write, with its token.
pub data Call : Type 0 where
  init_call : String → String → InitBody → Call
  upload_call : String → String → ℤ → Text → Call
  complete_call : String → String → Text → Bool → Call
  signal_call : String → String → Text → Text → ℕ → Call

abbrev pub token_of : Call → String
token_of (init_call token id b) = token
token_of (upload_call token id seq data_b64) = token
token_of (complete_call token id sha via) = token
token_of (signal_call token id kind payload now) = token

module _ (hash_token : String → String) (digest : Bytes → Text) (decode : Text → Option Bytes) where
  abbrev pub serve : Call → Server → Server
  serve (init_call token id b) s = (init_transfer hash_token digest decode token id b s).1
  serve (upload_call token id seq data_b64) s =
      (upload_chunk hash_token digest decode token id seq data_b64 s).1
  serve (complete_call token id sha via) s =
      (complete_transfer hash_token digest decode token id sha via s).1
  serve (signal_call token id kind payload now) s =
      (post_signal hash_token digest decode token id kind payload now s).1

  -- What a handler that gets past the shared guard knows.
  session_for-Visible :
      (token id : String) (s : Server) (caller : Client) (row : Session)
      → session_for hash_token digest decode token id s ≡ ok (caller, row)
      → (transfer_caller hash_token token s.registry.clients ≡ some caller)
        × (get_session id s.relay.sessions ≡ some row)
        × (normalize_tenant row.tenant_id ≡ normalize_tenant caller.tenant_id)
  unfolding session_for transfer_visible_to
  session_for-Visible token id s caller row e =
      ground (arith, eq_iff (normalize_tenant row.tenant_id) (normalize_tenant caller.tenant_id))

  with_relay-Holds :
      {A B : Type 0} {id : String} {row : Session} {cs : List Chunk}
      (p : Result RelayError A × Store) (f : A → B) (log : A → List Audit) (s : Server)
      → Holds id row cs p.1
      → Holds id row cs (with_relay p f log s).1.relay
  with_relay-Holds (err e, t) f log s h = h
  with_relay-Holds (ok a, t) f log s h = h

  module _ (id : String) (row : Session) (cs : List Chunk) where
    store_decoded-Holds :
        (raw : Option Bytes) (j : String) (seq : ℤ) (s : Server)
        → j ≢ id
        → Holds id row cs s.relay
        → Holds id row cs (store_decoded hash_token digest decode raw j seq s).1.relay
    unfolding store_decoded
    store_decoded-Holds none j seq s ne h = h
    store_decoded-Holds (some raw) j seq s ne h =
        with_relay-Holds (append_transfer_chunk j seq raw s.relay) _ _ s
          (append-Holds j seq raw s.relay ne h)

    -- The caller of a request is of another tenant than the session.
    abbrev Foreign : String → Server → Type 0
    Foreign token s =
        (caller : Client)
        → transfer_caller hash_token token s.registry.clients ≡ some caller
        → normalize_tenant row.tenant_id ≢ normalize_tenant caller.tenant_id

    -- a session that the caller gets to is not the foreign one
    other_session :
        (token j : String) (s : Server) (caller : Client) (r : Session)
        → Foreign token s
        → Holds id row cs s.relay
        → session_for hash_token digest decode token j s ≡ ok (caller, r)
        → j ≢ id
    other_session token j s caller r foreign h e p =
        let (known, found, same) = session_for-Visible token j s caller r e in
        foreign caller known (cc (found, h.found, same, p))

    upload-Holds :
        (token j : String) (seq : ℤ) (data_b64 : Text) (s : Server)
        → Foreign token s
        → Holds id row cs s.relay
        → Holds id row cs (upload_chunk hash_token digest decode token j seq data_b64 s).1.relay
    unfolding upload_chunk
    upload-Holds token j seq data_b64 s foreign h =
        elim (Result-cases (session_for hash_token digest decode token j s)) [
          | inr (x, e) ↦ rw e h
          | inl ((caller, r), e) ↦
              rw e (elim (Bool-cases (not (str_eq r.sender_client_id caller.id))) [
                | inl refused ↦ rw refused h
                | inr sender ↦ rw sender (
                    store_decoded-Holds (decode data_b64) j seq s
                      (other_session token j s caller r foreign h e) h)
              ])
        ]

    complete_call-Holds :
        (token j : String) (sha : Text) (via : Bool) (s : Server)
        → Foreign token s
        → Holds id row cs s.relay
        → Holds id row cs (complete_transfer hash_token digest decode token j sha via s).1.relay
    unfolding complete_transfer
    complete_call-Holds token j sha via s foreign h =
        elim (Result-cases (session_for hash_token digest decode token j s)) [
          | inr (x, e) ↦ rw e h
          | inl ((caller, r), e) ↦
              rw e
                (elim (Bool-cases (
                  str_eq r.sender_client_id caller.id
                  && not (str_eq r.receiver_client_id caller.id))) [
                    | inl refused ↦ rw refused h
                    | inr receiver ↦ rw receiver (
                        with_relay-Holds (complete_transfer_session digest j sha via s.relay) _ _ s
                          (complete-Holds digest j sha via s.relay
                            (other_session token j s caller r foreign h e) h))
                  ])
        ]

    signal_call-Holds :
        (token j : String) (kind payload : Text) (now : ℕ) (s : Server)
        → Holds id row cs s.relay
        → Holds id row cs (post_signal hash_token digest decode token j kind payload now s).1.relay
    unfolding post_signal
    signal_call-Holds token j kind payload now s h =
        elim (Result-cases (session_for hash_token digest decode token j s)) [
          | inr (x, e) ↦ rw e h
          | inl ((caller, r), e) ↦ rw e (
              with_relay-Holds (post_transfer_signal j caller.id kind payload now s.relay) _ _ s
                (signal-Holds digest j caller.id kind payload now s.relay h))
        ]

    -- what InitTransfer leaves: the tables before it, or those behind the database operation
    init_by-relay :
        (caller : Option Client) (j : String) (b : InitBody) (s : Server)
        → ((init_by hash_token digest decode caller j b s).1.relay ≡ s.relay)
          ⊎ ((c : Client) × ((init_by hash_token digest decode caller j b s).1.relay
                ≡ (init_transfer_session j (request_of c b) s.relay).1))
    unfolding init_by
    init_by-relay none j b s = inl refl
    init_by-relay (some c) j b s = elim (guarded c) [ inl e ↦ inl e | inr e ↦ inr (c, e) ]
      where
        guarded :
            (c : Client)
            → ((init_by hash_token digest decode (some c) j b s).1.relay ≡ s.relay)
              ⊎ ((init_by hash_token digest decode (some c) j b s).1.relay
                  ≡ (init_transfer_session j (request_of c b) s.relay).1)
        guarded c = ground arith

    init_call-Holds :
        (token j : String) (b : InitBody) (s : Server)
        → Holds id row cs s.relay
        → Holds id row cs (init_transfer hash_token digest decode token j b s).1.relay
    unfolding init_transfer
    init_call-Holds token j b s h =
        elim (init_by-relay (transfer_caller hash_token token s.registry.clients) j b s) [
          | inl e ↦ rw e h
          | inr (c, e) ↦ rw e (init-Holds j (request_of c b) s.relay h)
        ]

    -- No request changes the row or the chunks of a session whose tenant is not its caller's,
    -- whatever the request is and whichever session it names.
    pub serve-Holds :
        (c : Call) (s : Server)
        → Foreign (token_of c) s
        → Holds id row cs s.relay
        → Holds id row cs (serve c s).relay
    serve-Holds (init_call token j b) s foreign h = init_call-Holds token j b s h
    serve-Holds (upload_call token j seq data_b64) s foreign h =
        upload-Holds token j seq data_b64 s foreign h
    serve-Holds (complete_call token j sha via) s foreign h =
        complete_call-Holds token j sha via s foreign h
    serve-Holds (signal_call token j kind payload now) s foreign h =
        signal_call-Holds token j kind payload now s h
