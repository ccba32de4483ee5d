-- ===== src/Transfer/Kept.antt =====
-- The client registry behind a sender's upload (internal/client/transfer_runner.go).
use nitejaguar.Base.{
  ℕ, zero, suc, ◌+◌, ℤ, pos, ltb, not, Option, none, some, [], String, str_eq, if-holds, ◌==◌, Text,
  length, ◌≡◌, refl, ◌∙◌,
}
use nitejaguar.Registry.{Client}
use nitejaguar.Relay.{Bytes, Session, RelayError, Store, append_transfer_chunk}
use nitejaguar.Result.{Result, ok, err}
use nitejaguar.Server.{
  Server, HttpError, Response, with_relay, store_decoded, upload_to, upload_chunk, session_for,
}
use nitejaguar.Transfer.{
  Sending, relay_chunk_bytes, slice, end_of, then_send, send_rounds, send_empty, send_relay,
}

module _ (hash_token : String → String) (digest : Bytes → Text) (encode : Bytes → Text)
    (decode : Text → Option Bytes) where
  -- The registry is as it was.
  abbrev pub Unregistered : {A : Type 0} → Server → A × Server → Type 0
  Unregistered s r = r.1.registry ≡ s.registry

  with-registry :
      (r : Result RelayError ℕ × Store) (s : Server)
      → Unregistered s (with_relay r (λ n. n) (λ _. []) s)
  with-registry (ok n, t) s = refl
  with-registry (err e, t) s = refl

  stored-registry :
      (o : Option Bytes) (id : String) (seq : ℤ) (s : Server)
      → Unregistered s (store_decoded hash_token digest decode o id seq s)
  unfolding store_decoded
  stored-registry none id seq s = refl
  stored-registry (some raw) id seq s = with-registry (append_transfer_chunk id seq raw s.relay) s

  to-registry :
      (r : Result HttpError (Client × Session)) (id : String) (seq : ℤ) (raw : Text) (s : Server)
      → Unregistered s (upload_to hash_token digest decode r id seq raw s)
  unfolding upload_to
  to-registry (err e) id seq raw s = refl
  to-registry (ok (caller, row)) id seq raw s =
      if-holds (Unregistered s) (not (str_eq row.sender_client_id caller.id)) _ _ (λ _. refl)
        (λ _. stored-registry (decode raw) id seq s)

  upload-registry :
      (token id : String) (seq : ℤ) (raw : Text) (s : Server)
      → Unregistered s (upload_chunk hash_token digest decode token id seq raw s)
  unfolding upload_chunk
  upload-registry token id seq raw s =
      to-registry (session_for hash_token digest decode token id s) id seq raw s

  then-registry :
      (seq : ℕ) (r : Response ℕ) (rest : Server → Sending) (s : Server)
      → Unregistered s r
      → ((t : Server) → Unregistered t (rest t))
      → Unregistered s (then_send seq r rest)
  unfolding then_send
  then-registry seq (err e, t) rest s h k = h
  then-registry seq (ok n, t) rest s h k = k t ∙ h

  rounds-registry :
      (token id : String) (bytes : Bytes) (fuel off seq : ℕ) (s : Server)
      → Unregistered s (send_rounds hash_token digest encode decode token id bytes fuel off seq s)
  unfolding send_rounds
  rounds-registry token id bytes zero off seq s = refl
  rounds-registry token id bytes (suc fuel) off seq s =
      if-holds (Unregistered s) (not (ltb off (length bytes))) _ _ (λ _. refl)
        (λ _.
          then-registry seq _ _ s
            (upload-registry token id (pos seq) (encode (slice off (end_of off bytes) bytes)) s)
            (λ t. rounds-registry token id bytes fuel (off + relay_chunk_bytes) (seq + 1) t))

  empty-registry :
      (token id : String) (bytes : Bytes) (r : Sending) (s : Server)
      → Unregistered s r
      → Unregistered s (send_empty hash_token digest encode decode token id bytes r)
  unfolding send_empty
  empty-registry token id bytes (err e, t) s h = h
  empty-registry token id bytes (ok _, t) s h =
      if-holds (Unregistered s) (length bytes == 0) _ _
        (λ _.
          then-registry 0 _ _ s (upload-registry token id (pos 0) (encode []) t ∙ h) (λ u. refl))
        (λ _. h)

  pub send-registry :
      (token id : String) (bytes : Bytes) (s : Server)
      → Unregistered s (send_relay hash_token digest encode decode token id bytes s)
  unfolding send_relay
  send-registry token id bytes s =
      empty-registry token id bytes _ s (rounds-registry token id bytes (length bytes + 1) 0 0 s)
