-- ===== src/Transfer/Limits.antt =====
-- The sender of internal/client/transfer_runner.go at the limit of the relay, 512 chunks of 60 KiB.
use nitejaguar.Base.{
  ℕ, zero, suc, ◌+◌, ◌*◌, ◌≤◌, ◌<◌, ℤ, pos, true, some, [], String, str_eq_self, length, take, ltb,
  ltb→lt, lt→ltb, ltb_false→le, ◌≡◌, refl, sym, ap, arith, Bool-cases, inl, inr,
}
use nitejaguar.Result.{ok, err}
use nitejaguar.Relay.{
  Bytes, Session, Store, too_many_chunks, chunks_of, get_session, append_transfer_chunk,
  max_transfer_chunks, max_transfer_chunk_bytes,
}
use nitejaguar.Relay.Accept.{IsLive}
use nitejaguar.Server.{Server, refused, upload_chunk}
use nitejaguar.Transfer.{
  TransferError, upload_failed, Sending, relay_chunk_bytes, then_send, send_rounds, send_empty,
  send_relay,
}
use nitejaguar.Transfer.Sent.{chunk_fits, taken}
use nitejaguar.Transfer.Upload.{Delivery, Holding, session-ok, upload-ok, pushed-Holding}

append_full :
    (id : String) (row : Session) (seq : ℤ) (bytes : Bytes) (s : Store)
    → get_session id s.sessions ≡ some row
    → IsLive row.status
    → length bytes ≤ max_transfer_chunk_bytes
    → seq ≡ pos (length (chunks_of row.id s.chunks))
    → length (chunks_of row.id s.chunks) ≡ max_transfer_chunks
    → append_transfer_chunk id seq bytes s ≡ (err too_many_chunks, s)
unfolding append_transfer_chunk
append_full id row seq bytes s found live fits e full = ground arith

module _ (d : Delivery) where
  open d use {hash_token, digest, encode, decode, decode-encode, token, caller, row, sender}

  upload_full :
      (bytes chunk : Bytes) (s : Server)
      → Holding d max_transfer_chunks bytes s
      → length chunk ≤ max_transfer_chunk_bytes
      → upload_chunk hash_token digest decode token row.id
          (pos max_transfer_chunks)
          (encode chunk)
          s
        ≡ (err (refused too_many_chunks), s)
  unfolding upload_chunk
  upload_full bytes chunk s h fits =
      rw (session-ok d max_transfer_chunks bytes s h, sender, str_eq_self caller.id)
        (rw decode-encode (
          rw
            (append_full row.id (record row { status = h.status }) (pos max_transfer_chunks) chunk
              s.relay h.found h.live fits (ap pos (sym h.count)) h.count)
            refl))

  send_rounds-over :
      (bytes : Bytes) (fuel off seq : ℕ) (s : Server)
      → Holding d seq (take off bytes) s
      → off ≡ seq * relay_chunk_bytes
      → max_transfer_chunks * relay_chunk_bytes < length bytes
      → seq ≤ max_transfer_chunks
      → fuel + seq ≡ length bytes + 1
      → (send_rounds hash_token digest encode decode token row.id bytes fuel off seq s).0
        ≡ err (upload_failed max_transfer_chunks (refused too_many_chunks))
  unfolding send_rounds then_send
  send_rounds-over bytes zero off seq s h e over l f = absurd (omega arith)
  send_rounds-over bytes (suc fuel) off seq s h e over l f =
      let more : ltb off (length bytes) ≡ true = lt→ltb _ _ (omega arith) in
      elim (Bool-cases (ltb seq max_transfer_chunks)) [
        | inl below ↦
            let room : seq < max_transfer_chunks = ltb→lt _ _ below in
            rw (more, upload-ok d seq _ _ s h room (chunk_fits d off bytes))
              (send_rounds-over bytes fuel (off + relay_chunk_bytes) (seq + 1) _
                (rw (taken d off bytes) at
                  (pushed-Holding d seq _ _ s h room (chunk_fits d off bytes)))
                (omega arith) over (omega arith) (omega arith))
        | inr full ↦
            let at_end : seq ≡ max_transfer_chunks = omega (arith, ltb_false→le _ _ full) in
            let h_full : Holding d max_transfer_chunks (take off bytes) s = rw at_end at h in
            rw (more, at_end, upload_full _ _ s h_full (chunk_fits d off bytes)) refl
      ]

  send_empty-err :
      (bytes : Bytes) (e : TransferError) (r : Sending)
      → r.0 ≡ err e
      → (send_empty hash_token digest encode decode token row.id bytes r).0 ≡ err e
  unfolding send_empty
  send_empty-err bytes e (err x, s) eq = eq
  send_empty-err bytes e (ok x, s) eq = absurd (cc (eq))

  -- A file longer than 512 chunks of 60 KiB, which is 30 MiB, is not uploaded through the relay by
  -- the sender of a session that has no chunk yet: the upload ends with the refusal of the chunk
  -- with number 512, since the session has too many.
  pub send_relay-over :
      (bytes : Bytes) (s : Server)
      → Holding d 0 [] s
      → max_transfer_chunks * relay_chunk_bytes < length bytes
      → (send_relay hash_token digest encode decode token row.id bytes s).0
        ≡ err (upload_failed max_transfer_chunks (refused too_many_chunks))
  unfolding send_relay
  send_relay-over bytes s h over =
      send_empty-err bytes _ _
        (send_rounds-over bytes (length bytes + 1) 0 0 s h refl over (omega arith) (omega arith))
