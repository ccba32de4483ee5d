-- ===== src/Transfer/Sent.antt =====
-- The sender of internal/client/transfer_runner.go with a file that fits the relay.
use nitejaguar.Base.{
  ℕ, zero, suc, ◌+◌, ◌*◌, ◌-◌, ◌≤◌, ◌<◌, false, some, List, [], ◌∷◌, ◌++◌, length, length-take,
  length-drop, take, drop, take-append-take, ltb→lt, ltb_false→le, take-all, ltb, ◌==◌, ◌≡◌, refl,
  sym, ap, arith, ◌∙◌, Bool-cases, inl, inr,
}
use nitejaguar.Result.{Result, ok, err}
use nitejaguar.Registry.{transfer_caller}
use nitejaguar.Relay.{
  Bytes, ready, Chunk, chunks_of, get_session, max_transfer_chunks, max_transfer_chunk_bytes,
}
use nitejaguar.Relay.Complete.Verify.{content}
use nitejaguar.Relay.Invariant.{IsRelay}
use nitejaguar.Server.{Server}
use nitejaguar.Transfer.Upload.{Delivery, Holding, upload-ok, pushed-Holding}
use nitejaguar.Transfer.{
  TransferError, Sending, send_empty, relay_chunk_bytes, slice, end_of, send_rounds, send_relay,
  then_send,
}

slice-end_of :
    (off : ℕ) (bytes : Bytes)
    → slice off (end_of off bytes) bytes ≡ take relay_chunk_bytes (drop off bytes)
slice-end_of off bytes = elim (Bool-cases (ltb (length bytes) (off + relay_chunk_bytes))) [
  | inl last ↦
      let short : length bytes < off + relay_chunk_bytes = ltb→lt _ _ last in
      rw last (
        take-all (length bytes - off) (drop off bytes) (omega (arith, length-drop off bytes))
        ∙ sym (take-all relay_chunk_bytes (drop off bytes) (omega (arith, length-drop off bytes))))
  | inr more ↦
      let k : off + relay_chunk_bytes - off ≡ relay_chunk_bytes = omega arith in
      rw more (ap (λ n. take n (drop off bytes)) k)
]

module _ (d : Delivery) where
  open d use {hash_token, digest, encode, decode, token, caller, row}

  -- What an upload of `bytes` is to leave.
  record Delivered (bytes : Bytes) (r : Result TransferError Unit × Server) : Type 0 where
    outcome : r.0 ≡ ok tt
    count : ℕ
    holding : Holding d count bytes r.1

  abbrev rounds : Bytes → ℕ → ℕ → ℕ → Server → Result TransferError Unit × Server
  rounds = send_rounds hash_token digest encode decode token row.id

  -- the bytes sent after one more round
  pub taken :
      (off : ℕ) (bytes : Bytes)
      → take off bytes ++ slice off (end_of off bytes) bytes ≡ take (off + relay_chunk_bytes) bytes
  taken off bytes = rw (slice-end_of off bytes) (take-append-take off relay_chunk_bytes bytes)

  pub chunk_fits :
      (off : ℕ) (bytes : Bytes)
      → length (slice off (end_of off bytes) bytes) ≤ max_transfer_chunk_bytes
  chunk_fits off bytes =
      rw (slice-end_of off bytes) (omega (arith, length-take relay_chunk_bytes (drop off bytes)))

  send_rounds-Delivered :
      (bytes : Bytes) (fuel off seq : ℕ) (s : Server)
      → Holding d seq (take off bytes) s
      → off ≡ seq * relay_chunk_bytes
      → length bytes ≤ max_transfer_chunks * relay_chunk_bytes
      → seq ≤ length bytes
      → fuel + seq ≡ length bytes + 1
      → Delivered bytes (rounds bytes fuel off seq s)
  unfolding send_rounds then_send
  send_rounds-Delivered bytes zero off seq s h e short l f = absurd (omega arith)
  send_rounds-Delivered bytes (suc fuel) off seq s h e short l f =
      elim (Bool-cases (ltb off (length bytes))) [
        | inl more ↦
            let lt : off < length bytes = ltb→lt _ _ more in
            let room : seq < max_transfer_chunks = omega arith in
            rw (more, upload-ok d seq _ _ s h room (chunk_fits off bytes))
              (send_rounds-Delivered bytes fuel (off + relay_chunk_bytes) (seq + 1) _
                (rw (taken off bytes) at (pushed-Holding d seq _ _ s h room (chunk_fits off bytes)))
                (omega arith) short (omega arith) (omega arith))
        | inr all ↦ rw all (record {
          outcome = refl;
          count = seq;
          holding = rw (take-all off bytes (ltb_false→le _ _ all)) at h;
        })
      ]

  Holding-none : {bytes : Bytes} {s : Server} → Holding d 0 bytes s → bytes ≡ []
  Holding-none {bytes} {s} h = sym h.held ∙ empty (chunks_of row.id s.relay.chunks) h.count
    where
      empty : (cs : List Chunk) → length cs ≡ 0 → content cs ≡ []
      empty [] e = unfold content in refl
      empty (c ∷ cs) e = absurd (omega arith)

  -- The upload succeeds; the session is ready and holds the bytes of the file, and the tables are
  -- well formed.
  pub record Relayed (bytes : Bytes) (r : Sending) : Type 0 where
    pub outcome : r.0 ≡ ok tt
    pub is_ready : get_session row.id r.1.relay.sessions ≡ some (record row { status = ready })
    pub holds : content (chunks_of row.id r.1.relay.chunks) ≡ bytes
    pub keeps : IsRelay r.1.relay
    pub caller_known : transfer_caller hash_token token r.1.registry.clients ≡ some caller

  Relayed-of :
      (bytes : Bytes) (n : ℕ) (s : Server)
      → Holding d n bytes s
      → row.size ≡ length bytes
      → 1 ≤ n
      → Relayed bytes (ok tt, s)
  Relayed-of bytes n s h e some_sent = record {
    outcome = refl;
    is_ready = rw (h.completes some_sent e) at h.found;
    holds = h.held;
    keeps = h.valid;
    caller_known = h.known;
  }

  send_empty-Relayed :
      (x : ℕ) (xs : Bytes) (r : Sending)
      → Delivered (x ∷ xs) r
      → row.size ≡ length (x ∷ xs)
      → Relayed (x ∷ xs) (send_empty hash_token digest encode decode token row.id (x ∷ xs) r)
  unfolding send_empty
  send_empty-Relayed x xs (err e, s) run size = absurd (cc (run.outcome))
  send_empty-Relayed x xs (ok _, s) run size =
      let e : (length (x ∷ xs) == 0) ≡ false = ground arith in rw e (sent run.count run.holding)
    where
      sent : (n : ℕ) → Holding d n (x ∷ xs) s → Relayed (x ∷ xs) (ok tt, s)
      sent zero h = absurd (cc (Holding-none h))
      sent (suc n) h = Relayed-of (x ∷ xs) (suc n) s h size (omega arith)

  -- A file of no more than 512 chunks of 60 KiB, announced with its size, is uploaded whole through
  -- the relay by its sender, if the session has no chunk yet.
  pub send_relay-Relayed :
      (bytes : Bytes) (s : Server)
      → Holding d 0 [] s
      → length bytes ≤ max_transfer_chunks * relay_chunk_bytes
      → row.size ≡ length bytes
      → Relayed bytes (send_relay hash_token digest encode decode token row.id bytes s)
  unfolding send_relay
  send_relay-Relayed [] s h short size = rw (upload-ok d 0 [] [] s h (omega arith) (omega arith)) (
      unfold then_send in
      Relayed-of [] 1 _ (pushed-Holding d 0 [] [] s h (omega arith) (omega arith)) size
        (omega arith))
  send_relay-Relayed (x ∷ xs) s h short size =
      send_empty-Relayed x xs _
        (send_rounds-Delivered (x ∷ xs) (length (x ∷ xs) + 1) 0 0 s h refl short (omega arith)
          (omega arith))
        size
