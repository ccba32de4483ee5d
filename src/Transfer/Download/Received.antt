-- ===== src/Transfer/Download/Received.antt =====
-- A file on its way from the sender's upload through the relay to the receiver's disk
-- (internal/client/transfer_runner.go, transfers.go).
use nitejaguar.Base.{
  ℕ, suc, ◌+◌, ◌*◌, ◌≤◌, pos, ltb, Bool, true, false, Option, none, some, List, [], ◌∷◌, ◌++◌,
  append-nil, append_assoc, String, str_eq, str_eq_self, Text, equal_fold, length, ==_self, ◌≡◌,
  refl, ap, ◌∙◌, arith, Bool-cases, inl, inr,
}
use nitejaguar.Registry.{Client, transfer_caller}
use nitejaguar.Relay.{
  Bytes, Session, Chunk, Store, ready, chunks_of, get_session, transfer_visible_to,
  max_transfer_chunks,
}
use nitejaguar.Relay.Complete.{from_seq, order_by_seq, list_transfer_chunks}
use nitejaguar.Relay.Complete.Verify.{content, order-Contiguous}
use nitejaguar.Relay.Invariant.{Contiguous, IsRelay}
use nitejaguar.Result.{Result, ok}
use nitejaguar.Server.{Server, session_for, fetch_chunks}
use nitejaguar.Tenants.{normalize_tenant}
use nitejaguar.Transfer.Download.{
  has_all, write_chunks, download_rounds, apply_relay_permissions, keep_file, finish_file,
  download_file_relay, valid_destination_base,
}
use nitejaguar.Transfer.Kept.{send-registry}
use nitejaguar.Transfer.Sent.{Relayed, send_relay-Relayed}
use nitejaguar.Transfer.Upload.{Delivery, Holding}
use nitejaguar.Transfer.{TransferError, relay_chunk_bytes, send_relay}

from_seq-zero : (cs : List Chunk) → from_seq (pos 0) cs ≡ cs
unfolding from_seq
from_seq-zero [] = refl
from_seq-zero (c ∷ cs) =
    let e : ltb c.seq 0 ≡ false = ground arith in rw e (ap (◌∷◌ c) (from_seq-zero cs))

from_seq-past :
    (i n : ℕ) (cs : List Chunk) → Contiguous i cs → i + length cs ≤ n → from_seq (pos n) cs ≡ []
unfolding from_seq
from_seq-past i n [] h l = refl
from_seq-past i n (c ∷ cs) h l =
    let e : ltb c.seq n ≡ true = ground (arith, h.0) in
    rw e (from_seq-past (i + 1) n cs h.2 (omega arith))

module _ (hash_token : String → String) (digest : Bytes → Text) (encode : Bytes → Text)
    (decode : Text → Option Bytes) where
  write_chunks-Contiguous :
      ((b : Bytes) → decode (encode b) ≡ some b)
      → (i : ℕ) (got : Bytes) (cs : List Chunk) → Contiguous i cs
      → write_chunks hash_token digest encode decode i got cs
        ≡ ok (i + length cs, got ++ content cs)
  unfolding write_chunks content
  write_chunks-Contiguous k i got [] h =
      let e : i ≡ i + 0 = omega arith in rw (append-nil got, ← e) refl
  write_chunks-Contiguous k i got (c ∷ cs) h =
      let e : i + 1 + length cs ≡ i + suc (length cs) = omega arith in
      rw (h.0, ==_self, k c.bytes)
        (rw (write_chunks-Contiguous k (i + 1) (got ++ c.bytes) cs h.2) (rw (e, append_assoc) refl))

  fetch_chunks-ok :
      (token id : String) (n : ℕ) (s : Server) (x : Client × Session)
      → session_for hash_token digest decode token id s ≡ ok x
      → fetch_chunks hash_token digest decode token id (pos n) s
        ≡ ok (list_transfer_chunks id (pos n) s.relay)
  unfolding fetch_chunks
  fetch_chunks-ok token id n s x e =
      let k : ltb n 0 ≡ false = ground arith in rw (fetch_chunks, e, k) refl

  list-zero :
      (id : String) (s : Store)
      → IsRelay s
      → list_transfer_chunks id (pos 0) s ≡ chunks_of id s.chunks
  unfolding list_transfer_chunks
  list-zero id s h =
      ap order_by_seq (from_seq-zero (chunks_of id s.chunks))
      ∙ order-Contiguous 0 (chunks_of id s.chunks) (h.numbered id)

  list-past :
      (id : String) (n : ℕ) (s : Store)
      → IsRelay s
      → length (chunks_of id s.chunks) ≤ n
      → list_transfer_chunks id (pos n) s ≡ []
  unfolding list_transfer_chunks order_by_seq
  list-past id n s h l =
      ap order_by_seq (from_seq-past 0 n (chunks_of id s.chunks) (h.numbered id) (omega (arith, l)))

  module _ (decode-encode : (b : Bytes) → decode (encode b) ≡ some b) (token id : String) (size : ℕ)
      (s : Server) (x : Client × Session)
      (seen : session_for hash_token digest decode token id s ≡ ok x)
      (valid : IsRelay s.relay) where
    abbrev rounds : ℕ → ℕ → ℕ → Bytes → Result TransferError Bytes
    rounds = download_rounds hash_token digest encode decode token id size (λ _. s) (λ _. false)

    -- a request behind the last chunk
    rounds-past :
        (fuel round n : ℕ) (got : Bytes)
        → length (chunks_of id s.relay.chunks) ≤ n
        → rounds (suc fuel) round n got ≡ ok got
    unfolding download_rounds
    rounds-past fuel round n got l =
        rw (fetch_chunks-ok token id n s x seen, list-past id n s.relay valid l) refl

    rounds-whole :
        (fuel : ℕ) (cs : List Chunk)
        → chunks_of id s.relay.chunks ≡ cs
        → rounds (suc (suc fuel)) 0 0 [] ≡ ok (content cs)
    unfolding download_rounds content
    rounds-whole fuel [] e =
        rw (fetch_chunks-ok token id 0 s x seen, list-zero id s.relay valid, e) refl
    rounds-whole fuel (c ∷ cs) e =
        let numbered : Contiguous 0 (c ∷ cs) = rw e at (valid.numbered id) in
        let write = write_chunks-Contiguous decode-encode 0 [] (c ∷ cs) numbered in
        elim (Bool-cases (has_all size (content (c ∷ cs)))) [
          | inl all ↦
              rw (fetch_chunks-ok token id 0 s x seen, list-zero id s.relay valid, e, write, all)
                refl
          | inr part ↦
              rw (fetch_chunks-ok token id 0 s x seen, list-zero id s.relay valid, e, write, part)
                (rounds-past fuel 1 (0 + length (c ∷ cs)) (content (c ∷ cs)) (rw e (omega arith)))
        ]

module _ (d : Delivery) (receiver : Client) (receiver_token : String)
    (is_receiver : d.row.receiver_client_id ≡ receiver.id)
    (its_tenant : normalize_tenant d.row.tenant_id ≡ normalize_tenant receiver.tenant_id) where
  open d use {hash_token, digest, encode, decode, decode-encode, token, row}

  -- the receiver may see a session that is ready
  session-receiver :
      (s : Server)
      → transfer_caller hash_token receiver_token s.registry.clients ≡ some receiver
      → get_session row.id s.relay.sessions ≡ some (record row { status = ready })
      → session_for hash_token digest decode receiver_token row.id s
        ≡ ok (receiver, record row { status = ready })
  unfolding session_for transfer_visible_to
  session-receiver s known found =
      let self : str_eq (normalize_tenant receiver.tenant_id) (normalize_tenant receiver.tenant_id)
          ≡ true =
        str_eq_self (normalize_tenant receiver.tenant_id) in
      elim (Bool-cases (str_eq row.sender_client_id receiver.id)) [
        | inl same ↦ rw (known, found) (rw (its_tenant, self, same) refl)
        | inr other ↦
            rw (known, found)
              (rw (its_tenant, self, other, is_receiver, str_eq_self receiver.id) refl)
      ]

  -- A file that its sender uploads to an empty session, and its receiver downloads from the server
  -- behind the upload, arrives: the download succeeds, returns the digest of the bytes and leaves
  -- exactly them at the destination. This holds if the file is of no more than 512 chunks of 60 KiB,
  -- the session has its size and digest, the receiver is the session's, known and of its tenant, the
  -- destination is free and has a name that is allowed, and the permissions can be set.
  pub send_relay-download :
      (bytes : Bytes) (s : Server) (chmod : ℕ → Bool) (windows : Bool) (dst : Text)
      → Holding d 0 [] s
      → length bytes ≤ max_transfer_chunks * relay_chunk_bytes
      → row.size ≡ length bytes
      → equal_fold (digest bytes) row.sha256 ≡ true
      → transfer_caller hash_token receiver_token s.registry.clients ≡ some receiver
      → valid_destination_base dst ≡ true
      → apply_relay_permissions chmod windows row.permissions ≡ ok tt
      → download_file_relay hash_token digest encode decode chmod windows receiver_token row dst
          (λ _. (send_relay hash_token digest encode decode token row.id bytes s).1)
          (λ _. false)
          none
        ≡ (ok (digest bytes), some bytes)
  unfolding download_file_relay finish_file keep_file
  send_relay-download bytes s chmod windows dst h short size sum known named mode =
      let t = (send_relay hash_token digest encode decode token row.id bytes s).1 in
      let sent : Relayed d bytes (send_relay hash_token digest encode decode token row.id bytes s) =
        send_relay-Relayed d bytes s h short size in
      let same : t.registry ≡ s.registry =
        send-registry hash_token digest encode decode token row.id bytes s in
      let known' : transfer_caller hash_token receiver_token t.registry.clients ≡ some receiver =
        rw same known in
      let whole =
        rounds-whole hash_token digest encode decode decode-encode receiver_token row.id row.size t
          (receiver, record row { status = ready }) (session-receiver t known' sent.is_ready)
          sent.keeps 511 (chunks_of row.id t.relay.chunks) refl in
      let got : download_rounds hash_token digest encode decode receiver_token row.id row.size
            (λ _. t) (λ _. false) (max_transfer_chunks + 1) 0 0 []
          ≡ ok bytes =
        whole ∙ ap ok (sent.holds) in
      rw (download_file_relay, named, got) (rw (finish_file, keep_file, sum, mode) refl)
