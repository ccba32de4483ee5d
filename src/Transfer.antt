-- ===== src/Transfer.antt =====
-- internal/client/transfer_runner.go and transfers.go: the sender's upload through the relay and the
-- receiver's download, each request answered by the server's handler. The network between them is
-- taken to deliver. Base64 encoding and decoding and the hexadecimal SHA-256 digest are parameters.
pub mod Upload
pub mod Sent
pub mod Limits
pub mod Kept
pub mod Download
use nitejaguar.Base.{
  ℕ, zero, suc, ◌+◌, ◌*◌, ◌-◌, ℤ, pos, ltb_int, Bool, true, false, not, ◌&&◌, Option, none, some,
  List, [], ◌∷◌, ◌++◌, String, Text, text_eq, to_lower, equal_fold, length, take, drop, min, ltb,
  leb, ◌==◌, if◌then◌else◌,
}
use nitejaguar.Result.{Result, ok, err}
use nitejaguar.Relay.{Bytes, Session, Chunk}
use nitejaguar.Server.{Server, HttpError, Response, upload_chunk, fetch_chunks}

-- const relayChunkBytes
abbrev pub relay_chunk_bytes : ℕ
relay_chunk_bytes = 60 * 1024

pub data TransferError : Type 0 where
  out_of_rounds sha_differs interrupted : TransferError
  bad_destination destination_exists bad_permissions : TransferError
  upload_failed : ℕ → HttpError → TransferError
  fetch_failed : HttpError → TransferError
  gap_at : ℕ → TransferError
  invalid_chunk : ℕ → TransferError

-- data[off:end]
abbrev pub slice : ℕ → ℕ → Bytes → Bytes
slice off stop bytes = take (stop - off) (drop off bytes)

-- end := off + relayChunkBytes; if end > len(data) { end = len(data) }
abbrev pub end_of : ℕ → Bytes → ℕ
end_of off bytes =
    if ltb (length bytes) (off + relay_chunk_bytes) then length bytes else off + relay_chunk_bytes

abbrev pub Sending : Type 0
Sending = Result TransferError Unit × Server

-- what follows the upload of chunk `seq`
unfoldable pub then_send : ℕ → Response ℕ → (Server → Sending) → Sending
then_send seq (err e, s) rest = (err (upload_failed seq e), s)
then_send seq (ok n, s) rest = rest s

module _ (hash_token : String → String) (digest : Bytes → Text) (encode : Bytes → Text)
    (decode : Text → Option Bytes) where
  -- for off := 0; off < len(data); off += relayChunkBytes, on fuel
  unfoldable pub send_rounds : String → String → Bytes → ℕ → ℕ → ℕ → Server → Sending
  unfolding then_send
  send_rounds token id bytes zero off seq s = (err out_of_rounds, s)
  send_rounds token id bytes (suc fuel) off seq s =
      let rest =
        λ (t : Server). send_rounds token id bytes fuel (off + relay_chunk_bytes) (seq + 1) t in
      if not (ltb off (length bytes))
      then (ok tt, s)
      else then_send seq
          (upload_chunk hash_token digest decode token id (pos seq)
            (encode (slice off (end_of off bytes) bytes)) s)
          rest

  -- if len(data) == 0, behind the loop
  unfoldable pub send_empty : String → String → Bytes → Sending → Sending
  send_empty token id bytes (err e, s) = (err e, s)
  send_empty token id bytes (ok _, s) =
      if length bytes == 0
      then then_send 0 (upload_chunk hash_token digest decode token id (pos 0) (encode []) s)
          (λ t. (ok tt, t))
      else (ok tt, s)

  -- the relay part of runTransferSender: the loop, and one empty chunk for an empty file
  unfoldable pub send_relay : String → String → Bytes → Server → Sending
  unfolding send_rounds send_empty
  send_relay token id bytes s =
      send_empty token id bytes (send_rounds token id bytes (length bytes + 1) 0 0 s)
