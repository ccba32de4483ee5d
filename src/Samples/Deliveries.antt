-- ===== src/Samples/Deliveries.antt =====
-- The upload's properties: a file of two bytes, and one that is a byte too long for the relay.
use nitejaguar.Base.{ℕ, zero, suc, ◌+◌, ◌*◌, ◌<◌, List, [], ◌∷◌, length, ◌≡◌, refl, arith}
use nitejaguar.Registry.{authenticate_client, find_client, find_token, transfer_caller}
use nitejaguar.Relay.{Bytes, offered, chunks_of, get_session, max_transfer_chunks, too_many_chunks}
use nitejaguar.Relay.Complete.Verify.{content}
use nitejaguar.Result.{err}
use nitejaguar.Samples.{
  same_text, same_bytes, decoded, sender, offer, opened_store, server_with, two_bytes,
}
use nitejaguar.Samples.Relays.{opened_store-IsRelay}
use nitejaguar.Server.{refused}
use nitejaguar.Transfer.{send_relay, relay_chunk_bytes, upload_failed}
use nitejaguar.Transfer.Limits.{send_relay-over}
use nitejaguar.Transfer.Sent.{Relayed, send_relay-Relayed}
use nitejaguar.Transfer.Upload.{Delivery, Holding}

abbrev pub encoded : Bytes → List ℕ
encoded b = b

abbrev pub delivery : Delivery
delivery = record {
  hash_token = same_text;
  digest = same_bytes;
  encode = encoded;
  decode = decoded;
  decode-encode = λ b. refl;
  token = "ka";
  caller = sender;
  row = offer;
  sender = refl;
  same_tenant = refl;
}

pub ready_to_send : Holding delivery 0 [] (server_with opened_store)
unfolding transfer_caller authenticate_client find_client find_token get_session chunks_of content
ready_to_send = record {
  status = offered;
  live = ((λ p. cc p), (λ p. cc p));
  known = refl;
  found = refl;
  count = refl;
  held = refl;
  valid = opened_store-IsRelay;
  completes = λ p. absurd (omega arith);
}

send_relay-Relayed_example :
    Relayed delivery two_bytes (
      send_relay same_text same_bytes encoded decoded "ka" "s1" two_bytes
        (server_with opened_store))
send_relay-Relayed_example =
    send_relay-Relayed delivery two_bytes (server_with opened_store) ready_to_send (omega arith)
      refl

repeated : ℕ → Bytes
repeated zero = []
repeated (suc n) = 7 ∷ repeated n

length-repeated : (n : ℕ) → length (repeated n) ≡ n
unfolding repeated
length-repeated zero = refl
length-repeated (suc n) = omega (arith, length-repeated n)

-- one byte more than the relay holds
too_long : Bytes
too_long = repeated (max_transfer_chunks * relay_chunk_bytes + 1)

length-too_long : max_transfer_chunks * relay_chunk_bytes < length too_long
unfolding too_long
length-too_long = omega (arith, length-repeated (max_transfer_chunks * relay_chunk_bytes + 1))

send_relay-over_example :
    (send_relay same_text same_bytes encoded decoded "ka" "s1" too_long
      (server_with opened_store)).0
    ≡ err (upload_failed max_transfer_chunks (refused too_many_chunks))
send_relay-over_example =
    send_relay-over delivery too_long (server_with opened_store) ready_to_send length-too_long
