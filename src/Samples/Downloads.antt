-- ===== src/Samples/Downloads.antt =====
-- The download's properties: a file of two bytes.
use nitejaguar.Base.{
  ℕ, Bool, true, false, none, some, ◌≡◌, refl, arith, codes, equal_fold, trim_space,
}
use nitejaguar.Registry.{transfer_caller}
use nitejaguar.Result.{ok}
use nitejaguar.Samples.{
  same_text, same_bytes, decoded, offer, opened_store, full_store, server_with, two_bytes,
  client_of,
}
use nitejaguar.Samples.Deliveries.{encoded, delivery, ready_to_send}
use nitejaguar.Samples.Relays.{full_store-IsRelay}
use nitejaguar.Transfer.Download.{
  download_file_relay, valid_destination_base, apply_relay_permissions,
}
use nitejaguar.Transfer.Download.Received.{send_relay-download}
use nitejaguar.Transfer.Download.Rounds.{IsDownload, download_file_relay-IsDownload}
use nitejaguar.Transfer.{send_relay}

abbrev settable : ℕ → Bool
settable mode = true

abbrev uncancelled : ℕ → Bool
uncancelled n = false

send_relay-download_example :
    download_file_relay same_text same_bytes encoded decoded settable false "kb" offer
      (codes "/f")
      (λ _.
        (send_relay same_text same_bytes encoded decoded "ka" "s1" two_bytes
          (server_with opened_store)).1)
      uncancelled
      none
    ≡ (ok two_bytes, some two_bytes)
unfolding equal_fold transfer_caller valid_destination_base apply_relay_permissions trim_space
send_relay-download_example =
    send_relay-download delivery (client_of "b" "t1" "kb") "kb" refl refl two_bytes
      (server_with opened_store) settable false (codes "/f") ready_to_send (omega arith) refl refl
      refl refl refl

download_file_relay-IsDownload_example :
    IsDownload same_text same_bytes encoded decoded settable false offer none (
      download_file_relay same_text same_bytes encoded decoded settable false "kb" offer
        (codes "/f")
        (λ _. server_with full_store)
        uncancelled
        none)
download_file_relay-IsDownload_example =
    download_file_relay-IsDownload same_text same_bytes encoded decoded settable false offer "kb"
      (codes "/f") (λ _. server_with full_store) uncancelled none (λ _. full_store-IsRelay)
