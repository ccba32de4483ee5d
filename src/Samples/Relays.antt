-- ===== src/Samples/Relays.antt =====
-- The relay's properties at a transfer of two bytes.
use nitejaguar.Base.{
  to_lower, eq_iff, ap, ◌∙◌, ◌+◌, ◌≤◌, ◌<◌, pos, false, some, [], ◌∷◌, length, ◌≡◌, ◌≢◌, ◌↔◌, refl,
}
use nitejaguar.Relay.{
  Store, has_seq, stored_bytes, done, ready, offered, get_session, update_session, push_chunk,
  append_transfer_chunk, init_transfer_session, max_transfer_chunks, max_transfer_chunk_bytes,
  chunks_of,
}
use nitejaguar.Relay.Accept.{append_iff, IsLive}
use nitejaguar.Relay.Complete.{complete_transfer_session}
use nitejaguar.Relay.Complete.Verify.{complete_iff, Matches, content}
use nitejaguar.Relay.Final.{Reach-IsDone, IsDone}
use nitejaguar.Relay.Frame.{Holds}
use nitejaguar.Relay.Invariant.{IsRelay}
use nitejaguar.Relay.Steps.{Reach, here, next, opened, appended, empty_store, Reach-IsRelay}
use nitejaguar.Registry.{Client, authenticate_client, find_client, find_token, transfer_caller}
use nitejaguar.Tenants.{normalize_tenant}
use nitejaguar.Result.{ok}
use nitejaguar.Server.Isolation.{upload_call, serve, serve-Holds}
use nitejaguar.Samples.{
  same_text, same_bytes, decoded, stranger, request, offer, chunk, opened_store, full_store,
  server_with, two_bytes,
}

opened_store-Reach : Reach same_bytes empty_store opened_store
unfolding init_transfer_session get_session to_lower
opened_store-Reach = next here (opened "s1" request refl)

pub full_store-Reach : Reach same_bytes empty_store full_store
unfolding append_transfer_chunk get_session chunks_of has_seq update_session stored_bytes
full_store-Reach = next opened_store-Reach (appended "s1" (pos 0) two_bytes refl)

Reach-IsRelay_example : IsRelay full_store
Reach-IsRelay_example = Reach-IsRelay same_bytes full_store-Reach

pub opened_store-IsRelay : IsRelay opened_store
opened_store-IsRelay = Reach-IsRelay same_bytes opened_store-Reach

pub full_store-IsRelay : IsRelay full_store
full_store-IsRelay = Reach-IsRelay same_bytes full_store-Reach

append_iff_example :
    (append_transfer_chunk "s1" (pos 0) two_bytes opened_store ≡ (
      ok (length (chunks_of "s1" []) + 1),
      push_chunk offer (length (chunks_of "s1" [])) two_bytes opened_store,
    ))
    ↔ ((length two_bytes ≤ max_transfer_chunk_bytes)
        × IsLive offered
        × (pos 0 ≡ pos (length (chunks_of "s1" [])))
        × (length (chunks_of "s1" []) < max_transfer_chunks))
unfolding get_session
append_iff_example = append_iff "s1" offer (pos 0) two_bytes opened_store opened_store-IsRelay refl

complete_iff_example :
    (complete_transfer_session same_bytes "s1" two_bytes false full_store ≡ (
      ok (record offer { status = done }),
      record full_store { sessions = update_session "s1" done false full_store.sessions },
    ))
    ↔ Matches same_bytes
        (record offer { status = ready })
        two_bytes
        (content (chunks_of "s1" full_store.chunks))
unfolding get_session
complete_iff_example =
    complete_iff same_bytes "s1" two_bytes full_store (record offer { status = ready })
      full_store-IsRelay refl (λ p. cc p)

abbrev done_store : Store
done_store = record full_store { sessions = (record offer { status = done }) ∷ [] }

Reach-IsDone_example : IsDone "s1" (record offer { status = done }) (chunk ∷ []) done_store
unfolding append_transfer_chunk get_session chunks_of
Reach-IsDone_example =
    Reach-IsDone "s1" (record offer { status = done }) (chunk ∷ []) same_bytes {s = done_store}
      {t = done_store} (next here (appended "s1" (pos 1) two_bytes refl))
      (record { found = refl; closed = refl; kept = refl })

stranger-known :
    transfer_caller same_text "kc" (server_with opened_store).registry.clients ≡ some stranger
unfolding transfer_caller authenticate_client find_client find_token
stranger-known = refl

tenants_differ : normalize_tenant offer.tenant_id ≢ normalize_tenant stranger.tenant_id
unfolding normalize_tenant
tenants_differ p = absurd (cc ((eq_iff "t1" "t2").1 p))

stranger-Foreign :
    (caller : Client)
    → transfer_caller same_text "kc" (server_with opened_store).registry.clients ≡ some caller
    → normalize_tenant offer.tenant_id ≢ normalize_tenant caller.tenant_id
stranger-Foreign caller e p =
    let same : caller ≡ stranger = cc (e, stranger-known) in
    tenants_differ (p ∙ ap (λ (c : Client). normalize_tenant c.tenant_id) same)

opened_store-Holds : Holds "s1" offer [] opened_store
unfolding get_session chunks_of
opened_store-Holds = record { found = refl; kept = refl }

-- a client of another tenant sends a chunk for the transfer
serve-Holds_example :
    Holds "s1" offer []
      (serve same_text same_bytes decoded
        (upload_call "kc" "s1" (pos 0) two_bytes)
        (server_with opened_store)).relay
serve-Holds_example =
    serve-Holds same_text same_bytes decoded "s1" offer [] (upload_call "kc" "s1" (pos 0) two_bytes)
      (server_with opened_store) stranger-Foreign opened_store-Holds
