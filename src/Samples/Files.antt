-- ===== src/Samples/Files.antt =====
-- The refinement of the relay's tables at a transfer of two bytes.
use nitejaguar.Base.{pos, false, List, [], ◌∷◌, ◌≡◌, refl}
use nitejaguar.Relay.{chunks_of, get_session}
use nitejaguar.Relay.Refinement.{Request, append, complete, Shows, file_of}
use nitejaguar.Relay.Refinement.Agrees.{answers, spec_answers, answers-spec}
use nitejaguar.Samples.{same_bytes, offer, opened_store, two_bytes}
use nitejaguar.Samples.Relays.{opened_store-IsRelay}

-- a chunk with a number that is too high, the chunk, and the completion
abbrev requests : List Request
requests = append (pos 1) two_bytes ∷ append (pos 0) two_bytes ∷ complete two_bytes false ∷ []

opened-Shows : Shows "s1" opened_store (file_of offer [])
unfolding get_session chunks_of
opened-Shows = record { row = offer; found = refl; same = refl }

answers-spec_example :
    answers same_bytes requests "s1" opened_store
    ≡ spec_answers same_bytes requests (file_of offer [])
answers-spec_example =
    answers-spec same_bytes requests "s1" opened_store (file_of offer []) opened_store-IsRelay
      opened-Shows
