-- ===== src/Transfer/Download/Rounds.antt =====
-- DownloadFileRelay (internal/client/transfers.go): its loop ends.
use nitejaguar.Base.{
  ℕ, zero, suc, ◌+◌, ◌≤◌, ◌<◌, ℤ, pos, ltb_int, leb, Bool, true, not, ◌&&◌, Option, none, some,
  List, [], ◌∷◌, ◌++◌, String, Text, codes, text_eq, trim_space, equal_fold, All, length, ltb,
  if-holds, ◌==◌, ==_iff, ◌≡◌, ◌≢◌, refl, ap, subst, ◌∙◌, if◌then◌else◌, arith, Bool-cases,
  Option-cases, inl, inr,
}
use nitejaguar.Relay.{Bytes, Session, Chunk, Store, chunks_of, max_transfer_chunks}
use nitejaguar.Relay.Complete.{from_seq, insert_by_seq, order_by_seq, list_transfer_chunks}
use nitejaguar.Relay.Invariant.{Contiguous, IsRelay}
use nitejaguar.Result.{Result, ok, err, Result-cases}
use nitejaguar.Server.{Server, fetch_chunks, session_for}
use nitejaguar.Transfer.{TransferError, out_of_rounds, gap_at, invalid_chunk}
use nitejaguar.Transfer.Download.{
  apply_relay_permissions, set_mode, parse_octal, without_prefix, keep_file, Receiving, has_all,
  write_chunks, download_rounds, finish_file, download_file_relay, valid_destination_base,
}

-- A chunk's number is one of those that a transfer may have.
abbrev pub IsNumbered : Chunk → Type 0
IsNumbered c = c.seq < max_transfer_chunks

Contiguous-IsNumbered :
    (i : ℕ) (cs : List Chunk)
    → Contiguous i cs
    → i + length cs ≤ max_transfer_chunks
    → All IsNumbered cs
Contiguous-IsNumbered i [] h l = tt
Contiguous-IsNumbered i (c ∷ cs) h l =
    (omega arith, Contiguous-IsNumbered (i + 1) cs h.2 (omega arith))

from_seq-IsNumbered : (n : ℤ) (cs : List Chunk) → All IsNumbered cs → All IsNumbered (from_seq n cs)
unfolding from_seq
from_seq-IsNumbered n [] h = tt
from_seq-IsNumbered n (c ∷ cs) h = elim (Bool-cases (ltb_int (pos c.seq) n)) [
  | inl before ↦ rw before (from_seq-IsNumbered n cs h.1)
  | inr kept ↦ rw kept (h.0, from_seq-IsNumbered n cs h.1)
]

insert-IsNumbered :
    (c : Chunk) (cs : List Chunk)
    → IsNumbered c
    → All IsNumbered cs
    → All IsNumbered (insert_by_seq c cs)
unfolding insert_by_seq
insert-IsNumbered c [] k h = (k, tt)
insert-IsNumbered c (d ∷ ds) k h = elim (Bool-cases (leb c.seq d.seq)) [
  | inl first ↦ rw first (k, h)
  | inr later ↦ rw later (h.0, insert-IsNumbered c ds k h.1)
]

order-IsNumbered : (cs : List Chunk) → All IsNumbered cs → All IsNumbered (order_by_seq cs)
unfolding order_by_seq
order-IsNumbered [] h = tt
order-IsNumbered (c ∷ cs) h = insert-IsNumbered c (order_by_seq cs) h.0 (order-IsNumbered cs h.1)

list-IsNumbered :
    (id : String) (n : ℤ) (s : Store) → IsRelay s → All IsNumbered (list_transfer_chunks id n s)
unfolding list_transfer_chunks
list-IsNumbered id n s h = order-IsNumbered _ (
    from_seq-IsNumbered n _ (
      Contiguous-IsNumbered 0 (chunks_of id s.chunks) (h.numbered id) (omega (arith, h.capped id))))

module _ (hash_token : String → String) (digest : Bytes → Text) (encode : Bytes → Text)
    (decode : Text → Option Bytes) where
  -- What is written is numbered within the cap, one number for each chunk.
  write_chunks-next :
      (seq next : ℕ) (got more : Bytes) (cs : List Chunk)
      → All IsNumbered cs
      → seq ≤ max_transfer_chunks
      → write_chunks hash_token digest encode decode seq got cs ≡ ok (next, more)
      → (next ≡ seq + length cs) × (next ≤ max_transfer_chunks)
  unfolding write_chunks
  write_chunks-next seq next got more [] h l e =
      let same : seq ≡ next = cc e in (omega arith, omega arith)
  write_chunks-next seq next got more (c ∷ cs) h l e = elim (Bool-cases (c.seq == seq)) [
    | inr gap ↦ let no : err (gap_at seq) ≡ ok (next, more) = rw gap at e in absurd (cc no)
    | inl it ↦ elim (Option-cases (decode (encode c.bytes))) [
      | inl bad ↦
          let no : err (invalid_chunk seq) ≡ ok (next, more) = rw (it, bad) at e in absurd (cc no)
      | inr (raw, good) ↦
          let same : c.seq ≡ seq = (==_iff c.seq seq).0 it in
          let rest =
            write_chunks-next (seq + 1) next (got ++ raw) more cs h.1 (omega (arith, h.0))
              (rw (it, good) at e) in
          (omega (arith, rest.0), rest.1)
    ]
  ]

  -- The result is not for want of rounds.
  abbrev pub Ends : {A : Type 0} → Result TransferError A → Type 0
  Ends r = r ≢ err out_of_rounds

  write_chunks-Ends :
      (seq : ℕ) (got : Bytes) (cs : List Chunk)
      → Ends (write_chunks hash_token digest encode decode seq got cs)
  unfolding write_chunks
  write_chunks-Ends seq got [] = λ e. cc e
  write_chunks-Ends seq got (c ∷ cs) = elim (Bool-cases (c.seq == seq)) [
    | inr gap ↦ rw gap (λ e. cc e)
    | inl it ↦ elim (Option-cases (decode (encode c.bytes))) [
      | inl bad ↦ rw (it, bad) (λ e. cc e)
      | inr (raw, good) ↦ rw (it, good) (write_chunks-Ends (seq + 1) (got ++ raw) cs)
    ]
  ]

  fetched-IsNumbered :
      (token id : String) (n : ℤ) (s : Server) (cs : List Chunk)
      → IsRelay s.relay
      → fetch_chunks hash_token digest decode token id n s ≡ ok cs
      → All IsNumbered cs
  unfolding fetch_chunks
  fetched-IsNumbered token id n s cs h e =
      elim (Result-cases (session_for hash_token digest decode token id s)) [
        | inr (x, bad) ↦ let no : err x ≡ ok cs = rw (fetch_chunks, bad) at e in absurd (cc no)
        | inl (row, seen) ↦
            let m = if ltb_int n (pos 0) then pos 0 else n in
            let it : ok (list_transfer_chunks id m s.relay) ≡ ok cs =
              rw (fetch_chunks, seen) at e in
            let it' : list_transfer_chunks id m s.relay ≡ cs = cc it in
            subst (λ xs. All IsNumbered xs) it' (list-IsNumbered id m s.relay h)
      ]

  module _ (token id : String) (size : ℕ) (world : ℕ → Server) (cancelled : ℕ → Bool)
      (valid : (n : ℕ) → IsRelay (world n).relay) where
    -- Rounds and numbers left are more than the cap: each round that goes on takes a number.
    download_rounds-Ends :
        (fuel round seq : ℕ) (got : Bytes)
        → seq ≤ max_transfer_chunks
        → max_transfer_chunks + 1 ≤ seq + fuel
        → Ends (
            download_rounds hash_token digest encode decode token id size world cancelled fuel round
              seq got)
    unfolding download_rounds
    download_rounds-Ends zero round seq got l k = absurd (omega arith)
    download_rounds-Ends (suc fuel) round seq got l k = elim (Bool-cases (cancelled round)) [
      | inl stopped ↦ rw stopped (λ e. cc e)
      | inr on ↦
          elim (Result-cases
            (fetch_chunks hash_token digest decode token id (pos seq) (world round))) [
              | inr (x, e) ↦ rw (on, e) (λ e. cc e)
              | inl ([], e) ↦ rw (on, e) (λ e. cc e)
              | inl (c ∷ cs, e) ↦
                  elim (Result-cases
                    (write_chunks hash_token digest encode decode seq got (c ∷ cs))) [
                      | inr (x, w) ↦
                          rw (on, e, w)
                            (λ o. write_chunks-Ends seq got (c ∷ cs) (w ∙ ap err (cc o)))
                      | inl ((next, more), w) ↦
                          let numbered =
                            fetched-IsNumbered token id (pos seq) (world round) (c ∷ cs)
                              (valid round) e in
                          let step = write_chunks-next seq next got more (c ∷ cs) numbered l w in
                          elim (Bool-cases (has_all size more)) [
                            | inl full ↦ rw (on, e, w, full) (λ e. cc e)
                            | inr part ↦
                                rw (on, e, w, part)
                                  (download_rounds-Ends fuel (round + 1) next more step.1
                                    (omega (arith, step.0)))
                          ]
                    ]
            ]
    ]

-- The result is not for want of rounds.
abbrev Other : Result TransferError Unit → Type 0
Other r = r ≢ err out_of_rounds

set_mode-Other :
    (chmod : ℕ → Bool) (windows : Bool) (mode : Option ℕ) → Other (set_mode chmod windows mode)
unfolding set_mode
set_mode-Other chmod windows none = λ e. cc e
set_mode-Other chmod windows (some v) =
    if-holds Other (ltb 511 v) _ _ (λ _ e. cc e)
      (λ _. if-holds Other (not (chmod v) && not windows) _ _ (λ _ e. cc e) (λ _ e. cc e))

apply-Other :
    (chmod : ℕ → Bool) (windows : Bool) (requested : Text)
    → Other (apply_relay_permissions chmod windows requested)
unfolding apply_relay_permissions
apply-Other chmod windows requested =
    if-holds Other (text_eq (trim_space requested) []) _ _ (λ _ e. cc e)
      (λ _. set_mode-Other chmod windows (
        parse_octal
          (without_prefix (codes "0O") (without_prefix (codes "0o") (trim_space requested)))))

module _ (hash_token : String → String) (digest : Bytes → Text) (encode : Bytes → Text)
    (decode : Text → Option Bytes) (chmod : ℕ → Bool) (windows : Bool) (row : Session) where
  -- The outcome of a download, against the file that was at the destination before it.
  abbrev pub IsDownload : Option Bytes → Receiving → Type 0
  IsDownload disk (err e, file) = (e ≢ out_of_rounds) × (file ≡ disk)
  IsDownload disk (ok sum, file) =
      (disk ≡ none)
      × ((got : Bytes) × ((file ≡ some got)
            × ((sum ≡ digest got) × (equal_fold (digest got) row.sha256 ≡ true))))

  keep_file-IsDownload :
      (got : Bytes)
      → IsDownload none (keep_file hash_token digest encode decode chmod windows row got)
  unfolding keep_file
  keep_file-IsDownload got = elim (Bool-cases (equal_fold (digest got) row.sha256)) [
    | inr differs ↦ rw (keep_file, differs) ((λ e. cc e), refl)
    | inl same ↦ elim (Result-cases (apply_relay_permissions chmod windows row.permissions)) [
      | inl (_, e) ↦ rw (keep_file, same, e) (refl, (got, (refl, (refl, same))))
      | inr (x, e) ↦
          rw (keep_file, same, e)
            ((λ o. apply-Other chmod windows row.permissions (e ∙ ap err o)), refl)
    ]
  ]

  finish_file-IsDownload :
      (r : Result TransferError Bytes)
      → r ≢ err out_of_rounds
      → IsDownload none (finish_file hash_token digest encode decode chmod windows row r)
  unfolding finish_file
  finish_file-IsDownload (err e) h = ((λ o. h (ap err o)), refl)
  finish_file-IsDownload (ok got) h = keep_file-IsDownload got

  -- A download always ends, within one request more than the 512 chunks that a transfer may have,
  -- whatever the server's tables become between two requests, if they are well formed at each. If it
  -- fails, the destination is as it was before: a file that was there stays, and no part of the
  -- download does. If it succeeds there was no file, and the one that is there now has the digest
  -- that is returned, which is the session's up to the case of its letters.
  pub download_file_relay-IsDownload :
      (token : String) (dst : Text) (world : ℕ → Server) (cancelled : ℕ → Bool)
      (disk : Option Bytes)
      → ((n : ℕ) → IsRelay (world n).relay)
      → IsDownload disk (
          download_file_relay hash_token digest encode decode chmod windows token row dst world
            cancelled disk)
  unfolding download_file_relay
  download_file_relay-IsDownload token dst world cancelled (some b) valid =
      elim (Bool-cases (valid_destination_base dst)) [
        | inr bad ↦ rw (download_file_relay, bad) ((λ e. cc e), refl)
        | inl good ↦ rw (download_file_relay, good) ((λ e. cc e), refl)
      ]
  download_file_relay-IsDownload token dst world cancelled none valid =
      elim (Bool-cases (valid_destination_base dst)) [
        | inr bad ↦ rw (download_file_relay, bad) ((λ e. cc e), refl)
        | inl good ↦
            rw (download_file_relay, good)
              (finish_file-IsDownload _ (
                download_rounds-Ends hash_token digest encode decode token row.id row.size world
                  cancelled valid (max_transfer_chunks + 1) 0 0 [] (omega arith) (omega arith)))
      ]
