-- ===== src/Relay/Invariant.antt =====
-- Well-formed tables of the relay (internal/database/transfers.go), and InitTransferSession and
-- AppendTransferChunk on them.
use nitejaguar.Base.{
  ℕ, ◌+◌, ◌≤◌, ◌<◌, ℤ, Bool, false, Option, none, some, List, [], ◌∷◌, ◌++◌, String, str_eq, eq_iff,
  length, length-append, append-nil, ltb_false→le, nat_of, ◌∙◌, ap, ltb, ◌≡◌, ◌≢◌, refl, arith,
  Bool-cases, inl, inr, ◌⊎◌, Option-cases,
}
use nitejaguar.Relay.{
  Bytes, Status, Session, Chunk, Store, InitRequest, new_session, chunks_of, has_seq, get_session,
  update_session, push_chunk, init_transfer_session, append_transfer_chunk, max_transfer_chunks,
  max_transfer_chunk_bytes, max_transfer_bytes, append_to, append_found, append_by_status, done,
  failed, offered, uploading, ready,
}

-- The chunks are numbered from `i` on, in order, and each is within the cap.
abbrev pub Contiguous : ℕ → List Chunk → Type 0
Contiguous i [] = Unit
Contiguous i (c ∷ cs) =
    (c.seq ≡ i) × (length c.bytes ≤ max_transfer_chunk_bytes) × Contiguous (i + 1) cs

abbrev pub SizesFit : List Session → Type 0
SizesFit [] = Unit
SizesFit (r ∷ rs) = (r.size ≤ max_transfer_bytes) × SizesFit rs

pub record IsRelay (s : Store) : Type 0 where
  pub numbered : (id : String) → Contiguous 0 (chunks_of id s.chunks)
  pub capped : (id : String) → length (chunks_of id s.chunks) ≤ max_transfer_chunks
  pub sizes : SizesFit s.sessions

pub chunks_of-append :
    (id : String) (xs ys : List Chunk)
    → chunks_of id (xs ++ ys) ≡ chunks_of id xs ++ chunks_of id ys
unfolding chunks_of
chunks_of-append id [] ys = refl
chunks_of-append id (c ∷ cs) ys = ground (arith, chunks_of-append id cs ys)

pub Contiguous-append :
    (i : ℕ) (xs : List Chunk) (c : Chunk)
    → Contiguous i xs
    → c.seq ≡ i + length xs
    → length c.bytes ≤ max_transfer_chunk_bytes
    → Contiguous i (xs ++ c ∷ [])
Contiguous-append i [] c h e l = (omega arith, l, tt)
Contiguous-append i (x ∷ xs) c h e l =
    (h.0, h.1, Contiguous-append (i + 1) xs c h.2 (omega arith) l)

-- Numbered chunks hold every number below their count and no other.
pub has_seq-Contiguous :
    (i n : ℕ) (cs : List Chunk) → Contiguous i cs → i + length cs ≤ n → has_seq n cs ≡ false
unfolding has_seq
has_seq-Contiguous i n [] h l = refl
has_seq-Contiguous i n (c ∷ cs) h l = ground (arith, has_seq-Contiguous (i + 1) n cs h.2)

pub SizesFit-update :
    (id : String) (status : Status) (via : Bool) (rs : List Session)
    → SizesFit rs
    → SizesFit (update_session id status via rs)
unfolding update_session
SizesFit-update id status via [] h = tt
SizesFit-update id status via (r ∷ rs) h = (ground arith, SizesFit-update id status via rs h.1)

SizesFit-append :
    (rs : List Session) (r : Session)
    → SizesFit rs
    → r.size ≤ max_transfer_bytes
    → SizesFit (rs ++ r ∷ [])
SizesFit-append [] r h l = (l, tt)
SizesFit-append (x ∷ rs) r h l = (h.0, SizesFit-append rs r h.1 l)

-- one new chunk, seen from the transfer `id`
module _ (id : String) (c : Chunk) (cs : List Chunk) (h : Contiguous 0 (chunks_of id cs)) where
  numbered-push :
      c.seq ≡ length (chunks_of c.transfer_id cs)
      → length c.bytes ≤ max_transfer_chunk_bytes
      → Contiguous 0 (chunks_of id (cs ++ c ∷ []))
  unfolding chunks_of
  numbered-push e fits =
      rw (chunks_of-append id cs (c ∷ [])) (elim (Bool-cases (str_eq c.transfer_id id)) [
        | inl same ↦ rw same (
            Contiguous-append 0 (chunks_of id cs) c h
              (e
                ∙ ap (λ t. length (chunks_of t cs)) ((eq_iff c.transfer_id id).0 same)
                ∙ omega arith)
              fits)
        | inr other ↦ rw other (rw append-nil h)
      ])

  capped-push :
      length (chunks_of c.transfer_id cs) < max_transfer_chunks
      → length (chunks_of id cs) ≤ max_transfer_chunks
      → length (chunks_of id (cs ++ c ∷ [])) ≤ max_transfer_chunks
  unfolding chunks_of
  capped-push room cap = rw (chunks_of-append id cs (c ∷ [])) (
      rw length-append (elim (Bool-cases (str_eq c.transfer_id id)) [
        | inl same ↦ rw same (omega (arith, rw ((eq_iff c.transfer_id id).0 same) at room))
        | inr other ↦ rw other (omega arith)
      ]))

push_chunk-IsRelay :
    (row : Session) (n : ℕ) (bytes : Bytes) (s : Store)
    → IsRelay s
    → n ≡ length (chunks_of row.id s.chunks)
    → n < max_transfer_chunks
    → length bytes ≤ max_transfer_chunk_bytes
    → IsRelay (push_chunk row n bytes s)
push_chunk-IsRelay row n bytes s h e room fits = record {
  numbered = λ id.
      numbered-push id (record { transfer_id = row.id; seq = n; bytes = bytes }) s.chunks
        (h.numbered id) e fits;
  capped = λ id.
      capped-push id (record { transfer_id = row.id; seq = n; bytes = bytes }) s.chunks
        (h.numbered id) (omega arith) (h.capped id);
  sizes = SizesFit-update row.id _ row.via_p2p s.sessions h.sizes;
}

-- The tables are left alone, or one chunk is written under the next number.
append_to-Writes :
    (row : Session) (seq : ℤ) (bytes : Bytes) (s : Store)
    → ((append_to row seq bytes s).1 ≡ s)
      ⊎ (((append_to row seq bytes s).1
            ≡ push_chunk row (length (chunks_of row.id s.chunks)) bytes s)
          × (length (chunks_of row.id s.chunks) < max_transfer_chunks))
unfolding append_to
append_to-Writes row seq bytes s = ground arith

append_to-IsRelay :
    (row : Session) (seq : ℤ) (bytes : Bytes) (s : Store)
    → IsRelay s
    → length bytes ≤ max_transfer_chunk_bytes
    → IsRelay (append_to row seq bytes s).1
append_to-IsRelay row seq bytes s h fits = elim (append_to-Writes row seq bytes s) [
  | inl e ↦ rw e h
  | inr (e, room) ↦ rw e (push_chunk-IsRelay row _ bytes s h refl room fits)
]

append_found-IsRelay :
    (found : Option Session) (seq : ℤ) (bytes : Bytes) (s : Store)
    → IsRelay s
    → length bytes ≤ max_transfer_chunk_bytes
    → IsRelay (append_found found seq bytes s).1
unfolding append_found
append_found-IsRelay none seq bytes s h fits = h
append_found-IsRelay (some row) seq bytes s h fits = by_status row.status
  where
    by_status : (status : Status) → IsRelay (append_by_status status row seq bytes s).1
    by_status done = unfold append_by_status in h
    by_status failed = unfold append_by_status in h
    by_status offered = unfold append_by_status in append_to-IsRelay row seq bytes s h fits
    by_status uploading = unfold append_by_status in append_to-IsRelay row seq bytes s h fits
    by_status ready = unfold append_by_status in append_to-IsRelay row seq bytes s h fits

-- AppendTransferChunk keeps the tables well formed, whether it stores the chunk or refuses it.
pub append-IsRelay :
    (id : String) (seq : ℤ) (bytes : Bytes) (s : Store)
    → IsRelay s
    → IsRelay (append_transfer_chunk id seq bytes s).1
append-IsRelay id seq bytes s h = elim (Bool-cases (ltb max_transfer_chunk_bytes (length bytes))) [
  | inl over ↦ unfold append_transfer_chunk in rw over h
  | inr fits ↦
      unfold append_transfer_chunk in
      rw fits
        (append_found-IsRelay (get_session id s.sessions) seq bytes s h (ltb_false→le _ _ fits))
]

-- A new session is written only with a size within the cap.
pub init-Writes :
    (id : String) (r : InitRequest) (s : Store)
    → ((init_transfer_session id r s).1 ≡ s)
      ⊎ (((init_transfer_session id r s).1
            ≡ record s { sessions = s.sessions ++ new_session id r ∷ [] })
          × (nat_of r.size ≤ max_transfer_bytes))
unfolding init_transfer_session
init-Writes id r s = ground arith

-- InitTransferSession keeps the tables well formed: the size it accepts is within the cap.
pub init-IsRelay :
    (id : String) (r : InitRequest) (s : Store)
    → IsRelay s
    → IsRelay (init_transfer_session id r s).1
init-IsRelay id r s h = elim (init-Writes id r s) [
  | inl e ↦ rw e h
  | inr (e, fits) ↦ rw e (record {
    numbered = h.numbered;
    capped = h.capped;
    sizes = SizesFit-append s.sessions (new_session id r) h.sizes fits;
  })
]

append_row-Writes :
    (row : Session) (seq : ℤ) (bytes : Bytes) (s : Store)
    → ((append_found (some row) seq bytes s).1 ≡ s)
      ⊎ ((row.status ≢ done)
          × ((append_found (some row) seq bytes s).1
              ≡ push_chunk row (length (chunks_of row.id s.chunks)) bytes s))
unfolding append_found append_by_status append_to
append_row-Writes row seq bytes s = ground arith

-- The tables behind AppendTransferChunk: those before it, or with one chunk more for a session
-- that is neither done nor failed.
pub append-Writes :
    (id : String) (seq : ℤ) (bytes : Bytes) (s : Store)
    → ((append_transfer_chunk id seq bytes s).1 ≡ s)
      ⊎ ((row : Session) × (get_session id s.sessions ≡ some row)
          × (row.status ≢ done)
          × ((append_transfer_chunk id seq bytes s).1
              ≡ push_chunk row (length (chunks_of row.id s.chunks)) bytes s))
unfolding append_transfer_chunk
append-Writes id seq bytes s = elim (Option-cases (get_session id s.sessions)) [
  | inl e ↦ inl (ground arith)
  | inr (row, e) ↦ elim (append_row-Writes row seq bytes s) [
    | inl same ↦ inl (ground arith)
    | inr (o, w) ↦ elim (Bool-cases (ltb max_transfer_chunk_bytes (length bytes))) [
      | inl over ↦ inl (ground arith)
      | inr fits ↦ inr (row, e, o, ground arith)
    ]
  ]
]
