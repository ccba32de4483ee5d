-- ===== src/Relay/Refinement/Agrees.antt =====
-- Every request to the relay's tables (internal/database/transfers.go) does to a transfer what it is to
-- do to the file.
use nitejaguar.Base.{
  ℕ, ℤ, pos, eq_int, Bool, true, false, not, ◌||◌, some, List, [], ◌∷◌, ◌++◌, append-nil, String,
  str_eq_self, Text, length, length-append, ltb, leb, ◌==◌, if◌then◌else◌, ◌≡◌, refl, sym, ap, ◌∙◌,
  subst, arith,
}
use nitejaguar.Relay.{
  Bytes, Status, done, failed, offered, uploading, ready, Session, Chunk, Store, RelayError,
  max_transfer_chunk_bytes, max_transfer_chunks, chunks_of, stored_bytes, has_seq, get_session,
  status_after, push_chunk, append_transfer_chunk, append_found, append_by_status, append_to,
}
use nitejaguar.Relay.Complete.{
  complete_transfer_session, complete_found, complete_by_status, close_session, verify, check_bytes,
  gather, order_by_seq, equal_hex,
}
use nitejaguar.Relay.Complete.Verify.{
  content, content-append, stored_bytes-content, order-Contiguous, gather-Contiguous,
}
use nitejaguar.Relay.Final.{get_session-id, get_session-update_self}
use nitejaguar.Relay.Invariant.{IsRelay, chunks_of-append, has_seq-Contiguous, append-IsRelay}
use nitejaguar.Relay.Steps.{complete-IsRelay}
use nitejaguar.Result.{Result, ok, err}
use nitejaguar.Relay.Refinement.{
  File, Request, append, complete, Answer, forget, settled, extended, take_chunk, take_by_status,
  close, close_by_status, spec, perform, file_of, Shows,
}

-- What was done agrees with what was to be done.
abbrev pub Agrees : {A : Type 0} → String → Result RelayError A × Store → Answer × File → Type 0
Agrees id out sp = (forget out.0 ≡ sp.0) × Shows id out.1 sp.1

both-if :
    {A B : Type 0} (P : A → B → Type 0) (b : Bool) (x y : A) (u v : B)
    → (b ≡ true → P x u)
    → (b ≡ false → P y v)
    → P (if b then x else y) (if b then u else v)
both-if P true x y u v h k = h refl
both-if P false x y u v h k = k refl

settled-status :
    (stored size : ℕ) (chunk : Bytes)
    → status_after stored size chunk ≡ (if settled size stored chunk then ready else uploading)
settled-status stored size chunk = ground arith

forgotten : (a : Answer) → forget a ≡ a
forgotten (ok _) = refl
forgotten (err e) = refl

module _ (row : Session) (s : Store) (found : get_session row.id s.sessions ≡ some row)
    (valid : IsRelay s) where
  abbrev mine : List Chunk
  mine = chunks_of row.id s.chunks

  abbrev file : File
  file = file_of row mine

  as_before : Shows row.id s file
  as_before = record { row = row; found = found; same = refl }

  abbrev added : ℕ → Bytes → Chunk
  added n chunk = record { transfer_id = row.id; seq = n; bytes = chunk }

  mine-pushed :
      (n : ℕ) (chunk : Bytes)
      → chunks_of row.id (s.chunks ++ (added n chunk ∷ [])) ≡ mine ++ (added n chunk ∷ [])
  unfolding chunks_of
  mine-pushed n chunk = rw (chunks_of-append row.id s.chunks) (rw (str_eq_self row.id) refl)

  content-pushed :
      (n : ℕ) (chunk : Bytes) → content (mine ++ (added n chunk ∷ [])) ≡ content mine ++ chunk
  unfolding content
  content-pushed n chunk =
      content-append mine (added n chunk ∷ []) ∙ ap (λ r. content mine ++ r) (append-nil chunk)

  pushed-Shows :
      (n : ℕ) (chunk : Bytes) → Shows row.id (push_chunk row n chunk s) (extended chunk file)
  pushed-Shows n chunk = record {
    row = record row {
      status =
          status_after (stored_bytes (chunks_of row.id (s.chunks ++ (added n chunk ∷ [])))) row.size
            chunk;
    };
    found = get_session-update_self row.id _ row.via_p2p s.sessions row found;
    same =
        rw
          (
            mine-pushed n chunk,
            stored_bytes-content (mine ++ (added n chunk ∷ [])),
            content-pushed n chunk,
            length-append mine (added n chunk ∷ []),
            settled-status (length (content mine ++ chunk)) row.size chunk,
          )
          refl;
  }

  append_to-Agrees :
      (n : ℤ) (chunk : Bytes) → Agrees row.id (append_to row n chunk s) (take_chunk n chunk file)
  unfolding append_to
  append_to-Agrees n chunk =
      let free : has_seq (length mine) mine ≡ false =
        has_seq-Contiguous 0 (length mine) mine (valid.numbered row.id) (omega arith) in
      both-if (Agrees row.id) (not (eq_int n (pos (length mine)))) _ _ _ _ (λ _. (refl, as_before))
        (λ _.
          both-if (Agrees row.id) (leb max_transfer_chunks (length mine)) _ _ _ _
            (λ _. (refl, as_before)) (λ _. rw free (refl, pushed-Shows (length mine) chunk)))

  append_by_status-Agrees :
      (st : Status) (n : ℤ) (chunk : Bytes)
      → Agrees row.id (append_by_status st row n chunk s) (take_by_status st n chunk file)
  unfolding append_by_status
  append_by_status-Agrees done n chunk = (refl, as_before)
  append_by_status-Agrees failed n chunk = (refl, as_before)
  append_by_status-Agrees offered n chunk = append_to-Agrees n chunk
  append_by_status-Agrees uploading n chunk = append_to-Agrees n chunk
  append_by_status-Agrees ready n chunk = append_to-Agrees n chunk

  module _ (digest : Bytes → Text) where
    append-Agrees :
        (n : ℤ) (chunk : Bytes)
        → Agrees row.id (append_transfer_chunk row.id n chunk s) (spec digest (append n chunk) file)
    unfolding append_transfer_chunk append_found
    append-Agrees n chunk =
        both-if (Agrees row.id) (ltb max_transfer_chunk_bytes (length chunk)) _ _ _ _
          (λ _. (refl, as_before)) (λ _. rw (found) (append_by_status-Agrees row.status n chunk))

    closed-Agrees :
        (via : Bool)
        → Agrees row.id
            (close_session digest row via (ok tt) s)
            (ok tt, record file { status = done })
    unfolding close_session
    closed-Agrees via = (
      refl,
      record {
        row = record row { status = done; via_p2p = via };
        found = get_session-update_self row.id done via s.sessions row found;
        same = refl;
      },
    )

    hashed : gather 0 [] (order_by_seq mine) ≡ ok (content mine)
    hashed =
        rw (order-Contiguous 0 mine (valid.numbered row.id))
          (gather-Contiguous 0 [] mine (valid.numbered row.id))

    close-Agrees :
        (sha : Text) (via : Bool)
        → Agrees row.id
            (close_session digest row via
              (if via then ok tt else verify digest row sha (gather 0 [] (order_by_seq mine)))
              s)
            (close digest sha via file)
    unfolding verify check_bytes
    close-Agrees sha true = closed-Agrees true
    close-Agrees sha false =
        let P = λ (r : Result RelayError Unit) (sp : Answer × File).
          Agrees row.id (close_session digest row false r s) sp in
        rw hashed (
          both-if P (not (length (content mine) == row.size)) _ _ _ _
            (λ _. unfold close_session in (refl, as_before))
            (λ _.
              both-if P
                (not (equal_hex (digest (content mine)) row.sha256)
                  || not (equal_hex sha row.sha256))
                _ _ _ _ (λ _. unfold close_session in (refl, as_before))
                (λ _. closed-Agrees false)))

    complete_by_status-Agrees :
        (st : Status) (sha : Text) (via : Bool)
        → Agrees row.id
            (complete_by_status digest st row sha via s)
            (close_by_status digest st sha via file)
    unfolding complete_by_status
    complete_by_status-Agrees done sha via = (refl, as_before)
    complete_by_status-Agrees failed sha via = close-Agrees sha via
    complete_by_status-Agrees offered sha via = close-Agrees sha via
    complete_by_status-Agrees uploading sha via = close-Agrees sha via
    complete_by_status-Agrees ready sha via = close-Agrees sha via

    complete-Agrees :
        (sha : Text) (via : Bool)
        → Agrees row.id
            (complete_transfer_session digest row.id sha via s)
            (spec digest (complete sha via) file)
    unfolding complete_transfer_session complete_found
    complete-Agrees sha via = rw found (complete_by_status-Agrees row.status sha via)

module _ (digest : Bytes → Text) where
  perform-row :
      (r : Request) (row : Session) (s : Store)
      → get_session row.id s.sessions ≡ some row
      → IsRelay s
      → Agrees row.id
          (perform digest r row.id s)
          (spec digest r (file_of row (chunks_of row.id s.chunks)))
  perform-row (append n chunk) row s found valid =
      let a = append-Agrees row s found valid digest n chunk in (forgotten _ ∙ a.0, a.1)
  perform-row (complete sha via) row s found valid =
      let a = complete-Agrees row s found valid digest sha via in (forgotten _ ∙ a.0, a.1)

  perform-Agrees :
      (r : Request) (id : String) (s : Store) (f : File)
      → IsRelay s
      → Shows id s f
      → Agrees id (perform digest r id s) (spec digest r f)
  perform-Agrees r id s f valid h =
      let here : h.row.id ≡ id = get_session-id id s.sessions h.row h.found in
      let P = λ (k : String).
        (g : File)
        → get_session k s.sessions ≡ some h.row
        → file_of h.row (chunks_of k s.chunks) ≡ g
        → Agrees k (perform digest r k s) (spec digest r g) in
      subst P here (λ g found same. rw (sym same) (perform-row r h.row s found valid)) f h.found
        h.same

  perform-IsRelay :
      (r : Request) (id : String) (s : Store) → IsRelay s → IsRelay (perform digest r id s).1
  perform-IsRelay (append n chunk) id s h = append-IsRelay id n chunk s h
  perform-IsRelay (complete sha via) id s h = complete-IsRelay digest id sha via s h

  -- The answers to a sequence of requests, of the tables and of the file.
  abbrev pub answers : List Request → String → Store → List Answer
  answers [] id s = []
  answers (r ∷ rs) id s = let out = perform digest r id s in out.0 ∷ answers rs id out.1

  abbrev pub spec_answers : List Request → File → List Answer
  spec_answers [] f = []
  spec_answers (r ∷ rs) f = let out = spec digest r f in out.0 ∷ spec_answers rs out.1

  -- The tables refine the file: to every sequence of uploads and completions on a transfer that the
  -- tables hold, they answer as the file does, which grows by one chunk at a time and is closed by a
  -- completion. This holds from every well-formed state of the tables.
  pub answers-spec :
      (rs : List Request) (id : String) (s : Store) (f : File)
      → IsRelay s
      → Shows id s f
      → answers rs id s ≡ spec_answers rs f
  answers-spec [] id s f valid h = refl
  answers-spec (r ∷ rs) id s f valid h =
      let a = perform-Agrees r id s f valid h in
      let out = perform digest r id s in
      ap (λ x. x ∷ answers rs id out.1) (sym (forgotten out.0) ∙ a.0)
      ∙ ap (λ xs. (spec digest r f).0 ∷ xs)
          (answers-spec rs id out.1 (spec digest r f).1 (perform-IsRelay r id s valid) a.1)
