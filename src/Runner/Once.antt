-- ===== src/Runner/Once.antt =====
-- drainPending and runResult (internal/client/client.go): which assignments a runner starts over time.
use nitejaguar.Base.{
  ℕ, Bool, true, false, Option, List, [], ◌∷◌, ◌++◌, String, contains, ◌≡◌, ◌≢◌, refl, subst,
  if◌then◌else◌, Bool-cases, inl, inr, All,
}
use nitejaguar.Result.{Result}
use nitejaguar.ResultData.{ResultData}
use nitejaguar.Runner.{
  Runner, Pending, Times, Fetched, key_of, drain_one, drain_pending, run_result,
}
use nitejaguar.Runner.Seen.{Keeps, Round, drain_one-Round, run_result-seen}
use nitejaguar.Value.{Value, Fields}

-- No two assignments of the list have one key.
abbrev pub IsDistinct : List Pending → Type 0
IsDistinct [] = Unit
IsDistinct (p ∷ ps) = All (λ q. key_of p ≢ key_of q) ps × IsDistinct ps

-- Assignments that are started between two lists of seen keys: each is new, is noted, and is started
-- once.
pub record IsOnce (before : List String) (started : List Pending) (after : List String)
    : Type 0 where
  pub keeps : Keeps before after
  pub new : All (λ p. contains before (key_of p) ≡ false) started
  pub noted : All (λ p. contains after (key_of p) ≡ true) started
  pub distinct : IsDistinct started

All-map :
    {P Q : Pending → Type 0} (ps : List Pending) → ((p : Pending) → P p → Q p) → All P ps → All Q ps
All-map [] f h = tt
All-map (p ∷ ps) f h = (f p h.0, All-map ps f h.1)

All-append : (P : Pending → Type 0) (xs ys : List Pending) → All P xs → All P ys → All P (xs ++ ys)
All-append P [] ys h k = k
All-append P (x ∷ xs) ys h k = (h.0, All-append P xs ys h.1 k)

-- a key that is not in the later list was not in the earlier one
earlier : (a b : List String) (k : String) → Keeps a b → contains b k ≡ false → contains a k ≡ false
earlier a b k keeps h = elim (Bool-cases (contains a k)) [
  | inl held ↦ absurd (cc (keeps k held, h))
  | inr out ↦ out
]

apart :
    (b : List String) (p q : Pending)
    → contains b (key_of p) ≡ true
    → contains b (key_of q) ≡ false
    → key_of p ≢ key_of q
apart b p q held out same = absurd (cc (subst (λ k. contains b k ≡ true) same held, out))

IsDistinct-append :
    (b : List String) (xs ys : List Pending)
    → All (λ p. contains b (key_of p) ≡ true) xs
    → All (λ p. contains b (key_of p) ≡ false) ys
    → IsDistinct xs
    → IsDistinct ys
    → IsDistinct (xs ++ ys)
IsDistinct-append b [] ys h k d e = e
IsDistinct-append b (x ∷ xs) ys h k d e = (
  All-append (λ q. key_of x ≢ key_of q) xs ys d.0 (All-map ys (λ q. apart b x q h.0) k),
  IsDistinct-append b xs ys h.1 k d.1 e,
)

IsOnce-append :
    (a b c : List String) (xs ys : List Pending)
    → IsOnce a xs b
    → IsOnce b ys c
    → IsOnce a (xs ++ ys) c
IsOnce-append a b c xs ys f g = record {
  keeps = λ k h. g.keeps k (f.keeps k h);
  new =
      All-append (λ p. contains a (key_of p) ≡ false) xs ys f.new
        (All-map ys (λ p. earlier a b (key_of p) f.keeps) g.new);
  noted =
      All-append (λ p. contains c (key_of p) ≡ true) xs ys
        (All-map xs (λ p. g.keeps (key_of p)) f.noted) g.noted;
  distinct = IsDistinct-append b xs ys f.noted g.new f.distinct g.distinct;
}

IsOnce-refl : (a : List String) → IsOnce a [] a
IsOnce-refl a = record { keeps = λ k h. h; new = tt; noted = tt; distinct = tt }

-- A runner polls, or takes a result of one of its nodes.
pub data Event : Type 0 where
  polled : (Pending → Times) → List Pending → Event
  reported : ℕ → ResultData → Event

module _ (fetch : ℕ → String → String → String → Result String Fetched)
    (as_string_map : Value → Option Fields) (post : ResultData → Option (List String)) where
  round-IsOnce :
      (p : Pending) (ps : List Pending) (a b c : List String) (started : Bool)
      → Round fetch p a b started
      → IsOnce b ps c
      → IsOnce a (if started then p ∷ ps else ps) c
  round-IsOnce p ps a b c true f g =
      IsOnce-append a b c (p ∷ []) ps
        (record {
          keeps = f.keeps;
          new = (f.new refl, tt);
          noted = (f.noted refl, tt);
          distinct = (tt, tt);
        })
        g
  round-IsOnce p ps a b c false f g =
      IsOnce-append a b c [] ps (record { keeps = f.keeps; new = tt; noted = tt; distinct = tt }) g

  drain_pending-IsOnce :
      (times : Pending → Times) (ps : List Pending) (r : Runner)
      → IsOnce r.pending_seen
          (drain_pending fetch times ps r).0
          (drain_pending fetch times ps r).1.pending_seen
  unfolding drain_pending
  drain_pending-IsOnce times [] r = IsOnce-refl r.pending_seen
  drain_pending-IsOnce times (p ∷ ps) r =
      let one = drain_one fetch (times p) p r in
      round-IsOnce p (drain_pending fetch times ps one.1).0 r.pending_seen one.1.pending_seen
        (drain_pending fetch times ps one.1).1.pending_seen one.0
        (drain_one-Round fetch (times p) p r) (drain_pending-IsOnce times ps one.1)

  -- the assignments that a run starts, and the runner behind it
  abbrev pub run : List Event → Runner → List Pending × Runner
  run [] r = ([], r)
  run (polled times ps ∷ es) r =
      let one = drain_pending fetch times ps r in
      let rest = run es one.1 in (one.0 ++ rest.0, rest.1)
  run (reported now result ∷ es) r = run es (run_result fetch as_string_map post now result r)

  -- Over any sequence of polls and results, a runner starts no assignment whose key it has seen
  -- before, and no two with one key, however often the server lists an assignment and whether or not
  -- fetches of credentials fail. It notes the keys of those that it starts.
  pub run-IsOnce :
      (es : List Event) (r : Runner) → IsOnce r.pending_seen (run es r).0 (run es r).1.pending_seen
  run-IsOnce [] r = IsOnce-refl r.pending_seen
  run-IsOnce (polled times ps ∷ es) r =
      let one = drain_pending fetch times ps r in
      IsOnce-append r.pending_seen one.1.pending_seen (run es one.1).1.pending_seen one.0
        (run es one.1).0 (drain_pending-IsOnce times ps r) (run-IsOnce es one.1)
  run-IsOnce (reported now result ∷ es) r =
      let next = run_result fetch as_string_map post now result r in
      subst (λ s. IsOnce s (run es next).0 (run es next).1.pending_seen)
        (run_result-seen fetch as_string_map post now result r) (run-IsOnce es next)
