-- ===== src/Registry/Limit.antt =====
-- ConsumeEnrollmentToken (internal/database/database.go): how often a join token lets in.
use nitejaguar.Base.{
  ℕ, ◌+◌, ◌≤◌, false, some, List, [], ◌∷◌, String, str_eq, eq_iff, str_eq_self, str_eq_ne, Any,
  if◌then◌else◌, ◌≡◌, ◌≢◌, inl, inr, refl, sym, ap, ◌∙◌, subst, arith, Bool-cases, Option-cases,
}
use nitejaguar.Registry.{
  Enrollment, Registry, RegistryError, find_enrollment, count_use, consume_enrollment_token,
}
use nitejaguar.Registry.Uses.{
  Fits, IsEnrollments, Any-id, find_enrollment-Any, consume-IsEnrollments,
}
use nitejaguar.Result.{Result, ok, err, Result-cases}

-- Two rows of one id are one row.
same-row :
    (a b : Enrollment) (ts : List Enrollment)
    → IsEnrollments ts
    → Any (λ u. u ≡ a) ts
    → Any (λ u. u ≡ b) ts
    → a.id ≡ b.id
    → a ≡ b
same-row a b [] h m n e = absurd m
same-row a b (u ∷ ts) h (inl x) (inl y) e = sym x ∙ y
same-row a b (u ∷ ts) h (inl x) (inr n) e =
    absurd (Any-id b u.id ts n h.1 (sym e ∙ sym (ap (λ (w : Enrollment). w.id) x)))
same-row a b (u ∷ ts) h (inr m) (inl y) e =
    absurd (Any-id a u.id ts m h.1 (e ∙ sym (ap (λ (w : Enrollment). w.id) y)))
same-row a b (u ∷ ts) h (inr m) (inr n) e = same-row a b ts h.2 m n e

count_use-hit :
    (t : Enrollment) (ts : List Enrollment)
    → Any (λ u. u ≡ t) ts
    → Any (λ u. u ≡ record t { use_count = t.use_count + 1 }) (count_use t.id ts)
unfolding count_use
count_use-hit t [] m = absurd m
count_use-hit t (u ∷ ts) (inl e) = inl (rw (e, str_eq_self t.id) refl)
count_use-hit t (u ∷ ts) (inr m) = inr (count_use-hit t ts m)

count_use-miss :
    (id : String) (t : Enrollment) (ts : List Enrollment)
    → str_eq t.id id ≡ false
    → Any (λ u. u ≡ t) ts
    → Any (λ u. u ≡ t) (count_use id ts)
unfolding count_use
count_use-miss id t [] other m = absurd m
count_use-miss id t (u ∷ ts) other (inl e) = inl (rw (e, other) refl)
count_use-miss id t (u ∷ ts) other (inr m) = inr (count_use-miss id t ts other m)

fits-bounded :
    (t : Enrollment) (ts : List Enrollment)
    → IsEnrollments ts
    → Any (λ u. u ≡ t) ts
    → t.max_uses ≢ 0
    → t.use_count + 0 ≤ t.max_uses
fits-bounded t [] h m limited = absurd m
fits-bounded t (u ∷ ts) h (inl e) limited = let fits : Fits t = subst Fits e h.0 in ground arith
fits-bounded t (u ∷ ts) h (inr m) limited = fits-bounded t ts h.2 m limited

module _ (hash_token : String → String) where
  -- What a call that succeeds found, returned and wrote.
  record Counts (token : String) (r after : Registry) (got : Enrollment) : Type 0 where
    row : Enrollment
    found : find_enrollment (hash_token token) r.enrollments ≡ some row
    returned : got ≡ record row { use_count = row.use_count + 1 }
    written : after.enrollments ≡ count_use row.id r.enrollments

  consume-ok :
      (now : ℕ) (token : String) (r : Registry) (got : Enrollment)
      → (consume_enrollment_token hash_token now token r).0 ≡ ok got
      → Counts token r (consume_enrollment_token hash_token now token r).1 got
  consume-ok now token r got e =
      elim (Option-cases (find_enrollment (hash_token token) r.enrollments)) [
        | inl missing ↦ absurd (unfold consume_enrollment_token in ground arith)
        | inr (t, found) ↦ record {
          row = t;
          found = found;
          returned = unfold consume_enrollment_token in ground arith;
          written = unfold consume_enrollment_token in ground arith;
        }
      ]

  consume-err :
      (now : ℕ) (token : String) (r : Registry) (x : RegistryError)
      → (consume_enrollment_token hash_token now token r).0 ≡ err x
      → (consume_enrollment_token hash_token now token r).1 ≡ r
  consume-err now token r x e =
      elim (Option-cases (find_enrollment (hash_token token) r.enrollments)) [
        | inl missing ↦ unfold consume_enrollment_token in ground arith
        | inr (t, found) ↦ unfold consume_enrollment_token in ground arith
      ]

  -- whether a call let in by the token with an id
  abbrev pub granted : String → Result RegistryError Enrollment → ℕ
  granted id (ok t) = if str_eq t.id id then 1 else 0
  granted id (err e) = 0

  -- how many calls, each at its time, the token with an id lets in
  abbrev pub uses : String → List (ℕ × String) → Registry → ℕ
  uses id [] r = 0
  uses id ((now, token) ∷ calls) r =
      granted id (consume_enrollment_token hash_token now token r).0
      + uses id calls (consume_enrollment_token hash_token now token r).1

  -- A stored token that is limited lets in no more calls than it has uses left, whatever calls are
  -- made, with which tokens and at which times, if the ids of the tokens differ and no limited token
  -- is used more often than it allows at the start.
  pub uses_bounded :
      (calls : List (ℕ × String)) (r : Registry) (t : Enrollment)
      → IsEnrollments r.enrollments
      → Any (λ u. u ≡ t) r.enrollments
      → t.max_uses ≢ 0
      → t.use_count + uses t.id calls r ≤ t.max_uses
  uses_bounded [] r t h m limited = fits-bounded t r.enrollments h m limited
  uses_bounded ((now, token) ∷ calls) r t h m limited =
      let out = consume_enrollment_token hash_token now token r in
      let kept = consume-IsEnrollments hash_token now token r h in
      elim (Result-cases out.0) [
        | inr (x, e) ↦
            let rest = uses_bounded calls r t h m limited in
            rw (e, consume-err now token r x e) (omega arith)
        | inl (got, e) ↦
            let k = consume-ok now token r got e in
            elim (Bool-cases (str_eq k.row.id t.id)) [
              | inl same ↦
                  let one : t ≡ k.row =
                    same-row t k.row r.enrollments h m
                      (find_enrollment-Any (hash_token token) r.enrollments k.row k.found).0
                      (sym ((eq_iff k.row.id t.id).0 same)) in
                  let next = record t { use_count = t.use_count + 1 } in
                  let hit : Any (λ u. u ≡ next) out.1.enrollments =
                    subst (λ us. Any (λ u. u ≡ next) us)
                      (ap (λ (w : Enrollment). count_use w.id r.enrollments) one ∙ sym k.written)
                      (count_use-hit t r.enrollments m) in
                  let rest = uses_bounded calls out.1 next kept hit limited in
                  rw (e, k.returned, same) (omega arith)
              | inr other ↦
                  let different : str_eq t.id k.row.id ≡ false =
                    str_eq_ne t.id k.row.id (λ p. cc (other, (eq_iff k.row.id t.id).1 (sym p))) in
                  let miss : Any (λ u. u ≡ t) out.1.enrollments =
                    subst (λ us. Any (λ u. u ≡ t) us) (sym k.written)
                      (count_use-miss k.row.id t r.enrollments different m) in
                  let rest = uses_bounded calls out.1 t kept miss limited in
                  rw (e, k.returned, other) (omega arith)
            ]
      ]
