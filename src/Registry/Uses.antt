-- ===== src/Registry/Uses.antt =====
-- ConsumeEnrollmentToken (internal/database/database.go): what a call keeps.
use nitejaguar.Base.{
  ℕ, ◌+◌, ◌≤◌, false, some, List, [], ◌∷◌, String, eq_iff, Any, All, ◌≡◌, ◌≢◌, ◌⊎◌, inl, inr, refl,
  arith, Option-cases, str_eq_self, str_eq_ne, subst, sym,
}
use nitejaguar.Registry.{
  Enrollment, Registry, find_enrollment, count_use, consume_enrollment_token, is_exhausted,
}

-- A limited token has been used no more often than it allows.
abbrev pub Fits : Enrollment → Type 0
Fits t = (t.max_uses ≡ 0) ⊎ (t.use_count ≤ t.max_uses)

-- Ids are the primary key, and every token fits.
abbrev pub IsEnrollments : List Enrollment → Type 0
IsEnrollments [] = Unit
IsEnrollments (t ∷ ts) = Fits t × All (λ u. u.id ≢ t.id) ts × IsEnrollments ts

count_use-absent :
    (id : String) (ts : List Enrollment) → All (λ u. u.id ≢ id) ts → count_use id ts ≡ ts
unfolding count_use
count_use-absent id [] h = refl
count_use-absent id (t ∷ ts) h = ground (arith, eq_iff t.id id, count_use-absent id ts h.1)

count_use-ids :
    (id k : String) (ts : List Enrollment)
    → All (λ u. u.id ≢ k) ts
    → All (λ u. u.id ≢ k) (count_use id ts)
unfolding count_use
count_use-ids id k [] h = tt
count_use-ids id k (t ∷ ts) h = (ground arith, count_use-ids id k ts h.1)

-- the row with the hash
pub find_enrollment-Any :
    (h : String) (ts : List Enrollment) (t : Enrollment)
    → find_enrollment h ts ≡ some t
    → Any (λ u. u ≡ t) ts × (t.token_hash ≡ h)
unfolding find_enrollment
find_enrollment-Any h [] t e = cc
find_enrollment-Any h (u ∷ ts) t e =
    ground (arith, eq_iff u.token_hash h, find_enrollment-Any h ts t)

pub Any-id :
    (t : Enrollment) (id : String) (ts : List Enrollment)
    → Any (λ u. u ≡ t) ts
    → All (λ u. u.id ≢ id) ts
    → t.id ≢ id
Any-id t id [] h k = absurd h
Any-id t id (u ∷ ts) (inl e) k = rw (← e) k.0
Any-id t id (u ∷ ts) (inr h) k = Any-id t id ts h k.1

Fits-after :
    (u : Enrollment)
    → is_exhausted u ≡ false
    → Fits u
    → Fits (record u { use_count = u.use_count + 1 })
Fits-after u x h = ground arith

-- Counting a use of a stored token that is not exhausted.
count_use-IsEnrollments :
    (t : Enrollment) (ts : List Enrollment)
    → Any (λ u. u ≡ t) ts
    → is_exhausted t ≡ false
    → IsEnrollments ts
    → IsEnrollments (count_use t.id ts)
unfolding count_use
count_use-IsEnrollments t [] m x h = tt
count_use-IsEnrollments t (u ∷ ts) (inl e) x h =
    subst (λ w. IsEnrollments (count_use w.id (u ∷ ts))) e
      (rw (str_eq_self u.id) (
        Fits-after u (rw (← e) at x) h.0,
        rw (count_use-absent u.id ts h.1) h.1,
        rw (count_use-absent u.id ts h.1) h.2,
      ))
count_use-IsEnrollments t (u ∷ ts) (inr m) x h =
    rw (str_eq_ne u.id t.id (λ p. Any-id t u.id ts m h.1 (sym p)))
      (h.0, count_use-ids t.id u.id ts h.1, count_use-IsEnrollments t ts m x h.2)

module _ (hash_token : String → String) where
  -- the two ends of ConsumeEnrollmentToken
  consume-Cases :
      (now : ℕ) (token : String) (r : Registry)
      → ((consume_enrollment_token hash_token now token r).1 ≡ r)
        ⊎ ((t : Enrollment) × (find_enrollment (hash_token token) r.enrollments ≡ some t)
            × (is_exhausted t ≡ false)
            × ((consume_enrollment_token hash_token now token r).1
                ≡ record r { enrollments = count_use t.id r.enrollments }))
  consume-Cases now token r =
      elim (Option-cases (find_enrollment (hash_token token) r.enrollments)) [
        | inl e ↦ inl (unfold consume_enrollment_token in ground arith)
        | inr (t, e) ↦ elim (row t e) [ inl same ↦ inl same | inr (x, w) ↦ inr (t, e, x, w) ]
      ]
    where
      row :
          (t : Enrollment)
          → find_enrollment (hash_token token) r.enrollments ≡ some t
          → ((consume_enrollment_token hash_token now token r).1 ≡ r)
            ⊎ ((is_exhausted t ≡ false)
                × ((consume_enrollment_token hash_token now token r).1
                    ≡ record r { enrollments = count_use t.id r.enrollments }))
      row t e = unfold consume_enrollment_token in ground arith

  -- Consuming a token, accepted or not, keeps the ids distinct and every limited token used no more
  -- often than it allows.
  pub consume-IsEnrollments :
      (now : ℕ) (token : String) (r : Registry)
      → IsEnrollments r.enrollments
      → IsEnrollments (consume_enrollment_token hash_token now token r).1.enrollments
  consume-IsEnrollments now token r h = elim (consume-Cases now token r) [
    | inl e ↦ rw e h
    | inr (t, found, x, e) ↦ rw e (
        count_use-IsEnrollments t r.enrollments
          (find_enrollment-Any (hash_token token) r.enrollments t found).0 x h)
  ]
