-- ===== src/Tenants/Slug/Valid.antt =====
-- slugifyTenant (internal/database/tenants.go): the slug of a name is one that validTenantSlug lets pass.
use nitejaguar.Base.{
  ℕ, Bool, true, false, ◌||◌, ◌&&◌, [], ◌∷◌, Text, text_eq_self, has_prefix, holds_code, to_lower,
  trim_space, trim_of, trim_left_of, trim_right_of, leb, ◌==◌, ◌≡◌, ◌≢◌, ◌⊎◌, inl, inr, refl, ap,
  ◌∙◌, arith, Bool-cases, if-holds, if◌then◌else◌,
}
use nitejaguar.Tenants.Slug.{
  is_slug_letter, slug_from, slugify_tenant, are_slug_codes, ends_in_hyphen, has_two_hyphens,
  valid_tenant_slug,
}

-- letters and single hyphens; the flag says whether a hyphen stands before
abbrev IsSlug : Bool → Text → Type 0
IsSlug prev [] = Unit
IsSlug prev (c ∷ cs) =
    ((is_slug_letter c ≡ true) × IsSlug false cs) ⊎ ((c ≡ b'-') × ((prev ≡ false) × IsSlug true cs))

slug_from-IsSlug : (prev : Bool) (s : Text) → IsSlug prev (slug_from prev s)
unfolding slug_from
slug_from-IsSlug prev [] = tt
slug_from-IsSlug prev (c ∷ cs) = elim (Bool-cases (is_slug_letter c)) [
  | inl letter ↦ rw letter (inl (letter, slug_from-IsSlug false cs))
  | inr other ↦ elim (Bool-cases prev) [
    | inl hyphen ↦ rw (other, hyphen) (slug_from-IsSlug true cs)
    | inr free ↦ rw (other, free) (inr (refl, (refl, slug_from-IsSlug true cs)))
  ]
]

abbrev hyphen : Text
hyphen = b'-' ∷ []

letter-other : (c : ℕ) → is_slug_letter c ≡ true → (b'-' == c) ≡ false
unfolding is_slug_letter
letter-other c h = ground arith

trim_left-IsSlug : (s : Text) → IsSlug true s → trim_left_of hyphen s ≡ s
unfolding trim_left_of holds_code
trim_left-IsSlug [] h = refl
trim_left-IsSlug (c ∷ cs) (inl h) = rw (letter-other c h.0) refl
trim_left-IsSlug (c ∷ cs) (inr h) = absurd (cc (h.1.0))

-- one code before a text that is trimmed
abbrev trimmed : ℕ → Text → Text
trimmed c r = elim r [ [] ↦ if holds_code c hyphen then [] else c ∷ [] | d ∷ ds ↦ c ∷ d ∷ ds ]

trimmed-IsSlug : (prev : Bool) (c : ℕ) (r : Text) → IsSlug prev (c ∷ r) → IsSlug prev (trimmed c r)
trimmed-IsSlug prev c [] h =
    if-holds (IsSlug prev) (holds_code c hyphen) [] (c ∷ []) (λ k. tt) (λ k. h)
trimmed-IsSlug prev c (d ∷ ds) h = h

trim_right-IsSlug : (prev : Bool) (s : Text) → IsSlug prev s → IsSlug prev (trim_right_of hyphen s)
unfolding trim_right_of
trim_right-IsSlug prev [] h = tt
trim_right-IsSlug prev (c ∷ cs) (inl h) =
    trimmed-IsSlug prev c (trim_right_of hyphen cs) (inl (h.0, trim_right-IsSlug false cs h.1))
trim_right-IsSlug prev (c ∷ cs) (inr h) =
    trimmed-IsSlug prev c (trim_right_of hyphen cs)
      (inr (h.0, (h.1.0, trim_right-IsSlug true cs h.1.1)))

trimmed-end : (c : ℕ) (r : Text) → ends_in_hyphen r ≡ false → ends_in_hyphen (trimmed c r) ≡ false
unfolding ends_in_hyphen holds_code
trimmed-end c [] h =
    if-holds (λ t. ends_in_hyphen t ≡ false) (b'-' == c || false) [] (c ∷ []) (λ k. refl)
      (λ k. ground arith)
trimmed-end c (d ∷ ds) h = h

trim_right-end : (s : Text) → ends_in_hyphen (trim_right_of hyphen s) ≡ false
unfolding trim_right_of ends_in_hyphen
trim_right-end [] = refl
trim_right-end (c ∷ cs) = trimmed-end c (trim_right_of hyphen cs) (trim_right-end cs)

-- the tests of validTenantSlug that look at one code or two
lower-IsSlug : (prev : Bool) (s : Text) → IsSlug prev s → to_lower s ≡ s
unfolding to_lower is_slug_letter
lower-IsSlug prev [] h = refl
lower-IsSlug prev (c ∷ cs) (inl h) =
    let e : (leb b'A' c && leb c b'Z') ≡ false = ground arith in
    rw e (ap (◌∷◌ c) (lower-IsSlug false cs h.1))
lower-IsSlug prev (c ∷ cs) (inr h) = rw (h.0) (ap (◌∷◌ b'-') (lower-IsSlug true cs h.1.1))

codes-IsSlug : (prev : Bool) (s : Text) → IsSlug prev s → are_slug_codes s ≡ true
unfolding are_slug_codes
codes-IsSlug prev [] h = refl
codes-IsSlug prev (c ∷ cs) (inl h) = rw (h.0) (codes-IsSlug false cs h.1)
codes-IsSlug prev (c ∷ cs) (inr h) = ground (arith, codes-IsSlug true cs h.1.1)

begin-IsSlug : (s : Text) → IsSlug true s → has_prefix s hyphen ≡ false
unfolding is_slug_letter
begin-IsSlug [] h = refl
begin-IsSlug (c ∷ cs) (inl h) = ground arith
begin-IsSlug (c ∷ cs) (inr h) = absurd (cc (h.1.0))

single-IsSlug : (prev : Bool) (s : Text) → IsSlug prev s → has_two_hyphens s ≡ false
unfolding has_two_hyphens is_slug_letter
single-IsSlug prev [] h = refl
single-IsSlug prev (c ∷ cs) (inl h) =
    let e : (c == b'-') ≡ false = ground arith in rw e (single-IsSlug false cs h.1)
single-IsSlug prev (c ∷ cs) (inr h) =
    let e : has_prefix cs hyphen ≡ false = begin-IsSlug cs h.1.1 in
    rw (h.0, e) (single-IsSlug true cs h.1.1)

IsSlug-valid :
    (s : Text) → s ≢ [] → IsSlug true s → ends_in_hyphen s ≡ false → valid_tenant_slug s ≡ true
unfolding valid_tenant_slug
IsSlug-valid [] n h e = absurd (n refl)
IsSlug-valid (c ∷ cs) n h e =
    rw
      (
        lower-IsSlug true (c ∷ cs) h,
        text_eq_self (c ∷ cs),
        codes-IsSlug true (c ∷ cs) h,
        begin-IsSlug (c ∷ cs) h,
        e,
        single-IsSlug true (c ∷ cs) h,
      )
      refl

-- The slug that a tenant's name gives is one that an explicit slug may be, unless it is empty.
pub slugify_tenant-IsValid :
    (name : Text) → slugify_tenant name ≢ [] → valid_tenant_slug (slugify_tenant name) ≡ true
unfolding slugify_tenant trim_of
slugify_tenant-IsValid name h =
    let s = slug_from true (to_lower (trim_space name)) in
    let clean : IsSlug true s = slug_from-IsSlug true (to_lower (trim_space name)) in
    let slug : slugify_tenant name ≡ trim_right_of hyphen s =
      ap (trim_right_of hyphen) (trim_left-IsSlug s clean) in
    rw slug (
      IsSlug-valid (trim_right_of hyphen s) (λ e. h (slug ∙ e)) (trim_right-IsSlug true s clean)
        (trim_right-end s))
