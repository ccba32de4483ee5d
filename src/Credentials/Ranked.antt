-- ===== src/Credentials/Ranked.antt =====
-- ResolveCredential (internal/database/credentials.go): the credential that a name means.
use nitejaguar.Base.{
  Bool, true, false, not, ◌&&◌, Option, none, some, List, [], ◌∷◌, ◌++◌, append-nil, String, str_eq,
  contains, if◌then◌else◌, ◌≡◌, refl, sym, ◌∙◌, ap, Bool-cases, inl, inr,
}
use nitejaguar.Credentials.{
  Credential, CredentialError, credential_not_found, first_for_user, first_for_group,
  first_for_tenant, found_or, resolve_named,
}
use nitejaguar.Result.{Result, ok, err}

-- the rows that have a property, in their order
abbrev pub filter : (Credential → Bool) → List Credential → List Credential
filter p [] = []
filter p (c ∷ cs) = if p c then c ∷ filter p cs else filter p cs

abbrev pub first : List Credential → Option Credential
first [] = none
first (c ∷ cs) = some c

abbrev pub is_of_user : String → Credential → Bool
is_of_user user c = not (str_eq user "") && (str_eq c.scope "user" && str_eq c.owner_id user)

abbrev pub is_of_group : List String → Credential → Bool
is_of_group groups c =
    str_eq c.scope "group" && (not (str_eq c.owner_id "") && contains groups c.owner_id)

abbrev pub is_of_tenant : Credential → Bool
is_of_tenant c = str_eq c.scope "tenant"

-- the credentials that a caller may mean, the most specific ones first
abbrev pub ranked : String → List String → List Credential → List Credential
ranked user groups cs =
    filter (is_of_user user) cs ++ (filter (is_of_group groups) cs ++ filter is_of_tenant cs)

abbrev pub first_of : List Credential → Result CredentialError Credential
first_of [] = err credential_not_found
first_of (c ∷ cs) = ok c

found-append : (xs ys : List Credential) → found_or (first xs) (first_of ys) ≡ first_of (xs ++ ys)
unfolding found_or
found-append [] ys = refl
found-append (c ∷ cs) ys = refl

no_user :
    (user : String) (cs : List Credential)
    → str_eq user "" ≡ true
    → first (filter (is_of_user user) cs) ≡ none
no_user user [] e = refl
no_user user (c ∷ cs) e = rw e (no_user user cs e)

named-first :
    (user : String) (cs : List Credential)
    → str_eq user "" ≡ false
    → first_for_user user cs ≡ first (filter (is_of_user user) cs)
unfolding first_for_user
named-first user [] e = refl
named-first user (c ∷ cs) e = elim (Bool-cases (str_eq c.scope "user" && str_eq c.owner_id user)) [
  | inl here ↦ rw (e, here) refl
  | inr other ↦ rw (e, other) (named-first user cs e)
]

user-first :
    (user : String) (cs : List Credential)
    → (if str_eq user "" then none else first_for_user user cs)
      ≡ first (filter (is_of_user user) cs)
user-first user cs = elim (Bool-cases (str_eq user "")) [
  | inl blank ↦ rw blank (sym (no_user user cs blank))
  | inr named ↦ rw named (named-first user cs named)
]

group-first :
    (groups : List String) (cs : List Credential)
    → first_for_group groups cs ≡ first (filter (is_of_group groups) cs)
unfolding first_for_group
group-first groups [] = refl
group-first groups (c ∷ cs) = elim (Bool-cases (is_of_group groups c)) [
  | inl here ↦ rw here refl
  | inr other ↦ rw other (group-first groups cs)
]

tenant-first : (cs : List Credential) → first_for_tenant cs ≡ first (filter is_of_tenant cs)
unfolding first_for_tenant
tenant-first [] = refl
tenant-first (c ∷ cs) = elim (Bool-cases (is_of_tenant c)) [
  | inl here ↦ rw here refl
  | inr other ↦ rw other (tenant-first cs)
]

-- A name means the first of the credentials that the caller may mean: those of the user that the
-- request names, before those of its groups, before those of the tenant, and none if there are none.
pub resolve_named-ranked :
    (user : String) (groups : List String) (cs : List Credential)
    → resolve_named user groups cs ≡ first_of (ranked user groups cs)
unfolding resolve_named
resolve_named-ranked user groups cs =
    let of_user = filter (is_of_user user) cs in
    let of_group = filter (is_of_group groups) cs in
    let of_tenant = filter is_of_tenant cs in
    let last : found_or (first_for_tenant cs) (err credential_not_found) ≡ first_of of_tenant =
      rw (tenant-first cs) (found-append of_tenant [] ∙ ap first_of (append-nil of_tenant)) in
    let middle : found_or (first_for_group groups cs) (first_of of_tenant)
        ≡ first_of (of_group ++ of_tenant) =
      rw (group-first groups cs) (found-append of_group of_tenant) in
    rw (last, middle, user-first user cs) (found-append of_user (of_group ++ of_tenant))
