-- ===== src/Credentials/Owned.antt =====
-- ResolveCredential (internal/database/credentials.go): the tenant of the credential that it finds.
use nitejaguar.Base.{
  Bool, ◌&&◌, Option, none, some, List, [], ◌∷◌, ◌++◌, All, String, str_eq, eq_iff, text_eq,
  trim_space, codes, has_prefix, ◌≡◌, sym, ◌∙◌, subst, arith, Bool-cases, inl, inr,
}
use nitejaguar.Credentials.{
  Credential, reference_required, credential_not_found, select_named, get_credential, resolve_named,
  resolve_by_id, resolve_credential,
}
use nitejaguar.Credentials.Ranked.{
  filter, is_of_user, is_of_group, is_of_tenant, first_of, ranked, resolve_named-ranked,
}
use nitejaguar.Result.{ok, err}
use nitejaguar.Tenants.{normalize_tenant}

abbrev pub Of : String → Credential → Type 0
Of tenant c = c.tenant_id ≡ tenant

select_named-Of :
    (tenant name : String) (cs : List Credential) → All (Of tenant) (select_named tenant name cs)
unfolding select_named
select_named-Of tenant name [] = tt
select_named-Of tenant name (c ∷ cs) =
    elim (Bool-cases (str_eq c.tenant_id tenant && str_eq c.name name)) [
      | inl here ↦
          rw here (ground (arith, eq_iff c.tenant_id tenant), select_named-Of tenant name cs)
      | inr other ↦ rw other (select_named-Of tenant name cs)
    ]

filter-Of :
    (tenant : String) (p : Credential → Bool) (cs : List Credential)
    → All (Of tenant) cs
    → All (Of tenant) (filter p cs)
filter-Of tenant p [] h = tt
filter-Of tenant p (c ∷ cs) h = elim (Bool-cases (p c)) [
  | inl kept ↦ rw kept (h.0, filter-Of tenant p cs h.1)
  | inr left ↦ rw left (filter-Of tenant p cs h.1)
]

append-Of :
    (tenant : String) (xs ys : List Credential)
    → All (Of tenant) xs
    → All (Of tenant) ys
    → All (Of tenant) (xs ++ ys)
append-Of tenant [] ys h k = k
append-Of tenant (x ∷ xs) ys h k = (h.0, append-Of tenant xs ys h.1 k)

first_of-Of :
    (tenant : String) (cs : List Credential) (c : Credential)
    → All (Of tenant) cs
    → first_of cs ≡ ok c
    → Of tenant c
first_of-Of tenant [] c h e = absurd (cc e)
first_of-Of tenant (x ∷ xs) c h e = let same : x ≡ c = cc e in subst (Of tenant) same h.0

resolve_by_id-Of :
    (tenant : String) (o : Option Credential) (c : Credential)
    → resolve_by_id tenant o ≡ ok c
    → Of tenant c
unfolding resolve_by_id
resolve_by_id-Of tenant none c e = absurd (cc e)
resolve_by_id-Of tenant (some d) c e = elim (Bool-cases (str_eq d.tenant_id tenant)) [
  | inl here ↦
      let it : ok d ≡ ok c = rw here at e in
      let same : d ≡ c = cc it in subst (Of tenant) same (ground (arith, eq_iff d.tenant_id tenant))
  | inr other ↦ let no : err credential_not_found ≡ ok c = rw other at e in absurd (cc no)
]

pub resolve_credential-Of :
    (tenant ref user : String) (groups : List String) (cs : List Credential) (c : Credential)
    → resolve_credential tenant ref user groups cs ≡ ok c
    → Of (normalize_tenant tenant) c
unfolding resolve_credential
resolve_credential-Of tenant ref user groups cs c e =
    elim (Bool-cases (text_eq (trim_space (codes ref)) [])) [
      | inl blank ↦
          let no : err reference_required ≡ ok c = rw (resolve_credential, blank) at e in
          absurd (cc no)
      | inr given ↦ elim (Bool-cases (has_prefix (codes ref) (codes "credential_"))) [
        | inl id ↦
            resolve_by_id-Of (normalize_tenant tenant) (get_credential ref cs) c
              (rw (resolve_credential, given, id) at e)
        | inr name ↦
            let t = normalize_tenant tenant in
            let rows = select_named t ref cs in
            let all = select_named-Of t ref cs in
            let it : resolve_named user groups rows ≡ ok c =
              rw (resolve_credential, given, name) at e in
            first_of-Of t (ranked user groups rows) c
              (append-Of t _ _ (filter-Of t (is_of_user user) rows all) (
                append-Of t _ _ (filter-Of t (is_of_group groups) rows all)
                  (filter-Of t is_of_tenant rows all)))
              (sym (resolve_named-ranked user groups rows) ∙ it)
      ]
    ]
