-- ===== src/Provision/Admin.antt =====
-- CreateTenant (internal/database/tenants.go): the tenant and its admin, or the tables as they were.
use nitejaguar.Auth.{User, Accounts, AuthError, find_user, select_users, new_user, verify_user}
use nitejaguar.Auth.Passwords.{Creates, create_user-Creates, select_users-append}
use nitejaguar.Base.{
  Bool, true, false, Option, none, some, List, [], ◌∷◌, ◌++◌, String, str_eq, str_eq_self, eq_iff,
  Text, text_eq_self, ◌≡◌, refl, ap, arith, Bool-cases, Option-cases, inl, inr,
}
use nitejaguar.Provision.{
  ProvisionRequest, Provision, Provisioned, select_tenants, delete_tenant_row, set_admin, set_email,
  link_admin, check_request, insert_tenant, unless_taken, provision, create_tenant,
}
use nitejaguar.Result.{Result, ok, err, Result-cases}
use nitejaguar.Tenants.{
  Tenant, active, find_by_id, find_by_slug, is_tenant_suspended, tenant_status, normalize_tenant,
  status_of,
}

find_by_slug-append :
    (slug : String) (ts : List Tenant) (t : Tenant)
    → find_by_slug slug ts ≡ none
    → t.slug ≡ slug
    → find_by_slug slug (ts ++ (t ∷ [])) ≡ some t
unfolding find_by_slug
find_by_slug-append slug [] t h e = rw (e, str_eq_self slug) refl
find_by_slug-append slug (x ∷ ts) t h e = elim (Bool-cases (str_eq x.slug slug)) [
  | inl same ↦ let no : some x ≡ none = rw same at h in absurd (cc no)
  | inr other ↦ rw other (find_by_slug-append slug ts t (rw other at h) e)
]

-- Behind a table without the id, a change by id reaches the last row only.
set_admin-append :
    (id user : String) (ts : List Tenant) (t : Tenant)
    → find_by_id id ts ≡ none
    → t.id ≡ id
    → set_admin id user (ts ++ (t ∷ [])) ≡ ts ++ (record t { admin_user_id = user } ∷ [])
unfolding find_by_id set_admin
set_admin-append id user [] t h e = rw (e, str_eq_self id) refl
set_admin-append id user (x ∷ ts) t h e = elim (Bool-cases (str_eq x.id id)) [
  | inl same ↦ let no : some x ≡ none = rw same at h in absurd (cc no)
  | inr other ↦ rw other (ap (◌∷◌ x) (set_admin-append id user ts t (rw other at h) e))
]

delete-append :
    (id : String) (ts : List Tenant) (t : Tenant)
    → find_by_id id ts ≡ none
    → t.id ≡ id
    → delete_tenant_row id (ts ++ (t ∷ [])) ≡ ts
unfolding find_by_id delete_tenant_row
delete-append id [] t h e = rw (e, str_eq_self id) refl
delete-append id (x ∷ ts) t h e = elim (Bool-cases (str_eq x.id id)) [
  | inl same ↦ let no : some x ≡ none = rw same at h in absurd (cc no)
  | inr other ↦ rw other (ap (◌∷◌ x) (delete-append id ts t (rw other at h) e))
]

set_email-append :
    (id : String) (email : Text) (us : List User) (u : User)
    → find_user id us ≡ none
    → u.id ≡ id
    → set_email id email (us ++ (u ∷ [])) ≡ us ++ (record u { email = email } ∷ [])
unfolding find_user set_email
set_email-append id email [] u h e = rw (e, str_eq_self id) refl
set_email-append id email (x ∷ us) u h e = elim (Bool-cases (str_eq x.id id)) [
  | inl same ↦ let no : some x ≡ none = rw same at h in absurd (cc no)
  | inr other ↦ rw other (ap (◌∷◌ x) (set_email-append id email us u (rw other at h) e))
]

named-active :
    (slug : String) (ts : List Tenant) (t : Tenant)
    → str_eq slug "" ≡ false
    → find_by_slug slug ts ≡ some t
    → t.status ≡ active
    → is_tenant_suspended slug ts ≡ false
unfolding is_tenant_suspended
named-active slug ts t named found e = elim (Bool-cases (str_eq slug "default")) [
  | inl default ↦ rw (is_tenant_suspended, tenant_status, named, default) refl
  | inr other ↦ rw (is_tenant_suspended, tenant_status, named, other, found, status_of, e) refl
]

-- A tenant whose row is active is not suspended.
active-slug :
    (slug : String) (ts : List Tenant) (t : Tenant)
    → find_by_slug slug ts ≡ some t
    → t.status ≡ active
    → (is_tenant_suspended slug ts ≡ false)
      × (is_tenant_suspended (normalize_tenant slug) ts ≡ false)
unfolding is_tenant_suspended normalize_tenant
active-slug slug ts t found e = elim (Bool-cases (str_eq slug "")) [
  | inl default ↦ let empty : slug ≡ "" = ground (arith, eq_iff slug "") in rw empty (refl, refl)
  | inr named ↦
      rw named (named-active slug ts t named found e, named-active slug ts t named found e)
]

module _ (hash_password : Text → Option String) (compare_password : String → Text → Bool)
    (hash_token : String → String) (parses_address : Text → Bool)
    (accepts : (p : Text) (h : String)
      → hash_password p ≡ some h
      → compare_password h p ≡ true) where
  -- The tenant is there and active, with the user as its admin, who logs in with the password.
  pub record IsProvisioned (t : Tenant) (u : User) (password : Text) (a : Accounts) : Type 0 where
    pub listed : find_by_slug t.slug a.tenants ≡ some t
    pub is_active : is_tenant_suspended t.slug a.tenants ≡ false
    pub linked : t.admin_user_id ≡ u.id
    pub is_admin : u.role ≡ "admin"
    pub hashed : hash_password password ≡ some u.password_hash
    pub logs_in :
        verify_user hash_password compare_password hash_token t.slug u.username password a ≡ ok u

  -- The outcome of a creation, against the tables before: all of it, or nothing.
  abbrev pub IsOutcome : Accounts → Provisioned → Type 0
  IsOutcome a (err e, b) = b ≡ a
  IsOutcome a (ok (t, u, password), b) = IsProvisioned t u password b

  module _ (id user_id : String) (a : Accounts) (new_tenant : find_by_id id a.tenants ≡ none)
      (new_admin : find_user user_id a.users ≡ none) where
    abbrev row : Provision → Tenant
    row p = record {
      id = id;
      slug = p.slug;
      name = p.name;
      contact_email = p.contact_email;
      admin_user_id = "";
      status = active;
    }

    abbrev blank_admin : Provision → User
    blank_admin p = new_user user_id p.slug p.admin_username "admin" []

    abbrev admin : String → Provision → User
    admin h p = record (blank_admin p) { password_hash = h }

    -- the rows as CreateTenant leaves them
    abbrev linked_row : Provision → Tenant
    linked_row p = record (row p) { admin_user_id = user_id }

    abbrev mailed : String → Provision → User
    mailed h p = record (admin h p) { email = p.admin_email }

    abbrev after : String → Provision → Accounts
    after h p = record a {
      tenants = a.tenants ++ (linked_row p ∷ []);
      users = a.users ++ (mailed h p ∷ []);
    }

    select-mailed :
        (h : String) (p : Provision)
        → select_users (normalize_tenant p.slug) (blank_admin p).username a.users ≡ []
        → select_users (normalize_tenant p.slug) (blank_admin p).username (after h p).users
          ≡ mailed h p ∷ []
    unfolding select_users
    select-mailed h p fresh =
        rw (select_users-append, fresh)
          (rw
            (
              select_users,
              str_eq_self (normalize_tenant p.slug),
              text_eq_self (blank_admin p).username,
            )
            refl)

    after-IsProvisioned :
        (h : String) (p : Provision)
        → hash_password p.password ≡ some h
        → find_by_slug p.slug a.tenants ≡ none
        → select_users (normalize_tenant p.slug) (blank_admin p).username a.users ≡ []
        → IsProvisioned (linked_row p) (mailed h p) p.password (after h p)
    unfolding verify_user
    after-IsProvisioned h p hashes free fresh =
        let found = find_by_slug-append p.slug a.tenants (linked_row p) free refl in
        let active_there = active-slug p.slug (after h p).tenants (linked_row p) found refl in
        record {
          listed = found;
          is_active = active_there.0;
          linked = refl;
          is_admin = refl;
          hashed = hashes;
          logs_in = rw (active_there.1, select-mailed h p fresh, accepts p.password h hashes) refl;
        }

    link_admin-IsOutcome :
        (p : Provision) (out : Result AuthError User × Accounts)
        → find_by_slug p.slug a.tenants ≡ none
        → Creates
            (hash_password p.password)
            (blank_admin p)
            (record a { tenants = a.tenants ++ (row p ∷ []) })
            out
        → IsOutcome a (link_admin (row p) p out)
    unfolding link_admin
    link_admin-IsOutcome p out h (inl (e, k)) =
        rw k (
          ap (λ ts. record a { tenants = ts }) (delete-append id a.tenants (row p) new_tenant refl))
    link_admin-IsOutcome p out free (inr (h, hashes, fresh, k)) = rw k (
        rw
          (
            set_admin-append id user_id a.tenants (row p) new_tenant refl,
            set_email-append user_id p.admin_email a.users (admin h p) new_admin refl,
          )
          (after-IsProvisioned h p hashes free fresh))

    unless_taken-IsOutcome :
        (ts : List Tenant) (next : Provisioned)
        → IsOutcome a next
        → IsOutcome a
            (unless_taken parses_address hash_password compare_password hash_token ts next a)
    unfolding unless_taken
    unless_taken-IsOutcome [] next h = h
    unless_taken-IsOutcome (t ∷ []) next h = refl
    unless_taken-IsOutcome (t ∷ u ∷ ts) next h = refl

    provision-IsOutcome :
        (p : Provision)
        → IsOutcome a
            (provision parses_address hash_password compare_password hash_token id user_id p a)
    unfolding provision insert_tenant
    provision-IsOutcome p = elim (Option-cases (find_by_slug p.slug a.tenants)) [
      | inr (t, found) ↦ rw (provision, found) refl
      | inl free ↦
          rw (provision, free)
            (unless_taken-IsOutcome (select_tenants p.name a.tenants) _ (
              link_admin-IsOutcome p _ free (
                create_user-Creates hash_password compare_password hash_token user_id p.slug
                  p.admin_username p.password "admin" []
                  (record a { tenants = a.tenants ++ (row p ∷ []) }))))
    ]

    -- Creating a tenant does all or nothing. With an error, the tenants, users and sessions are as
    -- before. With success the tenant's row is found by its slug, is active, and names as its admin
    -- a user with the role of an admin, who has the hash of the password that is returned and logs in to
    -- the tenant with it. This holds if the two new ids are not in use, and the hash of a password, where
    -- it has one, accepts it.
    pub create_tenant-IsOutcome :
        (random : Text) (r : ProvisionRequest)
        → IsOutcome a (
            create_tenant parses_address hash_password compare_password hash_token id user_id random
              r a)
    unfolding create_tenant
    create_tenant-IsOutcome random r = elim (Result-cases (check_request parses_address random r)) [
      | inl (p, e) ↦ rw (create_tenant, e) (provision-IsOutcome p)
      | inr (x, e) ↦ rw (create_tenant, e) refl
    ]
