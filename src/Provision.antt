-- ===== src/Provision.antt =====
-- internal/database/tenants.go: the operations on tenants that create, delete and name them, over the
-- tables of tenants and users. mail.ParseAddress, a random password, ids and the hash of a password
-- come from outside; the hash is `none` where bcrypt refuses the password.
pub mod Admin
use nitejaguar.Auth.{User, Accounts, AuthError, create_user, find_user}
use nitejaguar.Base.{
  ℕ, ◌+◌, Bool, true, false, not, ◌||◌, ◌&&◌, Option, none, some, List, [], ◌∷◌, ◌++◌, String,
  str_eq, Text, text_eq, codes, string_of, holds_code, trim_space, length, ltb, if◌then◌else◌,
}
use nitejaguar.Result.{Result, ok, err, ◌>>=◌, fail_if}
use nitejaguar.Tenants.{
  Tenant, TenantError, active, find_by_slug, get_tenant, default_protected, normalize_tenant,
}
use nitejaguar.Tenants.Slug.{slugify_tenant, valid_tenant_slug}

-- func IsSuperUser, func CanCrossTenant, on a user or nil
unfoldable pub is_super_user : Option User → Bool
is_super_user none = false
is_super_user (some u) =
    if u.revoked
    then false
    else str_eq u.role "admin" && str_eq (normalize_tenant u.tenant_id) "default"

unfoldable pub can_cross_tenant : Option User → Bool
unfolding is_super_user
can_cross_tenant none = true
can_cross_tenant (some u) = is_super_user (some u)

pub data ProvisionError : Type 0 where
  name_required name_too_long email_required invalid_email password_too_short : ProvisionError
  empty_slug invalid_slug reserved_slug slug_exists name_taken check_failed : ProvisionError
  user_failed : AuthError → ProvisionError

-- the arguments of CreateTenant
pub record ProvisionRequest : Type 0 where
  pub name : Text
  pub slug_override : Text
  pub contact_email : Text
  pub admin_username : Text
  pub admin_email : Text
  pub admin_password : Text

-- what CreateTenant makes of them before it looks at the tables
pub record Provision : Type 0 where
  pub name : Text
  pub slug : String
  pub contact_email : Text
  pub admin_username : Text
  pub admin_email : Text
  pub password : Text

-- len of a string: its bytes in UTF-8
unfoldable pub byte_length : Text → ℕ
byte_length [] = 0
byte_length (c ∷ cs) =
    (if ltb c 0x80 then 1 else if ltb c 0x800 then 2 else if ltb c 0x10000 then 3 else 4)
    + byte_length cs

or_else : Text → Text → Text
or_else [] t = t
or_else (c ∷ cs) t = c ∷ cs

-- Tenant.Query().Where(Name(name))
unfoldable pub select_tenants : Text → List Tenant → List Tenant
select_tenants name [] = []
select_tenants name (t ∷ ts) =
    if text_eq t.name name then t ∷ select_tenants name ts else select_tenants name ts

-- Tenant.DeleteOneID
unfoldable pub delete_tenant_row : String → List Tenant → List Tenant
delete_tenant_row id [] = []
delete_tenant_row id (t ∷ ts) =
    if str_eq t.id id then delete_tenant_row id ts else t ∷ delete_tenant_row id ts

-- Tenant.UpdateOneID(id).SetAdminUserID(user)
unfoldable pub set_admin : String → String → List Tenant → List Tenant
set_admin id user [] = []
set_admin id user (t ∷ ts) =
    (if str_eq t.id id then record t { admin_user_id = user } else t) ∷ set_admin id user ts

-- AppUser.UpdateOneID(id).SetEmail(email)
unfoldable pub set_email : String → Text → List User → List User
set_email id email [] = []
set_email id email (u ∷ us) =
    (if str_eq u.id id then record u { email = email } else u) ∷ set_email id email us

-- the tenant's admin, with its tenant and its password
abbrev pub Provisioned : Type 0
Provisioned = Result ProvisionError (Tenant × User × Text) × Accounts

-- CreateTenant behind CreateUser: the tenant's row is deleted again, or the admin's email and id are
-- written
unfoldable pub link_admin : Tenant → Provision → Result AuthError User × Accounts → Provisioned
unfolding set_admin set_email delete_tenant_row
link_admin t p (err e, a) =
    (err (user_failed e), record a { tenants = delete_tenant_row t.id a.tenants })
link_admin t p (ok u, a) = (
  ok (record t { admin_user_id = u.id }, record u { email = p.admin_email }, p.password),
  record a {
    tenants = set_admin t.id u.id a.tenants;
    users = set_email u.id p.admin_email a.users;
  },
)

-- func DeleteTenant
unfoldable pub delete_tenant : String → Accounts → Result TenantError Unit × Accounts
unfolding get_tenant delete_tenant_row
delete_tenant id a = elim (get_tenant id a.tenants) [
  | err e ↦ (err e, a)
  | ok t ↦
      if str_eq t.slug "default"
      then (err default_protected, a)
      else (ok tt, record a { tenants = delete_tenant_row t.id a.tenants })
]

-- func EnsureDefaultTenant, with the id of a new row
unfoldable pub ensure_default_tenant : String → Accounts → Tenant × Accounts
unfolding find_by_slug
ensure_default_tenant id a = elim (find_by_slug "default" a.tenants) [
  | some t ↦ (t, a)
  | none ↦
      let t : Tenant = record {
        id = id;
        slug = "default";
        name = codes "Default";
        contact_email = [];
        admin_user_id = "";
        status = active;
      } in
      (t, record a { tenants = a.tenants ++ (t ∷ []) })
]

module _ (parses_address : Text → Bool) where
  -- func validateEmail
  unfoldable pub validate_email : Text → Result ProvisionError Unit
  unfolding holds_code
  validate_email email =
      let e = trim_space email in
      fail_if (text_eq e []) email_required (
        fail_if (holds_code b' ' e || not (holds_code b'@' e)) invalid_email
          (fail_if (not (parses_address e)) invalid_email (ok tt)))

  contact_of : Text → Text → Result ProvisionError Text
  unfolding validate_email
  contact_of [] admin_email = ok admin_email
  contact_of (c ∷ cs) admin_email = validate_email (c ∷ cs) >>= λ _. ok (c ∷ cs)

  checked_slug : Text → Result ProvisionError String
  unfolding valid_tenant_slug string_of
  checked_slug [] = err empty_slug
  checked_slug (c ∷ cs) =
      fail_if (not (valid_tenant_slug (c ∷ cs))) invalid_slug
        (fail_if (text_eq (c ∷ cs) (codes "default")) reserved_slug (ok (string_of (c ∷ cs))))

  -- the checks of CreateTenant on its arguments, with the password that it generates
  unfoldable pub check_request : Text → ProvisionRequest → Result ProvisionError Provision
  unfolding byte_length validate_email contact_of checked_slug or_else slugify_tenant
  check_request random r =
      let name = trim_space r.name in
      let admin_email = trim_space r.admin_email in
      fail_if (text_eq name []) name_required (
        fail_if (ltb 100 (byte_length name)) name_too_long (
          validate_email admin_email >>= λ _.
          contact_of (trim_space r.contact_email) admin_email >>= λ contact.
          fail_if (not (text_eq r.admin_password []) && ltb (length r.admin_password) 8)
            password_too_short
            (checked_slug (or_else (trim_space r.slug_override) (slugify_tenant name)) >>= λ slug.
              ok (record {
                name = name;
                slug = slug;
                contact_email = contact;
                admin_username = or_else (trim_space r.admin_username) (codes "admin");
                admin_email = admin_email;
                password = or_else r.admin_password random;
              }))))

  -- func SetUserEmail
  unfoldable pub set_user_email : String → Text → Accounts → Result ProvisionError Unit × Accounts
  unfolding validate_email set_email find_user
  set_user_email id email a =
      let e = trim_space email in
      elim (if text_eq e [] then ok tt else validate_email e) [
        | err x ↦ (err x, a)
        | ok _ ↦ elim (find_user id a.users) [
          | none ↦ (err check_failed, a)
          | some _ ↦ (ok tt, record a { users = set_email id e a.users })
        ]
      ]

  module _ (hash_password : Text → Option String) (compare_password : String → Text → Bool)
      (hash_token : String → String) where
    -- the tenant's row and its admin, with their ids
    unfoldable pub insert_tenant : String → String → Provision → Accounts → Provisioned
    unfolding link_admin create_user
    insert_tenant id user_id p a =
        let t : Tenant = record {
          id = id;
          slug = p.slug;
          name = p.name;
          contact_email = p.contact_email;
          admin_user_id = "";
          status = active;
        } in
        link_admin t p (
          create_user hash_password compare_password hash_token user_id p.slug p.admin_username
            p.password "admin" [] (record a { tenants = a.tenants ++ (t ∷ []) }))

    unfoldable pub unless_taken : List Tenant → Provisioned → Accounts → Provisioned
    unless_taken [] next a = next
    unless_taken (t ∷ []) next a = (err name_taken, a)
    unless_taken (t ∷ u ∷ ts) next a = (err check_failed, a)

    -- CreateTenant behind its checks: slugs are unique
    unfoldable pub provision : String → String → Provision → Accounts → Provisioned
    unfolding insert_tenant unless_taken select_tenants find_by_slug
    provision id user_id p a = elim (find_by_slug p.slug a.tenants) [
      | some _ ↦ (err slug_exists, a)
      | none ↦ unless_taken (select_tenants p.name a.tenants) (insert_tenant id user_id p a) a
    ]

    -- func CreateTenant
    unfoldable pub create_tenant :
        String → String → Text → ProvisionRequest → Accounts → Provisioned
    unfolding check_request provision
    create_tenant id user_id random r a = elim (check_request random r) [
      | err e ↦ (err e, a)
      | ok p ↦ provision id user_id p a
    ]
