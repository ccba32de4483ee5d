-- ===== src/Samples/Owners.antt =====
-- The properties of tenants at a tenant that is created beside another.
use nitejaguar.Auth.{Accounts, find_user}
use nitejaguar.Base.{Bool, true, [], ◌∷◌, Text, codes, ◌≡◌, refl, trim_of, trim_space}
use nitejaguar.Provision.{ProvisionRequest, create_tenant}
use nitejaguar.Provision.Admin.{IsOutcome, create_tenant-IsOutcome}
use nitejaguar.Samples.{same_text}
use nitejaguar.Samples.Entry.{hashed, accepted, user}
use nitejaguar.Tenants.{Tenant, active, find_by_id}
use nitejaguar.Tenants.Slug.{slugify_tenant, valid_tenant_slug}
use nitejaguar.Tenants.Slug.Valid.{slugify_tenant-IsValid}

abbrev name : Text
name = codes " Acme, Inc. "

slug_acme : slugify_tenant name ≡ codes "acme-inc"
unfolding slugify_tenant trim_of trim_space
slug_acme = refl

slugify_tenant-IsValid_example : valid_tenant_slug (slugify_tenant name) ≡ true
slugify_tenant-IsValid_example = slugify_tenant-IsValid name (λ e. cc (slug_acme, e))

abbrev other : Tenant
other = record {
  id = "t0";
  slug = "other";
  name = codes "Other";
  contact_email = codes "o@x";
  admin_user_id = "";
  status = active;
}

abbrev two_tables : Accounts
two_tables = record { tenants = other ∷ []; users = user ∷ []; sessions = [] }

abbrev request : ProvisionRequest
request = record {
  name = name;
  slug_override = [];
  contact_email = [];
  admin_username = [];
  admin_email = codes "a@x";
  admin_password = codes "password";
}

-- any address parses
abbrev parses : Text → Bool
parses t = true

create_tenant-IsOutcome_example :
    IsOutcome hashed accepted same_text parses
      (λ p h e. refl)
      two_tables
      (create_tenant parses hashed accepted same_text "t9" "u9" (codes "random") request two_tables)
unfolding find_by_id find_user
create_tenant-IsOutcome_example =
    create_tenant-IsOutcome hashed accepted same_text parses (λ p h e. refl) "t9" "u9" two_tables
      refl refl (codes "random") request
