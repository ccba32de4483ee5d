-- ===== src/Tenants.antt =====
-- internal/database/tenants.go and credentials.go: tenants, known by their slugs, and whether they
-- are suspended.
pub mod Slug
use nitejaguar.Base.{
  Bool, true, false, ◌&&◌, Option, none, some, List, [], ◌∷◌, String, str_eq, Text, if◌then◌else◌,
}
use nitejaguar.Result.{Result, ok, err}

-- const TenantActive, TenantSuspended
pub data TenantStatus : Type 0 where
  active suspended : TenantStatus

-- type Tenant
pub record Tenant : Type 0 where
  pub id : String
  pub slug : String
  pub name : Text
  pub contact_email : Text
  pub admin_user_id : String
  pub status : TenantStatus

-- func normalizeTenant
unfoldable pub normalize_tenant : String → String
normalize_tenant t = if str_eq t "" then "default" else t

-- Tenant.Get
unfoldable pub find_by_id : String → List Tenant → Option Tenant
find_by_id id [] = none
find_by_id id (t ∷ ts) = if str_eq t.id id then some t else find_by_id id ts

-- Tenant.Query().Where(Slug(slug)).Only: slugs are unique
unfoldable pub find_by_slug : String → List Tenant → Option Tenant
find_by_slug slug [] = none
find_by_slug slug (t ∷ ts) = if str_eq t.slug slug then some t else find_by_slug slug ts

unfoldable pub status_of : Option Tenant → TenantStatus
status_of none = active
status_of (some t) = t.status

-- func TenantStatus
unfoldable pub tenant_status : String → List Tenant → TenantStatus
unfolding status_of normalize_tenant
tenant_status slug ts =
    let slug' = normalize_tenant slug in
    if str_eq slug' "default" then active else status_of (find_by_slug slug' ts)

-- func IsTenantSuspended
unfoldable pub is_tenant_suspended : String → List Tenant → Bool
unfolding tenant_status
is_tenant_suspended slug ts = elim (tenant_status slug ts) [ active ↦ false | suspended ↦ true ]

pub data TenantError : Type 0 where
  id_required not_found default_protected : TenantError

-- func GetTenant, on an id or slug with no surrounding space
unfoldable pub get_tenant : String → List Tenant → Result TenantError Tenant
unfolding find_by_id find_by_slug
get_tenant id ts = if str_eq id "" then err id_required else elim (find_by_id id ts) [
  | some t ↦ ok t
  | none ↦ elim (find_by_slug id ts) [ some t ↦ ok t | none ↦ err not_found ]
]

set_status_of : String → TenantStatus → List Tenant → List Tenant
set_status_of id status [] = []
set_status_of id status (t ∷ ts) =
    (if str_eq t.id id then record t { status = status } else t) ∷ set_status_of id status ts

abbrev is_suspended : TenantStatus → Bool
is_suspended active = false
is_suspended suspended = true

-- func SetTenantStatus, with the tenants behind it. Writing a status that is there already changes
-- nothing, so the early return for it is the same write.
unfoldable pub set_tenant_status :
    String → TenantStatus → List Tenant → Result TenantError Tenant × List Tenant
unfolding get_tenant set_status_of
set_tenant_status id status ts = elim (get_tenant id ts) [
  | err e ↦ (err e, ts)
  | ok t ↦
      if str_eq t.slug "default" && is_suspended status
      then (err default_protected, ts)
      else (ok (record t { status = status }), set_status_of t.id status ts)
]
