-- ===== src/Credentials.antt =====
-- internal/database/credentials.go: stored secrets and which one a reference means; FetchCredential of
-- internal/server/credentials.go, which hands one out; and the fields of a secret of
-- common/credential_types.go. Encryption and encoding/json are parameters.
pub mod Ranked
pub mod Fetch
pub mod Owned
pub mod Context
pub mod Granted
use nitejaguar.Base.{
  Bool, true, false, not, ◌&&◌, ◌||◌, Option, none, some, List, [], ◌∷◌, ◌++◌, String, str_eq, Text,
  text_eq, trim_space, contains, codes, has_prefix, if◌then◌else◌,
}
use nitejaguar.Providers.{known_credential_types}
use nitejaguar.Result.{Result, ok, err}
use nitejaguar.Server.{Audit}
use nitejaguar.Tenants.{normalize_tenant}
use nitejaguar.Value.{Value, text, Fields, get_field}
use nitejaguar.Workflow.{Node, Workflow, find_node}

-- type Credential
pub record Credential : Type 0 where
  pub id : String
  pub tenant_id : String
  pub name : String
  pub credential_type : String
  pub scope : String
  pub owner_id : String
  pub secret_encrypted : String
  pub description : Text

pub data CredentialError : Type 0 where
  name_required unknown_type unknown_scope owner_required secret_required : CredentialError
  not_an_object missing_field already_exists store_failed encryption_failed : CredentialError
  reference_required credential_not_found : CredentialError

-- func validCredentialScope
unfoldable pub valid_credential_scope : String → Bool
valid_credential_scope s = str_eq s "tenant" || str_eq s "group" || str_eq s "user"

-- the required fields of CredentialTypeDefs, for a type that is not raw
unfoldable pub required_fields : String → Option (List Text)
required_fields type_name =
    if str_eq type_name "username_password"
    then some (codes "username" ∷ codes "password" ∷ [])
    else if str_eq type_name "ssh_key"
    then some (codes "private_key" ∷ [])
    else if str_eq type_name "aws"
    then some (codes "access_key_id" ∷ codes "secret_access_key" ∷ [])
    else none

is_filled : Option Value → Bool
is_filled (some (text s)) = not (text_eq (trim_space s) [])
is_filled _ = false

has_fields : List Text → Fields → Bool
unfolding is_filled
has_fields [] obj = true
has_fields (f ∷ fs) obj = is_filled (get_field f obj) && has_fields fs obj

-- Credential.Query().Where(TenantID, Name, Scope, OwnerID)
unfoldable pub select_exact : Credential → List Credential → List Credential
select_exact c [] = []
select_exact c (d ∷ ds) =
    if str_eq d.tenant_id c.tenant_id
      && str_eq d.name c.name
      && str_eq d.scope c.scope
      && str_eq d.owner_id c.owner_id
    then d ∷ select_exact c ds
    else select_exact c ds

-- Credential.Query().Where(TenantID, Name)
unfoldable pub select_named : String → String → List Credential → List Credential
select_named tenant name [] = []
select_named tenant name (c ∷ cs) =
    if str_eq c.tenant_id tenant && str_eq c.name name
    then c ∷ select_named tenant name cs
    else select_named tenant name cs

-- func GetCredential
unfoldable pub get_credential : String → List Credential → Option Credential
get_credential id [] = none
get_credential id (c ∷ cs) = if str_eq c.id id then some c else get_credential id cs

delete_row : String → List Credential → List Credential
delete_row id [] = []
delete_row id (c ∷ cs) = if str_eq c.id id then delete_row id cs else c ∷ delete_row id cs

-- func DeleteCredential
unfoldable pub delete_credential :
    String → List Credential → Result CredentialError Unit × List Credential
unfolding get_credential delete_row
delete_credential id cs = elim (get_credential id cs) [
  | none ↦ (err credential_not_found, cs)
  | some _ ↦ (ok tt, delete_row id cs)
]

-- the loops of ResolveCredential: the first row of a scope whose owner is the user, whose owner is one
-- of the groups, and of the tenant
unfoldable pub first_for_user : String → List Credential → Option Credential
first_for_user user [] = none
first_for_user user (c ∷ cs) =
    if str_eq c.scope "user" && str_eq c.owner_id user then some c else first_for_user user cs

unfoldable pub first_for_group : List String → List Credential → Option Credential
first_for_group groups [] = none
first_for_group groups (c ∷ cs) =
    if str_eq c.scope "group" && (not (str_eq c.owner_id "") && contains groups c.owner_id)
    then some c
    else first_for_group groups cs

unfoldable pub first_for_tenant : List Credential → Option Credential
first_for_tenant [] = none
first_for_tenant (c ∷ cs) = if str_eq c.scope "tenant" then some c else first_for_tenant cs

unfoldable pub found_or :
    Option Credential → Result CredentialError Credential → Result CredentialError Credential
found_or none next = next
found_or (some c) next = ok c

-- ResolveCredential on a name
unfoldable pub resolve_named :
    String → List String → List Credential → Result CredentialError Credential
resolve_named user groups rows =
    found_or (if str_eq user "" then none else first_for_user user rows) (
      found_or (first_for_group groups rows)
        (found_or (first_for_tenant rows) (err credential_not_found)))

-- ResolveCredential on an id
unfoldable pub resolve_by_id : String → Option Credential → Result CredentialError Credential
resolve_by_id tenant none = err credential_not_found
resolve_by_id tenant (some c) = if str_eq c.tenant_id tenant then ok c else err credential_not_found

-- func ResolveCredential
unfoldable pub resolve_credential :
    String → String → String → List String → List Credential → Result CredentialError Credential
resolve_credential tenant ref user groups cs =
    let tenant_id = normalize_tenant tenant in
    if text_eq (trim_space (codes ref)) []
    then err reference_required
    else if has_prefix (codes ref) (codes "credential_")
    then resolve_by_id tenant_id (get_credential ref cs)
    else resolve_named user groups (select_named tenant_id ref cs)

module _ (decode_object : Text → Option Fields) (encrypt : Text → Option String) where
  -- func ValidateCredentialSecret, on a type that is known
  unfoldable pub validate_secret : String → Text → Result CredentialError Unit
  unfolding required_fields has_fields
  validate_secret type_name secret =
      if text_eq (trim_space secret) []
      then err secret_required
      else elim (required_fields type_name) [
        | none ↦ ok tt
        | some fields ↦ elim (decode_object secret) [
          | none ↦ err not_an_object
          | some obj ↦ if has_fields fields obj then ok tt else err missing_field
        ]
      ]

  store :
      List Credential
      → Option String
      → Credential
      → List Credential
      → Result CredentialError Credential × List Credential
  store [] none c cs = (err encryption_failed, cs)
  store [] (some envelope) c cs =
      let row = record c { secret_encrypted = envelope } in (ok row, cs ++ (row ∷ []))
  store (d ∷ []) e c cs = (err already_exists, cs)
  store (d ∷ f ∷ ds) e c cs = (err store_failed, cs)

  -- func CreateCredential: a credential with its plain secret apart
  unfoldable pub create_credential :
      Credential → Text → List Credential → Result CredentialError Credential × List Credential
  unfolding known_credential_types valid_credential_scope validate_secret store select_exact
  create_credential c secret cs =
      let type_name = if str_eq c.credential_type "" then "generic" else c.credential_type in
      let scope = if str_eq c.scope "" then "tenant" else c.scope in
      let owner = if str_eq scope "tenant" then "" else c.owner_id in
      let row = record c {
        tenant_id = normalize_tenant c.tenant_id;
        credential_type = type_name;
        scope = scope;
        owner_id = owner;
      } in
      if text_eq (trim_space (codes c.name)) []
      then (err name_required, cs)
      else if not (contains known_credential_types type_name)
      then (err unknown_type, cs)
      else if not (valid_credential_scope scope)
      then (err unknown_scope, cs)
      else if not (str_eq scope "tenant") && text_eq (trim_space (codes c.owner_id)) []
      then (err owner_required, cs)
      else elim (validate_secret type_name secret) [
        | err e ↦ (err e, cs)
        | ok _ ↦ store (select_exact row cs) (encrypt secret) row cs
      ]
