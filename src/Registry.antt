-- ===== src/Registry.antt =====
-- internal/database/database.go and internal/server/clients.go: remote clients, their tokens, and
-- the enrollment tokens by which they join a tenant. The hash of a token is a parameter; times are
-- numbers.
pub mod Tokens
pub mod Uses
pub mod Limit
pub mod Joins
use nitejaguar.Base.{
  ℕ, ◌+◌, Bool, true, false, not, ◌&&◌, ◌||◌, Option, none, some, List, [], ◌∷◌, ◌++◌, String,
  str_eq, ltb, leb, if◌then◌else◌,
}
use nitejaguar.Result.{Result, ok, err}
use nitejaguar.Tenants.{Tenant, is_tenant_suspended}

-- type RemoteClient
pub record Client : Type 0 where
  pub id : String
  pub name : String
  pub tenant_id : String
  pub tags : List String
  pub token_hash : String
  pub revoked : Bool

-- type EnrollmentToken; `max_uses` 0 is unlimited
pub record Enrollment : Type 0 where
  pub id : String
  pub tenant_id : String
  pub token_hash : String
  pub expires_at : Option ℕ
  pub max_uses : ℕ
  pub use_count : ℕ
  pub revoked : Bool

pub record Registry : Type 0 where
  pub tenants : List Tenant
  pub clients : List Client
  pub enrollments : List Enrollment

pub data RegistryError : Type 0 where
  token_required token_invalid tenant_suspended token_revoked token_expired : RegistryError
  token_exhausted client_not_found store_failed : RegistryError

-- RemoteClient.Get, and the scan of getClient
unfoldable pub find_client : String → List Client → Option Client
find_client id [] = none
find_client id (c ∷ cs) = if str_eq c.id id then some c else find_client id cs

-- the loop of AuthenticateClient without an id
unfoldable pub find_token : String → List Client → Option String
find_token h [] = none
find_token h (c ∷ cs) =
    if c.revoked
    then find_token h cs
    else if str_eq c.token_hash h
    then some c.id
    else find_token h cs

-- RevokeClient's update
unfoldable pub revoke_row : String → List Client → List Client
revoke_row id [] = []
revoke_row id (c ∷ cs) =
    (if str_eq c.id id then record c { revoked = true } else c) ∷ revoke_row id cs

-- func RevokeClient; a client that is revoked already is revoked again to no effect
unfoldable pub revoke_client : String → Registry → Result RegistryError Unit × Registry
unfolding find_client revoke_row
revoke_client id r = elim (find_client id r.clients) [
  | none ↦ (err client_not_found, r)
  | some c ↦ (ok tt, record r { clients = revoke_row id r.clients })
]

unfoldable pub find_enrollment : String → List Enrollment → Option Enrollment
find_enrollment h [] = none
find_enrollment h (t ∷ ts) = if str_eq t.token_hash h then some t else find_enrollment h ts

count_use : String → List Enrollment → List Enrollment
count_use id [] = []
count_use id (t ∷ ts) =
    (if str_eq t.id id then record t { use_count = t.use_count + 1 } else t) ∷ count_use id ts

-- tok.ExpiresAt != nil && now.After(*tok.ExpiresAt)
abbrev pub is_expired : Option ℕ → ℕ → Bool
is_expired none now = false
is_expired (some t) now = ltb t now

abbrev pub is_exhausted : Enrollment → Bool
is_exhausted t = ltb 0 t.max_uses && leb t.max_uses t.use_count

module _ (hash_token : String → String) where
  -- func AuthenticateClient; `none` where it reports false
  unfoldable pub authenticate_client : String → String → List Client → Option String
  unfolding find_client find_token
  authenticate_client id token cs =
      if str_eq token ""
      then none
      else if not (str_eq id "")
      then elim (find_client id cs) [
        | none ↦ none
        | some c ↦
            if c.revoked
            then none
            else if str_eq c.token_hash (hash_token token)
            then some c.id
            else none
      ]
      else find_token (hash_token token) cs

  -- the tests of ConsumeEnrollmentToken on the row, and its write
  consume_row : ℕ → Enrollment → Registry → Result RegistryError Enrollment × Registry
  consume_row now t r =
      if is_tenant_suspended t.tenant_id r.tenants
      then (err tenant_suspended, r)
      else if t.revoked
      then (err token_revoked, r)
      else if is_expired t.expires_at now
      then (err token_expired, r)
      else if is_exhausted t
      then (err token_exhausted, r)
      else (
        ok (record t { use_count = t.use_count + 1 }),
        record r { enrollments = count_use t.id r.enrollments },
      )

  -- func ConsumeEnrollmentToken
  unfoldable pub consume_enrollment_token :
      ℕ → String → Registry → Result RegistryError Enrollment × Registry
  unfolding find_enrollment count_use consume_row
  consume_enrollment_token now token r =
      if str_eq token ""
      then (err token_required, r)
      else elim (find_enrollment (hash_token token) r.enrollments) [
        | none ↦ (err token_invalid, r)
        | some t ↦ consume_row now t r
      ]

  -- func RegisterClient, with the new row's id and token. A row with no name, or whose id is there, is
  -- not saved.
  unfoldable pub register_client :
      String
      → String
      → String
      → List String
      → String
      → Registry
      → Result RegistryError Client × Registry
  unfolding find_client
  register_client id token name tags tenant r =
      let tenant_id = if str_eq tenant "" then "default" else tenant in
      let c : Client = record {
        id = id;
        name = name;
        tenant_id = tenant_id;
        tags = tags;
        token_hash = hash_token token;
        revoked = false;
      } in
      if is_tenant_suspended tenant_id r.tenants
      then (err tenant_suspended, r)
      else elim (find_client id r.clients) [
        | some _ ↦ (err store_failed, r)
        | none ↦
            if str_eq name ""
            then (err store_failed, r)
            else (ok c, record r { clients = r.clients ++ c ∷ [] })
      ]

  -- func (r *clientRegistry) register: the tenant comes from the enrollment token
  unfoldable pub register :
      ℕ
      → String
      → String
      → String
      → List String
      → String
      → Registry
      → Result RegistryError Client × Registry
  unfolding consume_enrollment_token register_client
  register now id token name tags enrollment r =
      let (consumed, r') = consume_enrollment_token now enrollment r in
      elim consumed [
        | err e ↦ (err e, r')
        | ok t ↦ register_client id token name tags t.tenant_id r'
      ]

  -- clientRegistry.identity and getClient, as transferCaller chains them
  unfoldable pub transfer_caller : String → List Client → Option Client
  unfolding authenticate_client
  transfer_caller token cs = elim (authenticate_client "" token cs) [
    | none ↦ none
    | some id ↦ find_client id cs
  ]
