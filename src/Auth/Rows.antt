-- ===== src/Auth/Rows.antt =====
-- internal/database/auth.go: roles, the rows of users and sessions, and the queries on them.
use nitejaguar.Base.{
  ℕ, Bool, true, not, ◌&&◌, ◌||◌, Option, none, some, List, [], ◌∷◌, String, str_eq, Text, text_eq,
  leb, if◌then◌else◌,
}
use nitejaguar.Tenants.{Tenant}

-- RoleAdmin, RoleOperator and RoleViewer, and ValidRoles
unfoldable pub valid_role : String → Bool
valid_role r = str_eq r "admin" || str_eq r "operator" || str_eq r "viewer"

-- func roleRank
unfoldable pub role_rank : String → ℕ
role_rank r =
    if str_eq r "admin"
    then 3
    else if str_eq r "operator"
    then 2
    else if str_eq r "viewer"
    then 1
    else 0

-- func HasRole
unfoldable pub has_role : String → String → Bool
unfolding role_rank
has_role user_role minimum = leb (role_rank minimum) (role_rank user_role)

-- type AppUser
pub record User : Type 0 where
  pub id : String
  pub tenant_id : String
  pub username : Text
  pub email : Text
  pub password_hash : String
  pub role : String
  pub groups : List String
  pub revoked : Bool

-- type AuthSession
pub record Session : Type 0 where
  pub id : String
  pub user_id : String
  pub tenant_id : String
  pub token_hash : String
  pub expires_at : Option ℕ
  pub revoked : Bool

pub record Accounts : Type 0 where
  pub tenants : List Tenant
  pub users : List User
  pub sessions : List Session

pub data AuthError : Type 0 where
  username_required password_short unknown_role already_exists user_not_found : AuthError
  invalid_credentials user_revoked tenant_suspended missing_token invalid_session : AuthError
  session_expired session_not_found store_failed hash_failed : AuthError

-- AppUser.Get
unfoldable pub find_user : String → List User → Option User
find_user id [] = none
find_user id (u ∷ us) = if str_eq u.id id then some u else find_user id us

-- AppUser.Query().Where(TenantID, Username)
unfoldable pub select_users : String → Text → List User → List User
select_users tenant name [] = []
select_users tenant name (u ∷ us) =
    if str_eq u.tenant_id tenant && text_eq u.username name
    then u ∷ select_users tenant name us
    else select_users tenant name us

-- AuthSession.Query().Where(TokenHash)
unfoldable pub select_sessions : String → List Session → List Session
select_sessions h [] = []
select_sessions h (s ∷ ss) =
    if str_eq s.token_hash h then s ∷ select_sessions h ss else select_sessions h ss

-- Only: the one row, and an error for none or several
abbrev pub only {ℓ} : {A : Type ℓ} → List A → Option A
only [] = none
only (x ∷ []) = some x
only (x ∷ y ∷ xs) = none

unfoldable pub revoke_user_row : String → List User → List User
revoke_user_row id [] = []
revoke_user_row id (u ∷ us) =
    (if str_eq u.id id then record u { revoked = true } else u) ∷ revoke_user_row id us

-- the loop of RevokeUser over the user's live sessions
unfoldable pub revoke_sessions_of : String → List Session → List Session
revoke_sessions_of id [] = []
revoke_sessions_of id (s ∷ ss) =
    (if str_eq s.user_id id && not s.revoked then record s { revoked = true } else s)
    ∷ revoke_sessions_of id ss

unfoldable pub set_password : String → String → List User → List User
set_password id hash [] = []
set_password id hash (u ∷ us) =
    (if str_eq u.id id then record u { password_hash = hash } else u) ∷ set_password id hash us

unfoldable pub revoke_session_row : String → List Session → List Session
revoke_session_row id [] = []
revoke_session_row id (s ∷ ss) =
    (if str_eq s.id id then record s { revoked = true } else s) ∷ revoke_session_row id ss
