-- ===== src/Auth.antt =====
-- internal/database/auth.go: the operations on users, passwords and login sessions. A password is its
-- bytes; hashing passwords and tokens, ids and the time come from outside. The hash of a password is
-- `none` where bcrypt refuses it, as it does a password of more than 72 bytes.
mod Rows
pub mod Sessions
pub mod Passwords
unfoldable pub use Rows.*
use nitejaguar.Base.{
  ℕ, ◌+◌, Bool, true, false, not, ◌&&◌, ◌||◌, Option, none, some, List, [], ◌∷◌, ◌++◌, String,
  str_eq, Text, text_eq, trim_space, codes, length, ltb, leb, if◌then◌else◌,
}
use nitejaguar.Result.{Result, ok, err}
use nitejaguar.Tenants.{Tenant, normalize_tenant, is_tenant_suspended}

-- func RevokeUser
unfoldable pub revoke_user : String → Accounts → Result AuthError Unit × Accounts
unfolding find_user revoke_user_row revoke_sessions_of
revoke_user id a = elim (find_user id a.users) [
  | none ↦ (err user_not_found, a)
  | some _ ↦ (
    ok tt,
    record a { users = revoke_user_row id a.users; sessions = revoke_sessions_of id a.sessions },
  )
]

-- sess.ExpiresAt != nil && time.Now().After(*sess.ExpiresAt)
abbrev pub is_over : Option ℕ → ℕ → Bool
is_over none now = false
is_over (some t) now = ltb t now

abbrev is_blank : Text → Bool
is_blank s = text_eq (trim_space s) []

-- CreateUser behind its query for the name, with the hash of the password
unfoldable pub insert_user :
    List User → Option String → User → Accounts → Result AuthError User × Accounts
insert_user [] none u a = (err hash_failed, a)
insert_user [] (some hash) u a =
    let row = record u { password_hash = hash } in
    (ok row, record a { users = a.users ++ (row ∷ []) })
insert_user (_ ∷ []) hash u a = (err already_exists, a)
insert_user (_ ∷ _ ∷ _) hash u a = (err store_failed, a)

-- UpdatePassword and ChangePassword behind their tests: the hash is written, if there is one
unfoldable pub write_password : String → Option String → Accounts → Result AuthError Unit × Accounts
unfolding set_password
write_password id none a = (err hash_failed, a)
write_password id (some hash) a = (ok tt, record a { users = set_password id hash a.users })

-- the row of a new user but for its hash: the default tenant and role, and no space round the name
abbrev pub new_user : String → String → Text → String → List String → User
new_user id tenant name role groups = record {
  id = id;
  tenant_id = normalize_tenant tenant;
  username = trim_space name;
  email = [];
  password_hash = "";
  role = if str_eq role "" then "viewer" else role;
  groups = groups;
  revoked = false;
}

module _ (hash_password : Text → Option String) (compare_password : String → Text → Bool)
    (hash_token : String → String) where
  -- func CreateUser, with the new user's id
  unfoldable pub create_user :
      String
      → String
      → Text
      → Text
      → String
      → List String
      → Accounts
      → Result AuthError User × Accounts
  unfolding select_users valid_role insert_user
  create_user id tenant name password role groups a =
      let u = new_user id tenant name role groups in
      if text_eq u.username []
      then (err username_required, a)
      else if ltb (length password) 8
      then (err password_short, a)
      else if not (valid_role u.role)
      then (err unknown_role, a)
      else insert_user (select_users u.tenant_id u.username a.users) (hash_password password) u a

  -- func UpdatePassword
  unfoldable pub update_password : String → Text → Accounts → Result AuthError Unit × Accounts
  unfolding find_user write_password
  update_password id password a =
      if ltb (length password) 8 then (err password_short, a) else elim (find_user id a.users) [
        | none ↦ (err user_not_found, a)
        | some _ ↦ write_password id (hash_password password) a
      ]

  -- func ChangePassword
  unfoldable pub change_password :
      String → Text → Text → Accounts → Result AuthError Unit × Accounts
  unfolding find_user write_password
  change_password id current password a =
      if ltb (length password) 8 then (err password_short, a) else elim (find_user id a.users) [
        | none ↦ (err user_not_found, a)
        | some u ↦
            if u.revoked
            then (err invalid_credentials, a)
            else if not (compare_password u.password_hash current)
            then (err invalid_credentials, a)
            else write_password id (hash_password password) a
      ]

  -- func VerifyUser
  unfoldable pub verify_user : String → Text → Text → Accounts → Result AuthError User
  unfolding select_users normalize_tenant
  verify_user tenant name password a =
      let tenant_id = normalize_tenant tenant in
      if is_tenant_suspended tenant_id a.tenants
      then err invalid_credentials
      else elim (only (select_users tenant_id name a.users)) [
        | none ↦ err invalid_credentials
        | some u ↦
            if u.revoked
            then err invalid_credentials
            else if not (compare_password u.password_hash password)
            then err invalid_credentials
            else ok u
      ]

  -- func CreateSession, with the session's id, its token, the time, and the expiry that the caller's
  -- lifetime, or the default one, gives
  unfoldable pub create_session :
      String → String → ℕ → String → Accounts → Result AuthError Session × Accounts
  unfolding find_user
  create_session id token expires user_id a = elim (find_user user_id a.users) [
    | none ↦ (err user_not_found, a)
    | some u ↦
        if u.revoked
        then (err user_revoked, a)
        else if is_tenant_suspended u.tenant_id a.tenants
        then (err tenant_suspended, a)
        else let s : Session = record {
          id = id;
          user_id = u.id;
          tenant_id = u.tenant_id;
          token_hash = hash_token token;
          expires_at = some expires;
          revoked = false;
        } in
          (ok s, record a { sessions = a.sessions ++ (s ∷ []) })
  ]

  -- the tests of AuthenticateSession on a session and its user
  unfoldable pub admit : ℕ → Session → Option User → List Tenant → Result AuthError (User × Session)
  admit now s none ts =
      if s.revoked
      then err invalid_session
      else if is_over s.expires_at now
      then err session_expired
      else err invalid_session
  admit now s (some u) ts =
      if s.revoked
      then err invalid_session
      else if is_over s.expires_at now
      then err session_expired
      else if u.revoked
      then err invalid_session
      else if is_tenant_suspended u.tenant_id ts
      then err invalid_session
      else if not (str_eq u.tenant_id s.tenant_id)
      then err invalid_session
      else ok (u, s)

  -- func AuthenticateSession
  unfoldable pub authenticate_session : ℕ → String → Accounts → Result AuthError (User × Session)
  unfolding select_sessions find_user admit
  authenticate_session now token a =
      if is_blank (codes token)
      then err missing_token
      else elim (only (select_sessions (hash_token token) a.sessions)) [
        | none ↦ err invalid_session
        | some s ↦ admit now s (find_user s.user_id a.users) a.tenants
      ]

  -- func RevokeSession. A session that is revoked already is revoked again to no effect.
  unfoldable pub revoke_session : String → Accounts → Result AuthError Unit × Accounts
  unfolding select_sessions revoke_session_row
  revoke_session token a =
      if is_blank (codes token)
      then (err missing_token, a)
      else elim (only (select_sessions (hash_token token) a.sessions)) [
        | none ↦ (err session_not_found, a)
        | some s ↦ (ok tt, record a { sessions = revoke_session_row s.id a.sessions })
      ]
