-- ===== src/Samples/Entry.antt =====
-- The properties of registration and login at one tenant's client and user.
use nitejaguar.Tenants.{is_tenant_suspended, find_by_slug, normalize_tenant}
use nitejaguar.Base.{
  ℕ, ◌+◌, ◌≤◌, List, ◌++◌, inl, Bool, true, false, Option, none, some, ltb, length, if◌then◌else◌,
  [], ◌∷◌, String, Text, codes, Any, ◌≡◌, ◌≢◌, inr, refl, arith, trim_space,
}
use nitejaguar.Auth.{
  User, Session, Accounts, select_users, authenticate_session, create_user, change_password,
  verify_user, revoke_user, find_user,
}
use nitejaguar.Auth.Passwords.{HasUniqueNames, create_user-HasUniqueNames, change_password-verify}
use nitejaguar.Auth.Sessions.{IsGood, authenticate_session-IsGood, revoke_user-authenticate}
use nitejaguar.Registry.{
  Client, Enrollment, Registry, authenticate_client, revoke_client, consume_enrollment_token,
}
use nitejaguar.Registry.Tokens.{Owns, authenticate-Owns, revoke-authenticate}
use nitejaguar.Registry.Limit.{uses, uses_bounded}
use nitejaguar.Registry.Uses.{IsEnrollments}
use nitejaguar.Result.{ok}
use nitejaguar.Samples.{same_text, registry, client_of}

abbrev token : String
token = "ka"

authenticate-Owns_example : (token ≢ "") × Any (Owns "a" "ka") registry.clients
unfolding authenticate_client
authenticate-Owns_example = authenticate-Owns same_text "" "ka" "a" registry.clients refl

revoke-authenticate_example :
    authenticate_client same_text "" "kc" (revoke_client "c" registry).1.clients ≢ some "c"
unfolding revoke_client
revoke-authenticate_example = revoke-authenticate same_text "c" "" "kc" registry refl

-- a join token that is used once and may be used once more
abbrev join : Enrollment
join = record {
  id = "j";
  tenant_id = "t1";
  token_hash = "join";
  expires_at = some 9;
  max_uses = 2;
  use_count = 1;
  revoked = false;
}

abbrev joinable : Registry
joinable = record registry { enrollments = join ∷ [] }

join-IsEnrollments : IsEnrollments joinable.enrollments
join-IsEnrollments = (inr (omega arith), tt, tt)

-- three calls with the token, of which the first one lets in
abbrev calls : List (ℕ × String)
calls = (5, "join") ∷ (5, "join") ∷ (6, "join") ∷ []

uses_one : uses same_text "j" calls joinable ≡ 1
unfolding consume_enrollment_token is_tenant_suspended find_by_slug
uses_one = refl

uses_bounded_example : join.use_count + uses same_text "j" calls joinable ≤ join.max_uses
uses_bounded_example =
    uses_bounded same_text calls joinable join join-IsEnrollments (inl refl) (omega arith)

abbrev joiner : Client
joiner = client_of "d" "t1" "kd"

abbrev joined : Registry
joined = record joinable {
  enrollments = (record join { use_count = 2 }) ∷ [];
  clients = registry.clients ++ (joiner ∷ []);
}

-- a hash that no password of more than 72 codes has, and that accepts every password
abbrev pub hashed : Text → Option String
hashed p = if ltb 72 (length p) then none else some "h"

abbrev pub accepted : String → Text → Bool
accepted h p = true

abbrev pub user : User
user = record {
  id = "u";
  tenant_id = "t1";
  username = codes "ann";
  email = [];
  password_hash = "h";
  role = "viewer";
  groups = [];
  revoked = false;
}

abbrev session : Session
session = record {
  id = "s";
  user_id = "u";
  tenant_id = "t1";
  token_hash = "tok";
  expires_at = some 9;
  revoked = false;
}

abbrev accounts : Accounts
accounts = record { tenants = []; users = user ∷ []; sessions = session ∷ [] }

authenticate_session-IsGood_example : IsGood 5 accounts "tok" user session
unfolding authenticate_session trim_space is_tenant_suspended find_by_slug
authenticate_session-IsGood_example =
    authenticate_session-IsGood hashed accepted same_text 5 "tok" accounts user session refl

-- Bob's session, beside the revocation of Ann
abbrev two_users : Accounts
two_users = record accounts {
  users = user ∷ (record user { id = "v"; username = codes "bob" }) ∷ [];
  sessions = (record session { user_id = "v" }) ∷ [];
}

abbrev bob : User
bob = record user { id = "v"; username = codes "bob" }

revoke_user-authenticate_example : bob.id ≢ "u"
unfolding revoke_user authenticate_session trim_space is_tenant_suspended find_by_slug
revoke_user-authenticate_example =
    revoke_user-authenticate hashed accepted same_text "u" "tok" 5 two_users bob
      (record session { user_id = "v" }) refl refl

ann-HasUniqueNames : HasUniqueNames accounts.users
unfolding select_users
ann-HasUniqueNames t n = ground arith

create_user-HasUniqueNames_example :
    HasUniqueNames
      (create_user hashed accepted same_text "v" "t1"
        (codes "bob")
        (codes "password")
        "viewer"
        []
        accounts).1.users
create_user-HasUniqueNames_example =
    create_user-HasUniqueNames hashed accepted same_text "v" "t1" (codes "bob") (codes "password")
      "viewer" [] accounts ann-HasUniqueNames

change_password-verify_example :
    verify_user hashed accepted same_text "t1"
      (codes "ann")
      (codes "password")
      (change_password hashed accepted same_text "u" (codes "old") (codes "password") accounts).1
    ≡ ok (record user { password_hash = "h" })
unfolding find_user select_users normalize_tenant is_tenant_suspended find_by_slug change_password
change_password-verify_example =
    change_password-verify hashed accepted same_text "u" "t1" (codes "ann") (codes "old")
      (codes "password") accounts user refl refl refl "h" refl refl refl
