-- ===== src/Auth/Sessions.antt =====
-- AuthenticateSession, RevokeSession and RevokeUser (internal/database/auth.go).
use nitejaguar.Base.{
  ℕ, ◌≤◌, Bool, true, false, Option, none, some, List, [], ◌∷◌, String, str_eq, eq_iff, str_eq_self,
  Text, ◌≡◌, ◌≢◌, refl, sym, ap, subst, arith, Bool-cases, Option-cases, inl, inr,
}
use nitejaguar.Auth.{
  User, Session, Accounts, AuthError, find_user, select_sessions, only, is_over, revoke_user_row,
  revoke_session_row, revoke_user, revoke_session, admit, authenticate_session,
}
use nitejaguar.Result.{Result, ok}
use nitejaguar.Tenants.{Tenant, is_tenant_suspended}

-- What holds of a session, and its user, that lets in at a time.
pub record IsGood (now : ℕ) (a : Accounts) (token_hash : String) (u : User) (s : Session)
    : Type 0 where
  pub token : only (select_sessions token_hash a.sessions) ≡ some s
  pub live : s.revoked ≡ false
  pub fresh : (end : ℕ) → s.expires_at ≡ some end → now ≤ end
  pub user : find_user s.user_id a.users ≡ some u
  pub active : u.revoked ≡ false
  pub tenant : is_tenant_suspended u.tenant_id a.tenants ≡ false
  pub same_tenant : u.tenant_id ≡ s.tenant_id

not_over : (now : ℕ) (o : Option ℕ) → is_over o now ≡ false → (end : ℕ) → o ≡ some end → now ≤ end
not_over now none h end e = absurd (cc e)
not_over now (some t) h end e = let same : t ≡ end = cc e in ground arith

revoke_user_row-revoked :
    (j id : String) (us : List User) (u : User)
    → find_user j (revoke_user_row id us) ≡ some u
    → u.id ≡ id
    → u.revoked ≡ true
unfolding find_user revoke_user_row
revoke_user_row-revoked j id [] u e same = absurd (cc e)
revoke_user_row-revoked j id (v ∷ us) u e same =
    grind (arith, eq_iff v.id id, eq_iff v.id j, revoke_user_row-revoked j id us u)

revoke_user-users :
    (id : String) (a : Accounts)
    → (revoke_user id a).0 ≡ ok tt
    → (revoke_user id a).1.users ≡ revoke_user_row id a.users
unfolding revoke_user
revoke_user-users id a e = elim (Option-cases (find_user id a.users)) [
  | inl absent ↦ absurd (ground arith)
  | inr (u, known) ↦ rw (revoke_user, known) refl
]

only-one : {A : Type 0} (xs : List A) (x : A) → only xs ≡ some x → xs ≡ x ∷ []
only-one [] x e = absurd (cc e)
only-one (y ∷ []) x e = cc
only-one (y ∷ z ∷ xs) x e = absurd (cc e)

select_sessions-revoke :
    (h id : String) (ss : List Session)
    → select_sessions h (revoke_session_row id ss) ≡ revoke_session_row id (select_sessions h ss)
unfolding select_sessions revoke_session_row
select_sessions-revoke h id [] = refl
select_sessions-revoke h id (s ∷ ss) = elim (Bool-cases (str_eq s.token_hash h)) [
  | inl b ↦ elim (Bool-cases (str_eq s.id id)) [
    | inl a ↦ rw (a, b, a) (ap (◌∷◌ (record s { revoked = true })) (select_sessions-revoke h id ss))
    | inr a ↦ rw (a, b, a) (ap (◌∷◌ s) (select_sessions-revoke h id ss))
  ]
  | inr b ↦ elim (Bool-cases (str_eq s.id id)) [
    | inl a ↦ rw (a, b) (select_sessions-revoke h id ss)
    | inr a ↦ rw (a, b) (select_sessions-revoke h id ss)
  ]
]

revoke_one : (s t : Session) → only (revoke_session_row s.id (s ∷ [])) ≡ some t → t.revoked ≡ true
unfolding revoke_session_row
revoke_one s t e =
    let e' : ◌≡◌ {A = Option Session} (some (record s { revoked = true })) (some t) =
      rw (str_eq_self s.id) at e in
    let same : record s { revoked = true } ≡ t = cc e' in sym (ap (λ (u : Session). u.revoked) same)

module _ (hash_password : Text → Option String) (compare_password : String → List ℕ → Bool)
    (hash_token : String → String) where
  abbrev admitted : ℕ → Session → Option User → List Tenant → Result AuthError (User × Session)
  admitted = admit hash_password compare_password hash_token

  abbrev authenticated : ℕ → String → Accounts → Result AuthError (User × Session)
  authenticated = authenticate_session hash_password compare_password hash_token

  admit-none :
      (now : ℕ) (s : Session) (ts : List Tenant) (p : User × Session)
      → admitted now s none ts ≢ ok p
  unfolding admit
  admit-none now s ts p = ground arith

  admit-ok :
      (now : ℕ) (s : Session) (v : User) (ts : List Tenant) (u : User) (t : Session)
      → admitted now s (some v) ts ≡ ok (u, t)
      → (v ≡ u)
        × (s ≡ t)
        × (s.revoked ≡ false)
        × (is_over s.expires_at now ≡ false)
        × (v.revoked ≡ false)
        × (is_tenant_suspended v.tenant_id ts ≡ false)
        × (v.tenant_id ≡ s.tenant_id)
  unfolding admit
  admit-ok now s v ts u t e = ground (arith, eq_iff v.tenant_id s.tenant_id)

  authenticated-ok :
      (now : ℕ) (token : String) (a : Accounts) (p : User × Session)
      → authenticated now token a ≡ ok p
      → (s : Session) × (only (select_sessions (hash_token token) a.sessions) ≡ some s)
        × (admitted now s (find_user s.user_id a.users) a.tenants ≡ ok p)
  unfolding authenticate_session
  authenticated-ok now token a p e =
      elim (Option-cases (only (select_sessions (hash_token token) a.sessions))) [
        | inl absent ↦ absurd (ground arith)
        | inr (s, at_token) ↦ (s, at_token, ground arith)
      ]

  -- A token authenticates only where one session has its hash, that session is neither revoked nor
  -- past its end, its user is known and not revoked, and the user's tenant is not suspended and is
  -- the session's.
  pub authenticate_session-IsGood :
      (now : ℕ) (token : String) (a : Accounts) (u : User) (s : Session)
      → authenticated now token a ≡ ok (u, s)
      → IsGood now a (hash_token token) u s
  authenticate_session-IsGood now token a u s e =
      let (s', at_token, in_s) = authenticated-ok now token a (u, s) e in
      elim (Option-cases (find_user s'.user_id a.users)) [
        | inl absent ↦ absurd (admit-none now s' a.tenants (u, s) (rw absent at in_s))
        | inr (v, known) ↦
            let (v_is_u, s_is_s, live, fresh, active, tenant, same_tenant) =
              admit-ok now s' v a.tenants u s (rw known at in_s) in
            subst (λ (t : Session). IsGood now a (hash_token token) u t) s_is_s
              (subst (λ (w : User). IsGood now a (hash_token token) w s') v_is_u
                (record {
                  token = at_token;
                  live = live;
                  fresh = not_over now s'.expires_at fresh;
                  user = known;
                  active = active;
                  tenant = tenant;
                  same_tenant = same_tenant;
                }))
      ]

  -- A user whose revocation succeeds is authenticated by no token any more.
  pub revoke_user-authenticate :
      (id token : String) (now : ℕ) (a : Accounts) (u : User) (s : Session)
      → (revoke_user id a).0 ≡ ok tt
      → authenticated now token (revoke_user id a).1 ≡ ok (u, s)
      → u.id ≢ id
  revoke_user-authenticate id token now a u s done e =
      let good = authenticate_session-IsGood now token _ u s e in
      λ same. absurd (
        cc (
          good.active,
          revoke_user_row-revoked s.user_id id a.users u
              (rw (revoke_user-users id a done) at good.user) same,
        ))

  revoke_session-sessions :
      (token : String) (a : Accounts)
      → (revoke_session hash_password compare_password hash_token token a).0 ≡ ok tt
      → (s : Session) × (only (select_sessions (hash_token token) a.sessions) ≡ some s)
        × ((revoke_session hash_password compare_password hash_token token a).1.sessions
            ≡ revoke_session_row s.id a.sessions)
  unfolding revoke_session
  revoke_session-sessions token a e =
      elim (Option-cases (only (select_sessions (hash_token token) a.sessions))) [
        | inl absent ↦ absurd (ground arith)
        | inr (s, at_token) ↦ (s, at_token, ground arith)
      ]

  -- A token whose session is revoked with success authenticates nobody any more.
  pub revoke_session-authenticate :
      (token : String) (now : ℕ) (a : Accounts) (p : User × Session)
      → (revoke_session hash_password compare_password hash_token token a).0 ≡ ok tt
      → authenticated now token (revoke_session hash_password compare_password hash_token token a).1
        ≢ ok p
  revoke_session-authenticate token now a p done e =
      let (s, at_token, now_sessions) = revoke_session-sessions token a done in
      let good = authenticate_session-IsGood now token _ p.0 p.1 e in
      let one = only-one _ s at_token in
      let left : only (revoke_session_row s.id (s ∷ [])) ≡ some p.1 =
        rw (now_sessions, select_sessions-revoke (hash_token token) s.id a.sessions, one) at
          good.token in
      absurd (cc (good.live, revoke_one s p.1 left))
