-- ===== src/Auth/Passwords.antt =====
-- CreateUser, ChangePassword and VerifyUser (internal/database/auth.go).
use nitejaguar.Base.{
  ◌≤◌, Bool, true, false, not, ◌&&◌, Option, none, some, List, [], ◌∷◌, ◌++◌, String, str_eq,
  eq_iff, Text, text_eq, text_eq_iff, trim_space, length, append-nil, ltb, if-holds, ◌≡◌, ◌⊎◌, refl,
  ap, ◌∙◌, subst, arith, Bool-cases, inl, inr,
}
use nitejaguar.Auth.{
  User, Accounts, AuthError, already_exists, store_failed, hash_failed, find_user, select_users,
  set_password, create_user, change_password, verify_user, insert_user, new_user, valid_role,
  write_password,
}
use nitejaguar.Result.{Result, ok, err}
use nitejaguar.Tenants.{normalize_tenant, is_tenant_suspended}

-- No tenant has two users of one name.
abbrev pub HasUniqueNames : List User → Type 0
HasUniqueNames us = (tenant : String) (name : Text) → length (select_users tenant name us) ≤ 1

pub select_users-append :
    (t : String) (n : Text) (xs ys : List User)
    → select_users t n (xs ++ ys) ≡ select_users t n xs ++ select_users t n ys
unfolding select_users
select_users-append t n [] ys = refl
select_users-append t n (x ∷ xs) ys =
    elim (Bool-cases (str_eq x.tenant_id t && text_eq x.username n)) [
      | inl e ↦ rw e (ap (◌∷◌ x) (select_users-append t n xs ys))
      | inr e ↦ rw e (select_users-append t n xs ys)
    ]

-- A new user whose name its tenant has not keeps names unique.
append-HasUniqueNames :
    (u : User) (us : List User)
    → select_users u.tenant_id u.username us ≡ []
    → HasUniqueNames us
    → HasUniqueNames (us ++ (u ∷ []))
unfolding select_users
append-HasUniqueNames u us fresh h t n =
    elim (Bool-cases (str_eq u.tenant_id t && text_eq u.username n)) [
      | inl same ↦
          let tenant : u.tenant_id ≡ t = ground (arith, eq_iff u.tenant_id t) in
          let name : u.username ≡ n = ground (arith, text_eq_iff u.username n) in
          let empty : select_users t n us ≡ [] = rw (tenant, name) at fresh in
          rw (select_users-append, empty, select_users, same) (omega arith)
      | inr other ↦
          rw (select_users-append, select_users, other)
            (rw (append-nil (select_users t n us)) (h t n))
    ]

-- what a creation returns and writes: an error and nothing, or the user with its hash, whose name its
-- tenant has not
abbrev pub Creates : Option String → User → Accounts → Result AuthError User × Accounts → Type 0
Creates hash u a out =
    ((e : AuthError) × (out ≡ (err e, a)))
    ⊎ ((h : String) × (hash ≡ some h)
        × (select_users u.tenant_id u.username a.users ≡ [])
        × (out ≡ (
          ok (record u { password_hash = h }),
          record a { users = a.users ++ (record u { password_hash = h } ∷ []) },
        )))

insert_user-Creates :
    (us : List User) (hash : Option String) (u : User) (a : Accounts)
    → select_users u.tenant_id u.username a.users ≡ us
    → Creates hash u a (insert_user us hash u a)
unfolding insert_user
insert_user-Creates [] none u a e = inl (hash_failed, refl)
insert_user-Creates [] (some h) u a e = inr (h, refl, e, refl)
insert_user-Creates (_ ∷ []) hash u a e = inl (already_exists, refl)
insert_user-Creates (_ ∷ _ ∷ _) hash u a e = inl (store_failed, refl)

find_user-id : (id : String) (us : List User) (u : User) → find_user id us ≡ some u → u.id ≡ id
unfolding find_user
find_user-id id [] u e = absurd (cc e)
find_user-id id (v ∷ us) u e = elim (Bool-cases (str_eq v.id id)) [
  | inl same ↦
      let v_is_u : v ≡ u = cc (rw same at e) in
      subst (λ (w : User). w.id ≡ id) v_is_u (ground (arith, eq_iff v.id id))
  | inr other ↦ find_user-id id us u (rw other at e)
]

select_users-set :
    (t : String) (n : Text) (id hash : String) (us : List User)
    → select_users t n (set_password id hash us) ≡ set_password id hash (select_users t n us)
unfolding select_users set_password
select_users-set t n id hash [] = refl
select_users-set t n id hash (u ∷ us) =
    elim (Bool-cases (str_eq u.tenant_id t && text_eq u.username n)) [
      | inl b ↦ elim (Bool-cases (str_eq u.id id)) [
        | inl a ↦
            rw (a, b, a)
              (ap (◌∷◌ (record u { password_hash = hash })) (select_users-set t n id hash us))
        | inr a ↦ rw (a, b, a) (ap (◌∷◌ u) (select_users-set t n id hash us))
      ]
      | inr b ↦ elim (Bool-cases (str_eq u.id id)) [
        | inl a ↦ rw (a, b) (select_users-set t n id hash us)
        | inr a ↦ rw (a, b) (select_users-set t n id hash us)
      ]
    ]

set_password-one :
    (id hash : String) (u : User)
    → u.id ≡ id
    → set_password id hash (u ∷ []) ≡ record u { password_hash = hash } ∷ []
unfolding set_password
set_password-one id hash u same =
    let e : str_eq u.id id ≡ true = (eq_iff u.id id).1 same in rw e refl

module _ (hash_password : Text → Option String) (compare_password : String → Text → Bool)
    (hash_token : String → String) where
  abbrev created :
      String
      → String
      → Text
      → Text
      → String
      → List String
      → Accounts
      → Result AuthError User × Accounts
  created = create_user hash_password compare_password hash_token

  pub create_user-Creates :
      (id tenant : String) (name password : Text) (role : String) (groups : List String)
      (a : Accounts)
      → Creates (hash_password password) (new_user id tenant name role groups) a (
          create_user hash_password compare_password hash_token id tenant name password role groups
            a)
  unfolding create_user
  create_user-Creates id tenant name password role groups a =
      let u = new_user id tenant name role groups in
      if-holds (Creates (hash_password password) u a) (text_eq (trim_space name) []) _ _
        (λ _. inl (_, refl))
        (λ _.
          if-holds (Creates (hash_password password) u a) (ltb (length password) 8) _ _
            (λ _. inl (_, refl))
            (λ _.
              if-holds (Creates (hash_password password) u a) (not (valid_role u.role)) _ _
                (λ _. inl (_, refl))
                (λ _. insert_user-Creates _ (hash_password password) u a refl)))

  -- Creating a user keeps every user name unique in its tenant.
  pub create_user-HasUniqueNames :
      (id tenant : String) (name password : Text) (role : String) (groups : List String)
      (a : Accounts)
      → HasUniqueNames a.users
      → HasUniqueNames (created id tenant name password role groups a).1.users
  create_user-HasUniqueNames id tenant name password role groups a h =
      elim (create_user-Creates id tenant name password role groups a) [
        | inl (_, e) ↦ rw e h
        | inr (_, _, fresh, e) ↦ rw e (append-HasUniqueNames _ a.users fresh h)
      ]

  abbrev changed : String → Text → Text → Accounts → Result AuthError Unit × Accounts
  changed = change_password hash_password compare_password hash_token

  changed-ok :
      (id : String) (current password : Text) (a : Accounts) (u : User)
      → find_user id a.users ≡ some u
      → (hash : String) → hash_password password ≡ some hash
      → (changed id current password a).0 ≡ ok tt
      → (u.revoked ≡ false)
        × ((changed id current password a).1 ≡ record a { users = set_password id hash a.users })
  unfolding change_password write_password
  changed-ok id current password a u known hash hashes e =
      (ground (arith, known, hashes), ground (arith, known, hashes))

  -- A user whose password is changed with success logs in to its tenant with the new one, if the
  -- tenant is not suspended, no other user of it has the name, and the password's hash, which it
  -- has, accepts it.
  pub change_password-verify :
      (id tenant : String) (name current password : Text) (a : Accounts) (u : User)
      → find_user id a.users ≡ some u
      → select_users (normalize_tenant tenant) name a.users ≡ u ∷ []
      → is_tenant_suspended (normalize_tenant tenant) a.tenants ≡ false
      → (hash : String) → hash_password password ≡ some hash
      → compare_password hash password ≡ true
      → (changed id current password a).0 ≡ ok tt
      → verify_user hash_password compare_password hash_token tenant name password
          (changed id current password a).1
        ≡ ok (record u { password_hash = hash })
  unfolding verify_user
  change_password-verify id tenant name current password a u known one running hash hashes accepts
        done =
      let (active, now) = changed-ok id current password a u known hash hashes done in
      let same_id = find_user-id id a.users u known in
      let hit =
        select_users-set (normalize_tenant tenant) name id hash a.users
        ∙ ap (set_password id hash) one
        ∙ set_password-one id hash u same_id in
      rw (now, running, hit) (rw (active, accepts) refl)
