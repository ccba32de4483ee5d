-- ===== src/Credentials/Granted.antt =====
-- FetchCredential (internal/server/credentials.go): who gets a secret.
use nitejaguar.Base.{
  false, Option, some, [], ◌∷◌, ◌++◌, String, str_eq, Text, ◌≡◌, refl, ◌∙◌, ap, subst, Option-cases,
  inl, inr,
}
use nitejaguar.Credentials.{Credential, resolve_credential}
use nitejaguar.Credentials.Fetch.{
  Vault, FetchInput, FetchError, reference_missing, get_workflow, check_context, of_resolve,
  groups_of, grant, open_secret, fetch_credential,
}
use nitejaguar.Ingest.{Row}
use nitejaguar.Registry.{Client, transfer_caller}
use nitejaguar.Result.{Result, ok, err, ◌>>=◌}
use nitejaguar.Tenants.{normalize_tenant}
use nitejaguar.Credentials.Owned.{resolve_credential-Of}
use nitejaguar.Credentials.Context.{Fits, fail_if-ok, check_context-ok, of_resolve-ok, bind-ok}

module _ (hash_token : String → String) (decrypt : String → Option Text) (i : FetchInput)
    (v : Vault) where
  -- A client may have a credential for its request: its token is known, the credential is of its
  -- tenant and the one that the reference means, and fits the workflow and node that it names.
  pub record IsGranted (caller : Client) (c : Credential) : Type 0 where
    pub known : transfer_caller hash_token i.token v.registry.clients ≡ some caller
    pub meant :
        resolve_credential caller.tenant_id i.ref i.user_id (groups_of i.groups) v.credentials
        ≡ ok c
    pub own_tenant : c.tenant_id ≡ normalize_tenant caller.tenant_id
    pub fits :
        (r : Row)
        → str_eq i.workflow_id "" ≡ false
        → str_eq i.node_id "" ≡ false
        → get_workflow i.workflow_id v.rows ≡ some r
        → Fits caller c i.node_id r

  grant-IsGranted :
      (caller : Client) (c : Credential)
      → grant hash_token decrypt i v ≡ ok (caller, c)
      → IsGranted caller c
  unfolding grant
  grant-IsGranted caller c e =
      elim (Option-cases (transfer_caller hash_token i.token v.registry.clients)) [
        | inl stranger ↦ absurd (cc (rw (grant, stranger) at e))
        | inr (k, known) ↦
            let resolved =
              of_resolve (
                resolve_credential k.tenant_id i.ref i.user_id (groups_of i.groups)
                  v.credentials) in
            let check = λ (row : Credential). check_context k row i.workflow_id i.node_id v.rows in
            let answer : Credential → Result FetchError (Client × Credential) = λ d. ok (k, d) in
            let given =
              fail_if-ok (str_eq i.ref "") reference_missing
                (resolved >>= λ row. check row >>= answer) (caller, c) (rw (grant, known) at e) in
            let named = bind-ok resolved (λ row. check row >>= answer) (caller, c) given.1 in
            let checked = bind-ok (check named.0) answer (caller, c) named.1.1 in
            let context =
              check_context-ok k named.0 checked.0 i.workflow_id i.node_id v.rows checked.1.0 in
            let meant = of_resolve-ok _ named.0 named.1.0 in
            let mine : IsGranted k named.0 = record {
              known = known;
              meant = meant;
              own_tenant =
                  resolve_credential-Of k.tenant_id i.ref i.user_id (groups_of i.groups)
                    v.credentials named.0 meant;
              fits = context.1;
            } in
            let same_caller : k ≡ caller = cc (checked.1.1) in
            let same_row : named.0 ≡ c = context.0 ∙ cc (checked.1.1) in
            subst (λ (x : Client). IsGranted x c) same_caller
              (subst (λ (x : Credential). IsGranted k x) same_row mine)
      ]

  -- behind one more row in the audit log
  abbrev pub logged : Client → Credential → Vault
  logged caller c = record v {
    audit =
        v.audit
        ++ ((record {
          action = "credential.fetch";
          tenant_id = c.tenant_id;
          actor = caller.id;
          target = c.id;
        })
            ∷ []);
  }

  -- What a request that gets a secret has behind it: the caller to whom it is granted, the secret
  -- itself, and one more row in the audit log and no other change.
  pub record IsFetched (c : Credential) (secret : Text) (after : Vault) : Type 0 where
    pub caller : Client
    pub granted : IsGranted caller c
    pub opened : decrypt c.secret_encrypted ≡ some secret
    pub audited : after ≡ logged caller c

  open-IsFetched :
      (g : Result FetchError (Client × Credential)) (c : Credential) (secret : Text)
      → grant hash_token decrypt i v ≡ g
      → (open_secret hash_token decrypt g v).0 ≡ ok (c, secret)
      → IsFetched c secret (open_secret hash_token decrypt g v).1
  unfolding open_secret
  open-IsFetched (err x) c secret h e = absurd (cc e)
  open-IsFetched (ok (k, d)) c secret h e = elim (Option-cases (decrypt d.secret_encrypted)) [
    | inl shut ↦ absurd (cc (rw (open_secret, shut) at e))
    | inr (plain, opened) ↦
        let it : Result.ok (d, plain) ≡ Result.ok (c, secret) = rw (open_secret, opened) at e in
        let same : d ≡ c = cc it in
        let text_same : plain ≡ secret = cc it in
        rw (open_secret, opened)
          (subst (λ (x : Credential). IsFetched x secret (logged k d)) same
            (record {
              caller = k;
              granted = grant-IsGranted k d h;
              opened = opened ∙ ap some text_same;
              audited = refl;
            }))
  ]

  -- A secret is given out only to a client that its token authenticates, for a credential of the
  -- client's own tenant that is the one the reference means. If the request names a node and a
  -- workflow that is there, the workflow is of the client's tenant, or of none, and the credential is
  -- of the type that the collection of the node's action asks for, if it asks for one. The request is
  -- written to the audit log, and nothing else changes.
  pub fetch_credential-IsFetched :
      (c : Credential) (secret : Text)
      → (fetch_credential hash_token decrypt i v).0 ≡ ok (c, secret)
      → IsFetched c secret (fetch_credential hash_token decrypt i v).1
  unfolding fetch_credential
  fetch_credential-IsFetched c secret e =
      open-IsFetched (grant hash_token decrypt i v) c secret refl e
