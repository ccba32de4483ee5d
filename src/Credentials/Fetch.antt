-- ===== src/Credentials/Fetch.antt =====
-- FetchCredential (internal/server/credentials.go): a client gets the secret that a reference means. An
-- audit row is kept without its free-text detail.
use nitejaguar.Base.{
  Bool, false, not, ◌&&◌, Option, none, some, List, [], ◌∷◌, ◌++◌, String, str_eq, Text, text_eq,
  trim_space, string_of, if◌then◌else◌,
}
use nitejaguar.Credentials.{Credential, CredentialError, resolve_credential}
use nitejaguar.Ingest.{Row}
use nitejaguar.Reference.{split}
use nitejaguar.Providers.{credential_type_for_action}
use nitejaguar.Registry.{Client, Registry, transfer_caller}
use nitejaguar.Result.{Result, ok, err, ◌>>=◌, fail_if}
use nitejaguar.Server.{Audit}
use nitejaguar.Workflow.{Node, Workflow, find_node}

pub record Vault : Type 0 where
  pub registry : Registry
  pub rows : List Row
  pub credentials : List Credential
  pub audit : List Audit

-- type FetchCredentialInput, with the token that bearerToken found in the headers
pub record FetchInput : Type 0 where
  pub token : String
  pub ref : String
  pub user_id : String
  pub groups : Text
  pub workflow_id : String
  pub node_id : String

pub data FetchError : Type 0 where
  unauthorized reference_missing workflow_not_found type_differs not_opened : FetchError
  not_resolved : CredentialError → FetchError

-- strings.Split at commas, without the parts that are blank
group_ids : List Text → List String
unfolding string_of
group_ids [] = []
group_ids (t ∷ ts) =
    let rest = group_ids ts in
    if text_eq (trim_space t) [] then rest else string_of (trim_space t) ∷ rest

unfoldable pub groups_of : Text → List String
unfolding group_ids
groups_of [] = []
groups_of (c ∷ cs) = group_ids (split b',' (c ∷ cs))

-- GetWorkflow
unfoldable pub get_workflow : String → List Row → Option Row
get_workflow id [] = none
get_workflow id (r ∷ rs) = if str_eq r.id id then some r else get_workflow id rs

named_node : String → List (String × Node) → Option Node
named_node id [] = none
named_node id ((k, n) ∷ ns) = if str_eq n.id id then some n else named_node id ns

-- the node of a definition by its key, or by its id
unfoldable pub node_of : String → Workflow → Option Node
unfolding find_node named_node
node_of id w = elim (find_node id w.nodes) [ some n ↦ some n | none ↦ named_node id w.nodes ]

-- wfTenant
unfoldable pub workflow_tenant : Row → String
workflow_tenant r = elim (r.definition) [
  | none ↦ r.tenant_id
  | some w ↦ if str_eq w.tenant_id "" then r.tenant_id else w.tenant_id
]

-- known && expected != "" && row.Type != expected
unfoldable pub type_mismatch : Credential → Option String → Bool
type_mismatch c none = false
type_mismatch c (some expected) =
    not (str_eq expected "") && not (str_eq c.credential_type expected)

unfoldable pub check_node : Credential → Option Node → Result FetchError Credential
check_node c none = ok c
check_node c (some n) =
    fail_if (type_mismatch c (credential_type_for_action n.action_name)) type_differs (ok c)

unfoldable pub check_definition :
    Credential → String → Option Workflow → Result FetchError Credential
check_definition c node none = ok c
check_definition c node (some w) = check_node c (node_of node w)

unfoldable pub check_row : Client → Credential → String → Option Row → Result FetchError Credential
check_row caller c node none = ok c
check_row caller c node (some r) =
    fail_if
      (not (str_eq (workflow_tenant r) "") && not (str_eq (workflow_tenant r) caller.tenant_id))
      workflow_not_found (check_definition c node r.definition)

-- the part of FetchCredential on the workflow and node that the client names
unfoldable pub check_context :
    Client → Credential → String → String → List Row → Result FetchError Credential
check_context caller c workflow node rows =
    if not (str_eq workflow "") && not (str_eq node "")
    then check_row caller c node (get_workflow workflow rows)
    else ok c

unfoldable pub of_resolve : Result CredentialError Credential → Result FetchError Credential
of_resolve (ok c) = ok c
of_resolve (err e) = err (not_resolved e)

module _ (hash_token : String → String) (decrypt : String → Option Text) where
  -- the caller, and the credential that it may have
  unfoldable pub grant : FetchInput → Vault → Result FetchError (Client × Credential)
  grant i v = elim (transfer_caller hash_token i.token v.registry.clients) [
    | none ↦ err unauthorized
    | some caller ↦ fail_if (str_eq i.ref "") reference_missing (
        of_resolve
          (resolve_credential caller.tenant_id i.ref i.user_id (groups_of i.groups) v.credentials)
        >>= λ c. check_context caller c i.workflow_id i.node_id v.rows >>= λ d. ok (caller, d))
  ]

  -- the secret, and the row in the audit log
  unfoldable pub open_secret :
      Result FetchError (Client × Credential)
      → Vault
      → Result FetchError (Credential × Text) × Vault
  open_secret (err e) v = (err e, v)
  open_secret (ok (caller, c)) v = elim (decrypt c.secret_encrypted) [
    | none ↦ (err not_opened, v)
    | some secret ↦ (
      ok (c, secret),
      record v {
        audit =
            v.audit
            ++ ((record {
              action = "credential.fetch";
              tenant_id = c.tenant_id;
              actor = caller.id;
              target = c.id;
            })
                ∷ []);
      },
    )
  ]

  -- func FetchCredential
  unfoldable pub fetch_credential :
      FetchInput → Vault → Result FetchError (Credential × Text) × Vault
  fetch_credential i v = open_secret (grant i v) v
