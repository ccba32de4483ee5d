-- ===== src/Samples/Secrets.antt =====
-- The properties of credentials at one name that a tenant and a user both have.
use nitejaguar.Base.{Option, some, [], ◌∷◌, String, Text, trim_space, codes, ◌≡◌, refl}
use nitejaguar.Credentials.{
  Credential, resolve_named, resolve_credential, found_or, first_for_user, select_named,
}
use nitejaguar.Credentials.Fetch.{
  FetchInput, Vault, fetch_credential, open_secret, grant, of_resolve, check_context, check_row,
  get_workflow, workflow_tenant, check_definition, check_node, node_of, type_mismatch,
}
use nitejaguar.Credentials.Granted.{IsFetched, fetch_credential-IsFetched}
use nitejaguar.Credentials.Ranked.{first_of, ranked, resolve_named-ranked}
use nitejaguar.Providers.{credential_type_for_action}
use nitejaguar.Registry.{transfer_caller}
use nitejaguar.Samples.{registry, same_text}
use nitejaguar.Samples.Engine.{workflow}
use nitejaguar.Tenants.{normalize_tenant}
use nitejaguar.Workflow.{find_node}

abbrev shared : Credential
shared = record {
  id = "credential_1";
  tenant_id = "t1";
  name = "db";
  credential_type = "token";
  scope = "tenant";
  owner_id = "";
  secret_encrypted = "x";
  description = [];
}

abbrev personal : Credential
personal = record shared {
  id = "credential_2";
  scope = "user";
  owner_id = "u";
  secret_encrypted = "y";
}

resolve_named-ranked_example :
    resolve_named "u" [] (shared ∷ personal ∷ [])
    ≡ first_of (ranked "u" [] (shared ∷ personal ∷ []))
resolve_named-ranked_example = resolve_named-ranked "u" [] (shared ∷ personal ∷ [])

abbrev decrypted : String → Option Text
decrypted s = some (codes s)

abbrev vault : Vault
vault = record {
  registry = registry;
  rows = (record { id = "w"; tenant_id = "t1"; definition = some workflow }) ∷ [];
  credentials = shared ∷ personal ∷ [];
  audit = [];
}

-- node n1 sends a mail
abbrev input : FetchInput
input = record {
  token = "ka";
  ref = "db";
  user_id = "u";
  groups = [];
  workflow_id = "w";
  node_id = "n1";
}

fetch_credential-IsFetched_example :
    IsFetched same_text decrypted input vault personal
      (codes "y")
      (fetch_credential same_text decrypted input vault).1
unfolding fetch_credential open_secret grant transfer_caller of_resolve resolve_credential
    trim_space resolve_named found_or first_for_user select_named normalize_tenant check_context
    check_row get_workflow workflow_tenant check_definition check_node node_of type_mismatch
    credential_type_for_action find_node
fetch_credential-IsFetched_example =
    fetch_credential-IsFetched same_text decrypted input vault personal (codes "y") refl
