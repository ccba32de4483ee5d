-- ===== src/Providers.antt =====
-- common/providers.go: the collections of actions, and the types of credentials that they ask for.
use nitejaguar.Base.{
  ◌||◌, Option, none, some, List, [], ◌∷◌, ◌++◌, String, str_eq, contains, if◌then◌else◌,
}

-- type Provider
pub record Provider : Type 0 where
  pub name : String
  pub credential_type : String
  pub actions : List String

-- func Providers
abbrev pub providers : List Provider
providers =
    (record {
      name = "core";
      credential_type = "";
      actions =
          "file" ∷ "datetime" ∷ "wait" ∷ "transfer" ∷ "filechange" ∷ "filewatch" ∷ "cron"
          ∷ "webhook" ∷ "set" ∷ "email" ∷ "slack" ∷ "http" ∷ "pagerduty" ∷ "exec" ∷ [];
    })
    ∷ (record { name = "aws"; credential_type = "aws"; actions = "ec2" ∷ "s3" ∷ [] })
    ∷ []

-- func ProviderForAction
unfoldable pub provider_for_action : String → List Provider → Option Provider
provider_for_action action [] = none
provider_for_action action (p ∷ ps) =
    if contains p.actions action then some p else provider_for_action action ps

-- func CredentialTypeForAction, with `none` for an unknown action
unfoldable pub credential_type_for_action : String → Option String
unfolding provider_for_action
credential_type_for_action action = elim (provider_for_action action providers) [
  | none ↦ none
  | some p ↦ some p.credential_type
]

-- func GenericCredentialTypes
abbrev pub generic_credential_types : List String
generic_credential_types = "generic" ∷ "token" ∷ "username_password" ∷ "ssh_key" ∷ []

add_types : List String → List Provider → List String
add_types seen [] = seen
add_types seen (p ∷ ps) =
    if str_eq p.credential_type "" || contains seen p.credential_type
    then add_types seen ps
    else add_types (seen ++ (p.credential_type ∷ [])) ps

-- func KnownCredentialTypes
unfoldable pub known_credential_types : List String
unfolding add_types
known_credential_types = add_types generic_credential_types providers
