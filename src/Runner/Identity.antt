-- ===== src/Runner/Identity.antt =====
-- applyStateDefaults and restoreIdentity (internal/client/client.go): the identity that a client takes
-- up again after a restart. A warning is whether it is given.
use nitejaguar.Base.{
  Bool, true, false, not, ◌&&◌, String, str_eq, eq_iff, if◌then◌else◌, if-holds, ◌≡◌, refl, ◌⊎◌,
  inl, inr, arith,
}
use nitejaguar.Ingest.{is_blank}

-- type clientState
pub record State : Type 0 where
  pub client_id : String
  pub token : String
  pub server : String
  pub name : String

-- type Config, as far as the identity goes
pub record Config : Type 0 where
  pub server : String
  pub name : String
  pub client_id : String
  pub token : String

abbrev pub no_state : State
no_state = record { client_id = ""; token = ""; server = ""; name = "" }

-- func applyStateDefaults
unfoldable pub apply_state_defaults : Config → State → Config
apply_state_defaults c s = record c {
  server =
      if is_blank c.server
      then if not (str_eq s.server "") then s.server else "http://127.0.0.1:8080"
      else c.server;
  name =
      if is_blank c.name
      then if not (str_eq s.name "") then s.name else "nitejaguar-client"
      else c.name;
}

-- whether the saved registration is another server's
unfoldable pub is_drift : Config → State → Bool
is_drift c s = not (str_eq s.server "") && not (str_eq s.server c.server)

-- the saved identity, for a configuration that has none
unfoldable pub restore_saved : Config → State → Config × State × Bool
restore_saved c s = if is_drift c s then (c, no_state, true) else (
  record c { client_id = s.client_id; token = s.token },
  s,
  not (str_eq s.name "") && not (str_eq s.name c.name),
)

-- the saved token, for a configuration that names the client
unfoldable pub restore_token : Config → State → Config × State × Bool
restore_token c s =
    if str_eq s.client_id c.client_id && not (str_eq s.token "")
    then if is_drift c s then (c, s, true) else (record c { token = s.token }, s, false)
    else (c, s, false)

-- func restoreIdentity
unfoldable pub restore_identity : Config → State → Config × State × Bool
restore_identity c s =
    if str_eq c.client_id "" && str_eq c.token ""
    then if not (str_eq s.client_id "") && not (str_eq s.token "")
      then restore_saved c s
      else (c, s, false)
    else if not (str_eq c.client_id "") && str_eq c.token ""
    then restore_token c s
    else (c, s, false)

-- The configuration after a restart is the one given, or has the saved token, which then is for the
-- client that it names, and was saved for the server it names or before servers were saved.
pub record IsRestored (c d : Config) (s : State) : Type 0 where
  pub token :
      (d ≡ c)
      ⊎ ((d.token ≡ s.token)
          × (d.client_id ≡ s.client_id)
          × ((s.server ≡ "") ⊎ (s.server ≡ d.server)))
  pub server : d.server ≡ c.server

same-IsRestored : (c : Config) (s : State) → IsRestored c c s
same-IsRestored c s = record { token = inl refl; server = refl }

no_drift : (c : Config) (s : State) → is_drift c s ≡ false → (s.server ≡ "") ⊎ (s.server ≡ c.server)
unfolding is_drift
no_drift c s e = ground (arith, eq_iff s.server "", eq_iff s.server c.server)

restore_saved-IsRestored : (c : Config) (s : State) → IsRestored c (restore_saved c s).0 s
unfolding restore_saved
restore_saved-IsRestored c s =
    if-holds (λ (x : Config × State × Bool). IsRestored c x.0 s) (is_drift c s) _ _
      (λ e. same-IsRestored c s)
      (λ e. record { token = inr (refl, refl, no_drift c s e); server = refl })

restore_token-IsRestored : (c : Config) (s : State) → IsRestored c (restore_token c s).0 s
unfolding restore_token
restore_token-IsRestored c s =
    let P : Config × State × Bool → Type 0 = λ x. IsRestored c x.0 s in
    if-holds P (str_eq s.client_id c.client_id && not (str_eq s.token "")) _ _
      (λ own.
        if-holds P (is_drift c s) _ _ (λ e. same-IsRestored c s)
          (λ e.
            let mine : c.client_id ≡ s.client_id = ground (arith, eq_iff s.client_id c.client_id) in
            record { token = inr (refl, mine, no_drift c s e); server = refl }))
      (λ e. same-IsRestored c s)

-- A restart sends a saved token to no server but the one that it was saved for, where one was saved,
-- and only under the client id that it was saved with; else the configuration stays as it was given.
pub restore_identity-IsRestored : (c : Config) (s : State) → IsRestored c (restore_identity c s).0 s
unfolding restore_identity
restore_identity-IsRestored c s =
    let P : Config × State × Bool → Type 0 = λ x. IsRestored c x.0 s in
    if-holds P (str_eq c.client_id "" && str_eq c.token "") _ _
      (λ e.
        if-holds P (not (str_eq s.client_id "") && not (str_eq s.token "")) _ _
          (λ d. restore_saved-IsRestored c s) (λ d. same-IsRestored c s))
      (λ e.
        if-holds P (not (str_eq c.client_id "") && str_eq c.token "") _ _
          (λ d. restore_token-IsRestored c s) (λ d. same-IsRestored c s))
