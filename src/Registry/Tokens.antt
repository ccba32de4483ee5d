-- ===== src/Registry/Tokens.antt =====
-- AuthenticateClient and RevokeClient (internal/database/database.go): who a client token
-- authenticates.
use nitejaguar.Base.{
  false, Option, none, some, List, [], ◌∷◌, String, str_eq, eq_iff, Any, ◌≡◌, ◌≢◌, refl, arith,
  if◌then◌else◌,
}
use nitejaguar.Result.{ok}
use nitejaguar.Registry.{
  Client, Registry, find_client, find_token, revoke_row, revoke_client, authenticate_client,
}

-- The registered client with this id and token hash is not revoked.
abbrev pub Owns : String → String → Client → Type 0
Owns id hash c = (c.id ≡ id) × (c.token_hash ≡ hash) × (c.revoked ≡ false)

find_token-Owns :
    (h id : String) (cs : List Client) → find_token h cs ≡ some id → Any (Owns id h) cs
unfolding find_token
find_token-Owns h id [] e = cc
find_token-Owns h id (c ∷ cs) e = ground (arith, eq_iff c.token_hash h, find_token-Owns h id cs)

find_client-id :
    (id : String) (cs : List Client) (c : Client) → find_client id cs ≡ some c → c.id ≡ id
unfolding find_client
find_client-id id [] c e = cc
find_client-id id (d ∷ cs) c e = ground (arith, eq_iff d.id id, find_client-id id cs c)

find_client-Owns :
    (h id : String) (cs : List Client) (c : Client)
    → find_client id cs ≡ some c
    → c.token_hash ≡ h
    → c.revoked ≡ false
    → Any (Owns id h) cs
unfolding find_client
find_client-Owns h id [] c e p q = cc
find_client-Owns h id (d ∷ cs) c e p q = ground (arith, eq_iff d.id id, find_client-Owns h id cs c)

revoke_row-Owns : (id h : String) (cs : List Client) → ¬ (Any (Owns id h) (revoke_row id cs))
unfolding revoke_row
revoke_row-Owns id h [] p = p
revoke_row-Owns id h (c ∷ cs) p = ground (arith, eq_iff c.id id, revoke_row-Owns id h cs)

revoke-clients :
    (id : String) (r : Registry)
    → (revoke_client id r).0 ≡ ok tt
    → (revoke_client id r).1.clients ≡ revoke_row id r.clients
unfolding revoke_client
revoke-clients id r e = ground arith

module _ (hash_token : String → String) where
  by_id :
      (id token found : String) (cs : List Client) (o : Option Client)
      → find_client id cs ≡ o
      → (elim o [
        | none ↦ none
        | some c ↦
            if c.revoked
            then none
            else if str_eq c.token_hash (hash_token token)
            then some c.id
            else none
      ])
        ≡ some found
      → Any (Owns found (hash_token token)) cs
  by_id id token found cs none p e = cc
  by_id id token found cs (some c) p e = ground (
    arith,
    eq_iff c.token_hash (hash_token token),
    find_client-id id cs c,
    find_client-Owns (hash_token token) id cs c p,
  )

  -- A token authenticates, for a given id or for any, only a registered client that is not revoked
  -- and has the hash of that token; the empty token authenticates nobody.
  pub authenticate-Owns :
      (id token found : String) (cs : List Client)
      → authenticate_client hash_token id token cs ≡ some found
      → (token ≢ "") × Any (Owns found (hash_token token)) cs
  unfolding authenticate_client
  authenticate-Owns id token found cs e = ground (
    arith,
    eq_iff token "",
    by_id id token found cs (find_client id cs) refl,
    find_token-Owns (hash_token token) found cs,
  )

  -- Behind RevokeClient no token authenticates the client any more, by its id or without.
  pub revoke-authenticate :
      (id asked token : String) (r : Registry)
      → (revoke_client id r).0 ≡ ok tt
      → authenticate_client hash_token asked token (revoke_client id r).1.clients ≢ some id
  revoke-authenticate id asked token r e p = revoke_row-Owns id (hash_token token) r.clients (
      rw (revoke-clients id r e) at
        (authenticate-Owns asked token id (revoke_client id r).1.clients p).1)
