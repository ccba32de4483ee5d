-- ===== src/Registry/Joins.antt =====
-- register (internal/server/clients.go): what a client that joins has behind it.
use nitejaguar.Base.{
  ℕ, ◌+◌, ◌≤◌, ◌<◌, ◌⊎◌, false, some, List, [], ◌∷◌, ◌++◌, String, str_eq, ◌≡◌, ◌≢◌, if◌then◌else◌,
}
use nitejaguar.Tenants.{is_tenant_suspended}
use nitejaguar.Registry.{Client, Enrollment, Registry}

-- A join token of a tenant that is not suspended, neither revoked, expired nor exhausted, and the
-- client that it admits: of that token's tenant, not revoked, with its own token stored hashed.
pub record Admits (now : ℕ) (r : Registry) (t : Enrollment) (hash : String) (c : Client)
    : Type 0 where
  pub tenant_open : is_tenant_suspended t.tenant_id r.tenants ≡ false
  pub live : t.revoked ≡ false
  pub in_time : (end : ℕ) → t.expires_at ≡ some end → now ≤ end
  pub uses_left : (t.max_uses ≡ 0) ⊎ (t.use_count < t.max_uses)
  pub same_tenant : c.tenant_id ≡ (if str_eq t.tenant_id "" then "default" else t.tenant_id)
  pub hashed : c.token_hash ≡ hash
  pub enabled : c.revoked ≡ false

-- The rows of the token with an id are used once more, and the other rows are as they were.
abbrev pub IsCounted : String → List Enrollment → List Enrollment → Type 0
IsCounted id [] [] = Unit
IsCounted id [] (u ∷ us) = ⊥
IsCounted id (t ∷ ts) [] = ⊥
IsCounted id (t ∷ ts) (u ∷ us) =
    (t.id ≡ id → u ≡ record t { use_count = t.use_count + 1 })
    × (t.id ≢ id → u ≡ t)
    × IsCounted id ts us

-- The registry behind a registration: a use of the token is counted, the client's row is the last one,
-- and nothing else is changed.
pub record Joined (r : Registry) (t : Enrollment) (c : Client) (after : Registry) : Type 0 where
  pub counted : IsCounted t.id r.enrollments after.enrollments
  pub joined : after.clients ≡ r.clients ++ (c ∷ [])
  pub same_tenants : after.tenants ≡ r.tenants
