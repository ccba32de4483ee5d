-- ===== src/Credentials/Context.antt =====
-- FetchCredential (internal/server/credentials.go): the workflow and the node that a client names.
use nitejaguar.Base.{
  Bool, true, false, not, ◌&&◌, Option, none, some, List, String, str_eq, eq_iff, ◌≢◌, ◌⊎◌, arith,
  ◌≡◌, refl, ◌∙◌, ap, subst, Bool-cases, inl, inr,
}
use nitejaguar.Credentials.{Credential, CredentialError}
use nitejaguar.Credentials.Fetch.{
  FetchError, workflow_not_found, type_differs, get_workflow, node_of, workflow_tenant,
  type_mismatch, check_node, check_definition, check_row, check_context, of_resolve,
}
use nitejaguar.Ingest.{Row}
use nitejaguar.Providers.{credential_type_for_action}
use nitejaguar.Registry.{Client}
use nitejaguar.Result.{Result, ok, err, fail_if, ◌>>=◌}
use nitejaguar.Workflow.{Node, Workflow}

pub fail_if-ok :
    {E A : Type 0} (b : Bool) (e : E) (r : Result E A) (a : A)
    → fail_if b e r ≡ ok a
    → (b ≡ false) × (r ≡ ok a)
fail_if-ok true e r a h = absurd (cc h)
fail_if-ok false e r a h = (refl, h)

-- What a workflow and a node that a client names ask of a credential.
pub record Fits (caller : Client) (c : Credential) (node : String) (r : Row) : Type 0 where
  pub tenant : (workflow_tenant r ≡ "") ⊎ (workflow_tenant r ≡ caller.tenant_id)
  pub type_fits :
      (w : Workflow) (n : Node)
      → r.definition ≡ some w
      → node_of node w ≡ some n
      → (expected : String) → credential_type_for_action n.action_name ≡ some expected
      → expected ≢ ""
      → c.credential_type ≡ expected

no_other : (a b : String) → (not (str_eq a "") && not (str_eq a b)) ≡ false → (a ≡ "") ⊎ (a ≡ b)
no_other a b h = ground (arith, eq_iff a "", eq_iff a b)

same_type :
    (c : Credential) (expected : String)
    → type_mismatch c (some expected) ≡ false
    → expected ≢ ""
    → c.credential_type ≡ expected
unfolding type_mismatch
same_type c expected h ne = ground (arith, eq_iff expected "", eq_iff c.credential_type expected)

check_node-ok :
    (c d : Credential) (o : Option Node)
    → check_node c o ≡ ok d
    → (c ≡ d)
      × ((n : Node)
          → o ≡ some n
          → type_mismatch c (credential_type_for_action n.action_name) ≡ false)
unfolding check_node
check_node-ok c d none e = (cc e, λ n h. absurd (cc h))
check_node-ok c d (some n) e =
    let f =
      fail_if-ok (type_mismatch c (credential_type_for_action n.action_name)) type_differs (ok c) d
        e in
    (
      cc (f.1),
      λ m h.
          let same : n ≡ m = cc h in
          subst (λ k. type_mismatch c (credential_type_for_action k.action_name) ≡ false) same f.0,
    )

-- the same for a definition that is there
abbrev TypeFits : Credential → String → Option Workflow → Type 0
TypeFits c node o =
    (w : Workflow) (n : Node)
    → o ≡ some w
    → node_of node w ≡ some n
    → type_mismatch c (credential_type_for_action n.action_name) ≡ false

check_definition-ok :
    (c d : Credential) (node : String) (o : Option Workflow)
    → check_definition c node o ≡ ok d
    → (c ≡ d) × TypeFits c node o
unfolding check_definition
check_definition-ok c d node none e = (cc e, λ w n h k. absurd (cc h))
check_definition-ok c d node (some v) e =
    let f = check_node-ok c d (node_of node v) e in
    (f.0, λ w n h k. let same : v ≡ w = cc h in f.1 n (ap (λ x. node_of node x) same ∙ k))

check_row-ok :
    (caller : Client) (c d : Credential) (node : String) (o : Option Row)
    → check_row caller c node o ≡ ok d
    → (c ≡ d) × ((r : Row) → o ≡ some r → Fits caller c node r)
unfolding check_row
check_row-ok caller c d node none e = (cc e, λ r h. absurd (cc h))
check_row-ok caller c d node (some q) e =
    let f =
      fail_if-ok
        (not (str_eq (workflow_tenant q) "") && not (str_eq (workflow_tenant q) caller.tenant_id))
        workflow_not_found (check_definition c node q.definition) d e in
    let g = check_definition-ok c d node q.definition f.1 in
    (
      g.0,
      λ r h.
          let same : q ≡ r = cc h in
          subst (Fits caller c node) same (record {
            tenant = no_other (workflow_tenant q) caller.tenant_id f.0;
            type_fits = λ w n h k expected m ne.
                same_type c expected (subst (λ o. type_mismatch c o ≡ false) m (g.1 w n h k)) ne;
          }),
    )

pub check_context-ok :
    (caller : Client) (c d : Credential) (workflow node : String) (rows : List Row)
    → check_context caller c workflow node rows ≡ ok d
    → (c ≡ d)
      × ((r : Row)
          → str_eq workflow "" ≡ false
          → str_eq node "" ≡ false
          → get_workflow workflow rows ≡ some r
          → Fits caller c node r)
unfolding check_context
check_context-ok caller c d workflow node rows e =
    elim (Bool-cases (not (str_eq workflow "") && not (str_eq node ""))) [
      | inl named ↦
          let f =
            check_row-ok caller c d node (get_workflow workflow rows)
              (rw (check_context, named) at e) in
          (f.0, λ r a b h. f.1 r h)
      | inr blank ↦
          let it : ok c ≡ ok d = rw (check_context, blank) at e in
          (cc it, λ r a b h. absurd (cc (rw (a, b) at blank)))
    ]

pub of_resolve-ok :
    (r : Result CredentialError Credential) (c : Credential) → of_resolve r ≡ ok c → r ≡ ok c
unfolding of_resolve
of_resolve-ok (ok d) c e = let same : d ≡ c = cc e in ap ok same
of_resolve-ok (err x) c e = absurd (cc e)

module _ {A B : Type 0} where
  pub bind-ok :
      (r : Result FetchError A) (f : A → Result FetchError B) (b : B)
      → (r >>= f) ≡ ok b
      → (a : A) × ((r ≡ ok a) × (f a ≡ ok b))
  bind-ok (ok a) f b h = (a, (refl, h))
  bind-ok (err e) f b h = absurd (cc h)
