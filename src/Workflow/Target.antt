-- ===== src/Workflow/Target.antt =====
-- NodeAssignedTo (internal/workflow/workflow.go): which clients a node is for.
use nitejaguar.Base.{
  true, false, List, [], ◌∷◌, String, eq_iff, contains, Any, ◌≡◌, ◌≢◌, ◌↔◌, ◌⊎◌, refl, arith,
}
use nitejaguar.Workflow.{
  Node, Workflow, some_tag_in, no_tags, assigned_to, effective_target, node_assigned_to,
}

-- `x` is one of a list
abbrev pub In : String → List String → Type 0
In x xs = Any (λ y. y ≡ x) xs

pub contains_iff : (xs : List String) (x : String) → (contains xs x ≡ true) ↔ In x xs
contains_iff [] x = ground arith
contains_iff (y ∷ ys) x = ground (arith, eq_iff y x, contains_iff ys x)

-- some tag of a node is one of the client's
abbrev pub Shares : List String → List String → Type 0
Shares ts tags = Any (λ t. In t tags) ts

some_tag_in_iff : (ts tags : List String) → (some_tag_in ts tags ≡ true) ↔ Shares ts tags
unfolding some_tag_in
some_tag_in_iff [] tags = ground arith
some_tag_in_iff (t ∷ ts) tags = ground (arith, contains_iff tags t, some_tag_in_iff ts tags)

some_tag_in-none : (ts : List String) → some_tag_in ts [] ≡ false
unfolding some_tag_in
some_tag_in-none [] = refl
some_tag_in-none (t ∷ ts) = some_tag_in-none ts

no_tags_iff : (ts : List String) → (no_tags ts ≡ true) ↔ (ts ≡ [])
unfolding no_tags
no_tags_iff [] = ground arith
no_tags_iff (t ∷ ts) = ground arith

-- Nothing is targeted, or the client is named, or it shares a tag.
abbrev pub IsTarget : String → List String → String → List String → Type 0
IsTarget client client_tags id tags =
    ((client ≡ "") × (client_tags ≡ []))
    ⊎ (((client ≢ "") × (client ≡ id)) ⊎ Shares client_tags tags)

assigned_to_iff :
    (client : String) (client_tags : List String) (id : String) (tags : List String)
    → (assigned_to client client_tags id tags ≡ true) ↔ IsTarget client client_tags id tags
unfolding assigned_to no_tags
assigned_to_iff client [] id tags = ground (arith, eq_iff client "", eq_iff client id)
assigned_to_iff client (t ∷ ts) id [] = ground (
  arith,
  eq_iff client "",
  eq_iff client id,
  some_tag_in_iff (t ∷ ts) [],
  some_tag_in-none (t ∷ ts),
)
assigned_to_iff client (t ∷ ts) id (u ∷ us) =
    ground (arith, eq_iff client "", eq_iff client id, some_tag_in_iff (t ∷ ts) (u ∷ us))

-- A node is assigned to a client if and only if the client is a target of the node or, when the node
-- names neither a client nor tags, of its workflow's defaults.
pub node_assigned_to_iff :
    (w : Workflow) (n : Node) (id : String) (tags : List String)
    → (node_assigned_to w n id tags ≡ true) ↔ (
        (((n.client ≢ "") ⊎ (n.client_tags ≢ [])) × IsTarget n.client n.client_tags id tags)
        ⊎ (((n.client ≡ "") × (n.client_tags ≡ []))
            × IsTarget w.default_client w.default_client_tags id tags))
unfolding node_assigned_to effective_target
node_assigned_to_iff w n id tags = ground (
  arith,
  eq_iff n.client "",
  no_tags_iff n.client_tags,
  assigned_to_iff n.client n.client_tags id tags,
  assigned_to_iff w.default_client w.default_client_tags id tags,
)
