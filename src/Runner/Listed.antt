-- ===== src/Runner/Listed.antt =====
-- syncAssignments (internal/client/client.go): which revision of a workflow is active behind it.
use nitejaguar.Base.{
  Bool, false, Option, none, some, List, [], ◌∷◌, String, str_eq, eq_iff, str_eq_self,
  if◌then◌else◌, ◌≡◌, refl, sym, ◌∙◌, ap, subst, arith, Bool-cases, inl, inr,
}
use nitejaguar.Runner.Sync.{
  ClientWorkflow, Managed, Installed, lookup, fetched_map, register_workflow_indices, add_node,
  add_nodes, build_managed_workflow, update_one, put, update_active, install_one, install_new,
  sync_assignments,
}
use nitejaguar.Workflow.{Node}

-- the revision of an active and of a listed workflow
abbrev pub revision_of : Option Managed → Option String
revision_of none = none
revision_of (some m) = some m.revision

abbrev listed : Option ClientWorkflow → Option String
listed none = none
listed (some w) = some w.revision

-- the revision in which the server lists a workflow, the last one if it is listed twice
abbrev pub last_revision : String → List ClientWorkflow → Option String → Option String
last_revision id [] o = o
last_revision id (w ∷ ws) o = last_revision id ws (if str_eq w.id id then some w.revision else o)

lookup-fetched :
    (id : String) (ws : List ClientWorkflow) (acc : List (String × ClientWorkflow))
    → listed (lookup id (fetched_map ws acc)) ≡ last_revision id ws (listed (lookup id acc))
unfolding fetched_map lookup
lookup-fetched id [] acc = refl
lookup-fetched id (w ∷ ws) acc =
    lookup-fetched id ws ((w.id, w) ∷ acc)
    ∙ (elim (Bool-cases (str_eq w.id id)) [ inl same ↦ rw same refl | inr other ↦ rw other refl ])

if_active : Option Managed → Option String → Option String
if_active none x = none
if_active (some _) x = x

if_active-none : (o : Option Managed) → if_active o none ≡ none
unfolding if_active
if_active-none none = refl
if_active-none (some m) = refl

or_listed : Option Managed → Option String → Option String
or_listed none x = x
or_listed (some m) x = some m.revision

or_listed-same :
    (a b : Option Managed) (x : Option String) → revision_of a ≡ if_active b x → or_listed a x ≡ x
unfolding if_active or_listed
or_listed-same none b x e = refl
or_listed-same (some m) none x e = absurd (cc e)
or_listed-same (some m) (some n) x e = e

module _ {A : Type 0} where
  lookup-here : (id : String) (a : A) (xs : List (String × A)) → lookup id ((id, a) ∷ xs) ≡ some a
  unfolding lookup
  lookup-here id a xs = rw (str_eq_self id) refl

  lookup-there :
      (k id : String) (a : A) (xs : List (String × A))
      → str_eq k id ≡ false
      → lookup id ((k, a) ∷ xs) ≡ lookup id xs
  unfolding lookup
  lookup-there k id a xs e = rw e refl

module _ (builds : String → Node → Bool) where
  add_node-revision :
      (id : String) (n : Node) (m : Managed) → (add_node builds id n m).revision ≡ m.revision
  unfolding add_node
  add_node-revision id n m = ground arith

  add_nodes-revision :
      (ns : List (String × Node)) (m : Managed) → (add_nodes builds ns m).revision ≡ m.revision
  unfolding add_nodes
  add_nodes-revision [] m = refl
  add_nodes-revision ((id, n) ∷ ns) m =
      add_nodes-revision ns (add_node builds id n m) ∙ add_node-revision id n m

  build-revision : (w : ClientWorkflow) → (build_managed_workflow builds w).revision ≡ w.revision
  unfolding build_managed_workflow
  build-revision w = add_nodes-revision w.nodes _

  put-other :
      (k id : String) (o : Option Managed) (ms : List (String × Managed))
      → str_eq k id ≡ false
      → lookup id (put builds k o ms) ≡ lookup id ms
  unfolding put
  put-other k id none ms e = refl
  put-other k id (some m) ms e = lookup-there k id m ms e

  put-same :
      (id : String) (o : Option ClientWorkflow) (m : Managed) (s : Installed)
      (ms : List (String × Managed))
      → (o ≡ none → revision_of (lookup id ms) ≡ none)
      → revision_of (lookup id (put builds id (update_one builds o id m s).0 ms)) ≡ listed o
  unfolding put update_one
  put-same id none m s ms h = h refl
  put-same id (some w) m s ms h = elim (Bool-cases (str_eq w.revision m.revision)) [
    | inl same ↦
        let e : w.revision ≡ m.revision = ground (arith, eq_iff w.revision m.revision) in
        rw (update_one, same, lookup-here id m ms) (ap some (sym e))
    | inr other ↦
        rw (update_one, other, lookup-here id (build_managed_workflow builds w) ms)
          (ap some (build-revision w))
  ]

  update-lookup :
      (id : String) (fetched : List (String × ClientWorkflow)) (ms : List (String × Managed))
      (s : Installed)
      → revision_of (lookup id (update_active builds fetched ms s).0)
        ≡ if_active (lookup id ms) (listed (lookup id fetched))
  unfolding update_active lookup if_active
  update-lookup id fetched [] s = refl
  update-lookup id fetched ((k, m) ∷ ms) s =
      let one = update_one builds (lookup k fetched) k m s in
      let rest = (update_active builds fetched ms one.1).0 in
      let others = update-lookup id fetched ms one.1 in
      elim (Bool-cases (str_eq k id)) [
        | inl same ↦
            let e : k ≡ id = ground (arith, eq_iff k id) in
            let first = update_one builds (lookup id fetched) id m s in
            rw same (
              subst
                (λ j.
                  revision_of (
                    lookup id (
                      put builds j (update_one builds (lookup j fetched) j m s).0
                        (update_active builds fetched ms
                          (update_one builds (lookup j fetched) j m s).1).0))
                  ≡ listed (lookup id fetched))
                (sym e)
                (put-same id (lookup id fetched) m s (update_active builds fetched ms first.1).0
                  (λ h.
                    update-lookup id fetched ms first.1
                    ∙ ap (λ o. if_active (lookup id ms) (listed o)) h
                    ∙ if_active-none (lookup id ms))))
        | inr other ↦ rw other (ap revision_of (put-other k id one.0 rest other) ∙ others)
      ]

  install_one-same :
      (id : String) (w : ClientWorkflow) (o : Option Managed) (x : Option String) (s : Installed)
      → lookup id s.active ≡ o
      → or_listed (lookup id (install_one builds id w o s).active) x ≡ or_listed o (some w.revision)
  unfolding install_one register_workflow_indices or_listed
  install_one-same id w none x s e =
      rw (lookup-here id (build_managed_workflow builds w) s.active) (ap some (build-revision w))
  install_one-same id w (some m) x s e = rw e refl

  install_one-other :
      (k id : String) (w : ClientWorkflow) (o : Option Managed) (s : Installed)
      → str_eq k id ≡ false
      → lookup id (install_one builds k w o s).active ≡ lookup id s.active
  unfolding install_one register_workflow_indices
  install_one-other k id w none s e = lookup-there k id (build_managed_workflow builds w) s.active e
  install_one-other k id w (some m) s e = refl

  or_listed-none : (o : Option Managed) → revision_of o ≡ or_listed o none
  unfolding or_listed
  or_listed-none none = refl
  or_listed-none (some m) = refl

  install-lookup :
      (id : String) (ws : List (String × ClientWorkflow)) (s : Installed)
      → revision_of (lookup id (install_new builds ws s).active)
        ≡ or_listed (lookup id s.active) (listed (lookup id ws))
  unfolding install_new lookup
  install-lookup id [] s = or_listed-none (lookup id s.active)
  install-lookup id ((k, w) ∷ ws) s =
      let next = install_one builds k w (lookup k s.active) s in
      install-lookup id ws next ∙ (elim (Bool-cases (str_eq k id)) [
        | inl same ↦
            let e : k ≡ id = ground (arith, eq_iff k id) in
            rw same (
              subst
                (λ j.
                  or_listed (lookup id (install_one builds j w (lookup j s.active) s).active)
                    (listed (lookup id ws))
                  ≡ or_listed (lookup id s.active) (some w.revision))
                (sym e) (install_one-same id w (lookup id s.active) (listed (lookup id ws)) s refl))
        | inr other ↦ rw other (
            ap (λ o. or_listed o (listed (lookup id ws)))
              (install_one-other k id w (lookup k s.active) s other))
      ])

  -- Behind a sync a workflow is active exactly if the server lists it, in the revision in which it is
  -- listed, the last one if it is listed twice, whatever was active before.
  pub sync_assignments-last_revision :
      (ws : List ClientWorkflow) (s : Installed) (id : String)
      → revision_of (lookup id (sync_assignments builds ws s).active) ≡ last_revision id ws none
  unfolding sync_assignments lookup
  sync_assignments-last_revision ws s id =
      let fetched = fetched_map ws [] in
      let updated = update_active builds fetched s.active s in
      install-lookup id fetched (record updated.1 { active = updated.0 })
      ∙ or_listed-same (lookup id updated.0) (lookup id s.active) (listed (lookup id fetched))
          (update-lookup id fetched s.active s)
      ∙ lookup-fetched id ws []
