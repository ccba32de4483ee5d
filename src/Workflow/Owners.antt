-- ===== src/Workflow/Owners.antt =====
-- dispatchNexts (internal/workflow/workflow.go): the split of the next nodes between the server,
-- the reporting client and other clients.
use nitejaguar.Base.{
  Bool, not, ◌||◌, List, [], ◌∷◌, ◌++◌, String, str_eq, append-nil, append_assoc, if◌then◌else◌,
  ◌≡◌, refl, ◌∙◌, Bool-cases, inl, inr,
}
use nitejaguar.Workflow.{Workflow, Dispatch, is_owned, dispatch_loop, dispatch_nexts}

-- the elements with a Boolean property, in order
abbrev pub keep : (String → Bool) → List String → List String
keep p [] = []
keep p (x ∷ xs) = if p x then x ∷ keep p xs else keep p xs

dispatch_loop-keep :
    (w : Workflow) (executor : String) (tags ids : List String) (d : Dispatch)
    → dispatch_loop w executor tags ids d ≡ record d {
      client_owned = d.client_owned ++ keep (is_owned w executor tags) ids;
      routed = d.routed ++ keep (λ id. not (is_owned w executor tags id)) ids;
    }
unfolding dispatch_loop
dispatch_loop-keep w executor tags [] d = rw (append-nil d.client_owned, append-nil d.routed)
dispatch_loop-keep w executor tags (id ∷ ids) d = elim (Bool-cases (is_owned w executor tags id)) [
  | inl own ↦ rw own (dispatch_loop-keep w executor tags ids _ ∙ rw append_assoc refl)
  | inr other ↦ rw other (dispatch_loop-keep w executor tags ids _ ∙ rw append_assoc refl)
]

-- The next nodes of a result that the server itself reports, or that names no executor, are all the
-- server's. Those of another executor's result are the executor's own, which are the nodes assigned
-- to it, and those left for others to poll, which are the rest; none is the server's.
pub dispatch_nexts-keep :
    (client_tags : String → List String) (server : String) (w : Workflow) (nexts : List String)
    (executor : String)
    → let own = is_owned w executor (client_tags executor) in
      dispatch_nexts client_tags server w nexts executor ≡ (
        if str_eq executor "" || str_eq executor server
        then record { client_owned = []; server_owned = nexts; routed = [] }
        else record {
          client_owned = keep own nexts;
          server_owned = [];
          routed = keep (λ id. not (own id)) nexts;
        })
unfolding dispatch_nexts
dispatch_nexts-keep client_tags server w nexts executor = rw dispatch_loop-keep refl
