-- ===== src/Runner/Seen.antt =====
-- internal/client/client.go: the keys of the assignments that a runner has seen.
use nitejaguar.Base.{
  ℕ, Bool, true, false, not, ◌&&◌, ◌||◌, Option, none, some, Option-cases, List, [], ◌∷◌, String,
  str_eq, eq_iff, str_eq_self, contains, if-holds, ◌≡◌, refl, ◌∙◌, subst, arith, Bool-cases, inl,
  inr,
}
use nitejaguar.Ingest.{Binding, is_blank, index_of}
use nitejaguar.Result.{Result, ok, err}
use nitejaguar.ResultData.{ResultData}
use nitejaguar.Runner.{
  Runner, Pending, Times, Fetched, key_of, remove, admit, parent_of, config_of, cached,
  keep_fetched, fetch_credential_full, credential_inputs, launch, execute_node, gate, begin,
  drain_one, execute_nexts, follow, run_result, merged_payload, remember, is_remote_transfer,
}
use nitejaguar.Value.{Value, Fields}

-- A seen list holds what another one holds.
abbrev pub Keeps : List String → List String → Type 0
Keeps xs ys = (k : String) → contains xs k ≡ true → contains ys k ≡ true

remove-keeps :
    (key k : String) (ks : List String)
    → str_eq key k ≡ false
    → contains ks k ≡ true
    → contains (remove key ks) k ≡ true
unfolding remove
remove-keeps key k [] ne h = absurd (cc h)
remove-keeps key k (x ∷ ks) ne h = elim (Bool-cases (str_eq x key)) [
  | inl same ↦
      rw (remove, same)
        (ground (arith, remove-keeps key k ks ne, eq_iff x key, eq_iff x k, eq_iff key k))
  | inr other ↦ rw (remove, other) (ground (arith, remove-keeps key k ks ne))
]

differs :
    (key k : String) (ks : List String)
    → contains ks key ≡ false
    → contains ks k ≡ true
    → str_eq key k ≡ false
differs key k ks fresh h = elim (Bool-cases (str_eq key k)) [
  | inl same ↦
      let e : key ≡ k = ground (arith, eq_iff key k) in
      absurd (cc (subst (λ x. contains ks x ≡ false) e fresh, h))
  | inr other ↦ other
]

module _ (fetch : ℕ → String → String → String → Result String Fetched) where
  keep_fetched-seen :
      (now : ℕ) (ref : String) (answer : Result String Fetched) (r : Runner)
      → (keep_fetched fetch now ref answer r).1.pending_seen ≡ r.pending_seen
  unfolding keep_fetched
  keep_fetched-seen now ref (ok f) r = refl
  keep_fetched-seen now ref (err e) r = refl

  fetch_credential_full-seen :
      (now : ℕ) (node : String) (r : Runner)
      → (fetch_credential_full fetch now node r).1.pending_seen ≡ r.pending_seen
  unfolding fetch_credential_full
  fetch_credential_full-seen now node r =
      if-holds (λ (x : Result String (String × String) × Runner). x.1.pending_seen ≡ r.pending_seen)
        (str_eq (config_of node r).credential_ref "") _ _ (λ e. refl)
        (λ e. elim (Option-cases (cached (config_of node r).credential_ref now r)) [
          | inl missing ↦ rw missing (
              keep_fetched-seen now (config_of node r).credential_ref
                (fetch now (config_of node r).credential_ref (index_of node r.node_workflow) node)
                r)
          | inr (c, found) ↦ rw found refl
        ])

  credential_inputs-seen :
      (now : ℕ) (node : String) (r : Runner)
      → (credential_inputs fetch now node r).1.pending_seen ≡ r.pending_seen
  unfolding credential_inputs
  credential_inputs-seen now node r =
      if-holds (λ (x : Option Binding × Runner). x.1.pending_seen ≡ r.pending_seen)
        (is_blank (config_of node r).credential_ref) _ _ (λ e. refl)
        (λ e. fetch_credential_full-seen now node r)

  execute_node-seen :
      (now : ℕ) (node execution : String) (input : ResultData) (r : Runner)
      → (execute_node fetch now node execution input r).pending_seen ≡ r.pending_seen
  unfolding execute_node launch
  execute_node-seen now node execution input r =
      if-holds (λ (x : Runner). x.pending_seen ≡ r.pending_seen) (not (contains r.node_action node))
        _ _ (λ e. refl)
        (λ e.
          if-holds (λ (x : Runner). x.pending_seen ≡ r.pending_seen)
            (str_eq (config_of node r).action_name "transfer"
              && is_remote_transfer (config_of node r).transfer_dest r.self_id)
            _ _ (λ d. refl) (λ d. credential_inputs-seen now node r))

  gate-seen :
      (now : ℕ) (node : String) (r : Runner)
      → (gate fetch now node r).1.pending_seen ≡ r.pending_seen
  unfolding gate
  gate-seen now node r =
      if-holds (λ (x : Result String (String × String) × Runner). x.1.pending_seen ≡ r.pending_seen)
        (str_eq (config_of node r).credential_ref "") _ _ (λ e. refl)
        (λ e. fetch_credential_full-seen now node r)

  execute_nexts-seen :
      (now : ℕ) (result : ResultData) (ids : List String) (r : Runner)
      → (execute_nexts fetch now result ids r).pending_seen ≡ r.pending_seen
  unfolding execute_nexts
  execute_nexts-seen now result [] r = refl
  execute_nexts-seen now result (id ∷ ids) r =
      execute_nexts-seen now result ids (execute_node fetch now id result.execution_id result r)
      ∙ execute_node-seen now id result.execution_id result r

  follow-seen :
      (now : ℕ) (result : ResultData) (answer : Option (List String)) (r : Runner)
      → (follow fetch now result answer r).pending_seen ≡ r.pending_seen
  unfolding follow
  follow-seen now result none r = refl
  follow-seen now result (some nexts) r = execute_nexts-seen now result nexts r

  pub run_result-seen :
      (as_string_map : Value → Option Fields) (post : ResultData → Option (List String)) (now : ℕ)
      (result : ResultData) (r : Runner)
      → (run_result fetch as_string_map post now result r).pending_seen ≡ r.pending_seen
  unfolding run_result remember
  run_result-seen as_string_map post now result r =
      follow-seen now (record result { payload = merged_payload as_string_map result r })
        (post (record result { payload = merged_payload as_string_map result r }))
        (remember (record result { payload = merged_payload as_string_map result r }) r)

  -- What a round does to the seen keys: it forgets none, and one that starts its assignment adds the
  -- assignment's key, which was not there.
  pub record Round (p : Pending) (before after : List String) (started : Bool) : Type 0 where
    pub keeps : Keeps before after
    pub new : started ≡ true → contains before (key_of p) ≡ false
    pub noted : started ≡ true → contains after (key_of p) ≡ true

  -- what passes a test is put in front
  added-Round :
      (p : Pending) (ks : List String) (b : Bool)
      → contains ks (key_of p) ≡ false
      → Round p ks (key_of p ∷ ks) b
  added-Round p ks b fresh = record {
    keeps = λ k h. ground arith;
    new = λ h. fresh;
    noted = λ h. rw (str_eq_self (key_of p)) refl;
  }

  admit-seen : (p : Pending) (r : Runner) → (admit p r).pending_seen ≡ key_of p ∷ r.pending_seen
  unfolding admit
  admit-seen p r = refl

  begin-Round :
      (t : Times) (p : Pending) (ks : List String) (g : Result String (String × String) × Runner)
      → contains ks (key_of p) ≡ false
      → g.1.pending_seen ≡ key_of p ∷ ks
      → Round p ks (begin fetch t p g).1.pending_seen (begin fetch t p g).0
  unfolding begin
  begin-Round t p ks (err e, r) fresh h = record {
    keeps = λ k held.
        let other = differs (key_of p) k ks fresh held in
        rw h (remove-keeps (key_of p) k (key_of p ∷ ks) other (rw other held));
    new = λ e. absurd (cc e);
    noted = λ e. absurd (cc e);
  }
  begin-Round t p ks (ok _, r) fresh h =
      if-holds (λ (x : Bool × Runner). Round p ks x.1.pending_seen x.0)
        (contains r.node_action p.node_id) _ _
        (λ e.
          rw (execute_node-seen t.use_at p.node_id p.execution_id (parent_of p) r, h)
            (added-Round p ks true fresh))
        (λ e. rw h (added-Round p ks false fresh))

  kept-Round : (p : Pending) (ks : List String) → Round p ks ks false
  kept-Round p ks = record {
    keeps = λ k h. h;
    new = λ e. absurd (cc e);
    noted = λ e. absurd (cc e);
  }

  pub drain_one-Round :
      (t : Times) (p : Pending) (r : Runner)
      → Round p r.pending_seen (drain_one fetch t p r).1.pending_seen (drain_one fetch t p r).0
  unfolding drain_one
  drain_one-Round t p r =
      let P : Bool × Runner → Type 0 = λ x. Round p r.pending_seen x.1.pending_seen x.0 in
      if-holds P (str_eq p.node_id "" || str_eq p.execution_id "") _ _
        (λ e. kept-Round p r.pending_seen)
        (λ e.
          if-holds P (contains r.pending_seen (key_of p)) _ _ (λ seen. kept-Round p r.pending_seen)
            (λ fresh.
              begin-Round t p r.pending_seen (gate fetch t.gate p.node_id (admit p r)) fresh
                (gate-seen t.gate p.node_id (admit p r) ∙ admit-seen p r)))
