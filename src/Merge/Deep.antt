-- ===== src/Merge/Deep.antt =====
-- MergePayloads (common/common.go): what the merge of two payloads that are objects is, at every depth.
use nitejaguar.Base.{
  true, false, Option, none, some, Option-cases, Text, text_eq, ◌≡◌, ◌≢◌, ◌⊎◌, refl, subst,
  Bool-cases, inl, inr,
}
use nitejaguar.Merge.{is_nil, deep_merge_maps, overlay, merge_payloads}
use nitejaguar.Merge.Lookup.{HasUniqueKeys, get_field-deep_merge_maps}
use nitejaguar.Value.{
  Value, null, boolean, int, float, text, list, object, structure, nil_pointer, pointer, Fields,
  end, field, get_field,
}

-- No object within a value or within the values of an object has a key twice.
unfoldable mutual
  pub HasKeys : Value → Type 0
  HasKeys (object fs) = HasUniqueKeys fs × HaveKeys fs
  HasKeys _ = Unit

  pub HaveKeys : Fields → Type 0
  HaveKeys end = Unit
  HaveKeys (field k v fs) = HasKeys v × HaveKeys fs

abbrev pub IsObject : Value → Type 0
IsObject v = (fs : Fields) × (v ≡ object fs)

-- What the merge holds in one place, given what the input and the result hold there: what one of them
-- holds alone; what the result holds, where they are not both objects; and else an object that holds
-- the merge under every key.
pub data Merges : Option Value → Option Value → Option Value → Type 0 where
  of_input : (o : Option Value) → Merges o none o
  of_result : (v : Value) → Merges none (some v) (some v)
  result_wins : (b v : Value) → ¬ (IsObject b × IsObject v) → Merges (some b) (some v) (some v)
  both_merge :
      (bs fs ms : Fields)
      → ((k : Text) → Merges (get_field k bs) (get_field k fs) (get_field k ms))
      → Merges (some (object bs)) (some (object fs)) (some (object ms))

-- What is no object is replaced, and replaces.
replaces : (v b : Value) → ¬ IsObject b → Merges (some b) (some v) (some v)
replaces v b plain = result_wins b v (λ p. plain p.0)

wins : (v : Value) (b : Option Value) → ¬ IsObject v → Merges b (some v) (some v)
wins v none plain = of_result v
wins v (some b) plain = result_wins b v (λ p. plain p.1)

empty_field : (k : Text) (w : Value) → get_field k end ≡ some w → ⊥
unfolding get_field
empty_field k w e = cc e

field-here :
    (j k : Text) (v w : Value) (fs : Fields)
    → text_eq j k ≡ true
    → get_field k (field j v fs) ≡ some w
    → v ≡ w
unfolding get_field
field-here j k v w fs here e = cc (rw here at e)

field-there :
    (j k : Text) (v w : Value) (fs : Fields)
    → text_eq j k ≡ false
    → get_field k (field j v fs) ≡ some w
    → get_field k fs ≡ some w
unfolding get_field
field-there j k v w fs other e = rw other at e

mutual
  unfolding deep_merge_maps overlay HasKeys HaveKeys

  overlay-Merges :
      (v : Value) (b : Option Value) → HasKeys v → Merges b (some v) (some (overlay b v))
  overlay-Merges v none h = of_result v
  overlay-Merges (object fs) (some (object bs)) h = both_merge bs fs (deep_merge_maps bs fs) (λ k.
      rw (get_field-deep_merge_maps k fs bs h.0) (elim (Option-cases (get_field k fs)) [
        | inl e ↦ rw e (of_input (get_field k bs))
        | inr (w, e) ↦ rw e (fields-Merges fs k w (get_field k bs) h.1 e)
      ]))
  overlay-Merges null (some (object bs)) h = wins null (some (object bs)) (λ p. cc (p.1))
  overlay-Merges (boolean c) (some (object bs)) h =
      wins (boolean c) (some (object bs)) (λ p. cc (p.1))
  overlay-Merges (int z) (some (object bs)) h = wins (int z) (some (object bs)) (λ p. cc (p.1))
  overlay-Merges (float n) (some (object bs)) h = wins (float n) (some (object bs)) (λ p. cc (p.1))
  overlay-Merges (text t) (some (object bs)) h = wins (text t) (some (object bs)) (λ p. cc (p.1))
  overlay-Merges (list vs) (some (object bs)) h = wins (list vs) (some (object bs)) (λ p. cc (p.1))
  overlay-Merges (structure ms) (some (object bs)) h =
      wins (structure ms) (some (object bs)) (λ p. cc (p.1))
  overlay-Merges nil_pointer (some (object bs)) h =
      wins nil_pointer (some (object bs)) (λ p. cc (p.1))
  overlay-Merges (pointer q) (some (object bs)) h =
      wins (pointer q) (some (object bs)) (λ p. cc (p.1))
  overlay-Merges v (some null) h = replaces v null (λ p. cc (p.1))
  overlay-Merges v (some (boolean c)) h = replaces v (boolean c) (λ p. cc (p.1))
  overlay-Merges v (some (int z)) h = replaces v (int z) (λ p. cc (p.1))
  overlay-Merges v (some (float n)) h = replaces v (float n) (λ p. cc (p.1))
  overlay-Merges v (some (text t)) h = replaces v (text t) (λ p. cc (p.1))
  overlay-Merges v (some (list vs)) h = replaces v (list vs) (λ p. cc (p.1))
  overlay-Merges v (some (structure ms)) h = replaces v (structure ms) (λ p. cc (p.1))
  overlay-Merges v (some nil_pointer) h = replaces v nil_pointer (λ p. cc (p.1))
  overlay-Merges v (some (pointer q)) h = replaces v (pointer q) (λ p. cc (p.1))

  fields-Merges :
      (fs : Fields) (k : Text) (w : Value) (b : Option Value)
      → HaveKeys fs
      → get_field k fs ≡ some w
      → Merges b (some w) (some (overlay b w))
  fields-Merges end k w b h e = absurd (empty_field k w e)
  fields-Merges (field j v fs) k w b h e = elim (Bool-cases (text_eq j k)) [
    | inl here ↦
        let same : v ≡ w = field-here j k v w fs here e in
        subst (λ x. Merges b (some x) (some (overlay b x))) same (overlay-Merges v b h.0)
    | inr other ↦ fields-Merges fs k w b h.1 (field-there j k v w fs other e)
  ]

not_nil : (v : Value) → v ≢ null → is_nil v ≡ false
not_nil null h = absurd (h refl)
not_nil _ h = refl

-- What a merge of two payloads is: without one of them the other, without an object the result, and
-- of two objects their merge at every depth.
pub record IsMerged (as_string_map : Value → Option Fields) (input result out : Value)
    : Type 0 where
  pub no_input : input ≡ null → out ≡ result
  pub no_result : result ≡ null → input ≢ null → out ≡ input
  pub no_object :
      input ≢ null
      → result ≢ null
      → (as_string_map input ≡ none) ⊎ (as_string_map result ≡ none)
      → out ≡ result
  pub objects :
      (base override : Fields)
      → input ≢ null
      → result ≢ null
      → as_string_map input ≡ some base
      → as_string_map result ≡ some override
      → Merges (some (object base)) (some (object override)) (some out)

module _ (as_string_map : Value → Option Fields) (input result : Value) where
  abbrev out : Value
  out = merge_payloads as_string_map input result

  merge-no_object :
      is_nil input ≡ false
      → is_nil result ≡ false
      → (as_string_map input ≡ none) ⊎ (as_string_map result ≡ none)
      → out ≡ result
  unfolding merge_payloads
  merge-no_object i r (inl e) = rw (merge_payloads, i, r, e) refl
  merge-no_object i r (inr f) = elim (Option-cases (as_string_map input)) [
    | inl e ↦ rw (merge_payloads, i, r, e) refl
    | inr (base, e) ↦ rw (merge_payloads, i, r, e, f) refl
  ]

  merge-objects :
      (base override : Fields)
      → is_nil input ≡ false
      → is_nil result ≡ false
      → as_string_map input ≡ some base
      → as_string_map result ≡ some override
      → out ≡ object (deep_merge_maps base override)
  unfolding merge_payloads
  merge-objects base override i r e f = rw (merge_payloads, i, r, e, f) refl

  -- The merge of two payloads is the result if there is no input, and the input if there is no result.
  -- If one of them does not marshal to an object, it is the result. Of two objects it is an object,
  -- which under every key, at every depth, holds what one of them holds alone, the result's value
  -- where they are not both objects, and the merge of the two where they are: see `IsMerged` and
  -- `Merges`. No key is to stand twice in the result's object, as in a Go map.
  pub merge_payloads-IsMerged :
      ((fs : Fields) → as_string_map result ≡ some fs → HasKeys (object fs))
      → IsMerged as_string_map input result (merge_payloads as_string_map input result)
  unfolding merge_payloads overlay
  merge_payloads-IsMerged keys = record {
    no_input = λ i. rw (merge_payloads, i) refl;
    no_result = λ r i. rw (merge_payloads, not_nil input i, r) refl;
    no_object = λ i r h. merge-no_object (not_nil input i) (not_nil result r) h;
    objects = λ base override i r e f.
        rw (merge-objects base override (not_nil input i) (not_nil result r) e f)
          (overlay-Merges (object override) (some (object base)) (keys override f));
  }
