-- ===== src/Merge/Lookup.antt =====
-- deepMergeMaps (common/common.go): what the merge of two objects holds under a key.
use nitejaguar.Base.{
  false, Option, none, some, Text, text_eq, text_eq_iff, text_eq_self, ◌≡◌, refl, ap, ◌∙◌,
  Bool-cases, inl, inr, if◌then◌else◌,
}
use nitejaguar.Merge.{deep_merge_maps, overlay}
use nitejaguar.Value.{Value, Fields, end, field, get_field, put_field}

pub get_field-put_self :
    (k : Text) (v : Value) (fs : Fields) → get_field k (put_field k v fs) ≡ some v
unfolding get_field put_field
get_field-put_self k v end = rw (text_eq_self k) refl
get_field-put_self k v (field j w fs) = elim (Bool-cases (text_eq j k)) [
  | inl e ↦ rw (e, e) refl
  | inr e ↦ rw (e, e) (get_field-put_self k v fs)
]

pub get_field-put_ne :
    (j k : Text) (v : Value) (fs : Fields)
    → text_eq j k ≡ false
    → get_field k (put_field j v fs) ≡ get_field k fs
unfolding get_field put_field
get_field-put_ne j k v end e = rw e refl
get_field-put_ne j k v (field i w fs) e = elim (Bool-cases (text_eq i j)) [
  | inl same ↦ let i_is_j = (text_eq_iff i j).0 same in rw (same, i_is_j, e) refl
  | inr other ↦ rw other (ap (λ o. if text_eq i k then some w else o) (get_field-put_ne j k v fs e))
]

-- No key stands twice in an object, as in a Go map.
abbrev pub HasUniqueKeys : Fields → Type 0
HasUniqueKeys end = Unit
HasUniqueKeys (field k v fs) = (get_field k fs ≡ none) × HasUniqueKeys fs

-- what a key of the merge is to hold: the override's value laid over the base's, else the base's
abbrev pub merged : Option Value → Option Value → Option Value
merged base (some v) = some (overlay base v)
merged base none = base

-- The merge of two objects, the override's without a key that stands twice, holds under each key the
-- override's value if it has one, laid over the base's, and otherwise the base's.
pub get_field-deep_merge_maps :
    (k : Text) (override base : Fields)
    → HasUniqueKeys override
    → get_field k (deep_merge_maps base override) ≡ merged (get_field k base) (get_field k override)
unfolding deep_merge_maps get_field
get_field-deep_merge_maps k end base u = refl
get_field-deep_merge_maps k (field j v fs) base (fresh, u) = elim (Bool-cases (text_eq j k)) [
  | inl same ↦
      let j_is_k = (text_eq_iff j k).0 same in
      let none_left : get_field k fs ≡ none = rw j_is_k at fresh in
      get_field-deep_merge_maps k fs _ u
      ∙ rw (same, none_left, j_is_k) (get_field-put_self k _ base)
  | inr other ↦
      get_field-deep_merge_maps k fs _ u ∙ rw (other, get_field-put_ne j k _ base other) refl
]
