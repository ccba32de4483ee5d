-- ===== src/Merge.antt =====
-- common/common.go: MergePayloads. The round trip through encoding/json is a parameter, which gives
-- the object of a value that marshals to one. What it gives holds JSON values only, on which
-- another round trip changes nothing.
pub mod Lookup
pub mod Deep
use nitejaguar.Base.{Bool, true, false, if◌then◌else◌, Option, none, some, Text}
use nitejaguar.Value.{Value, null, object, Fields, end, field, get_field, put_field}

unfoldable mutual
  -- func deepMergeMaps: the loop over the override, into a copy of the base
  pub deep_merge_maps : Fields → Fields → Fields
  deep_merge_maps out end = out
  deep_merge_maps out (field k v fs) =
      deep_merge_maps (put_field k (overlay (get_field k out) v) out) fs

  -- what one round writes: two objects are merged, else the override wins
  pub overlay : Option Value → Value → Value
  overlay (some (object base)) (object fs) = object (deep_merge_maps base fs)
  overlay _ v = v

-- v == nil
abbrev pub is_nil : Value → Bool
is_nil null = true
is_nil _ = false

-- func MergePayloads
unfoldable pub merge_payloads : (Value → Option Fields) → Value → Value → Value
unfolding deep_merge_maps
merge_payloads as_string_map input result =
    if is_nil input then result else if is_nil result then input else elim (as_string_map input) [
      | none ↦ result
      | some base ↦ elim (as_string_map result) [
        | none ↦ result
        | some override ↦ object (deep_merge_maps base override)
      ]
    ]
