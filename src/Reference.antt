-- ===== src/Reference.antt =====
-- The paths of references such as `$input.users[0].name`: common/refpath.go, and lookupPath with
-- its helpers in internal/workflow/condition.go. A path is split at its dots; a segment is a field
-- with indices. An error keeps its kind, not its message.
pub mod Segments
use nitejaguar.Base.{
  ℕ, zero, suc, ◌+◌, ◌*◌, ◌-◌, ◌^◌, ℤ, pos, negsuc, Bool, true, false, ◌&&◌, Option, none, some,
  List, [], ◌∷◌, ◌++◌, Text, codes, has_prefix, drop, length, leb, ◌==◌, if◌then◌else◌,
}
use nitejaguar.Result.{Result, ok, err, ◌>>=◌}
use nitejaguar.Value.{
  Value, null, list, object, structure, pointer, Values, nil, cons, get_field, get_member,
}

pub data PathError : Type 0 where
  bad_prefix empty_key empty_segment malformed_segment invalid_index : PathError
  key_not_found no_fields no_index out_of_range : PathError

-- strings.Split at one separator
unfoldable pub split : ℕ → Text → List Text
split sep [] = [] ∷ []
split sep (c ∷ cs) = elim (split sep cs) [
  | [] ↦ (c ∷ []) ∷ []
  | s ∷ ss ↦ if c == sep then [] ∷ s ∷ ss else (c ∷ s) ∷ ss
]

-- the digits of strconv.Atoi
unfoldable pub digits : ℕ → Text → Option ℕ
digits n [] = some n
digits n (c ∷ cs) =
    let rest = digits (n * 10 + (c - 48)) cs in if leb 48 c && leb c 57 then rest else none

negative : ℕ → ℤ
negative zero = pos 0
negative (suc n) = negsuc n

-- one digit at least, and no more than the bound
bounded : ℕ → Text → Option ℕ
unfolding digits
bounded bound [] = none
bounded bound (c ∷ cs) = elim (digits 0 (c ∷ cs)) [
  | none ↦ none
  | some n ↦ if leb n bound then some n else none
]

-- strconv.Atoi
unfoldable pub atoi : Text → Option ℤ
unfolding bounded negative
atoi [] = none
atoi (c ∷ cs) =
    if c == b'-'
    then elim (bounded (2 ^ 63) cs) [ some n ↦ some (negative n) | none ↦ none ]
    else elim (bounded (2 ^ 63 - 1) (if c == b'+' then cs else c ∷ cs)) [
      | some n ↦ some (pos n)
      | none ↦ none
    ]

-- the loop of parseSegment over the characters behind the field: between indices (`none`), or in
-- an index of which some characters are read
unfoldable pub parse_indices : Option Text → Text → Result PathError (List ℤ)
unfolding atoi
parse_indices none [] = ok []
parse_indices (some seen) [] = err malformed_segment
parse_indices none (c ∷ cs) =
    if c == b'[' then parse_indices (some []) cs else err malformed_segment
parse_indices (some seen) (c ∷ cs) =
    let more = parse_indices (some (seen ++ (c ∷ []))) cs in
    let others = parse_indices none cs in
    if c == b']'
    then elim (atoi seen) [
      | none ↦ err invalid_index
      | some n ↦ elim others [ ok ns ↦ ok (n ∷ ns) | err e ↦ err e ]
    ]
    else more

-- seg[:open] and seg[open:]
unfoldable pub before_bracket : Text → Text
before_bracket [] = []
before_bracket (c ∷ cs) = if c == b'[' then [] else c ∷ before_bracket cs

unfoldable pub from_bracket : Text → Text
from_bracket [] = []
from_bracket (c ∷ cs) = if c == b'[' then c ∷ cs else from_bracket cs

-- func parseSegment
unfoldable pub parse_segment : Text → Result PathError (Text × List ℤ)
parse_segment seg = elim (parse_indices none (from_bracket seg)) [
  | ok ns ↦ ok (before_bracket seg, ns)
  | err e ↦ err e
]

-- func derefValue
unfoldable pub deref_value : Value → Value
deref_value (pointer v) = deref_value v
deref_value v = v

found : Option Value → Result PathError Value
found (some v) = ok v
found none = err key_not_found

field_in : Text → Value → Result PathError Value
unfolding found
field_in k (object fs) = found (get_field k fs)
field_in k (structure ms) = found (get_member k ms)
field_in k _ = err no_fields

is_nil : Value → Bool
is_nil null = true
is_nil _ = false

-- func lookupField
unfoldable pub lookup_field : Value → Text → Result PathError Value
unfolding is_nil deref_value field_in
lookup_field v k = if is_nil v then err key_not_found else field_in k (deref_value v)

nth_value : ℕ → Values → Result PathError Value
nth_value i nil = err out_of_range
nth_value zero (cons v vs) = ok v
nth_value (suc i) (cons v vs) = nth_value i vs

index_in : ℤ → Value → Result PathError Value
unfolding nth_value
index_in (pos i) (list vs) = nth_value i vs
index_in (negsuc i) (list vs) = err out_of_range
index_in i _ = err no_index

-- func lookupIndex
unfoldable pub lookup_index : Value → ℤ → Result PathError Value
unfolding is_nil deref_value index_in
lookup_index v i = if is_nil v then err out_of_range else index_in i (deref_value v)

unfoldable pub lookup_indices : Value → List ℤ → Result PathError Value
unfolding lookup_index
lookup_indices v [] = ok v
lookup_indices v (i ∷ is) = lookup_index v i >>= λ w. lookup_indices w is

no_indices : List ℤ → Bool
no_indices [] = true
no_indices (i ∷ is) = false

-- one round of lookupPath's loop, behind parseSegment
unfoldable pub lookup_segment : Value → Text × List ℤ → Result PathError Value
unfolding lookup_indices lookup_field no_indices
lookup_segment v ([], is) = if no_indices is then err empty_segment else lookup_indices v is
lookup_segment v (c ∷ cs, is) = lookup_field v (c ∷ cs) >>= λ w. lookup_indices w is

-- the loop of lookupPath
unfoldable pub lookup_segments : Value → List Text → Result PathError Value
unfolding parse_segment lookup_segment
lookup_segments v [] = ok v
lookup_segments v ([] ∷ segs) = err empty_segment
lookup_segments v ((c ∷ cs) ∷ segs) =
    parse_segment (c ∷ cs) >>= λ seg. lookup_segment v seg >>= λ w. lookup_segments w segs

-- func lookupPath
unfoldable pub lookup_path : Value → Text → Result PathError Value
unfolding split lookup_segments
lookup_path root rest = lookup_segments root (split b'.' rest)

-- func ResolveRefPath: a path with the prefix `$input.` and something behind it
unfoldable pub resolve_ref_path : Value → Text → Result PathError Value
unfolding lookup_path
resolve_ref_path root full =
    if has_prefix full (codes "$input.")
    then (if length full == 7 then err empty_key else lookup_path root (drop 7 full))
    else err bad_prefix
