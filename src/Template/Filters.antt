-- ===== src/Template/Filters.antt =====
-- common/template.go: the filters of a template and its evaluation, and StringifyArgValue of
-- common/common.go. The formats of Go's library are parameters, gathered in `Formats`.
use nitejaguar.Base.{
  ℕ, zero, suc, ◌-◌, Bool, true, not, ◌||◌, ◌&&◌, Option, none, some, List, [], ◌∷◌, ◌++◌, reverse,
  Text, trim_of, text_eq, codes, has_prefix, trim_space, length, drop, leb, ◌==◌, if◌then◌else◌,
}
use nitejaguar.Reference.{PathError, resolve_ref_path}
use nitejaguar.Result.{Result, ok, err, ◌>>=◌}
use nitejaguar.Template.Quotes.{split_unquoted, is_quoted, unquote_arg}
use nitejaguar.Value.{Value, null, float, text, pointer, nil_pointer}

-- strconv.Unquote, strings.ToUpper and ToLower, whether a float64 is an integer below 1e21,
-- strconv.FormatFloat with 'f' and with 'g', fmt.Sprint, and json.Marshal of what is no string
pub record Formats : Type 0 where
  pub unquote : Text → Option Text
  pub to_upper : Text → Text
  pub to_lower : Text → Text
  pub is_integral : ℕ → Bool
  pub format_fixed : ℕ → Text
  pub format_general : ℕ → Text
  pub sprint : Value → Text
  pub marshal : Value → Option Text

pub data TemplateError : Type 0 where
  unresolved : PathError → TemplateError
  no_input empty_template unclosed unsupported_reference unsupported_expression : TemplateError
  empty_filter_name bad_filter_name bad_arguments unknown_filter not_marshalled : TemplateError

-- type RefLookup
abbrev pub RefLookup : Type 0
RefLookup = Text → Result TemplateError Value

of_path : Result PathError Value → Result TemplateError Value
of_path (ok v) = ok v
of_path (err e) = err (unresolved e)

-- func PayloadLookup
unfoldable pub payload_lookup : Value → RefLookup
unfolding of_path
payload_lookup payload ref = of_path (resolve_ref_path payload ref)

-- func InputLookup, on the payload of a result
unfoldable pub input_lookup : Option Value → RefLookup
unfolding payload_lookup
input_lookup none ref = err no_input
input_lookup (some payload) ref = payload_lookup payload ref

-- a string, or what stands for a nil, behind pointers
unfoldable pub string_behind : Value → Option Text
string_behind null = some []
string_behind nil_pointer = some []
string_behind (pointer v) = string_behind v
string_behind (text s) = some s
string_behind _ = none

-- strings.TrimPrefix, strings.TrimSuffix
unfoldable pub trim_prefix : Text → Text → Text
trim_prefix p s = if has_prefix s p then drop (length p) s else s

unfoldable pub trim_suffix : Text → Text → Text
unfolding trim_prefix
trim_suffix p s = reverse (trim_prefix (reverse p) (reverse s))

replace_from : ℕ → Text → Text → Text → Text
replace_from n old new [] = []
replace_from (suc n) old new (c ∷ cs) = replace_from n old new cs
replace_from zero old new (c ∷ cs) =
    let behind = replace_from (length old - 1) old new cs in
    let kept = replace_from 0 old new cs in
    if has_prefix (c ∷ cs) old then new ++ behind else c ∷ kept

insert_between : Text → Text → Text
insert_between new [] = new
insert_between new (c ∷ cs) = new ++ (c ∷ insert_between new cs)

-- strings.ReplaceAll
unfoldable pub replace_all : Text → Text → Text → Text
unfolding replace_from insert_between
replace_all [] new s = insert_between new s
replace_all (o ∷ os) new s = replace_from 0 (o ∷ os) new s

is_name_code : ℕ → Bool
is_name_code c = c == b'_' || (leb b'a' c && leb c b'z') || (leb b'0' c && leb c b'9')

is_filter_name : Text → Bool
unfolding is_name_code
is_filter_name [] = true
is_filter_name (c ∷ cs) = is_name_code c && is_filter_name cs

-- the tests of a filter's arguments: how many it takes
no_args : List Text → Text → Result TemplateError Value
no_args [] t = ok (text t)
no_args (a ∷ more) t = err bad_arguments

one_arg : List Text → (Text → Text) → Result TemplateError Value
one_arg (a ∷ []) f = ok (text (f a))
one_arg _ f = err bad_arguments

two_args : List Text → (Text → Text → Text) → Result TemplateError Value
two_args (a ∷ b ∷ []) f = ok (text (f a b))
two_args _ f = err bad_arguments

trim_args : List Text → Text → Result TemplateError Value
unfolding trim_of
trim_args [] s = ok (text (trim_space s))
trim_args (a ∷ []) s = ok (text (trim_of a s))
trim_args _ s = err bad_arguments

default_args : List Text → Value → Result TemplateError Value
default_args (a ∷ []) v = ok v
default_args _ v = err bad_arguments

is_named : Text → Text → Text → Bool
is_named name a b = text_eq name a || text_eq name b

module _ (go : Formats) where
  -- func StringifyArgValue
  unfoldable pub stringify_arg_value : Value → Text
  unfolding string_behind
  stringify_arg_value v = elim (string_behind v) [ some t ↦ t | none ↦ go.sprint v ]

  -- func TemplateString
  unfoldable pub template_string : Value → Text
  unfolding stringify_arg_value
  template_string (float f) = if go.is_integral f then go.format_fixed f else go.format_general f
  template_string v = stringify_arg_value v

  unquote_args : List Text → List Text
  unquote_args [] = []
  unquote_args (p ∷ ps) = unquote_arg go.unquote (trim_space p) ∷ unquote_args ps

  filter_of : List Text → Result TemplateError (Text × List Text)
  unfolding unquote_args is_filter_name
  filter_of [] = err empty_filter_name
  filter_of (p ∷ ps) =
      let name = go.to_lower (trim_space p) in
      if text_eq name []
      then err empty_filter_name
      else if not (is_filter_name name)
      then err bad_filter_name
      else ok (name, unquote_args ps)

  -- func parseTemplateFilter
  unfoldable pub parse_template_filter : Text → Result TemplateError (Text × List Text)
  unfolding filter_of
  parse_template_filter stage = filter_of (split_unquoted stage b':')

  -- func applyTemplateFilter
  unfoldable pub apply_template_filter : Text → List Text → Value → Result TemplateError Value
  unfolding no_args one_arg two_args trim_args default_args is_named
  apply_template_filter name args value =
      let s = template_string value in
      if text_eq name (codes "default")
      then default_args args value
      else if is_named name (codes "upper") (codes "uppercase")
      then no_args args (go.to_upper s)
      else if is_named name (codes "lower") (codes "lowercase")
      then no_args args (go.to_lower s)
      else if text_eq name (codes "trim")
      then trim_args args s
      else if text_eq name (codes "trimprefix")
      then one_arg args (λ a. trim_prefix a s)
      else if text_eq name (codes "trimsuffix")
      then one_arg args (λ a. trim_suffix a s)
      else if text_eq name (codes "replace")
      then two_args args (λ a b. replace_all a b s)
      else err unknown_filter

  -- a fallback, if the filter is a `default` with one value
  default_of : Result TemplateError (Text × List Text) → Option Text
  default_of (ok (name, a ∷ [])) = if text_eq name (codes "default") then some a else none
  default_of _ = none

  -- func findDefaultFilter
  unfoldable pub find_default_filter : List Text → Option (Text × List Text)
  unfolding default_of parse_template_filter
  find_default_filter [] = none
  find_default_filter (st ∷ rest) = elim (default_of (parse_template_filter st)) [
    | some a ↦ some (a, rest)
    | none ↦ find_default_filter rest
  ]

  -- the loop of EvalTemplate over the filters
  unfoldable pub apply_filters : List Text → Value → Result TemplateError Value
  unfolding parse_template_filter apply_template_filter
  apply_filters [] v = ok v
  apply_filters (st ∷ rest) v = parse_template_filter st >>= λ f.
      apply_template_filter f.0 f.1 v >>= λ w. apply_filters rest w

  -- err != nil || val == nil: the fallback, the error, or nil
  or_default : Result TemplateError Value → List Text → Result TemplateError Value
  unfolding find_default_filter apply_filters
  or_default failed rest = elim (find_default_filter rest) [
    | some (a, after) ↦ apply_filters after (text a)
    | none ↦ failed
  ]

  with_value : Result TemplateError Value → List Text → Result TemplateError Value
  unfolding apply_filters or_default
  with_value (err e) rest = or_default (err e) rest
  with_value (ok null) rest = or_default (ok null) rest
  with_value (ok v) rest = apply_filters rest v

  eval_stages : RefLookup → List Text → Result TemplateError Value
  unfolding with_value apply_filters
  eval_stages lookup [] = err empty_template
  eval_stages lookup (st ∷ rest) =
      let first = trim_space st in
      if has_prefix first (codes "$")
      then if not (has_prefix first (codes "$input."))
        then err unsupported_reference
        else with_value (lookup first) rest
      else if is_quoted first
      then apply_filters rest (text (unquote_arg go.unquote first))
      else err unsupported_expression

  -- func EvalTemplate
  unfoldable pub eval_template : RefLookup → Text → Result TemplateError Value
  unfolding eval_stages
  eval_template lookup inner =
      let expr = trim_space inner in
      if text_eq expr [] then err empty_template else eval_stages lookup (split_unquoted expr b'|')
