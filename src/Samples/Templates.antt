-- ===== src/Samples/Templates.antt =====
-- The properties of templates at a JSON template with one reference in a string literal.
use nitejaguar.Reference.{resolve_ref_path, parse_indices, from_bracket, before_bracket}
use nitejaguar.Base.{
  none, some, List, [], ◌∷◌, All, Text, codes, false, ◌≡◌, arith, refl, subst, trim_space,
}
use nitejaguar.Result.{ok}
use nitejaguar.Template.Enclosed.{IsQuiet, AreClosed, expand_json_templates-keeps}
use nitejaguar.Template.Filters.{Formats, payload_lookup}
use nitejaguar.Template.Json.{outside, scan, expand_json_templates}
use nitejaguar.Template.{pieces}
use nitejaguar.Template.Quotes.{split_unquoted}
use nitejaguar.Template.Grammar.{
  Token, bare, single, double, as_is, behind_backslash, split_unquoted-parts,
}
use nitejaguar.Value.{Value, text, object, end, field, get_field}

abbrev formats : Formats
formats = record {
  unquote = λ t. none;
  to_upper = λ t. t;
  to_lower = λ t. t;
  is_integral = λ f. false;
  format_fixed = λ f. [];
  format_general = λ f. [];
  sprint = λ v. [];
  marshal = λ v. some (codes "null");
}

formats-balanced :
    (v : Value) (raw : Text) → formats.marshal v ≡ some raw → scan outside raw ≡ outside
unfolding scan
formats-balanced v raw h =
    let e : codes "null" ≡ raw = cc h in subst (λ r. scan outside r ≡ outside) e refl

-- {"a": "{{$input.a}}"} with a quote in the value
abbrev json : Text
json = codes "{\"k\": \"{{$input.a}}\"}"

abbrev payload : Value
payload = object (field (codes "a") (text (codes "5\"")) end)

reference-IsQuiet : All IsQuiet (codes "$input.a")
reference-IsQuiet = (
  (refl, refl),
  (
    (refl, refl),
    (
      (refl, refl),
      ((refl, refl), ((refl, refl), ((refl, refl), ((refl, refl), ((refl, refl), tt))))),
    ),
  ),
)

json-AreClosed : AreClosed formats (payload_lookup payload) formats-balanced outside (pieces json).0
unfolding pieces scan
json-AreClosed = ((λ e. cc e), (reference-IsQuiet, tt))

json_expanded :
    expand_json_templates formats (payload_lookup payload) json ≡ ok (codes "{\"k\": \"5\\\"\"}")
unfolding expand_json_templates trim_space split_unquoted payload_lookup resolve_ref_path
    parse_indices from_bracket before_bracket get_field
json_expanded = refl

expand_json_templates-keeps_example : scan outside (codes "{\"k\": \"5\\\"\"}") ≡ scan outside json
expand_json_templates-keeps_example =
    expand_json_templates-keeps formats (payload_lookup payload) formats-balanced json
      (codes "{\"k\": \"5\\\"\"}") json-AreClosed json_expanded

-- parts whose quotes hold the separator, and a double quote behind a backslash
abbrev first_stage : List Token
first_stage = bare b'$' ∷ bare b'x' ∷ []

abbrev second_stage : List Token
second_stage = single (b'|' ∷ []) ∷ double (behind_backslash 34 ∷ as_is b'|' ∷ []) ∷ []

split_unquoted-parts_example :
    split_unquoted (codes "$x|'|'\"\\\"|\"") b'|' ≡ codes "$x" ∷ codes "'|'\"\\\"|\"" ∷ []
split_unquoted-parts_example =
    split_unquoted-parts b'|' first_stage (second_stage ∷ []) (omega arith) (omega arith) (
      (
        ((omega arith), (omega arith), (omega arith)),
        (((omega arith), (omega arith), (omega arith)), tt),
      ),
      (((((omega arith), tt)), ((tt, (((omega arith), (omega arith)), tt)), tt)), tt),
    )
