-- ===== src/Template/Json.antt =====
-- common/template.go: ExpandJSONTemplates and insideJSONString. json.Marshal of a string is written
-- out; what it gives for the other values is a parameter.
use nitejaguar.Base.{
  ℕ, ◌+◌, ◌/◌, ◌%◌, Bool, true, false, not, ◌||◌, Option, none, some, List, [], ◌∷◌, ◌++◌, Text,
  codes, length, take, ltb, ◌==◌, if◌then◌else◌,
}
use nitejaguar.Result.{Result, ok, err, ◌>>=◌}
use nitejaguar.Template.Filters.{
  Formats, TemplateError, RefLookup, unclosed, not_marshalled, eval_template, template_string,
}
use nitejaguar.Template.{Piece, pieces, holds_braces}
use nitejaguar.Value.{Value, text}

-- the combinations of inStr and escaped that occur
pub data Position : Type 0 where
  outside inside behind_backslash : Position

-- one round of insideJSONString
unfoldable pub step : Position → ℕ → Position
step behind_backslash c = inside
step inside c = if c == 92 then behind_backslash else if c == 34 then outside else inside
step outside c = if c == 34 then inside else outside

unfoldable pub scan : Position → Text → Position
unfolding step
scan q [] = q
scan q (c ∷ cs) = scan (step q c) cs

abbrev pub in_string : Position → Bool
in_string outside = false
in_string _ = true

-- func insideJSONString
unfoldable pub inside_json_string : Text → ℕ → Bool
unfolding scan
inside_json_string tmpl pos = in_string (scan outside (take pos tmpl))

unfoldable pub hex_digit : ℕ → ℕ
hex_digit d = if ltb d 10 then 48 + d else 87 + d

-- an escape of four hexadecimal digits
unfoldable pub unicode_escape : ℕ → Text
unfolding hex_digit
unicode_escape c =
    92
    ∷ b'u'
    ∷ hex_digit (c / 4096 % 16)
    ∷ hex_digit (c / 256 % 16)
    ∷ hex_digit (c / 16 % 16)
    ∷ hex_digit (c % 16)
    ∷ []

-- json.Marshal on one code of a string: it escapes HTML and the line separators too
unfoldable pub escape_code : ℕ → Text
unfolding unicode_escape
escape_code c =
    if c == 34 || c == 92
    then 92 ∷ c ∷ []
    else if c == 8
    then codes "\\b"
    else if c == 12
    then codes "\\f"
    else if c == 10
    then codes "\\n"
    else if c == 13
    then codes "\\r"
    else if c == 9
    then codes "\\t"
    else if ltb c 32 || c == b'<' || c == b'>' || c == b'&' || c == 0x2028 || c == 0x2029
    then unicode_escape c
    else c ∷ []

-- json.Marshal of a string, without the quotes around it
unfoldable pub escape : Text → Text
unfolding escape_code
escape [] = []
escape (c ∷ cs) = escape_code c ++ escape cs

unfoldable pub bare : Option Text → Result TemplateError Text
bare none = err not_marshalled
bare (some raw) = ok raw

module _ (go : Formats) (lookup : RefLookup) where
  -- json.Marshal
  unfoldable pub marshal_value : Value → Option Text
  unfolding escape
  marshal_value (text s) = some (34 ∷ (escape s ++ (34 ∷ [])))
  marshal_value v = go.marshal v

  -- what stands for a template's value within a string literal, and outside of one
  unfoldable pub substitute : Bool → Value → Result TemplateError Text
  unfolding marshal_value bare escape template_string
  substitute true v = ok (escape (template_string go v))
  substitute false v = bare (marshal_value v)

  -- the loop of ExpandJSONTemplates, at a position of the whole text
  unfoldable pub render_json : Text → ℕ → List Piece → Text → Result TemplateError Text
  unfolding eval_template substitute inside_json_string
  render_json tmpl pos [] tail = ok tail
  render_json tmpl pos (p ∷ ps) tail = eval_template go lookup p.inner >>= λ v.
      substitute (inside_json_string tmpl (pos + length p.literal)) v >>= λ raw.
      render_json tmpl (pos + length p.literal + length p.inner + 4) ps tail >>= λ t.
      ok (p.literal ++ (raw ++ t))

  -- func ExpandJSONTemplates
  unfoldable pub expand_json_templates : Text → Result TemplateError Text
  unfolding render_json pieces holds_braces
  expand_json_templates tmpl = if not (holds_braces tmpl) then ok tmpl else elim (pieces tmpl).0 [
    | [] ↦ err unclosed
    | p ∷ ps ↦ render_json tmpl 0 (p ∷ ps) (pieces tmpl).1
  ]
