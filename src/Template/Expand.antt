-- ===== src/Template/Expand.antt =====
-- common/template.go: ExpandTemplates.
use nitejaguar.Base.{not, List, [], ◌∷◌, ◌++◌, Text, if◌then◌else◌}
use nitejaguar.Result.{Result, ok, err, ◌>>=◌}
use nitejaguar.Template.Filters.{
  Formats, TemplateError, RefLookup, unclosed, eval_template, template_string,
}
use nitejaguar.Template.{Piece, pieces, holds_braces}

module _ (go : Formats) (lookup : RefLookup) where
  -- ReplaceAllStringFunc: each template's text, up to the first error
  unfoldable pub render : List Piece → Text → Result TemplateError Text
  unfolding eval_template template_string
  render [] tail = ok tail
  render (p ∷ ps) tail = eval_template go lookup p.inner >>= λ v.
      render ps tail >>= λ t. ok (p.literal ++ (template_string go v ++ t))

  -- func ExpandTemplates
  unfoldable pub expand_templates : Text → Result TemplateError Text
  unfolding render pieces holds_braces
  expand_templates s =
      if not (holds_braces s)
      then ok s
      else elim (pieces s).0 [ [] ↦ err unclosed | p ∷ ps ↦ render (p ∷ ps) (pieces s).1 ]
