-- ===== src/Template.antt =====
-- common/template.go: the templates `{{ ... }}` in a text, and the quotes within their expressions. The
-- expression `\{\{(.+?)\}\}` is matched here as regexp matches it: leftmost, and shortest. A text is
-- its code points, and a position counts them.
pub mod Quotes
pub mod Filters
pub mod Expand
pub mod Json
pub mod Pieces
pub mod Stages
pub mod Grammar
pub mod Enclosed
use nitejaguar.Base.{
  ℕ, zero, suc, ◌+◌, Bool, true, false, ◌||◌, ◌&&◌, Option, none, some, List, [], ◌∷◌, ◌++◌, Text,
  codes, has_prefix, trim_space, length, ◌==◌, if◌then◌else◌,
}

-- a literal and the inner text of the template behind it
pub record Piece : Type 0 where
  pub literal : Text
  pub inner : Text

-- `.*?\}\}`: what stands before the first closing braces, on one line
unfoldable pub before_braces : Text → Option Text
before_braces [] = none
before_braces (c ∷ cs) =
    if has_prefix (c ∷ cs) (codes "}}")
    then some []
    else if c == 10
    then none
    else elim (before_braces cs) [ none ↦ none | some t ↦ some (c ∷ t) ]

-- `.+?\}\}`
unfoldable pub match_inner : Text → Option Text
unfolding before_braces
match_inner [] = none
match_inner (c ∷ cs) =
    if c == 10 then none else elim (before_braces cs) [ none ↦ none | some t ↦ some (c ∷ t) ]

-- the inner text of a template that starts here
unfoldable pub match_at : Text → Option Text
unfolding match_inner
match_at (a ∷ b ∷ cs) = if a == b'{' && b == b'{' then match_inner cs else none
match_at _ = none

abbrev pub add_code : ℕ → List Piece × Text → List Piece × Text
add_code c ([], tail) = ([], c ∷ tail)
add_code c (p ∷ ps, tail) = (record p { literal = c ∷ p.literal } ∷ ps, tail)

abbrev pub add_template : Text → List Piece × Text → List Piece × Text
add_template t (ps, tail) = (record { literal = []; inner = t } ∷ ps, tail)

-- templatePattern.FindAll: the pieces, and what is behind the last template. The first argument counts
-- the codes that belong to the match before.
unfoldable pub pieces_from : ℕ → Text → List Piece × Text
unfolding match_at
pieces_from n [] = ([], [])
pieces_from (suc n) (c ∷ cs) = pieces_from n cs
pieces_from zero (c ∷ cs) = elim (match_at (c ∷ cs)) [
  | none ↦ add_code c (pieces_from 0 cs)
  | some t ↦ add_template t (pieces_from (length t + 3) cs)
]

unfoldable pub pieces : Text → List Piece × Text
unfolding pieces_from
pieces s = pieces_from 0 s

-- func HasTemplate
unfoldable pub has_template : Text → Bool
unfolding pieces
has_template s = elim (pieces s).0 [ [] ↦ false | p ∷ ps ↦ true ]

segments_of : List Piece → Text → List Text
segments_of [] tail = tail ∷ []
segments_of (p ∷ ps) tail = p.literal ∷ trim_space p.inner ∷ segments_of ps tail

-- func SplitTemplates
unfoldable pub split_templates : Text → List Text
unfolding pieces segments_of
split_templates s = segments_of (pieces s).0 (pieces s).1

single_of : List Piece × Text → Option Text
single_of (p ∷ [], []) = elim (p.literal) [ [] ↦ some p.inner | c ∷ cs ↦ none ]
single_of _ = none

-- func SingleTemplate
unfoldable pub single_template : Text → Option Text
unfolding pieces single_of
single_template s = single_of (pieces s)

-- strings.Contains(s, "{{")
unfoldable pub holds_braces : Text → Bool
holds_braces [] = false
holds_braces (c ∷ cs) = has_prefix (c ∷ cs) (codes "{{") || holds_braces cs
