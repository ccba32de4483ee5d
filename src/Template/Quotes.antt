-- ===== src/Template/Quotes.antt =====
-- common/template.go: splitUnquoted, isQuoted and unquoteArg. strconv.Unquote is a parameter.
use nitejaguar.Base.{
  ℕ, Bool, false, not, ◌||◌, ◌&&◌, Option, none, some, List, [], ◌∷◌, ◌++◌, Text, ◌==◌,
  if◌then◌else◌,
}

-- the combinations of inSingle, inDouble and escaped that occur
pub data Quote : Type 0 where
  plain in_single in_double escaped : Quote

-- the flags behind one more rune
unfoldable pub next_quote : Quote → ℕ → Quote
next_quote escaped c = in_double
next_quote in_single c = if c == 39 then plain else in_single
next_quote in_double c = if c == 92 then escaped else if c == 34 then plain else in_double
next_quote plain c = if c == 39 then in_single else if c == 34 then in_double else plain

-- whether a rune separates two parts
unfoldable pub separates : ℕ → Quote → ℕ → Bool
separates sep plain c = not (c == 39) && not (c == 34) && c == sep
separates sep _ c = false

-- the loop of splitUnquoted, with the part that is being written
unfoldable pub split_from : ℕ → Quote → Text → Text → List Text
unfolding next_quote separates
split_from sep q cur [] = cur ∷ []
split_from sep q cur (c ∷ cs) =
    let next = split_from sep plain [] cs in
    let same = split_from sep (next_quote q c) (cur ++ (c ∷ [])) cs in
    if separates sep q c then cur ∷ next else same

-- func splitUnquoted
unfoldable pub split_unquoted : Text → ℕ → List Text
unfolding split_from
split_unquoted s sep = split_from sep plain [] s

last_code : ℕ → Text → ℕ
last_code c [] = c
last_code c (d ∷ ds) = last_code d ds

-- func isQuoted
unfoldable pub is_quoted : Text → Bool
unfolding last_code
is_quoted (c ∷ d ∷ ds) = (c == 34 && last_code d ds == 34) || (c == 39 && last_code d ds == 39)
is_quoted _ = false

-- s[:len(s)-1]
unfoldable pub without_last : Text → Text
without_last [] = []
without_last (c ∷ []) = []
without_last (c ∷ d ∷ ds) = c ∷ without_last (d ∷ ds)

-- s[1 : len(s)-1]
unfoldable pub inside_quotes : Text → Text
unfolding without_last
inside_quotes [] = []
inside_quotes (c ∷ cs) = without_last cs

unquote_double : Text → Option Text → Text
unfolding inside_quotes
unquote_double s none = inside_quotes s
unquote_double s (some t) = t

-- func unquoteArg
unfoldable pub unquote_arg : (Text → Option Text) → Text → Text
unfolding is_quoted inside_quotes unquote_double
unquote_arg unquote [] = []
unquote_arg unquote (c ∷ cs) =
    if not (is_quoted (c ∷ cs))
    then c ∷ cs
    else if c == 34
    then unquote_double (c ∷ cs) (unquote (c ∷ cs))
    else inside_quotes (c ∷ cs)
