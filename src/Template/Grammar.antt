-- ===== src/Template/Grammar.antt =====
-- splitUnquoted (common/template.go) on texts that are written with quotes: the parts are described by
-- what stands in them, without the flags of the loop.
use nitejaguar.Base.{
  ℕ, true, false, ◌==◌, ==_self, List, [], ◌∷◌, ◌++◌, map, Text, All, ◌≡◌, ◌≢◌, refl, sym, subst,
  arith,
}
use nitejaguar.Template.Quotes.{
  Quote, plain, in_single, in_double, next_quote, separates, split_unquoted,
}
use nitejaguar.Template.Stages.{quote_after, Unsplit, IsPart, join, split_unquoted-join}

-- in double quotes: a code as it is, or any code behind a backslash
pub data Inner : Type 0 where
  as_is : ℕ → Inner
  behind_backslash : ℕ → Inner

-- a code outside of quotes, a text in single quotes, or one in double quotes
pub data Token : Type 0 where
  bare : ℕ → Token
  single : Text → Token
  double : List Inner → Token

abbrev pub inner_text : List Inner → Text
inner_text [] = []
inner_text (as_is c ∷ is) = c ∷ inner_text is
inner_text (behind_backslash c ∷ is) = 92 ∷ c ∷ inner_text is

abbrev pub token_text : Token → Text
token_text (bare c) = c ∷ []
token_text (single t) = 39 ∷ t ++ (39 ∷ [])
token_text (double is) = 34 ∷ inner_text is ++ (34 ∷ [])

abbrev pub part_text : List Token → Text
part_text [] = []
part_text (t ∷ ts) = token_text t ++ part_text ts

abbrev pub IsInner : Inner → Type 0
IsInner (as_is c) = (c ≢ 34) × (c ≢ 92)
IsInner (behind_backslash c) = Unit

-- A code outside of quotes is no quote and not the separator; a text in single quotes has no single
-- quote; one in double quotes has a double quote or a backslash behind a backslash only.
abbrev pub IsToken : ℕ → Token → Type 0
IsToken sep (bare c) = (c ≢ 39) × (c ≢ 34) × (c ≢ sep)
IsToken sep (single t) = All (λ c. c ≢ 39) t
IsToken sep (double is) = All IsInner is

abbrev Walks : ℕ → Quote → Text → Quote → Type 0
Walks sep q t r = (quote_after q t ≡ r) × Unsplit sep q t

Walks-append :
    (sep : ℕ) (q : Quote) (t u : Text) (r s : Quote)
    → Walks sep q t r
    → Walks sep r u s
    → Walks sep q (t ++ u) s
Walks-append sep q [] u r s h k = rw h.0 k
Walks-append sep q (c ∷ t) u r s h k =
    let rest = Walks-append sep (next_quote q c) t u r s (h.0, h.1.1) k in (rest.0, (h.1.0, rest.1))

Walks-cons :
    (sep : ℕ) (q : Quote) (c : ℕ) (t : Text) (r p : Quote)
    → next_quote q c ≡ p
    → separates sep q c ≡ false
    → Walks sep p t r
    → Walks sep q (c ∷ t) r
Walks-cons sep q c t r p e s h =
    let rest : Walks sep (next_quote q c) t r = subst (λ x. Walks sep x t r) (sym e) h in
    (rest.0, (s, rest.1))

differs : (c d : ℕ) → c ≢ d → (c == d) ≡ false
differs c d h = ground arith

single-Walks :
    (sep : ℕ) (t : Text) → All (λ c. c ≢ 39) t → Walks sep in_single (t ++ (39 ∷ [])) plain
unfolding next_quote separates
single-Walks sep [] h = (refl, (refl, tt))
single-Walks sep (c ∷ t) h =
    let rest = single-Walks sep t h.1 in
    Walks-cons sep in_single c (t ++ (39 ∷ [])) plain in_single
      (rw (next_quote, differs c 39 h.0) refl) refl rest

inner-Walks :
    (sep : ℕ) (is : List Inner)
    → All IsInner is
    → Walks sep in_double (inner_text is ++ (34 ∷ [])) plain
unfolding next_quote separates
inner-Walks sep [] h = (refl, (refl, tt))
inner-Walks sep (as_is c ∷ is) h =
    let rest = inner-Walks sep is h.1 in
    Walks-cons sep in_double c (inner_text is ++ (34 ∷ [])) plain in_double
      (rw (next_quote, differs c 92 h.0.1, differs c 34 h.0.0) refl) refl rest
inner-Walks sep (behind_backslash c ∷ is) h =
    let rest = inner-Walks sep is h.1 in (rest.0, (refl, (refl, rest.1)))

token-Walks : (sep : ℕ) (t : Token) → IsToken sep t → Walks sep plain (token_text t) plain
unfolding next_quote separates
token-Walks sep (bare c) h =
    rw (differs c 39 h.0, differs c 34 h.1, differs c sep h.2) (refl, (refl, tt))
token-Walks sep (single t) h = let rest = single-Walks sep t h in (rest.0, (refl, rest.1))
token-Walks sep (double is) h = let rest = inner-Walks sep is h in (rest.0, (refl, rest.1))

part-Walks :
    (sep : ℕ) (ts : List Token) → All (IsToken sep) ts → Walks sep plain (part_text ts) plain
part-Walks sep [] h = (refl, tt)
part-Walks sep (t ∷ ts) h =
    Walks-append sep plain (token_text t) (part_text ts) plain plain (token-Walks sep t h.0)
      (part-Walks sep ts h.1)

parts-Walk :
    (sep : ℕ) (ps : List (List Token))
    → All (λ p. All (IsToken sep) p) ps
    → All (IsPart sep) (map part_text ps)
parts-Walk sep [] h = tt
parts-Walk sep (p ∷ ps) h = (part-Walks sep p h.0, parts-Walk sep ps h.1)

quote_free : (sep : ℕ) → sep ≢ 39 → sep ≢ 34 → separates sep plain sep ≡ true
unfolding separates
quote_free sep s d = rw (differs sep 39 s, differs sep 34 d, ==_self sep) refl

-- Splitting at a separator that is no quote gives back the parts that were joined by it. A part is
-- written as a sequence of codes outside of quotes, none of them a quote or the separator, of texts in
-- single quotes, which end at the next single quote, and of texts in double quotes, which end at the
-- next double quote that is not behind a backslash; what is in quotes may hold the separator.
pub split_unquoted-parts :
    (sep : ℕ) (p : List Token) (ps : List (List Token))
    → sep ≢ 39
    → sep ≢ 34
    → All (λ q. All (IsToken sep) q) (p ∷ ps)
    → split_unquoted (join sep (part_text p) (map part_text ps)) sep ≡ map part_text (p ∷ ps)
split_unquoted-parts sep p ps s d h =
    split_unquoted-join sep (part_text p) (map part_text ps) (quote_free sep s d)
      (part-Walks sep p h.0, parts-Walk sep ps h.1)
