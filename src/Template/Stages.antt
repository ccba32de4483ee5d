-- ===== src/Template/Stages.antt =====
-- splitUnquoted (common/template.go) on a text of parts joined by the separator.
use nitejaguar.Base.{
  ℕ, true, false, List, [], ◌∷◌, ◌++◌, append-nil, append_assoc, Text, All, ◌≡◌, refl, sym, ap, ◌∙◌,
}
use nitejaguar.Template.Quotes.{Quote, plain, next_quote, separates, split_from, split_unquoted}

-- the flags behind a text, and whether it has no separator outside of quotes
abbrev pub quote_after : Quote → Text → Quote
quote_after q [] = q
quote_after q (c ∷ cs) = quote_after (next_quote q c) cs

abbrev pub Unsplit : ℕ → Quote → Text → Type 0
Unsplit sep q [] = Unit
Unsplit sep q (c ∷ cs) = (separates sep q c ≡ false) × Unsplit sep (next_quote q c) cs

-- A part that closes its quotes and has no separator outside of them.
abbrev pub IsPart : ℕ → Text → Type 0
IsPart sep t = (quote_after plain t ≡ plain) × Unsplit sep plain t

abbrev pub join : ℕ → Text → List Text → Text
join sep p [] = p
join sep p (q ∷ qs) = p ++ (sep ∷ join sep q qs)

split_from-last :
    (sep : ℕ) (q : Quote) (cur t : Text)
    → Unsplit sep q t
    → split_from sep q cur t ≡ (cur ++ t) ∷ []
unfolding split_from
split_from-last sep q cur [] u = ap (λ t. t ∷ []) (sym (append-nil cur))
split_from-last sep q cur (c ∷ cs) u =
    rw (u.0, split_from-last sep (next_quote q c) (cur ++ (c ∷ [])) cs u.1, append_assoc) refl

split_from-part :
    (sep : ℕ) (q : Quote) (cur t rest : Text)
    → Unsplit sep q t
    → quote_after q t ≡ plain
    → separates sep plain sep ≡ true
    → split_from sep q cur (t ++ (sep ∷ rest)) ≡ (cur ++ t) ∷ split_from sep plain [] rest
unfolding split_from
split_from-part sep q cur [] rest u e k = rw (e, k, append-nil) refl
split_from-part sep q cur (c ∷ cs) rest u e k =
    rw (u.0, split_from-part sep (next_quote q c) (cur ++ (c ∷ [])) cs rest u.1 e k, append_assoc)
      refl

-- Splitting at a separator gives back the parts that were joined by it, if the separator is no quote,
-- and each part closes its quotes and has no separator outside of them.
pub split_unquoted-join :
    (sep : ℕ) (p : Text) (ps : List Text)
    → separates sep plain sep ≡ true
    → All (IsPart sep) (p ∷ ps)
    → split_unquoted (join sep p ps) sep ≡ p ∷ ps
unfolding split_unquoted
split_unquoted-join sep p [] k h = split_from-last sep plain [] p h.0.1
split_unquoted-join sep p (q ∷ qs) k h =
    split_from-part sep plain [] p (join sep q qs) h.0.1 h.0.0 k
    ∙ ap (λ r. p ∷ r) (split_unquoted-join sep q qs k h.1)
