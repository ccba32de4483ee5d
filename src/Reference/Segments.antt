-- ===== src/Reference/Segments.antt =====
-- parseSegment (internal/workflow/condition.go): a segment as it is written: a field and indices in brackets.
use nitejaguar.Base.{
  ℕ, ℤ, false, none, some, List, [], ◌∷◌, ◌++◌, append-nil, append_assoc, Text, All, ◌==◌, ◌≡◌,
  refl, ap,
}
use nitejaguar.Reference.{atoi, parse_indices, before_bracket, from_bracket, parse_segment}
use nitejaguar.Result.{ok}

-- A text without a code.
abbrev pub Lacks : ℕ → Text → Type 0
Lacks c t = All (λ x. (x == c) ≡ false) t

-- indices, each with its digits, in brackets
abbrev pub bracketed : List (Text × ℤ) → Text
bracketed [] = []
bracketed ((t, n) ∷ is) = b'[' ∷ (t ++ (b']' ∷ bracketed is))

abbrev pub numbers : List (Text × ℤ) → List ℤ
numbers [] = []
numbers ((t, n) ∷ is) = n ∷ numbers is

-- Every index is what strconv.Atoi reads from its digits.
abbrev pub AreIndices : List (Text × ℤ) → Type 0
AreIndices is = All (λ (p : Text × ℤ). Lacks b']' p.0 × (atoi p.0 ≡ some p.1)) is

parse_indices-scan :
    (seen t rest : Text) (n : ℤ) (ns : List ℤ)
    → Lacks b']' t
    → atoi (seen ++ t) ≡ some n
    → parse_indices none rest ≡ ok ns
    → parse_indices (some seen) (t ++ (b']' ∷ rest)) ≡ ok (n ∷ ns)
unfolding parse_indices
parse_indices-scan seen [] rest n ns h e k =
    let e' : atoi seen ≡ some n = rw (append-nil seen) at e in rw (e', k) refl
parse_indices-scan seen (x ∷ t) rest n ns h e k =
    let e' : atoi ((seen ++ (x ∷ [])) ++ t) ≡ some n = rw append_assoc e in
    rw h.0 (parse_indices-scan (seen ++ (x ∷ [])) t rest n ns h.1 e' k)

parse_indices-bracketed :
    (is : List (Text × ℤ)) → AreIndices is → parse_indices none (bracketed is) ≡ ok (numbers is)
unfolding parse_indices
parse_indices-bracketed [] h = refl
parse_indices-bracketed ((t, n) ∷ is) h =
    parse_indices-scan [] t (bracketed is) n (numbers is) h.0.0 h.0.1
      (parse_indices-bracketed is h.1)

before_bracket-bracketed :
    (f : Text) (is : List (Text × ℤ)) → Lacks b'[' f → before_bracket (f ++ bracketed is) ≡ f
unfolding before_bracket
before_bracket-bracketed [] [] h = refl
before_bracket-bracketed [] (i ∷ is) h = refl
before_bracket-bracketed (x ∷ f) is h = rw h.0 (ap (◌∷◌ x) (before_bracket-bracketed f is h.1))

from_bracket-bracketed :
    (f : Text) (is : List (Text × ℤ))
    → Lacks b'[' f
    → from_bracket (f ++ bracketed is) ≡ bracketed is
unfolding from_bracket
from_bracket-bracketed [] [] h = refl
from_bracket-bracketed [] (i ∷ is) h = refl
from_bracket-bracketed (x ∷ f) is h = rw h.0 (from_bracket-bracketed f is h.1)

-- Parsing a segment gives back the field and the indices that it was written from, if the field has
-- no opening bracket, and each index is what strconv.Atoi reads from its digits, which have no
-- closing one.
pub parse_segment-bracketed :
    (f : Text) (is : List (Text × ℤ))
    → Lacks b'[' f
    → AreIndices is
    → parse_segment (f ++ bracketed is) ≡ ok (f, numbers is)
unfolding parse_segment
parse_segment-bracketed f is h k =
    rw
      (
        parse_segment,
        from_bracket-bracketed f is h,
        parse_indices-bracketed is k,
        before_bracket-bracketed f is h,
      )
      refl
