-- ===== src/Template/Pieces.antt =====
-- SplitTemplates (common/template.go): a text as it is written: literals and templates in turn.
use nitejaguar.Base.{
  ℕ, zero, suc, ◌+◌, ◌&&◌, true, Option, none, some, Bool-cases, List, [], ◌∷◌, ◌++◌, append_assoc,
  Text, codes, has_prefix, drop, length, ◌==◌, ◌≡◌, refl, sym, ap, ◌∙◌, arith, inl, inr,
}
use nitejaguar.Template.{
  Piece, before_braces, match_inner, match_at, add_code, add_template, pieces_from, pieces,
}

-- a template with its braces
abbrev pub braced : Text → Text
braced t = b'{' ∷ b'{' ∷ (t ++ (b'}' ∷ b'}' ∷ []))

abbrev pub written : List Piece → Text → Text
written [] tail = tail
written (p ∷ ps) tail = p.literal ++ (braced p.inner ++ written ps tail)

closing :
    (c : ℕ) (cs : Text) → has_prefix (c ∷ cs) (codes "}}") ≡ true → c ∷ cs ≡ b'}' ∷ b'}' ∷ drop 1 cs
closing c [] h = ground arith
closing c (d ∷ cs) h = ground arith

prepended : ℕ → Option Text → Option Text
prepended c none = none
prepended c (some t) = some (c ∷ t)

-- the text that a template is read from
abbrev Read : Option Text → Text → Type 0
Read none s = Unit
Read (some t) s = s ≡ t ++ (b'}' ∷ b'}' ∷ drop (suc (suc (length t))) s)

Read-some : {o : Option Text} {t s : Text} → Read o s → o ≡ some t → Read (some t) s
Read-some {o} {t} {s} r e = rw e at r

Read-code :
    (c : ℕ) (o : Option Text) (cs : Text)
    → Read o cs
    → Read (elim o [ none ↦ none | some t ↦ some (c ∷ t) ]) (c ∷ cs)
Read-code c none cs r = tt
Read-code c (some t) cs r = ap (◌∷◌ c) r

before_braces-Read : (s : Text) → Read (before_braces s) s
unfolding before_braces
before_braces-Read [] = tt
before_braces-Read (c ∷ cs) = elim (Bool-cases (has_prefix (c ∷ cs) (codes "}}"))) [
  | inl closed ↦ rw closed (closing c cs closed)
  | inr open_still ↦ elim (Bool-cases (c == 10)) [
    | inl line ↦ rw (open_still, line) tt
    | inr same ↦ rw (open_still, same) (Read-code c _ cs (before_braces-Read cs))
  ]
]

match_inner-Read : (s : Text) → Read (match_inner s) s
unfolding match_inner
match_inner-Read [] = tt
match_inner-Read (c ∷ cs) = elim (Bool-cases (c == 10)) [
  | inl line ↦ rw line tt
  | inr same ↦ rw same (Read-code c _ cs (before_braces-Read cs))
]

match_at-braced :
    (c : ℕ) (cs t : Text) → match_at (c ∷ cs) ≡ some t → c ∷ cs ≡ braced t ++ drop (length t + 3) cs
unfolding match_at
match_at-braced c [] t h = absurd (cc h)
match_at-braced c (d ∷ cs) t h = elim (Bool-cases (c == b'{' && d == b'{')) [
  | inl opened ↦
      let found : match_inner cs ≡ some t = rw opened at h in
      let n : length t + 3 ≡ suc (suc (suc (length t))) = omega arith in
      let both : (c ≡ b'{') × (d ≡ b'{') = ground arith in
      rw (n, both.0, both.1, append_assoc)
        (ap (λ r. b'{' ∷ b'{' ∷ r) (Read-some (match_inner-Read cs) found))
  | inr shut ↦ let no : none ≡ some t = rw shut at h in absurd (cc no)
]

written-add_code :
    (c : ℕ) (x : List Piece × Text)
    → written (add_code c x).0 (add_code c x).1 ≡ c ∷ written x.0 x.1
written-add_code c ([], tail) = refl
written-add_code c (p ∷ ps, tail) = refl

abbrev Rebuilds : List Piece × Text → Text → Type 0
Rebuilds x s = written x.0 x.1 ≡ s

round-Rebuilds :
    (c : ℕ) (cs : Text) (o : Option Text)
    → match_at (c ∷ cs) ≡ o
    → ((n : ℕ) → Rebuilds (pieces_from n cs) (drop n cs))
    → Rebuilds
        (elim o [
          | none ↦ add_code c (pieces_from 0 cs)
          | some t ↦ add_template t (pieces_from (length t + 3) cs)
        ])
        (c ∷ cs)
round-Rebuilds c cs none e later = written-add_code c (pieces_from 0 cs) ∙ ap (◌∷◌ c) (later 0)
round-Rebuilds c cs (some t) e later =
    ap (λ r. braced t ++ r) (later (length t + 3)) ∙ sym (match_at-braced c cs t e)

pieces_from-Rebuilds : (n : ℕ) (s : Text) → Rebuilds (pieces_from n s) (drop n s)
unfolding pieces_from
pieces_from-Rebuilds zero [] = refl
pieces_from-Rebuilds (suc n) [] = refl
pieces_from-Rebuilds (suc n) (c ∷ cs) = pieces_from-Rebuilds n cs
pieces_from-Rebuilds zero (c ∷ cs) =
    round-Rebuilds c cs (match_at (c ∷ cs)) refl (λ n. pieces_from-Rebuilds n cs)

-- Splitting a text at its templates loses nothing: the literals and the templates, each in its
-- braces, put together in their order, are the text.
pub pieces-written : (s : Text) → written (pieces s).0 (pieces s).1 ≡ s
unfolding pieces
pieces-written s = pieces_from-Rebuilds 0 s
