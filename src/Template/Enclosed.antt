-- ===== src/Template/Enclosed.antt =====
-- ExpandJSONTemplates (common/template.go): where the quotes of the expanded text open and close.
use nitejaguar.Base.{
  ℕ, ◌+◌, ◌/◌, ◌%◌, ◌||◌, false, Option, none, some, List, [], ◌∷◌, ◌++◌, append_assoc, Text, All,
  length, length-append, take, ltb, ◌==◌, ◌≡◌, ◌≢◌, refl, sym, ap, subst, ◌∙◌, arith, Bool-cases,
  inl, inr, if-holds,
}
use nitejaguar.Result.{Result, ok, err, ◌>>=◌}
use nitejaguar.Template.Filters.{
  Formats, TemplateError, RefLookup, unclosed, eval_template, template_string,
}
use nitejaguar.Template.Json.{
  Position, outside, inside, behind_backslash, step, scan, inside_json_string, hex_digit,
  unicode_escape, escape_code, escape, in_string, bare, marshal_value, substitute, render_json,
  expand_json_templates,
}
use nitejaguar.Template.Pieces.{braced, written, pieces-written}
use nitejaguar.Template.{Piece, pieces, holds_braces}
use nitejaguar.Value.{Value, text}

scan-append : (q : Position) (s t : Text) → scan q (s ++ t) ≡ scan (scan q s) t
unfolding scan
scan-append q [] t = refl
scan-append q (c ∷ cs) t = scan-append (step q c) cs t

-- A code that is neither a quote nor a backslash.
abbrev pub IsQuiet : ℕ → Type 0
IsQuiet c = ((c == 34) ≡ false) × ((c == 92) ≡ false)

step-IsQuiet : (q : Position) (c : ℕ) → q ≢ behind_backslash → IsQuiet c → step q c ≡ q
unfolding step
step-IsQuiet outside c n h = rw (h.0) refl
step-IsQuiet inside c n h = rw (h.1, h.0) refl
step-IsQuiet behind_backslash c n h = absurd (n refl)

scan-IsQuiet : (q : Position) (s : Text) → q ≢ behind_backslash → All IsQuiet s → scan q s ≡ q
unfolding scan
scan-IsQuiet q [] n h = refl
scan-IsQuiet q (c ∷ cs) n h = rw (step-IsQuiet q c n h.0) (scan-IsQuiet q cs n h.1)

hex_digit-IsQuiet : (d : ℕ) → IsQuiet (hex_digit d)
unfolding hex_digit
hex_digit-IsQuiet d =
    if-holds IsQuiet (ltb d 10) (48 + d) (87 + d) (λ h. (ground arith, ground arith))
      (λ h. (ground arith, ground arith))

abbrev Stays : Text → Type 0
Stays t = scan inside t ≡ inside

unicode_escape-Stays : (c : ℕ) → Stays (unicode_escape c)
unfolding scan step unicode_escape
unicode_escape-Stays c =
    scan-IsQuiet inside
      (hex_digit (c / 4096 % 16)
        ∷ hex_digit (c / 256 % 16)
        ∷ hex_digit (c / 16 % 16)
        ∷ hex_digit (c % 16)
        ∷ [])
      (λ e. cc e)
      (hex_digit-IsQuiet _, (hex_digit-IsQuiet _, (hex_digit-IsQuiet _, (hex_digit-IsQuiet _, tt))))

escape_code-Stays : (c : ℕ) → Stays (escape_code c)
unfolding scan step escape_code
escape_code-Stays c =
    if-holds Stays (c == 34 || c == 92) _ _ (λ h. refl)
      (λ h.
        if-holds Stays (c == 8) _ _ (λ k. refl)
          (λ k.
            if-holds Stays (c == 12) _ _ (λ k. refl)
              (λ k.
                if-holds Stays (c == 10) _ _ (λ k. refl)
                  (λ k.
                    if-holds Stays (c == 13) _ _ (λ k. refl)
                      (λ k.
                        if-holds Stays (c == 9) _ _ (λ k. refl)
                          (λ k.
                            if-holds Stays
                              (ltb c 32
                                || c == b'<'
                                || c == b'>'
                                || c == b'&'
                                || c == 0x2028
                                || c == 0x2029)
                              _ _ (λ k. unicode_escape-Stays c)
                              (λ k.
                                step-IsQuiet inside c (λ e. cc e)
                                  (ground arith, ground arith))))))))

escape-Stays : (s : Text) → Stays (escape s)
unfolding scan escape
escape-Stays [] = refl
escape-Stays (c ∷ cs) =
    rw (scan-append inside (escape_code c) (escape cs), escape_code-Stays c) (escape-Stays cs)

take-length-append : (a b : Text) → take (length a) (a ++ b) ≡ a
take-length-append [] b = refl
take-length-append (c ∷ cs) b = ap (◌∷◌ c) (take-length-append cs b)

inside_json_string-append :
    (a b : Text) (n : ℕ) → n ≡ length a → inside_json_string (a ++ b) n ≡ in_string (scan outside a)
unfolding inside_json_string
inside_json_string-append a b n e = rw (e, take-length-append a b) refl

bind-ok :
    {A : Type 0} (r : Result TemplateError A) (f : A → Result TemplateError Text) (t : Text)
    → (r >>= f) ≡ ok t
    → (a : A) × ((r ≡ ok a) × (f a ≡ ok t))
bind-ok (ok a) f t h = (a, (refl, h))
bind-ok (err e) f t h = absurd (cc h)

bare-ok : (o : Option Text) (raw : Text) → bare o ≡ ok raw → o ≡ some raw
unfolding bare
bare-ok none raw h = absurd (cc h)
bare-ok (some r) raw h = cc h

length-braced : (t : Text) → length (braced t) ≡ length t + 4
length-braced t = omega (arith, length-append t (b'}' ∷ b'}' ∷ []))

scan-braced :
    (q : Position) (t : Text) → q ≢ behind_backslash → All IsQuiet t → scan q (braced t) ≡ q
scan-braced q t n h = scan-IsQuiet q (braced t) n ((refl, refl), ((refl, refl), closed t h))
  where
    closed : (t : Text) → All IsQuiet t → All IsQuiet (t ++ (b'}' ∷ b'}' ∷ []))
    closed [] h = ((refl, refl), ((refl, refl), tt))
    closed (c ∷ cs) h = (h.0, closed cs h.1)

quoted-outside : (s : Text) → scan outside (34 ∷ (escape s ++ (34 ∷ []))) ≡ outside
unfolding scan step
quoted-outside s = rw (scan-append inside (escape s) (34 ∷ []), escape-Stays s) refl

module _ (go : Formats) (lookup : RefLookup)
    (balanced : (v : Value) (raw : Text)
      → go.marshal v ≡ some raw
      → scan outside raw ≡ outside) where
  -- No literal of a template ends in a backslash within a string, and no template has a quote or a
  -- backslash in its braces.
  abbrev pub AreClosed : Position → List Piece → Type 0
  AreClosed q [] = Unit
  AreClosed q (p ∷ ps) =
      (scan q p.literal ≢ behind_backslash)
      × (All IsQuiet p.inner × AreClosed (scan q p.literal) ps)

  marshal_value-outside :
      (v : Value) (raw : Text) → marshal_value go lookup v ≡ some raw → scan outside raw ≡ outside
  unfolding marshal_value
  marshal_value-outside (text s) raw h =
      let e : 34 ∷ (escape s ++ (34 ∷ [])) ≡ raw = cc h in
      subst (λ r. scan outside r ≡ outside) e (quoted-outside s)
  marshal_value-outside v raw h = balanced v raw h

  -- what is written for a value leaves the position as it is
  substitute-keeps :
      (q : Position) (v : Value) (raw : Text)
      → q ≢ behind_backslash
      → substitute go lookup (in_string q) v ≡ ok raw
      → scan q raw ≡ q
  unfolding substitute
  substitute-keeps behind_backslash v raw n h = absurd (n refl)
  substitute-keeps inside v raw n h =
      let e : escape (template_string go v) ≡ raw = cc h in
      subst (λ r. scan inside r ≡ inside) e (escape-Stays (template_string go v))
  substitute-keeps outside v raw n h = marshal_value-outside v raw (bare-ok _ raw h)

  render_json-keeps :
      (q : Position) (tmpl seen tail t : Text) (ps : List Piece) (n : ℕ)
      → n ≡ length seen
      → q ≡ scan outside seen
      → tmpl ≡ seen ++ written ps tail
      → AreClosed q ps
      → render_json go lookup tmpl n ps tail ≡ ok t
      → scan q t ≡ scan q (written ps tail)
  unfolding render_json
  render_json-keeps q tmpl seen tail t [] n e k w c h = let same : tail ≡ t = cc h in rw same refl
  render_json-keeps q tmpl seen tail t (p ∷ ps) n e k w c h =
      let read = bind-ok (eval_template go lookup p.inner) _ t h in
      let put =
        bind-ok (substitute go lookup (inside_json_string tmpl (n + length p.literal)) read.0) _ t
          read.1.1 in
      let more =
        bind-ok (render_json go lookup tmpl (n + length p.literal + length p.inner + 4) ps tail) _ t
          put.1.1 in
      let parts : p.literal ++ (put.0 ++ more.0) ≡ t = cc (more.1.1) in
      let q' = scan q p.literal in
      let behind = seen ++ (p.literal ++ braced p.inner) in
      let here : inside_json_string tmpl (n + length p.literal) ≡ in_string q' =
        rw (w, sym (append_assoc seen p.literal (braced p.inner ++ written ps tail)))
          (inside_json_string-append (seen ++ p.literal) (braced p.inner ++ written ps tail) _
              (omega (arith, e, length-append seen p.literal))
            ∙ ap in_string
                (scan-append outside seen p.literal ∙ ap (λ x. scan x p.literal) (sym k))) in
      let kept : scan q' put.0 ≡ q' =
        substitute-keeps q' read.0 put.0 c.0
          (subst (λ b. substitute go lookup b read.0 ≡ ok put.0) here put.1.0) in
      let rest : scan q' more.0 ≡ scan q' (written ps tail) =
        render_json-keeps q' tmpl behind tail more.0 ps (n + length p.literal + length p.inner + 4)
          (omega (
            arith,
            e,
            length-append seen (p.literal ++ braced p.inner),
            length-append p.literal (braced p.inner),
            length-braced p.inner,
          ))
          (sym (
            scan-append outside seen (p.literal ++ braced p.inner)
            ∙ scan-append (scan outside seen) p.literal (braced p.inner)
            ∙ rw (sym k) (scan-braced q' p.inner c.0 c.1.0)))
          (w
            ∙ ap (λ r. seen ++ r) (sym (append_assoc p.literal (braced p.inner) (written ps tail)))
            ∙ sym (append_assoc seen (p.literal ++ braced p.inner) (written ps tail)))
          c.1.1 more.1.0 in
      rw
        (
          sym parts,
          scan-append q p.literal (put.0 ++ more.0),
          scan-append q' put.0 more.0,
          kept,
          rest,
          scan-append q p.literal (braced p.inner ++ written ps tail),
          scan-append q' (braced p.inner) (written ps tail),
          scan-braced q' p.inner c.0 c.1.0,
        )
        refl

  expanded-keeps :
      (tmpl t : Text) (x : List Piece × Text)
      → written x.0 x.1 ≡ tmpl
      → AreClosed outside x.0
      → elim x.0 [ [] ↦ err unclosed | p ∷ ps ↦ render_json go lookup tmpl 0 (p ∷ ps) x.1 ] ≡ ok t
      → scan outside t ≡ scan outside tmpl
  unfolding scan
  expanded-keeps tmpl t ([], tail) w c h = absurd (cc h)
  expanded-keeps tmpl t (p ∷ ps, tail) w c h =
      render_json-keeps outside tmpl [] tail t (p ∷ ps) 0 refl refl (sym w) c h
      ∙ ap (scan outside) w

  -- If a JSON template expands, its quotes open and close as those of the template do, whatever the
  -- values are: behind the expanded text one is within a string literal if and only if one is so
  -- behind the template. This holds if what json.Marshal gives for a value other than a string closes
  -- its quotes, no literal of the template ends in a backslash within a string, and no template has a
  -- quote or a backslash in its braces.
  pub expand_json_templates-keeps :
      (tmpl t : Text)
      → AreClosed outside (pieces tmpl).0
      → expand_json_templates go lookup tmpl ≡ ok t
      → scan outside t ≡ scan outside tmpl
  unfolding expand_json_templates
  expand_json_templates-keeps tmpl t c h = elim (Bool-cases (holds_braces tmpl)) [
    | inl braces ↦ expanded-keeps tmpl t (pieces tmpl) (pieces-written tmpl) c (rw braces at h)
    | inr none_there ↦ let same : tmpl ≡ t = cc (rw none_there at h) in rw same refl
  ]
