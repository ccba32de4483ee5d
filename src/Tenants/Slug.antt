-- ===== src/Tenants/Slug.antt =====
-- internal/database/tenants.go: slugifyTenant and validTenantSlug. A name is its code points, whose
-- letters are those of ASCII.
pub mod Valid
use nitejaguar.Base.{
  ℕ, Bool, true, false, not, ◌||◌, ◌&&◌, List, [], ◌∷◌, Text, codes, text_eq, has_prefix, to_lower,
  trim_space, trim_of, leb, ◌==◌, if◌then◌else◌,
}

-- r >= 'a' && r <= 'z', r >= '0' && r <= '9'
unfoldable pub is_slug_letter : ℕ → Bool
is_slug_letter c = (leb b'a' c && leb c b'z') || (leb b'0' c && leb c b'9')

-- the loop of slugifyTenant, with prevHyphen
unfoldable pub slug_from : Bool → Text → Text
unfolding is_slug_letter
slug_from prev [] = []
slug_from prev (c ∷ cs) =
    let letter = slug_from false cs in
    let other = slug_from true cs in
    if is_slug_letter c then c ∷ letter else if prev then other else b'-' ∷ other

-- func slugifyTenant
unfoldable pub slugify_tenant : Text → Text
unfolding slug_from to_lower
slugify_tenant name = trim_of (codes "-") (slug_from true (to_lower (trim_space name)))

unfoldable pub are_slug_codes : Text → Bool
unfolding is_slug_letter
are_slug_codes [] = true
are_slug_codes (c ∷ cs) = (is_slug_letter c || c == b'-') && are_slug_codes cs

-- strings.HasSuffix(slug, "-"), strings.Contains(slug, "--")
unfoldable pub ends_in_hyphen : Text → Bool
ends_in_hyphen [] = false
ends_in_hyphen (c ∷ []) = c == b'-'
ends_in_hyphen (c ∷ d ∷ ds) = ends_in_hyphen (d ∷ ds)

unfoldable pub has_two_hyphens : Text → Bool
has_two_hyphens [] = false
has_two_hyphens (c ∷ cs) = has_prefix (c ∷ cs) (codes "--") || has_two_hyphens cs

-- func validTenantSlug: whether it gives no error
unfoldable pub valid_tenant_slug : Text → Bool
valid_tenant_slug slug =
    if text_eq slug []
    then false
    else if not (text_eq slug (to_lower slug))
    then false
    else if not (are_slug_codes slug)
    then false
    else not (has_prefix slug (codes "-") || ends_in_hyphen slug || has_two_hyphens slug)
