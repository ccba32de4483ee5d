-- ===== src/Base/Texts.antt =====
-- Texts that the program walks, as lists of character codes. Identifiers and names that are only
-- compared stay native `String`s.
use Prim.Native.Nat.{ℕ, ◌+◌, compare, Ordering}
use Prim.Native.Char.{Char, char, code, nul}
use Prim.Native.String.{String}
use mathlib.Core.Path.{◌≡◌, refl}
use mathlib.Core.Logic.{◌↔◌, ◌≢◌}
use mathlib.Core.Bool.{Bool, true, false, ◌&&◌, ◌||◌}
use mathlib.Core.List.{List, [], ◌∷◌, reverse}
use native.Mathlib.Omega.{arith}
use nitejaguar.Base.Tests.{leb, ◌==◌, if◌then◌else◌}

abbrev pub Text : Type 0
Text = List ℕ

-- The codes of a literal.
abbrev pub codes : String → Text
codes String.[] = []
codes (String.◌∷◌ c s) = code c ∷ codes s

char_at : (n : ℕ) (o : Ordering) → compare n 55296 ≡ o → Char
char_at n Ordering.lt e = char n (rw e tt)
char_at n _ e = nul

-- The literal of a text whose codes are below 0xd800.
unfoldable pub string_of : Text → String
unfolding char_at
string_of [] = String.[]
string_of (c ∷ cs) = String.◌∷◌ (char_at c (compare c 55296) refl) (string_of cs)

pub string_of-cons : (c : ℕ) (cs : Text) → string_of (c ∷ cs) ≢ ""
unfolding string_of
string_of-cons c cs e = cc e

abbrev pub text_eq : Text → Text → Bool
text_eq [] [] = true
text_eq (x ∷ xs) (y ∷ ys) = x == y && text_eq xs ys
text_eq _ _ = false

pub text_eq_iff : (a b : Text) → (text_eq a b ≡ true) ↔ (a ≡ b)
text_eq_iff (x ∷ a) (y ∷ b) = ground (arith, text_eq_iff a b)
text_eq_iff _ _ = ground arith

pub text_eq_self : (a : Text) → text_eq a a ≡ true
text_eq_self a = (text_eq_iff a a).1 refl

-- strings.HasPrefix
abbrev pub has_prefix : Text → Text → Bool
has_prefix s [] = true
has_prefix [] (p ∷ ps) = false
has_prefix (c ∷ cs) (p ∷ ps) = c == p && has_prefix cs ps

-- unicode.IsSpace
unfoldable pub is_space : ℕ → Bool
is_space c =
    (leb 9 c && leb c 13)
    || c == 32
    || c == 0x85
    || c == 0xa0
    || c == 0x1680
    || (leb 0x2000 c && leb c 0x200a)
    || c == 0x2028
    || c == 0x2029
    || c == 0x202f
    || c == 0x205f
    || c == 0x3000

unfoldable pub trim_left : Text → Text
trim_left [] = []
trim_left (c ∷ cs) = if is_space c then trim_left cs else c ∷ cs

-- strings.TrimSpace
unfoldable pub trim_space : Text → Text
unfolding is_space trim_left
trim_space s = reverse (trim_left (reverse (trim_left s)))

-- strings.ToLower and strings.EqualFold, on texts whose letters are those of ASCII
unfoldable pub to_lower : Text → Text
to_lower [] = []
to_lower (c ∷ cs) = (if leb b'A' c && leb c b'Z' then c + 32 else c) ∷ to_lower cs

unfoldable pub equal_fold : Text → Text → Bool
unfolding to_lower
equal_fold a b = text_eq (to_lower a) (to_lower b)

unfoldable pub holds_code : ℕ → Text → Bool
holds_code c [] = false
holds_code c (d ∷ ds) = d == c || holds_code c ds

unfoldable pub trim_left_of : Text → Text → Text
unfolding holds_code
trim_left_of cutset [] = []
trim_left_of cutset (c ∷ cs) = if holds_code c cutset then trim_left_of cutset cs else c ∷ cs

unfoldable pub trim_right_of : Text → Text → Text
unfolding holds_code
trim_right_of cutset [] = []
trim_right_of cutset (c ∷ cs) = elim (trim_right_of cutset cs) [
  | [] ↦ if holds_code c cutset then [] else c ∷ []
  | d ∷ ds ↦ c ∷ d ∷ ds
]

-- strings.Trim
unfoldable pub trim_of : Text → Text → Text
unfolding trim_left_of trim_right_of
trim_of cutset s = trim_right_of cutset (trim_left_of cutset s)

unfoldable pub holds_slash : Text → Bool
holds_slash [] = false
holds_slash (c ∷ cs) = c == b'/' || holds_slash cs

unfoldable pub strip_slashes : Text → Text
strip_slashes [] = []
strip_slashes (c ∷ cs) = elim (strip_slashes cs) [
  | [] ↦ if c == b'/' then [] else c ∷ []
  | d ∷ ds ↦ c ∷ d ∷ ds
]

unfoldable pub behind_slash : Text → Text
unfolding holds_slash
behind_slash [] = []
behind_slash (c ∷ cs) = if holds_slash (c ∷ cs) then behind_slash cs else c ∷ cs

-- path.Base
unfoldable pub base_name : Text → Text
unfolding strip_slashes behind_slash
base_name [] = b'.' ∷ []
base_name (c ∷ cs) = elim (behind_slash (strip_slashes (c ∷ cs))) [
  | [] ↦ b'/' ∷ []
  | d ∷ ds ↦ d ∷ ds
]
