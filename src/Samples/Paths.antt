-- ===== src/Samples/Paths.antt =====
-- The properties of reference paths at one segment.
use nitejaguar.Base.{ℤ, pos, List, [], ◌∷◌, ◌++◌, Text, codes, ◌≡◌, refl}
use nitejaguar.Reference.{parse_segment, atoi}
use nitejaguar.Reference.Segments.{bracketed, numbers, parse_segment-bracketed}
use nitejaguar.Result.{ok}

-- items[0][12]
abbrev indices : List (Text × ℤ)
indices = (codes "0", pos 0) ∷ (codes "12", pos 12) ∷ []

parse_segment-bracketed_example :
    parse_segment (codes "items" ++ bracketed indices) ≡ ok (codes "items", numbers indices)
unfolding atoi
parse_segment-bracketed_example =
    parse_segment-bracketed (codes "items") indices (refl, (refl, (refl, (refl, (refl, tt)))))
      (((refl, tt), refl), (((refl, (refl, tt)), refl), tt))
