-- ===== src/Text/Infix.antt =====
-- `p in s` for two texts.
use Prim.Native.Char.{code}
use Prim.Native.String.{[], ◌∷◌}
use pkica.Base.{String, Bool, true, false, ◌&&◌, ◌||◌, eqb}

unfoldable pub starts_with : String → String → Bool
starts_with [] s = true
starts_with (c ∷ p) [] = false
starts_with (c ∷ p) (d ∷ s) = eqb (code c) (code d) && starts_with p s

-- p in s
unfoldable pub is_within : String → String → Bool
unfolding starts_with
is_within p [] = starts_with p []
is_within p (d ∷ s) = starts_with p (d ∷ s) || is_within p s
