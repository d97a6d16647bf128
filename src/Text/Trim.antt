-- ===== src/Text/Trim.antt =====
-- `len`, `s.rstrip("/")`, `s.rsplit("/", 1)[-1]` and `"=" * n`.
use Prim.Native.Char.{Char, code}
use Prim.Native.String.{[], ◌∷◌}
use pkica.Base.{ℕ, zero, suc, String, eqb, if◌then◌else◌}
use pkica.Text.Split.{contains}

unfoldable pub text_length : String → ℕ
text_length [] = 0
text_length (_ ∷ s) = suc (text_length s)

abbrev kept : ℕ → Char → String → String
kept c d [] = if eqb (code d) c then [] else d ∷ []
kept c d (e ∷ s) = d ∷ e ∷ s

-- s.rstrip(c)
unfoldable pub rstrip_char : ℕ → String → String
rstrip_char c [] = []
rstrip_char c (d ∷ s) = kept c d (rstrip_char c s)

-- s.rsplit(c, 1)[-1]: what stands behind the last c, or all of s
unfoldable pub after_last : ℕ → String → String
unfolding contains
after_last c [] = []
after_last c (d ∷ s) =
    let rest = after_last c s in if contains c s then rest else if eqb (code d) c then s else d ∷ s

unfoldable pub repeat : Char → ℕ → String
repeat c zero = []
repeat c (suc n) = c ∷ repeat c n
