-- ===== src/Text/Split.antt =====
-- `split`, `partition` and `in` at one character, `",".join`, and `strip`, on text read as ASCII: a
-- character is compared by its number.
use Prim.Native.Char.{Char, code}
use Prim.Native.String.{[], ◌∷◌, ◌++◌}
use mathlib.Core.List.{[] as nil, ◌∷◌ as cons}
use pkica.Base.{ℕ, String, Bool, false, ◌||◌, ◌&&◌, List, eqb, leb, if◌then◌else◌}

abbrev pub comma : ℕ
comma = b','

-- c in s
unfoldable pub contains : ℕ → String → Bool
contains c [] = false
contains c (d ∷ s) = eqb (code d) c || contains c s

-- The pieces after a first one: the character that begins the text goes to the first piece.
abbrev pub prepend : Char → List String → List String
prepend d nil = cons (d ∷ []) nil
prepend d (cons p ps) = cons (d ∷ p) ps

-- s.split(c): a text with n separators has n + 1 pieces, empty ones included.
unfoldable pub split : ℕ → String → List String
split c [] = cons [] nil
split c (d ∷ s) = let rest = split c s in if eqb (code d) c then cons [] rest else prepend d rest

-- s.split(c, 1)[0] and s.partition(c)[0]
unfoldable pub before : ℕ → String → String
before c [] = []
before c (d ∷ s) = let rest = before c s in if eqb (code d) c then [] else d ∷ rest

-- s.partition(c)[2]
unfoldable pub after : ℕ → String → String
after c [] = []
after c (d ∷ s) = let rest = after c s in if eqb (code d) c then s else rest

-- ",".join(parts)
unfoldable pub join : String → List String → String
join sep nil = []
join sep (cons p nil) = p
join sep (cons p (cons q ps)) = p ++ (sep ++ join sep (cons q ps))

abbrev pub is_space : ℕ → Bool
is_space c = eqb c 32 || leb 9 c && leb c 13 || leb 28 c && leb c 31

unfoldable pub lstrip : String → String
lstrip [] = []
lstrip (d ∷ s) = let rest = lstrip s in if is_space (code d) then rest else d ∷ s

-- A character is kept at the end if it is no space or if what follows it is kept.
abbrev pub rstrip_cons : Char → String → String
rstrip_cons d [] = if is_space (code d) then [] else d ∷ []
rstrip_cons d (e ∷ t) = d ∷ e ∷ t

unfoldable pub rstrip : String → String
rstrip [] = []
rstrip (d ∷ s) = rstrip_cons d (rstrip s)

-- s.strip()
unfoldable pub strip : String → String
unfolding lstrip rstrip
strip s = lstrip (rstrip s)
