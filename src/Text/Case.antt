-- ===== src/Text/Case.antt =====
-- `s.upper() == t` and `s.lower()` for texts in Latin-1, and decimal numerals.
use Prim.Native.Char.{Char, code}
use Prim.Native.String.{[], ◌∷◌, char_at}
use mathlib.Core.List.{[] as nil, ◌∷◌ as cons, ◌++◌}
use pkica.Base.{
  ℕ, zero, suc, ◌-◌, ◌/◌, ◌%◌, String, Bool, true, false, not, ◌&&◌, List, eqb, leb, ltb,
  if◌then◌else◌,
}

abbrev pub codes : String → List ℕ
codes [] = nil
codes (d ∷ s) = cons (code d) (codes s)

-- The upper case of a Latin-1 character: two letters for the sharp s.
unfoldable pub upper_code : ℕ → List ℕ
upper_code c =
    if leb 97 c && leb c 122
    then cons (c - 32) nil
    else if eqb c 223
    then cons 83 (cons 83 nil)
    else if leb 224 c && leb c 254 && not (eqb c 247)
    then cons (c - 32) nil
    else if eqb c 181
    then cons 924 nil
    else if eqb c 255
    then cons 376 nil
    else cons c nil

-- s.upper(), as the numbers of its characters
unfoldable pub upper : String → List ℕ
unfolding upper_code
upper [] = nil
upper (d ∷ s) = upper_code (code d) ++ upper s

abbrev pub same_codes : List ℕ → List ℕ → Bool
same_codes nil nil = true
same_codes (cons a as_) (cons b bs) = eqb a b && same_codes as_ bs
same_codes _ _ = false

-- s.upper() == t
unfoldable pub upper_equals : String → String → Bool
unfolding upper
upper_equals s t = same_codes (upper s) (codes t)

unfoldable pub decimal_from : ℕ → ℕ → String → String
decimal_from zero n s = s
decimal_from (suc fuel) n s =
    let rest = decimal_from fuel (n / 10) (char_at "0123456789" (n % 10) ∷ s) in
    if ltb n 10 then char_at "0123456789" n ∷ s else rest

-- str(n) of a number; its digits are fewer than n + 1
unfoldable pub decimal : ℕ → String
unfolding decimal_from
decimal n = decimal_from (suc n) n []

-- The lower case of a character in Latin-1.
abbrev lower_char : Char → Char
lower_char d =
    let c = code d in
    if leb 65 c && leb c 90
    then char_at "abcdefghijklmnopqrstuvwxyz" (c - 65)
    else if leb 192 c && leb c 222 && not (eqb c 215)
    then char_at "àáâãäåæçèéêëìíîïðñòóôõö÷øùúûüýþ" (c - 192)
    else d

-- s.lower() for a text in Latin-1; a character beyond is left as it is
unfoldable pub lower : String → String
lower [] = []
lower (d ∷ s) = lower_char d ∷ lower s
