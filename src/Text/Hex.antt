-- ===== src/Text/Hex.antt =====
-- Hexadecimal numerals: `format(n, "x")`, by which a serial number is stored, and `int(s, 16)`, by
-- which it is read back (for text in ASCII).
pub mod RoundTrip
use Prim.Native.Char.{Char, code}
use Prim.Native.String.{[], ◌∷◌, char_at}
use pkica.Base.{
  ℕ, zero, suc, ◌+◌, ◌-◌, ◌*◌, ◌/◌, ◌%◌, String, ◌≡◌, refl, Bool, true, false, ◌&&◌, ◌||◌, Option,
  none, some, eqb, leb, ltb, if◌then◌else◌,
}
use pkica.Base.Int.{ℤ, pos, ◌-ℤ◌}
use pkica.Text.Split.{strip}

unfoldable pub hex_digit : ℕ → Char
hex_digit n = char_at "0123456789abcdef" n

-- The digits of n in front of s. A number below the fuel has fewer digits than the fuel.
unfoldable pub hex_from : ℕ → ℕ → String → String
unfolding hex_digit
hex_from zero n s = s
hex_from (suc fuel) n s =
    let rest = hex_from fuel (n / 16) (hex_digit (n % 16) ∷ s) in
    if ltb n 16 then hex_digit n ∷ s else rest

-- format(n, "x")
unfoldable pub format_hex : ℕ → String
unfolding hex_from
format_hex n = hex_from (suc n) n []

unfoldable pub digit_value : ℕ → Option ℕ
digit_value c =
    if leb b'0' c && leb c b'9'
    then some (c - b'0')
    else if leb b'a' c && leb c b'f'
    then some (c - 87)
    else if leb b'A' c && leb c b'F'
    then some (c - 55)
    else none

-- The digits after `acc`; an underscore may stand between two digits, and none may end the text.
unfoldable pub read_digits : ℕ → Bool → String → Option ℕ
unfolding digit_value
read_digits acc seen [] = if seen then some acc else none
read_digits acc seen (d ∷ s) = elim (eqb (code d) b'_') [
  | true ↦ if seen then read_digits acc false s else none
  | false ↦ elim (digit_value (code d)) [ none ↦ none | some v ↦ read_digits (acc * 16 + v) true s ]
]

-- `0x`, `0X`, with an underscore after it or not
unfoldable pub drop_underscore : String → String
drop_underscore [] = []
drop_underscore (d ∷ s) = if eqb (code d) b'_' then s else d ∷ s

unfoldable pub drop_prefix : String → String
unfolding drop_underscore
drop_prefix [] = []
drop_prefix (d ∷ []) = d ∷ []
drop_prefix (d ∷ e ∷ s) =
    if eqb (code d) b'0' && (eqb (code e) b'x' || eqb (code e) b'X')
    then drop_underscore s
    else d ∷ e ∷ s

abbrev negated : Option ℕ → Option ℤ
negated none = none
negated (some n) = some (pos 0 -ℤ pos n)

abbrev pub nonnegative : Option ℕ → Option ℤ
nonnegative none = none
nonnegative (some n) = some (pos n)

unfoldable pub read_signed : String → Option ℤ
read_signed [] = none
read_signed (d ∷ s) =
    if eqb (code d) b'-'
    then negated (read_digits 0 false (drop_prefix s))
    else if eqb (code d) b'+'
    then nonnegative (read_digits 0 false (drop_prefix s))
    else nonnegative (read_digits 0 false (drop_prefix (d ∷ s)))

-- int(s, 16); `none` is the ValueError
unfoldable pub int_hex : String → Option ℤ
unfolding read_signed read_digits drop_prefix strip ◌-ℤ◌
int_hex s = read_signed (strip s)
