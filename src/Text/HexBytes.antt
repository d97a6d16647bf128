-- ===== src/Text/HexBytes.antt =====
-- `bytes.hex` and `bytes.fromhex`, by which a key identifier is stored and read back.
use Prim.Native.Char.{code}
use Prim.Native.String.{[], ◌∷◌}
use mathlib.Core.List.{[] as nil, ◌∷◌ as cons}
use pkica.Base.{ℕ, ◌+◌, ◌*◌, ◌/◌, ◌%◌, String, Option, none, some, List, if◌then◌else◌}
use pkica.Text.Hex.{hex_digit, digit_value}
use pkica.Text.Split.{is_space}

unfoldable pub hex_of_bytes : List ℕ → String
hex_of_bytes nil = []
hex_of_bytes (cons b bs) = hex_digit (b / 16) ∷ hex_digit (b % 16) ∷ hex_of_bytes bs

abbrev two_digits : Option ℕ → Option ℕ → Option (List ℕ) → Option (List ℕ)
two_digits (some h) (some l) (some bs) = some (cons (h * 16 + l) bs)
two_digits _ _ _ = none

-- Spaces are skipped between bytes; `none` is the ValueError.
unfoldable pub bytes_from_hex : String → Option (List ℕ)
bytes_from_hex [] = some nil
bytes_from_hex (c ∷ []) = if is_space (code c) then some nil else none
bytes_from_hex (c ∷ d ∷ s) =
    let skipped = bytes_from_hex (d ∷ s) in
    let rest = bytes_from_hex s in
    if is_space (code c)
    then skipped
    else two_digits (digit_value (code c)) (digit_value (code d)) rest
