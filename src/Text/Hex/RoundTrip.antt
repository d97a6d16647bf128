-- ===== src/Text/Hex/RoundTrip.antt =====
-- `int(s, 16)` behind `format(n, "x")`: the digits of a serial number.
use Prim.Native.Char.{code}
use Prim.Native.String.{[], ◌∷◌}
use pkica.Base.{
  ℕ, zero, suc, ◌+◌, ◌*◌, ◌/◌, ◌%◌, ◌<◌, String, ◌≡◌, refl, Bool, true, false, none, some, arith,
  eqb, leb, ltb, all_below, all_below_sound, ◌&&◌, ◌||◌, Bool-cases, inl, inr, ap, ◌∙◌, ◌≢◌, ◌⊎◌,
}
use pkica.Base.Int.{pos}
use pkica.Text.Split.{strip, lstrip, rstrip}
use pkica.Text.Hex.{
  hex_digit, hex_from, format_hex, digit_value, read_digits, drop_prefix, read_signed, int_hex,
  nonnegative,
}
use text.Mathlib.TextLemmas.{cons-ne-nil}

-- A character from "0" to "9" or from "a" to "f".
abbrev is_digit : ℕ → Bool
is_digit c = leb 48 c && ltb c 58 || leb 97 c && ltb c 103

abbrev all_digits : String → Bool
all_digits [] = true
all_digits (d ∷ s) = is_digit (code d) && all_digits s

abbrev reads : ℕ → Bool
reads n = elim (digit_value (code (hex_digit n))) [ none ↦ false | some v ↦ eqb v n ]

digit_table : all_below 16 (λ n. is_digit (code (hex_digit n)) && reads n) ≡ true
unfolding all_below hex_digit digit_value
digit_table = refl

digit_facts : (n : ℕ) → n < 16 → (is_digit (code (hex_digit n)) && reads n) ≡ true
digit_facts n h = all_below_sound 16 _ n digit_table h

digit_value-hex_digit : (n : ℕ) → n < 16 → digit_value (code (hex_digit n)) ≡ some n
digit_value-hex_digit n h = ground (arith, digit_facts n h)

hex_from-all_digits :
    (f n : ℕ) (s : String) → all_digits s ≡ true → all_digits (hex_from f n s) ≡ true
unfolding hex_from
hex_from-all_digits zero n s h = h
hex_from-all_digits (suc f) n s h = ground (
  arith,
  digit_facts n,
  digit_facts (n % 16),
  hex_from-all_digits f (n / 16) (hex_digit (n % 16) ∷ s),
)

read_digits-cons :
    (acc v : ℕ) (seen : Bool) (s : String)
    → v < 16
    → read_digits acc seen (hex_digit v ∷ s) ≡ read_digits (acc * 16 + v) true s
unfolding read_digits
read_digits-cons acc v seen s h = ground (arith, digit_facts v h, digit_value-hex_digit v h)

read_digits-hex_from :
    (f n : ℕ) (seen : Bool) (s : String)
    → n < f
    → read_digits 0 seen (hex_from f n s) ≡ read_digits n true s
unfolding hex_from
read_digits-hex_from zero n seen s h = absurd (omega arith)
read_digits-hex_from (suc f) n seen s h = elim (Bool-cases (ltb n 16)) [
  | inl last ↦
      rw last
        (read_digits-cons 0 n seen s (ground arith) ∙ ap (λ k. read_digits k true s) (omega arith))
  | inr more ↦ rw more (
      read_digits-hex_from f (n / 16) seen (hex_digit (n % 16) ∷ s) (ground arith)
      ∙ read_digits-cons (n / 16) (n % 16) true s (omega arith)
      ∙ ap (λ k. read_digits k true s) (omega arith))
]

lstrip-all_digits : (s : String) → all_digits s ≡ true → lstrip s ≡ s
unfolding lstrip
lstrip-all_digits [] h = refl
lstrip-all_digits (d ∷ s) h = ground arith

rstrip-all_digits : (s : String) → all_digits s ≡ true → rstrip s ≡ s
unfolding rstrip
rstrip-all_digits [] h = refl
rstrip-all_digits (d ∷ []) h = ground arith
rstrip-all_digits (d ∷ e ∷ s) h = rw (rstrip-all_digits (e ∷ s) (ground arith))

strip-all_digits : (s : String) → all_digits s ≡ true → strip s ≡ s
unfolding strip
strip-all_digits s h = ground (arith, rstrip-all_digits s h, lstrip-all_digits s h)

drop_prefix-all_digits : (s : String) → all_digits s ≡ true → drop_prefix s ≡ s
unfolding drop_prefix
drop_prefix-all_digits [] h = refl
drop_prefix-all_digits (d ∷ []) h = refl
drop_prefix-all_digits (d ∷ e ∷ s) h = ground arith

read_signed-all_digits :
    (s : String)
    → all_digits s ≡ true
    → s ≢ []
    → read_signed s ≡ nonnegative (read_digits 0 false s)
unfolding read_signed
read_signed-all_digits [] h ne = absurd (ne refl)
read_signed-all_digits (d ∷ s) h ne = ground (arith, drop_prefix-all_digits (d ∷ s) h)

-- The text of n is not empty, whatever follows it.
hex_from-ne-nil : (f n : ℕ) (s : String) → (n < f) ⊎ (s ≢ []) → hex_from f n s ≢ []
unfolding hex_from
hex_from-ne-nil zero n s (inl h) = absurd (omega arith)
hex_from-ne-nil zero n s (inr h) = h
hex_from-ne-nil (suc f) n s h = ground (
  arith,
  hex_from-ne-nil f (n / 16) (hex_digit (n % 16) ∷ s) (inr (cons-ne-nil (hex_digit (n % 16)) s)),
  cons-ne-nil (hex_digit n) s,
)

-- Reading, as Python's `int(s, 16)` does, the text that `format(n, "x")` gives is n again.
pub int_hex-format_hex : (n : ℕ) → int_hex (format_hex n) ≡ some (pos n)
int_hex-format_hex n =
    let digits = hex_from-all_digits (suc n) n [] refl in
    unfold int_hex format_hex in
    rw (strip-all_digits (hex_from (suc n) n []) digits) (
      rw
        (read_signed-all_digits (hex_from (suc n) n []) digits
          (hex_from-ne-nil (suc n) n [] (inl (omega arith))))
        (rw (read_digits-hex_from (suc n) n false [] (omega arith))))
