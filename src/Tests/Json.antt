-- ===== src/Tests/Json.antt =====
-- A codec for the details of an audit entry, in place of `json.dumps` and `json.loads`: a text is its
-- characters, each behind a `c`, and an `e`; a pair is its mark, its key and its value.
use Prim.Native.Char.{Char, code}
use Prim.Native.String.{[], ◌∷◌, char_at}
use mathlib.Core.List.{[] as nil, ◌∷◌ as cons}
use pkica.Base.{
  ℕ, zero, suc, String, ◌≡◌, refl, ap, Bool, Option, none, some, List, arith, eqb, if◌then◌else◌,
}
use pkica.Audit.{Details, text, number}

abbrev mark : ℕ → Char
mark = char_at "cetn"

unfoldable pub write_text : String → String → String
write_text [] s = mark 1 ∷ s
write_text (x ∷ xs) s = mark 0 ∷ x ∷ write_text xs s

unfoldable pub tally : ℕ → String
tally zero = []
tally (suc n) = mark 0 ∷ tally n

unfoldable pub count : String → ℕ
count [] = 0
count (_ ∷ s) = suc (count s)

unfoldable pub dumps : Details → String
dumps nil = []
dumps (cons (k, text v) d) = mark 2 ∷ write_text k (write_text v (dumps d))
dumps (cons (k, number n) d) = mark 3 ∷ write_text k (write_text (tally n) (dumps d))

-- What the rest of a text holds: the texts that no pair has taken yet, and the pairs behind them.
abbrev Parsed : Type 0
Parsed = Option (List String × Details)

unfoldable pub push : Char → Parsed → Parsed
push x (some (cons s ss, d)) = some (cons (x ∷ s) ss, d)
push x _ = none

unfoldable pub open_text : Parsed → Parsed
open_text (some (ss, d)) = some (cons [] ss, d)
open_text none = none

unfoldable pub pair_text : Parsed → Parsed
pair_text (some (cons k (cons v ss), d)) = some (ss, cons (k, text v) d)
pair_text _ = none

unfoldable pub pair_number : Parsed → Parsed
pair_number (some (cons k (cons v ss), d)) = some (ss, cons (k, number (count v)) d)
pair_number _ = none

abbrev marked : ℕ → Parsed → Parsed
marked c rest =
    if eqb c 101
    then open_text rest
    else if eqb c 116
    then pair_text rest
    else if eqb c 110
    then pair_number rest
    else none

unfoldable pub parse : String → Parsed
unfolding open_text pair_text pair_number push
parse [] = some (nil, nil)
parse (c ∷ []) = marked (code c) (some (nil, nil))
parse (c ∷ x ∷ s) =
    let near = parse (x ∷ s) in
    let far = parse s in if eqb (code c) 99 then push x far else marked (code c) near

-- all texts belong to pairs
unfoldable pub finished : Parsed → Option Details
finished (some (nil, d)) = some d
finished _ = none

unfoldable pub loads : String → Option Details
unfolding parse finished
loads s = finished (parse s)

parse-mark :
    (i : ℕ) (s : String)
    → eqb (code (mark i)) 99 ≡ Bool.false
    → parse (mark i ∷ s) ≡ marked (code (mark i)) (parse s)
unfolding parse
parse-mark i [] h = refl
parse-mark i (x ∷ s) h = ground (arith, h)

parse-write_text :
    (t s : String) (ss : List String) (d : Details)
    → parse s ≡ some (ss, d)
    → parse (write_text t s) ≡ some (cons t ss, d)
unfolding write_text parse push
parse-write_text [] s ss d h = rw (parse-mark 1 s refl) (unfold open_text in rw h refl)
parse-write_text (x ∷ xs) s ss d h = rw (parse-write_text xs s ss d h) refl

count-tally : (n : ℕ) → count (tally n) ≡ n
unfolding count tally
count-tally zero = refl
count-tally (suc n) = ap suc (count-tally n)

parse-dumps : (d : Details) → parse (dumps d) ≡ some (nil, d)
unfolding dumps pair_text pair_number
parse-dumps nil = unfold parse in refl
parse-dumps (cons (k, text v) d) =
    let value = parse-write_text v (dumps d) nil d (parse-dumps d) in
    let key = parse-write_text k (write_text v (dumps d)) (cons v nil) d value in
    rw (parse-mark 2 (write_text k (write_text v (dumps d))) refl) (rw key refl)
parse-dumps (cons (k, number n) d) =
    let value = parse-write_text (tally n) (dumps d) nil d (parse-dumps d) in
    let key = parse-write_text k (write_text (tally n) (dumps d)) (cons (tally n) nil) d value in
    rw (parse-mark 3 (write_text k (write_text (tally n) (dumps d))) refl)
      (rw key (rw (count-tally n) refl))

pub loads-dumps : (d : Details) → loads (dumps d) ≡ some d
unfolding loads finished
loads-dumps d = rw (parse-dumps d) refl
