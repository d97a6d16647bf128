-- ===== src/Text/Join.antt =====
-- `split` behind `join`, for one character as the separator.
use Prim.Native.Char.{Char, code}
use Prim.Native.String.{[], ◌∷◌, ◌++◌}
use Prim.Native.String.append
use mathlib.Core.List.{[] as nil, ◌∷◌ as cons}
use pkica.Base.{ℕ, String, ◌≡◌, refl, false, List, arith, eqb_refl, All}
use pkica.Text.Split.{contains, split, join}

-- No piece holds the character.
abbrev pub Free : ℕ → List String → Type 0
Free c = All (λ p. contains c p ≡ false)

split-free : (c : ℕ) (p : String) → contains c p ≡ false → split c p ≡ cons p nil
unfolding split contains
split-free c [] h = refl
split-free c (d ∷ s) h = ground (arith, split-free c s)

split-append :
    (c : Char) (p s : String)
    → contains (code c) p ≡ false
    → split (code c) (p ++ (c ∷ s)) ≡ cons p (split (code c) s)
unfolding split contains
split-append c [] s h = rw append.nil (rw (eqb_refl (code c)))
split-append c (d ∷ p) s h = rw append.cons (ground (arith, split-append c p s))

-- A text that `join` gave splits into the pieces that it was made of, when none holds the separator
pub split-join :
    (c : Char) (p : String) (ps : List String)
    → Free (code c) (cons p ps)
    → split (code c) (join (c ∷ []) (cons p ps)) ≡ cons p ps
unfolding join
split-join c p nil h = split-free (code c) p h.0
split-join c p (cons q ps) h = rw append.cons (
    rw append.nil
      (rw (split-append c p (join (c ∷ []) (cons q ps)) h.0) (rw (split-join c q ps h.1))))
