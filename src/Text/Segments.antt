-- ===== src/Text/Segments.antt =====
-- What `rstrip` and `rsplit` give for a path whose last segment is known, and lengths of texts.
use Prim.Native.Char.{Char, code}
use Prim.Native.String.{[], ◌∷◌, ◌++◌}
use Prim.Native.String.append
use pkica.Base.{ℕ, zero, suc, ◌+◌, String, ◌≡◌, refl, sym, true, false, arith, eqb_refl}
use pkica.Json.{nonempty}
use pkica.Text.{contains, text_length, rstrip_char, after_last, repeat}

contains-append_right :
    (c : ℕ) (front s : String) → contains c s ≡ true → contains c (front ++ s) ≡ true
unfolding contains
contains-append_right c [] s h = rw append.nil h
contains-append_right c (d ∷ front) s h =
    rw append.cons (ground (arith, contains-append_right c front s h))

-- what stands in front of a segment does not matter behind the last separator
after_last-append :
    (c : ℕ) (front s : String) → contains c s ≡ true → after_last c (front ++ s) ≡ after_last c s
unfolding after_last
after_last-append c [] s h = rw append.nil refl
after_last-append c (d ∷ front) s h =
    rw append.cons (rw (contains-append_right c front s h) (after_last-append c front s h))

after_last-separator :
    (c : Char) (s : String) → contains (code c) s ≡ false → after_last (code c) (c ∷ s) ≡ s
unfolding after_last
after_last-separator c s h = rw h (rw (eqb_refl (code c)) refl)

rstrip_char-free : (c : ℕ) (s : String) → contains c s ≡ false → rstrip_char c s ≡ s
unfolding rstrip_char contains
rstrip_char-free c [] h = refl
rstrip_char-free c (d ∷ []) h = ground arith
rstrip_char-free c (d ∷ e ∷ s) h =
    let ih : rstrip_char c (e ∷ s) ≡ e ∷ s = rstrip_char-free c (e ∷ s) (ground arith) in rw ih refl

rstrip_char-cons :
    (c : ℕ) (d e : Char) (s : String)
    → rstrip_char c (e ∷ s) ≡ e ∷ s
    → rstrip_char c (d ∷ e ∷ s) ≡ d ∷ e ∷ s
unfolding rstrip_char
rstrip_char-cons c d e s h = rw h refl

rstrip_char-append :
    (c : ℕ) (front : String) (d : Char) (s : String)
    → rstrip_char c (d ∷ s) ≡ d ∷ s
    → rstrip_char c (front ++ (d ∷ s)) ≡ front ++ (d ∷ s)
rstrip_char-append c [] d s h = rw append.nil h
rstrip_char-append c (e ∷ []) d s h = rw append.cons (rw append.nil (rstrip_char-cons c e d s h))
rstrip_char-append c (e ∷ f ∷ front) d s h =
    let t : String = d ∷ s in
    let ih = rstrip_char-append c (f ∷ front) d s h in
    let ih' : rstrip_char c (f ∷ (front ++ t)) ≡ f ∷ (front ++ t) =
      rw (sym (append.cons f front t)) ih in
    rw append.cons (rw append.cons (rstrip_char-cons c e f (front ++ t) ih'))

pub text_length-append :
    (front s : String) → text_length (front ++ s) ≡ text_length front + text_length s
unfolding text_length
text_length-append [] s = rw append.nil (ground arith)
text_length-append (c ∷ front) s = rw append.cons (ground (arith, text_length-append front s))

pub text_length-repeat : (c : Char) (n : ℕ) → text_length (repeat c n) ≡ n
unfolding text_length repeat
text_length-repeat c zero = refl
text_length-repeat c (suc n) = ground (arith, text_length-repeat c n)

-- the last segment of a path below `/account/`
after_account : (s : String) → contains b'/' s ≡ false → after_last b'/' ("/account/" ++ s) ≡ s
unfolding after_last contains
after_account s h =
    rw
      (
        append.cons, append.cons, append.cons, append.cons, append.cons, append.cons, append.cons,
        append.cons, append.cons, append.nil,
      )
      (ground (arith, h))

below_account : (s : String) → contains b'/' ("/account/" ++ s) ≡ true
unfolding contains
below_account s = rw append.cons refl

rstrip_char-whole :
    (c : ℕ) (front s : String)
    → nonempty s ≡ true
    → rstrip_char c s ≡ s
    → rstrip_char c (front ++ s) ≡ front ++ s
rstrip_char-whole c front [] n h = absurd cc
rstrip_char-whole c front (d ∷ s) n h = rstrip_char-append c front d s h

pub last_segment-account :
    (host s : String)
    → nonempty s ≡ true
    → contains b'/' s ≡ false
    → after_last b'/' (rstrip_char b'/' (host ++ ("/account/" ++ s))) ≡ s
last_segment-account host s n h =
    let below = "/account/" ++ s in
    let kept = rstrip_char-whole b'/' "/account/" s n (rstrip_char-free b'/' s h) in
    let n' : nonempty below ≡ true = rw append.cons refl in
    rw (rstrip_char-whole b'/' host below n' kept)
      (rw (after_last-append b'/' host below (below_account s)) (after_account s h))
