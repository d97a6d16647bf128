-- ===== src/Effect.antt =====
-- Exceptions as values, and methods that change state and may raise. What was written before a raise
-- stays written, so the state comes back beside the error too.
pub mod Keeps
pub mod Gives
pub mod Commits
use pkica.Base.{ℕ, String, Bool, true, false, Option, none, some}

-- The exceptions of the services, with the text that `str(exc)` gives; `outside` is one that a
-- library or a remote service raises.
pub data Error : Type 0 where
  policy_violation lookup_error value_error key_error attribute_error outside : String → Error
  overflow_error : Error
  http_exception : ℕ → String → Error

-- str(exc)
abbrev pub message : Error → String
message (policy_violation s) = s
message (lookup_error s) = s
message (value_error s) = s
message (key_error s) = s
message (attribute_error s) = s
message (outside s) = s
message overflow_error = "date value out of range"
message (http_exception _ s) = s

pub data Result {ℓ} (A : Type ℓ) : Type ℓ where
  ok : A → Result A
  err : Error → Result A

-- The next step of a computation that has no state.
abbrev pub and_then : {A B : Type 0} → Result A → (A → Result B) → Result B
and_then (ok a) f = f a
and_then (err e) f = err e

abbrev pub Exec : Type 0 → Type 0 → Type 0
Exec S A = S → Result A × S

module _ {S A : Type 0} where
  unfoldable pub pure : A → Exec S A
  pure a s = (ok a, s)

  unfoldable pub raise : Error → Exec S A
  raise e s = (err e, s)

  unfoldable pub lift : Result A → Exec S A
  lift r s = (r, s)

  -- `if x is None: raise e`
  unfoldable pub or_raise : Option A → Error → Exec S A
  or_raise none e s = (err e, s)
  or_raise (some a) e s = (ok a, s)

module _ {S : Type 0} where
  -- `if b: raise e`
  unfoldable pub raise_if : Bool → Error → Exec S (Unit {0})
  raise_if true e s = (err e, s)
  raise_if false e s = (ok tt, s)

-- `except E as exc: raise F from exc`
abbrev pub error_of : {A : Type 0} → (Error → Error) → Result A → Result A
error_of f (ok a) = ok a
error_of f (err e) = err (f e)

unfoldable pub map_error : {S A : Type 0} → (Error → Error) → Exec S A → Exec S A
map_error f m s = let (r, s') = m s in (error_of f r, s')

-- What follows a call: the rest if it returned, and its exception if it raised.
abbrev pub continue : {S A B : Type 0} → Result A → (A → Exec S B) → Exec S B
continue (ok a) f s = f a s
continue (err e) f s = (err e, s)

infixl 5 ◌>>=◌ ◌>>◌
unfoldable pub ◌>>=◌ : {S A B : Type 0} → Exec S A → (A → Exec S B) → Exec S B
unfolding pure raise lift or_raise raise_if map_error
◌>>=◌ m f s = let (r, s') = m s in continue r f s'

abbrev pub ◌>>◌ : {S A B : Type 0} → Exec S A → Exec S B → Exec S B
m >> n = m >>= λ _. n
