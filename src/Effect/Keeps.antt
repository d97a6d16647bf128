-- ===== src/Effect/Keeps.antt =====
-- Rules for the methods: what a block that returned did, and invariants that a block keeps, one rule
-- for each way to build a block.
use pkica.Base.{◌≡◌, refl, Bool, true, false, Option, none, some, if◌then◌else◌}
use pkica.Effect.{
  Error, Result, ok, err, and_then, Exec, pure, raise, lift, or_raise, raise_if, map_error,
  continue, ◌>>=◌,
}

continue_returned :
    {S A B : Type 0} (r : Result A × S) (f : A → Exec S B) {b : B} {s' : S}
    → continue r.0 f r.1 ≡ (ok b, s')
    → (a : A) × (s₁ : S) × (r ≡ (ok a, s₁)) × (f a s₁ ≡ (ok b, s'))
continue_returned (ok a, s₁) f h = (a, s₁, refl, h)
continue_returned (err e, s₁) f h = cc

-- A block that returned did so after its first call had returned.
pub bind_returned :
    {S A B : Type 0} (m : Exec S A) (f : A → Exec S B) (s : S) {b : B} {s' : S}
    → (m >>= f) s ≡ (ok b, s')
    → (a : A) × (s₁ : S) × (m s ≡ (ok a, s₁)) × (f a s₁ ≡ (ok b, s'))
unfolding ◌>>=◌
bind_returned m f s h = continue_returned (m s) f h

pub and_then_returned :
    {A B : Type 0} (r : Result A) (f : A → Result B) {b : B}
    → and_then r f ≡ ok b
    → (a : A) × (r ≡ ok a) × (f a ≡ ok b)
and_then_returned (ok a) f h = (a, refl, h)
and_then_returned (err e) f h = absurd cc

-- `m` keeps `P`, whether it returns or raises.
pub record Keeps {S A : Type 0} (P : S → Type 0) (m : Exec S A) : Type 0 where
  pub at : (s : S) → P s → P (m s).1

module _ {S A : Type 0} {P : S → Type 0} where
  pub Keeps-pure : (value : A) → Keeps P (pure value)
  unfolding pure
  Keeps-pure value = record { at = λ before held. held }

  pub Keeps-raise : (e : Error) → Keeps P (raise {A = A} e)
  unfolding raise
  Keeps-raise e = record { at = λ s h. h }

  pub Keeps-lift : (outcome : Result A) → Keeps P (lift outcome)
  unfolding lift
  Keeps-lift outcome = record { at = λ before held. held }

  pub Keeps-map_error : (f : Error → Error) (m : Exec S A) → Keeps P m → Keeps P (map_error f m)
  unfolding map_error
  Keeps-map_error f m k = record { at = k.at }

  pub Keeps-if : (b : Bool) (m n : Exec S A) → Keeps P m → Keeps P n → Keeps P (if b then m else n)
  Keeps-if true m n k l = k
  Keeps-if false m n k l = l

  pub Keeps-or_raise : (o : Option A) (e : Error) → Keeps P (or_raise o e)
  unfolding or_raise
  Keeps-or_raise none e = record { at = λ s h. h }
  Keeps-or_raise (some a) e = record { at = λ s h. h }

module _ {S : Type 0} {P : S → Type 0} where
  pub Keeps-raise_if : (b : Bool) (e : Error) → Keeps P (raise_if b e)
  unfolding raise_if
  Keeps-raise_if true e = record { at = λ s h. h }
  Keeps-raise_if false e = record { at = λ s h. h }

module _ {S A B : Type 0} {P : S → Type 0} where
  keeps_continue :
      (outcome : Result A) (rest : A → Exec S B)
      → ((a : A) → Keeps P (rest a))
      → (s : S) → P s
      → P (continue outcome rest s).1
  keeps_continue (ok a) rest kr s h = (kr a).at s h
  keeps_continue (err e) rest kr s h = h

  pub Keeps-bind :
      (call : Exec S A) (rest : A → Exec S B)
      → Keeps P call
      → ((a : A) → Keeps P (rest a))
      → Keeps P (call >>= rest)
  unfolding ◌>>=◌
  Keeps-bind call rest kc kr = record {
    at = λ s h. keeps_continue (call s).0 rest kr (call s).1 (kc.at s h);
  }

module _ {S A B : Type 0} {P : S → Type 0} where
  -- Behind a test, a block need keep the property only when the test has passed.
  pub Keeps-after_or_raise :
      (o : Option A) (e : Error) (rest : A → Exec S B)
      → ((a : A) → o ≡ some a → Keeps P (rest a))
      → Keeps P (or_raise o e >>= rest)
  unfolding ◌>>=◌ or_raise
  Keeps-after_or_raise none e rest k = record { at = λ s h. h }
  Keeps-after_or_raise (some a) e rest k = record { at = (k a refl).at }

  pub Keeps-after_lift :
      (outcome : Result A) (rest : A → Exec S B)
      → ((a : A) → outcome ≡ ok a → Keeps P (rest a))
      → Keeps P (lift outcome >>= rest)
  unfolding ◌>>=◌ lift
  Keeps-after_lift (ok a) rest k = record { at = (k a refl).at }
  Keeps-after_lift (err e) rest k = record { at = λ s h. h }

module _ {S B : Type 0} {P : S → Type 0} where
  pub Keeps-after_raise_if :
      (b : Bool) (e : Error) (rest : Unit {0} → Exec S B)
      → (b ≡ false → Keeps P (rest tt))
      → Keeps P (raise_if b e >>= rest)
  unfolding ◌>>=◌ raise_if
  Keeps-after_raise_if true e rest k = record { at = λ s h. h }
  Keeps-after_raise_if false e rest k = record { at = (k refl).at }

pub ruleset keeps_rules = (
  Keeps-pure, Keeps-raise, Keeps-lift, Keeps-or_raise, Keeps-raise_if, Keeps-map_error, Keeps-bind,
)
