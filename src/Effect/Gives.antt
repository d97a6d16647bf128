-- ===== src/Effect/Gives.antt =====
-- Properties of what a block returns, one rule for each way to build a block.
use pkica.Effect.{Error, Result, ok, err, error_of, continue, Exec, pure, raise, map_error, ◌>>=◌}

abbrev pub OfResult : {A : Type 0} → (A → Type 0) → Result A → Type 0
OfResult Q (ok a) = Q a
OfResult Q (err e) = Unit

-- What the block returns has the property.
pub record Gives {S A : Type 0} (Q : A → Type 0) (m : Exec S A) : Type 0 where
  pub gives : (s : S) → OfResult Q (m s).0

module _ {S A B : Type 0} {R : A → Type 0} {Q : B → Type 0} where
  behind :
      (r : Result A) (f : A → Exec S B) (s : S)
      → OfResult R r
      → ((a : A) → R a → Gives Q (f a))
      → OfResult Q (continue r f s).0
  behind (ok a) f s h k = (k a h).gives s
  behind (err e) f s h k = tt

  pub Gives-bind :
      (m : Exec S A) (f : A → Exec S B)
      → Gives R m
      → ((a : A) → R a → Gives Q (f a))
      → Gives Q (m >>= f)
  unfolding ◌>>=◌
  Gives-bind m f g k = record { gives = λ s. behind (m s).0 f (m s).1 (g.gives s) k }

any_result : {A : Type 0} (r : Result A) → OfResult (λ a. Unit {0}) r
any_result (ok a) = tt
any_result (err e) = tt

module _ {S A : Type 0} where
  pub Gives-any : (m : Exec S A) → Gives (λ a. Unit {0}) m
  Gives-any m = record { gives = λ s. any_result (m s).0 }

module _ {S A B : Type 0} {Q : B → Type 0} where
  -- behind a call of which nothing is asked
  pub Gives-after :
      (m : Exec S A) (f : A → Exec S B) → ((a : A) → Gives Q (f a)) → Gives Q (m >>= f)
  Gives-after m f k = Gives-bind m f (Gives-any m) (λ a u. k a)

renamed :
    {A : Type 0} (Q : A → Type 0) (f : Error → Error) (r : Result A)
    → OfResult Q r
    → OfResult Q (error_of f r)
renamed Q f (ok a) h = h
renamed Q f (err e) h = tt

module _ {S A : Type 0} {Q : A → Type 0} where
  pub Gives-pure : (a : A) → Q a → Gives {S = S} Q (pure a)
  unfolding pure
  Gives-pure a h = record { gives = λ s. h }

  pub Gives-raise : (e : Error) → Gives {S = S} Q (raise e)
  unfolding raise
  Gives-raise e = record { gives = λ s. tt }

  pub Gives-map_error : (f : Error → Error) (m : Exec S A) → Gives Q m → Gives Q (map_error f m)
  unfolding map_error
  Gives-map_error f m g = record { gives = λ s. renamed Q f (m s).0 (g.gives s) }
