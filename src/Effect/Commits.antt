-- ===== src/Effect/Commits.antt =====
-- Blocks that may leave an invariant broken when they raise, for a session that is rolled back then.
use pkica.Base.{◌≡◌, refl}
use pkica.Effect.{Error, Result, ok, err, Exec, raise, map_error, error_of, continue, ◌>>=◌}
use pkica.Effect.Keeps.{Keeps}

-- The state has the property if a result came back.
abbrev pub IfReturned : {S A : Type 0} → (S → Type 0) → Result A → S → Type 0
IfReturned P (ok a) s = P s
IfReturned P (err e) s = Unit

-- `m` keeps `P` when it returns.
pub record Commits {S A : Type 0} (P : S → Type 0) (m : Exec S A) : Type 0 where
  pub at : (s : S) → P s → IfReturned P (m s).0 (m s).1

-- `m` does not return.
pub record Raises {S A : Type 0} (m : Exec S A) : Type 0 where
  pub failure : (s : S) → (e : Error) × ((m s).0 ≡ err e)

module _ {S A : Type 0} where
  pub Raises-raise : (e : Error) → Raises (raise {S = S} {A = A} e)
  unfolding raise
  Raises-raise e = record { failure = λ s. (e, refl) }

module _ {S A B : Type 0} where
  continue-Raises :
      (r : Result A) (f : A → Exec S B)
      → ((a : A) → Raises (f a))
      → (s : S) → (e : Error) × ((continue r f s).0 ≡ err e)
  continue-Raises (ok a) f rf s = (rf a).failure s
  continue-Raises (err e) f rf s = (e, refl)

  pub Raises-bind : (m : Exec S A) (f : A → Exec S B) → ((a : A) → Raises (f a)) → Raises (m >>= f)
  unfolding ◌>>=◌
  Raises-bind m f rf = record { failure = λ s. continue-Raises (m s).0 f rf (m s).1 }

module _ {S A : Type 0} (P : S → Type 0) where
  IfReturned-kept : (r : Result A) (s : S) → P s → IfReturned P r s
  IfReturned-kept (ok a) s h = h
  IfReturned-kept (err e) s h = tt

  IfReturned-raised : (r : Result A) (s : S) {e : Error} → r ≡ err e → IfReturned P r s
  IfReturned-raised (ok a) s h = absurd cc
  IfReturned-raised (err e) s h = tt

  IfReturned-renamed :
      (g : Error → Error) (r : Result A) (s : S) → IfReturned P r s → IfReturned P (error_of g r) s
  IfReturned-renamed g (ok a) s h = h
  IfReturned-renamed g (err e) s h = tt

module _ {S : Type 0} {P : S → Type 0} where
  pub Commits-Keeps : {A : Type 0} (m : Exec S A) → Keeps P m → Commits P m
  Commits-Keeps m k = record { at = λ s h. IfReturned-kept P (m s).0 (m s).1 (k.at s h) }

  pub Commits-Raises : {A : Type 0} (m : Exec S A) → Raises m → Commits P m
  Commits-Raises m r = record {
    at = λ s h. let (e, raised) = r.failure s in IfReturned-raised P (m s).0 (m s).1 raised;
  }

  continue-Commits :
      {A B : Type 0} (r : Result A) (f : A → Exec S B)
      → ((a : A) → Commits P (f a))
      → (s : S) → IfReturned P r s
      → IfReturned P (continue r f s).0 (continue r f s).1
  continue-Commits (ok a) f cf s h = (cf a).at s h
  continue-Commits (err e) f cf s h = tt

  pub Commits-bind :
      {A B : Type 0} (m : Exec S A) (f : A → Exec S B)
      → Commits P m
      → ((a : A) → Commits P (f a))
      → Commits P (m >>= f)
  unfolding ◌>>=◌
  Commits-bind m f cm cf = record { at = λ s h. continue-Commits (m s).0 f cf (m s).1 (cm.at s h) }

  pub Commits-map_error :
      {A : Type 0} (g : Error → Error) (m : Exec S A) → Commits P m → Commits P (map_error g m)
  unfolding map_error
  Commits-map_error g m c = record { at = λ s h. IfReturned-renamed P g (m s).0 (m s).1 (c.at s h) }
