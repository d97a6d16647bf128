-- ===== src/Platform/Keeps.antt =====
-- Invariants of the database, and the calls of the clock, the random sources and the key store.
use pkica.Base.{ℕ, Bool, true, false, if◌then◌else◌}
use pkica.Effect.{Error, Result, ok, err, Exec}
use pkica.Effect.Keeps.{Keeps}
use pkica.Models.{Db}
use pkica.Platform.{Platform, World, now, uuid4, urandom, with_kms, with_db, read_db}

pub record OnDb {p : Platform} (Q : Db → Type 0) (w : World p) : Type 0 where
  pub holds : Q w.db

-- The result of a statement, if there is one, has the property.
abbrev pub Ensures : (Db → Type 0) → Result Db → Type 0
Ensures Q (ok db) = Q db
Ensures Q (err e) = Unit

-- A write that a guard may refuse.
pub Ensures-if :
    (Q : Db → Type 0) (b : Bool) (db : Db) (e : Error)
    → Q db
    → Ensures Q (if b then ok db else err e)
Ensures-if Q true db e h = h
Ensures-if Q false db e h = tt

module _ {p : Platform} {Q : Db → Type 0} where
  pub Keeps-now : Keeps (OnDb {p = p} Q) now
  unfolding now
  Keeps-now = record { at = λ w h. record { holds = h.holds } }

  pub Keeps-uuid4 : Keeps (OnDb {p = p} Q) uuid4
  unfolding uuid4
  Keeps-uuid4 = record { at = λ w h. record { holds = h.holds } }

  pub Keeps-urandom : (n : ℕ) → Keeps (OnDb {p = p} Q) (urandom n)
  unfolding urandom
  Keeps-urandom n = record { at = λ w h. record { holds = h.holds } }

  pub Keeps-with_kms : {A : Type 0} (m : Exec p.KmsState A) → Keeps (OnDb {p = p} Q) (with_kms m)
  unfolding with_kms
  Keeps-with_kms m = record { at = λ w h. record { holds = h.holds } }

  pub Keeps-read_db : {A : Type 0} (f : Db → A) → Keeps (OnDb {p = p} Q) (read_db f)
  unfolding read_db
  Keeps-read_db f = record { at = λ w h. record { holds = h.holds } }

  written : (r : Result Db) (w : World p) → Ensures Q r → OnDb Q w → OnDb Q (with_db (λ _. r) w).1
  unfolding with_db
  written (ok db) w e h = record { holds = e }
  written (err x) w e h = h

  pub Keeps-with_db :
      (f : Db → Result Db)
      → ((db : Db) → Q db → Ensures Q (f db))
      → Keeps (OnDb {p = p} Q) (with_db f)
  Keeps-with_db f keep = record {
    at = λ w h. unfold with_db in written (f w.db) w (keep w.db h.holds) h;
  }

pub ruleset db_rules = (Keeps-now, Keeps-uuid4, Keeps-urandom, Keeps-with_kms, Keeps-read_db)
