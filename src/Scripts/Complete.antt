-- ===== src/Scripts/Complete.antt =====
-- scripts/seed-profiles.py: what a run leaves behind.
use pkica.Base.{
  ℕ, ◌+◌, String, ◌≡◌, refl, sym, ap, ◌∙◌, Bool, true, false, ◌||◌, Option, none, some, List, [],
  ◌∷◌, ◌++◌, ◌==◌, eqb, eq_refl, any, find_first, All, arith, Bool-cases, inl, inr,
}
use mathlib.Core.List.{append_assoc, append-nil}
use pkica.Base.Lists.{any-append}
use pkica.Effect.{Error, ok, err, outside, pure, or_raise, ◌>>=◌}
use pkica.Effect.Keeps.{bind_returned}
use pkica.Models.{Db, CertProfile, CertificateAuthority, ca_named, profile_named}
use pkica.Platform.{Platform, World, uuid4, with_db, read_db}
use pkica.Scripts.Seed.{
  Spec, profiles, profile_of, insert_profile, add_missing, seed_profile, seed_all, no_ca, seed,
}

-- A row of this name is in the table.
abbrev pub Present : Db → Spec → Type 0
Present db spec = any (λ q. q.name == spec.name) db.cert_profiles ≡ true

found-Present :
    (name : String) (rows : List CertProfile) (q : CertProfile)
    → find_first (λ r. r.name == name) rows ≡ some q
    → any (λ r. r.name == name) rows ≡ true
found-Present name [] q h = absurd cc
found-Present name (x ∷ rows) q h = ground (arith, found-Present name rows q)

Present-found :
    (name : String) (rows : List CertProfile)
    → any (λ r. r.name == name) rows ≡ true
    → (q : CertProfile) × (find_first (λ r. r.name == name) rows ≡ some q)
Present-found name [] h = absurd cc
Present-found name (x ∷ rows) h = elim (Bool-cases (x.name == name)) [
  | inl y ↦ (x, rw y refl)
  | inr n ↦ let (q, e) = Present-found name rows (ground (arith, n, h)) in (q, rw n e)
]

-- The authorities are the same, and the profiles those of before with others behind them.
pub record Extends (before after : Db) : Type 0 where
  pub added : List CertProfile
  pub same_cas : after.certificate_authorities ≡ before.certificate_authorities
  pub extended : after.cert_profiles ≡ before.cert_profiles ++ added

Extends-refl : (db : Db) → Extends db db
Extends-refl db = record {
  added = [];
  same_cas = refl;
  extended = sym (append-nil db.cert_profiles);
}

Extends-trans : (a b c : Db) → Extends a b → Extends b c → Extends a c
Extends-trans a b c e f = record {
  added = e.added ++ f.added;
  same_cas = f.same_cas ∙ e.same_cas;
  extended = rw f.extended (rw e.extended (append_assoc a.cert_profiles e.added f.added));
}

Present-Extends : (a b : Db) (spec : Spec) → Extends a b → Present a spec → Present b spec
Present-Extends a b spec e h =
    rw e.extended (rw (any-append (λ q. q.name == spec.name) a.cert_profiles e.added) (rw h refl))

module _ {p : Platform} (ca_id : ℕ) (spec : Spec) where
  present_step :
      (w : World p) (q : CertProfile)
      → profile_named spec.name w.db ≡ some q
      → seed_profile ca_id spec w ≡ (ok tt, w)
  unfolding seed_profile add_missing ◌>>=◌ read_db pure
  present_step w q h = rw h refl

  abbrev row : World p → CertProfile
  row w = profile_of (p.uuid4_at w.calls) ca_id spec

  abbrev taken : World p → Bool
  taken w = any (λ q. q.name == (row w).name || eqb q.id (row w).id) w.db.cert_profiles

  abbrev with_row : World p → World p
  with_row w = record w {
    db = record w.db { cert_profiles = w.db.cert_profiles ++ row w ∷ [] };
    calls = w.calls + 1;
  }

  added_step :
      (w : World p)
      → profile_named spec.name w.db ≡ none
      → taken w ≡ false
      → seed_profile ca_id spec w ≡ (ok tt, with_row w)
  unfolding seed_profile add_missing insert_profile ◌>>=◌ read_db uuid4 with_db
  added_step w h k = rw h (rw k refl)

  taken_step :
      (w : World p)
      → profile_named spec.name w.db ≡ none
      → taken w ≡ true
      → (e : Error) × ((seed_profile ca_id spec w).0 ≡ err e)
  unfolding seed_profile add_missing insert_profile ◌>>=◌ read_db uuid4 with_db
  taken_step w h k = (outside "IntegrityError", rw h (rw k refl))

  abbrev Seeded : World p → World p → Type 0
  Seeded w w' = Extends w.db w'.db × Present w'.db spec

  row_Seeded : (w : World p) → Seeded w (with_row w)
  row_Seeded w = (
    record { added = row w ∷ []; same_cas = refl; extended = refl },
    rw (any-append (λ q. q.name == spec.name) w.db.cert_profiles (row w ∷ []))
        (ground (arith, eq_refl spec.name)),
  )

  seeded :
      (w w' : World p) (o : Option CertProfile)
      → profile_named spec.name w.db ≡ o
      → seed_profile ca_id spec w ≡ (ok tt, w')
      → Seeded w w'
  seeded w w' (some q) e h =
      let same : w' ≡ w = ap (λ r. r.1) (sym h ∙ present_step w q e) in
      rw same (
        Extends-refl w.db,
        found-Present spec.name w.db.cert_profiles q (unfold profile_named in e),
      )
  seeded w w' none e h = elim (Bool-cases (taken w)) [
    | inl clash ↦
        let (x, f) = taken_step w e clash in
        let wrong : ok tt ≡ err x = ap (λ r. r.0) (sym h) ∙ f in absurd cc
    | inr free ↦
        let same : w' ≡ with_row w = ap (λ r. r.1) (sym h ∙ added_step w e free) in
        rw same (row_Seeded w)
  ]

module _ {p : Platform} (ca_id : ℕ) where
  loop_seeded :
      (specs : List Spec) (w w' : World p)
      → seed_all ca_id specs w ≡ (ok tt, w')
      → Extends w.db w'.db × All (Present w'.db) specs
  unfolding seed_all pure
  loop_seeded [] w w' h =
      let same : w' ≡ w = ap (λ r. r.1) (sym h) in rw same (Extends-refl w.db, tt)
  loop_seeded (spec ∷ specs) w w' h =
      let (u, w₁, e, f) = bind_returned (seed_profile ca_id spec) (λ _. seed_all ca_id specs) w h in
      let (extends, there) = seeded ca_id spec w w₁ (profile_named spec.name w.db) refl e in
      let (further, rest) = loop_seeded specs w₁ w' f in
      (
        Extends-trans w.db w₁.db w'.db extends further,
        (Present-Extends w₁.db w'.db spec further there, rest),
      )

  loop_again :
      (specs : List Spec) (w : World p)
      → All (Present w.db) specs
      → seed_all ca_id specs w ≡ (ok tt, w)
  unfolding seed_all pure ◌>>=◌
  loop_again [] w h = refl
  loop_again (spec ∷ specs) w h =
      let (q, e) = Present-found spec.name w.db.cert_profiles h.0 in
      rw (present_step ca_id spec w q (unfold profile_named in e)) (loop_again specs w h.1)

module _ {p : Platform} (issuing_ca : String) where
  for_ca :
      (w : World p) (ca : CertificateAuthority)
      → ca_named issuing_ca w.db ≡ some ca
      → seed issuing_ca w ≡ seed_all ca.id profiles w
  unfolding seed ◌>>=◌ read_db or_raise
  for_ca w ca e = rw e refl

  without_ca :
      (w : World p)
      → ca_named issuing_ca w.db ≡ none
      → (e : Error) × ((seed issuing_ca w).0 ≡ err e)
  unfolding seed ◌>>=◌ read_db or_raise
  without_ca w e = (no_ca issuing_ca, rw e refl)

  with_ca :
      (w w' : World p) (o : Option CertificateAuthority)
      → ca_named issuing_ca w.db ≡ o
      → seed issuing_ca w ≡ (ok tt, w')
      → (ca : CertificateAuthority) × (ca_named issuing_ca w.db ≡ some ca)
        × (seed_all ca.id profiles w ≡ (ok tt, w'))
  with_ca w w' (some ca) e h = (ca, e, sym (for_ca w ca e) ∙ h)
  with_ca w w' none e h =
      let (x, f) = without_ca w e in
      let wrong : ok tt ≡ err x = ap (λ r. r.0) (sym h) ∙ f in absurd cc

-- A run of the script that succeeds leaves a profile of each name of its list, keeps the profiles that
-- were there, in front of those that it adds, and the authorities; and a second run succeeds and
-- changes nothing.
pub seed-Present :
    (p : Platform) (issuing_ca : String) (w w' : World p)
    → seed issuing_ca w ≡ (ok tt, w')
    → All (Present w'.db) profiles × Extends w.db w'.db × (seed issuing_ca w' ≡ (ok tt, w'))
unfolding ca_named
seed-Present p issuing_ca w w' h =
    let (ca, e, run) = with_ca issuing_ca w w' _ refl h in
    let (extends, there) = loop_seeded ca.id profiles w w' run in
    let named : ca_named issuing_ca w'.db ≡ some ca = rw extends.same_cas e in
    (there, extends, for_ca issuing_ca w' ca named ∙ loop_again ca.id profiles w' there)
