-- ===== src/Ca/Validity.antt =====
-- services/ca/app/service.py: the ends of certificates and of intermediate authorities, against
-- those of their issuers: the invariant and its lemmas.
use pkica.Base.{
  ℕ, String, false, leb, Option, none, some, List, [], ◌∷◌, ◌++◌, ◌≡◌, refl, arith, eqb, ◌==◌, any,
  eqb_refl, eqb_sym, ap, ◌∙◌, find_first, update_where, All, Bool-cases, inl, inr,
}
use pkica.Base.Lists.{
  find_first-append, any-append, changed, map_option, find_first-update_where, any-update_where,
  All-implies, All-update_where,
}
use pkica.Base.Int.{ℤ, ◌≤ℤ◌}
use pkica.Models.{Db, CertificateAuthority, Certificate}
use pkica.Text.{text_length}
use pkica.Platform.Keeps.{Ensures, Ensures-if}
use pkica.Ca.Issue.{mark_revoked, revoked_row}
use pkica.Ca.Status.{bump_crl_number, next_crl}

abbrev pub Authorities : Type 0
Authorities = List CertificateAuthority

abbrev pub by_id : ℕ → Authorities → Option CertificateAuthority
by_id id = find_first (λ c. eqb c.id id)

-- The instant is not after the end of the authority with the identifier, which exists.
pub record EndsWithin (cas : Authorities) (issuer : ℕ) (end : ℤ) : Type 0 where
  pub issuer_row : CertificateAuthority
  pub found : by_id issuer cas ≡ some issuer_row
  pub within : end ≤ℤ issuer_row.not_after

abbrev pub Covered : Authorities → Certificate → Type 0
Covered cas c = EndsWithin cas c.issuing_ca_id c.not_after

abbrev pub ParentCovers : Authorities → Option ℕ → ℤ → Type 0
ParentCovers cas none end = Unit
ParentCovers cas (some parent) end = EndsWithin cas parent end

abbrev pub Nested : Authorities → CertificateAuthority → Type 0
Nested cas c = ParentCovers cas c.parent_id c.not_after

-- No two authorities have one identifier.
abbrev pub DistinctIds : Authorities → Type 0
DistinctIds [] = Unit
DistinctIds (c ∷ cs) = (any (λ d. eqb d.id c.id) cs ≡ false) × DistinctIds cs

-- The invariant of the tables of authorities and certificates.
pub record IsValid (db : Db) : Type 0 where
  pub distinct : DistinctIds db.certificate_authorities
  pub nested : All (Nested db.certificate_authorities) db.certificate_authorities
  pub covered : All (Covered db.certificate_authorities) db.certificates

pub EndsWithin-append :
    (cas new : Authorities) (issuer : ℕ) (end : ℤ)
    → EndsWithin cas issuer end
    → EndsWithin (cas ++ new) issuer end
EndsWithin-append cas new issuer end h = record {
  issuer_row = h.issuer_row;
  found = find_first-append (λ c. eqb c.id issuer) cas new h.issuer_row h.found;
  within = h.within;
}

pub Nested-append :
    (cas new : Authorities) (parent : Option ℕ) (end : ℤ)
    → ParentCovers cas parent end
    → ParentCovers (cas ++ new) parent end
Nested-append cas new none end h = tt
Nested-append cas new (some parent) end h = EndsWithin-append cas new parent end h

pub DistinctIds-append :
    (cas : Authorities) (c : CertificateAuthority)
    → any (λ d. eqb d.id c.id) cas ≡ false
    → DistinctIds cas
    → DistinctIds (cas ++ c ∷ [])
DistinctIds-append [] c fresh h = (refl, tt)
DistinctIds-append (x ∷ cas) c fresh h = (
  ground (arith, any-append (λ d. eqb d.id x.id) cas (c ∷ []), h.0),
  DistinctIds-append cas c (ground arith) h.1,
)

-- an authority that its name finds is the one that its identifier finds
any-name :
    (name : String) (id : ℕ) (cas : Authorities) (ca : CertificateAuthority)
    → find_first (λ c. c.name == name) cas ≡ some ca
    → any (λ d. eqb d.id id) cas ≡ false
    → eqb ca.id id ≡ false
any-name name id [] ca h k = cc
any-name name id (x ∷ cas) ca h k = elim (Bool-cases (x.name == name)) [
  | inl this ↦ let same : x ≡ ca = ground arith in rw (← same) (ground arith)
  | inr further ↦ any-name name id cas ca (ground arith) (ground arith)
]

pub by_id-named :
    (name : String) (cas : Authorities) (ca : CertificateAuthority)
    → DistinctIds cas
    → find_first (λ c. c.name == name) cas ≡ some ca
    → by_id ca.id cas ≡ some ca
by_id-named name [] ca d h = cc
by_id-named name (x ∷ cas) ca d h = elim (Bool-cases (x.name == name)) [
  | inl this ↦ let same : x ≡ ca = ground arith in rw (← same) (rw (eqb_refl x.id))
  | inr further ↦
      let rest : find_first (λ c. c.name == name) cas ≡ some ca = ground arith in
      rw (eqb_sym x.id ca.id ∙ any-name name x.id cas ca rest d.0)
        (by_id-named name cas ca d.1 rest)
]

-- the flush of a CRL number leaves identifiers and ends alone
EndsWithin-bump :
    (id : ℕ) (cas : Authorities) (issuer : ℕ) (end : ℤ)
    → EndsWithin cas issuer end
    → EndsWithin (update_where (λ c. eqb c.id id) next_crl cas) issuer end
EndsWithin-bump id cas issuer end h = record {
  issuer_row = changed (λ c. eqb c.id id) next_crl h.issuer_row;
  found =
      find_first-update_where (λ c. eqb c.id issuer) (λ c. eqb c.id id) next_crl cas (λ x. refl)
      ∙ ap (map_option (changed (λ c. eqb c.id id) next_crl)) h.found;
  within = ground (arith, h.within);
}

Nested-bump :
    (id : ℕ) (cas : Authorities) (parent : Option ℕ) (end : ℤ)
    → ParentCovers cas parent end
    → ParentCovers (update_where (λ c. eqb c.id id) next_crl cas) parent end
Nested-bump id cas none end h = tt
Nested-bump id cas (some parent) end h = EndsWithin-bump id cas parent end h

changed-id : (id : ℕ) (x : CertificateAuthority) → (changed (λ c. eqb c.id id) next_crl x).id ≡ x.id
changed-id id x = ground arith

DistinctIds-bump :
    (id : ℕ) (cas : Authorities)
    → DistinctIds cas
    → DistinctIds (update_where (λ c. eqb c.id id) next_crl cas)
DistinctIds-bump id [] h = tt
DistinctIds-bump id (x ∷ cas) h = (
  rw (changed-id id x)
      (any-update_where (λ d. eqb d.id x.id) (λ c. eqb c.id id) next_crl cas (λ y. refl) ∙ h.0),
  DistinctIds-bump id cas h.1,
)

-- The invariant holds after each statement of the service.
pub IsValid-bump_crl_number :
    (id : ℕ) (db : Db) → IsValid db → Ensures IsValid (bump_crl_number id db)
unfolding bump_crl_number
IsValid-bump_crl_number id db h =
    let cas = db.certificate_authorities in
    let cas' = update_where (λ (c : CertificateAuthority). eqb c.id id) next_crl cas in
    record {
      distinct = DistinctIds-bump id cas h.distinct;
      nested =
          All-update_where (Nested cas') (λ c. eqb c.id id) next_crl cas (λ x k. k)
            (All-implies (Nested cas) (Nested cas') cas
              (λ x. Nested-bump id cas x.parent_id x.not_after) h.nested);
      covered =
          All-implies (Covered cas) (Covered cas') db.certificates
            (λ c. EndsWithin-bump id cas c.issuing_ca_id c.not_after) h.covered;
    }

pub IsValid-mark_revoked :
    (id : ℕ) (reason : String) (at : ℤ) (db : Db)
    → IsValid db
    → Ensures IsValid (mark_revoked id reason at db)
unfolding mark_revoked
IsValid-mark_revoked id reason at db h =
    Ensures-if IsValid (leb (text_length reason) 64) _ _ (record {
      distinct = h.distinct;
      nested = h.nested;
      covered =
          All-update_where (Covered db.certificate_authorities) (λ c. eqb c.id id)
            (revoked_row reason at) db.certificates
            (λ x k. record { issuer_row = k.issuer_row; found = k.found; within = k.within })
            h.covered;
    })
