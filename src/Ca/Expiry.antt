-- ===== src/Ca/Expiry.antt =====
-- services/ca/app/service.py and api.py: the methods and the invariant of
-- `Ca/Validity.antt`.
use pkica.Base.{
  ℕ, String, ◌≡◌, refl, false, ◌||◌, none, some, List, [], ◌∷◌, ◌++◌, arith, Option, any, eqb, ◌==◌,
  Bool-cases, inl, inr,
}
use pkica.Base.Int.{ℤ, ◌≤ℤ◌, min_ℤ-le_right}
use pkica.Base.Lists.{find_first-append, All-append, All-implies}
use Prim.Native.String.{◌++◌ as glue}
use pkica.Effect.{Error, lookup_error, Exec, or_raise, ◌>>=◌}
use pkica.Effect.Keeps.{Keeps, Keeps-bind, keeps_rules}
use pkica.Audit.{Event}
use pkica.Models.{
  Db, CertificateAuthority, CertProfile, Certificate, insert_ca, insert_certificate, ca_named,
  same_serial,
}
use pkica.Platform.{Platform, World, now, with_db, read_db}
use pkica.Platform.Keeps.{OnDb, Ensures, Keeps-with_db, Keeps-now, db_rules}
use pkica.Crypto.Keeps.{crypto_rules}
use pkica.Ca.Session.{get_ca, audit_record}
use pkica.Ca.Lifecycle.{create_root_ca, create_intermediate_ca}
use pkica.Ca.Issue.{issue_certificate, revoke_certificate, mark_revoked}
use pkica.Ca.Status.{generate_crl, sign_ocsp_response, bump_crl_number}
use pkica.Ca.Validity.{
  IsValid, EndsWithin, Covered, Nested, ParentCovers, by_id-named, EndsWithin-append, Nested-append,
  DistinctIds-append, IsValid-bump_crl_number, IsValid-mark_revoked,
}

-- The invariant, and that the name finds the authority: what holds behind `_get_ca`.
pub record Known (name : String) (ca : CertificateAuthority) (db : Db) : Type 0 where
  pub valid : IsValid db
  pub named : ca_named name db ≡ some ca

end_of_issuer :
    (name : String) (ca : CertificateAuthority) (db : Db) (end : ℤ)
    → Known name ca db
    → end ≤ℤ ca.not_after
    → EndsWithin db.certificate_authorities ca.id end
unfolding ca_named
end_of_issuer name ca db end k h = record {
  issuer_row = ca;
  found = by_id-named name db.certificate_authorities ca k.valid.distinct k.named;
  within = h;
}

fresh_id :
    (ca : CertificateAuthority) (cas : List CertificateAuthority)
    → any (λ c. c.name == ca.name || eqb c.id ca.id) cas ≡ false
    → any (λ c. eqb c.id ca.id) cas ≡ false
fresh_id ca [] h = refl
fresh_id ca (x ∷ cas) h = ground (arith, fresh_id ca cas)

added_ca :
    (ca : CertificateAuthority) (db : Db)
    → any (λ c. c.name == ca.name || eqb c.id ca.id) db.certificate_authorities ≡ false
    → IsValid db
    → Nested (db.certificate_authorities) ca
    → IsValid (record db { certificate_authorities = db.certificate_authorities ++ ca ∷ [] })
added_ca ca db fresh h inside =
    let cas = db.certificate_authorities in
    let cas' = cas ++ ca ∷ [] in
    record {
      distinct = DistinctIds-append cas ca (fresh_id ca cas fresh) h.distinct;
      nested =
          All-append (Nested cas') cas (ca ∷ [])
            (All-implies (Nested cas) (Nested cas') cas
              (λ x. Nested-append cas (ca ∷ []) x.parent_id x.not_after) h.nested)
            (Nested-append cas (ca ∷ []) ca.parent_id ca.not_after inside, tt);
      covered =
          All-implies (Covered cas) (Covered cas') db.certificates
            (λ c. EndsWithin-append cas (ca ∷ []) c.issuing_ca_id c.not_after) h.covered;
    }

IsValid-insert_ca :
    (ca : CertificateAuthority) (db : Db)
    → IsValid db
    → Nested db.certificate_authorities ca
    → Ensures IsValid (insert_ca ca db)
unfolding insert_ca
IsValid-insert_ca ca db h inside =
    elim (Bool-cases (any (λ c. c.name == ca.name || eqb c.id ca.id) db.certificate_authorities)) [
      | inl taken ↦ rw taken tt
      | inr fresh ↦ rw fresh (added_ca ca db fresh h inside)
    ]

Known-insert_ca :
    (name : String) (parent ca : CertificateAuthority) (db : Db)
    → Known name parent db
    → Nested db.certificate_authorities ca
    → Ensures (Known name parent) (insert_ca ca db)
unfolding insert_ca ca_named
Known-insert_ca name parent ca db k inside =
    elim (Bool-cases (any (λ c. c.name == ca.name || eqb c.id ca.id) db.certificate_authorities)) [
      | inl taken ↦ rw taken tt
      | inr fresh ↦ rw fresh (record {
        valid = added_ca ca db fresh k.valid inside;
        named =
            find_first-append (λ c. c.name == name) db.certificate_authorities (ca ∷ []) parent
              k.named;
      })
    ]

root_Nested :
    (cas : List CertificateAuthority) (parent : Option ℕ) (end : ℤ)
    → parent ≡ none
    → ParentCovers cas parent end
root_Nested cas parent end h = rw h tt

child_Nested :
    (cas : List CertificateAuthority) (parent : Option ℕ) (issuer : ℕ) (end : ℤ)
    → parent ≡ some issuer
    → EndsWithin cas issuer end
    → ParentCovers cas parent end
child_Nested cas parent issuer end h k = rw h k

Known-insert_certificate :
    (name : String) (ca : CertificateAuthority) (cert : Certificate) (db : Db)
    → Known name ca db
    → Covered db.certificate_authorities cert
    → Ensures (Known name ca) (insert_certificate cert db)
unfolding insert_certificate ca_named
Known-insert_certificate name ca cert db k inside =
    elim (Bool-cases (any (λ c. same_serial c cert || eqb c.id cert.id) db.certificates)) [
      | inl taken ↦ rw taken tt
      | inr fresh ↦ rw fresh (record {
        valid = record {
          distinct = k.valid.distinct;
          nested = k.valid.nested;
          covered =
              All-append (Covered db.certificate_authorities) db.certificates (cert ∷ [])
                k.valid.covered (inside, tt);
        };
        named = k.named;
      })
    ]

module _ (p : Platform) (secret : String) where
  abbrev pub Valid : World p → Type 0
  Valid = OnDb IsValid

  abbrev KnownIssuer : String → CertificateAuthority → World p → Type 0
  KnownIssuer name ca = OnDb (Known name ca)

  found_or_raised :
      {B : Type 0} (name : String) (f : CertificateAuthority → Exec (World p) B)
      → ((ca : CertificateAuthority) → Keeps (KnownIssuer name ca) (f ca))
      → (o : Option CertificateAuthority) (e : Error) (w : World p) → ca_named name w.db ≡ o
      → Valid w
      → Valid ((or_raise o e >>= f) w).1
  unfolding ◌>>=◌
  found_or_raised name f k none e w q h = h
  found_or_raised name f k (some ca) e w q h = record {
    holds = ((k ca).at w (record { holds = record { valid = h.holds; named = q } })).holds.valid;
  }

  -- what follows `_get_ca` may use the authority that it found
  after_get_ca :
      {B : Type 0} (name : String) (f : CertificateAuthority → Exec (World p) B)
      → ((ca : CertificateAuthority) → Keeps (KnownIssuer name ca) (f ca))
      → Keeps Valid (get_ca p name >>= f)
  unfolding get_ca read_db ◌>>=◌
  after_get_ca name f k = record {
    at = λ w h.
        found_or_raised name f k (ca_named name w.db)
          (lookup_error (glue "CA '" (glue name "' not found"))) w refl h;
  }

  audit_record-Valid : (e : Event) → Keeps Valid (audit_record p secret e)
  unfolding audit_record
  audit_record-Valid e = Keeps-bind now _ Keeps-now λ t.
      Keeps-with_db _
        (λ db h. record { distinct = h.distinct; nested = h.nested; covered = h.covered })

  audit_record-Known :
      (name : String) (ca : CertificateAuthority) (e : Event)
      → Keeps (KnownIssuer name ca) (audit_record p secret e)
  unfolding audit_record ca_named
  audit_record-Known name ca e = Keeps-bind now _ Keeps-now λ t. Keeps-with_db _ (λ db h. record {
    valid = record {
      distinct = h.valid.distinct;
      nested = h.valid.nested;
      covered = h.valid.covered;
    };
    named = h.named;
  })

  insert_ca-Valid :
      (ca : CertificateAuthority) → ca.parent_id ≡ none → Keeps Valid (with_db (insert_ca ca))
  insert_ca-Valid ca root = Keeps-with_db _ (λ db h.
      IsValid-insert_ca ca db h
        (root_Nested db.certificate_authorities ca.parent_id ca.not_after root))

  insert_ca-Known :
      (name : String) (parent ca : CertificateAuthority)
      → ca.parent_id ≡ some parent.id
      → ca.not_after ≤ℤ parent.not_after
      → Keeps (KnownIssuer name parent) (with_db (insert_ca ca))
  insert_ca-Known name parent ca child end = Keeps-with_db _ (λ db k.
      Known-insert_ca name parent ca db k (
        child_Nested db.certificate_authorities ca.parent_id parent.id ca.not_after child
          (end_of_issuer name parent db ca.not_after k end)))

  insert_certificate-Known :
      (name : String) (ca : CertificateAuthority) (cert : Certificate)
      → cert.issuing_ca_id ≡ ca.id
      → cert.not_after ≤ℤ ca.not_after
      → Keeps (KnownIssuer name ca) (with_db (insert_certificate cert))
  insert_certificate-Known name ca cert issuer end = Keeps-with_db _ (λ db k.
      Known-insert_certificate name ca cert db k
        (rw issuer (end_of_issuer name ca db cert.not_after k end)))

ruleset valid_rules = (
  keeps_rules, db_rules, crypto_rules, audit_record-Valid, audit_record-Known, insert_ca-Valid,
  insert_ca-Known, insert_certificate-Known, refl, min_ℤ-le_right,
)

module _ (p : Platform) (secret : String) where
  pub create_root_ca-Valid :
      (name : String) (subject : List (String × String)) (key_algorithm : String) (days : ℤ)
      → Keeps (Valid p secret) (create_root_ca p secret name subject key_algorithm days)
  unfolding create_root_ca
  create_root_ca-Valid name subject key_algorithm days = search valid_rules depth 40

  pub create_intermediate_ca-Valid :
      (name parent : String) (subject : List (String × String)) (key_algorithm : String)
      (days path_len : ℤ)
      → Keeps
          (Valid p secret)
          (create_intermediate_ca p secret name parent subject key_algorithm days path_len)
  unfolding create_intermediate_ca
  create_intermediate_ca-Valid name parent subject key_algorithm days path_len =
      after_get_ca p secret parent _ (λ ca. search valid_rules depth 40)

  pub issue_certificate-Valid :
      (ca_name : String) (profile : CertProfile) (csr_pem : String) (sans : List String) (days : ℤ)
      (requester : String)
      → Keeps
          (Valid p secret)
          (issue_certificate p secret ca_name profile csr_pem sans days requester)
  unfolding issue_certificate
  issue_certificate-Valid ca_name profile csr_pem sans days requester =
      after_get_ca p secret ca_name _ (λ ca. search valid_rules depth 40)

  get_ca-Valid : (name : String) → Keeps (Valid p secret) (get_ca p name)
  unfolding get_ca
  get_ca-Valid name = search valid_rules

  mark_revoked-Valid :
      (id : ℕ) (reason : String) (at : ℤ)
      → Keeps (Valid p secret) (with_db (mark_revoked id reason at))
  mark_revoked-Valid id reason at = Keeps-with_db _ (IsValid-mark_revoked id reason at)

  bump_crl_number-Valid : (id : ℕ) → Keeps (Valid p secret) (with_db (bump_crl_number id))
  bump_crl_number-Valid id = Keeps-with_db _ (IsValid-bump_crl_number id)

  pub revoke_certificate-Valid :
      (serial reason actor : String)
      → Keeps (Valid p secret) (revoke_certificate p secret serial reason actor)
  unfolding revoke_certificate
  revoke_certificate-Valid serial reason actor = search (valid_rules, mark_revoked-Valid) depth 40

  pub generate_crl-Valid :
      (ca_name : String) (hours : ℤ) → Keeps (Valid p secret) (generate_crl p secret ca_name hours)
  unfolding generate_crl
  generate_crl-Valid ca_name hours =
      search (valid_rules, get_ca-Valid, bump_crl_number-Valid) depth 40

  pub sign_ocsp_response-Valid :
      (ca_name serial : String)
      → Keeps (Valid p secret) (sign_ocsp_response p secret ca_name serial)
  unfolding sign_ocsp_response
  sign_ocsp_response-Valid ca_name serial = search (valid_rules, get_ca-Valid) depth 40
