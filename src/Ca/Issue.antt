-- ===== src/Ca/Issue.antt =====
-- services/ca/app/service.py: issuance and revocation.
use Prim.Native.String.{◌++◌ as glue}
use pkica.Base.{
  ℕ, String, true, false, not, none, some, List, [], ◌∷◌, eqb, leb, update_where, if◌then◌else◌,
}
use pkica.Base.Int.{ℤ, min_ℤ}
use pkica.Text.{split, join, comma, text_length}
use pkica.Text.Hex.{format_hex}
use pkica.Effect.{
  Result, ok, err, outside, policy_violation, lookup_error, Exec, pure, raise_if, lift, or_raise,
  ◌>>=◌, ◌>>◌,
}
use pkica.Audit.{Scalar}
use pkica.Models.{
  Db, CertProfile, Certificate, is_active, insert_certificate, certificate_with_serial,
}
use pkica.Platform.{Platform, World, now, uuid4, with_db, read_db}
use pkica.Crypto.{
  default_spec, build_extensions, build_tbs_certificate, name_from_attributes, sign_certificate,
  generate_serial_number, parse_csr,
}
use pkica.Ca.Subjects.{dn_string_to_attrs, name_from_csr}
use pkica.Ca.Policy.{enforce_profile}
use pkica.Ca.Session.{add_days, fromhex, algorithm_named, get_ca, audit_record}

-- The row after `revoke_certificate` has written to it.
abbrev pub revoked_row : String → ℤ → Certificate → Certificate
revoked_row reason at cert = record cert {
  revoked = true;
  revoked_at = some at;
  revocation_reason = some reason;
}

-- The flush of the revoked row, which its primary key finds; the column `revocation_reason` takes at
-- most 64 characters, and the database refuses a longer text.
unfoldable pub mark_revoked : ℕ → String → ℤ → Db → Result Db
mark_revoked id reason at db =
    if leb (text_length reason) 64
    then ok (record db {
      certificates = update_where (λ c. eqb c.id id) (revoked_row reason at) db.certificates;
    })
    else err (outside "DataError")

module _ (p : Platform) (audit_secret : String) where
  -- CAService.issue_certificate
  unfoldable pub issue_certificate :
      String → CertProfile → String → List String → ℤ → String → Exec (World p) Certificate
  issue_certificate ca_name profile csr_pem requested_sans validity_days requester_identity = do
    ca ← get_ca p ca_name
    raise_if (not (is_active ca.status))
        (policy_violation (glue "Issuing CA '" (glue ca_name "' is not active")))
    csr ← lift (parse_csr p csr_pem)
    let public_key = p.csr_public_key csr
    lift (enforce_profile p profile public_key requested_sans)
    let days = min_ℤ validity_days profile.max_validity_days
    issuer_name ← lift (name_from_attributes p (dn_string_to_attrs ca.subject_dn))
    subject_name ← lift (name_from_csr p csr)
    not_before ← now
    end ← lift (add_days not_before days)
    let not_after = min_ℤ end ca.not_after
    serial ← generate_serial_number p
    let ski = p.ski_digest public_key
    aki ← lift (fromhex ca.subject_key_identifier)
    extensions ← lift (
        build_extensions p (record default_spec {
          key_usages = split comma profile.key_usage;
          extended_key_usages = split comma profile.extended_key_usage;
          subject_alt_names = requested_sans;
          subject_key_id = some ski;
          authority_key_id = some aki;
        }))
    algorithm ← lift (algorithm_named ca.signature_algorithm)
    let tbs =
        build_tbs_certificate p serial issuer_name subject_name public_key not_before not_after
          extensions algorithm
    cert_der ← sign_certificate p tbs ca.kms_key_id algorithm
    pem ← lift (p.pem_of_der cert_der)
    id ← uuid4
    let cert : Certificate = record {
      id = id;
      request_id = none;
      issuing_ca_id = ca.id;
      serial_number = format_hex serial;
      subject_dn = p.human_friendly subject_name;
      sans = join "," requested_sans;
      certificate_pem = pem;
      not_before = not_before;
      not_after = not_after;
      revoked = false;
      revoked_at = none;
      revocation_reason = none;
    }
    with_db (insert_certificate cert)
    audit_record p audit_secret (record {
      actor = requester_identity;
      action = "cert.issue";
      resource = glue "cert:" cert.serial_number;
      details = some (("ca", Scalar.text ca_name) ∷ ("profile", Scalar.text profile.name) ∷ []);
    })
    pure cert

  -- CAService.revoke_certificate
  unfoldable pub revoke_certificate : String → String → String → Exec (World p) Certificate
  revoke_certificate serial_number reason actor = do
    found ← read_db (certificate_with_serial serial_number)
    cert ← or_raise found (lookup_error (glue "Certificate " (glue serial_number " not found")))
    revoked_at ← now
    with_db (mark_revoked cert.id reason revoked_at)
    audit_record p audit_secret (record {
      actor = actor;
      action = "cert.revoke";
      resource = glue "cert:" serial_number;
      details = some (("reason", Scalar.text reason) ∷ []);
    })
    pure (revoked_row reason revoked_at cert)
