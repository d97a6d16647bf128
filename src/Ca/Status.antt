-- ===== src/Ca/Status.antt =====
-- services/ca/app/service.py: revocation lists and OCSP responses.
use Prim.Native.String.{◌++◌ as glue}
use pkica.Base.{
  ℕ, ◌+◌, String, ◌&&◌, Option, none, some, List, [], ◌∷◌, eqb, select, length, update_where,
  if◌then◌else◌,
}
use pkica.Base.Int.{ℤ, pos}
use pkica.Text.Hex.{int_hex}
use pkica.Effect.{Result, and_then, ok, err, value_error, Exec, pure, lift, ◌>>=◌, ◌>>◌}
use pkica.Asn1.{Bytes}
use pkica.Audit.{Scalar}
use pkica.Models.{Db, CertificateAuthority, Certificate, certificate_with_serial}
use pkica.Platform.{Platform, World, now, with_kms, with_db, read_db}
use pkica.Crypto.{
  name_from_attributes, build_and_sign_crl, build_and_sign_ocsp_response, reason_or_unspecified,
}
use pkica.Ca.Subjects.{dn_string_to_attrs}
use pkica.Ca.Session.{add_hours, fromhex, algorithm_named, get_ca, audit_record}

-- int(serial, 16)
unfoldable pub serial_value : String → Result ℤ
unfolding int_hex
serial_value serial = elim (int_hex serial) [
  | none ↦ err (value_error "invalid literal for int() with base 16")
  | some n ↦ ok n
]

-- The entries `(int(c.serial_number, 16), c.revoked_at, c.revocation_reason or "unspecified")`.
unfoldable pub crl_items : List Certificate → Result (List (ℤ × Option ℤ × String))
unfolding serial_value reason_or_unspecified
crl_items [] = ok []
crl_items (c ∷ cs) =
    let rest = crl_items cs in
    and_then (serial_value c.serial_number) (λ serial.
      and_then rest
        (λ items. ok ((serial, c.revoked_at, reason_or_unspecified c.revocation_reason) ∷ items)))

-- `Certificate.issuing_ca_id == ca.id, Certificate.revoked.is_(True)`
unfoldable pub revoked_by : ℕ → Db → List Certificate
revoked_by ca_id db = select (λ c. eqb c.issuing_ca_id ca_id && c.revoked) db.certificates

-- `"revoked" if cert.revoked else "good"`, and "unknown" where there is no row
unfoldable pub status_of : Option Certificate → String
status_of none = "unknown"
status_of (some cert) = if cert.revoked then "revoked" else "good"

abbrev revoked_at_of : Option Certificate → Option ℤ
revoked_at_of none = none
revoked_at_of (some cert) = cert.revoked_at

abbrev reason_of : Option Certificate → Option String
reason_of none = none
reason_of (some cert) = cert.revocation_reason

-- `ca.crl_number += 1`
abbrev pub next_crl : CertificateAuthority → CertificateAuthority
next_crl ca = record ca { crl_number = ca.crl_number + 1 }

-- The flush of the authority's row.
unfoldable pub bump_crl_number : ℕ → Db → Result Db
bump_crl_number id db = ok (record db {
  certificate_authorities = update_where (λ c. eqb c.id id) next_crl db.certificate_authorities;
})

module _ (p : Platform) (audit_secret : String) where
  -- CAService.generate_crl
  unfoldable pub generate_crl : String → ℤ → Exec (World p) Bytes
  generate_crl ca_name validity_hours = do
    ca ← get_ca p ca_name
    revoked_certs ← read_db (revoked_by ca.id)
    with_db (bump_crl_number ca.id)
    let crl_number = ca.crl_number + 1
    issuer_name ← lift (name_from_attributes p (dn_string_to_attrs ca.subject_dn))
    this_update ← now
    algorithm ← lift (algorithm_named ca.signature_algorithm)
    next_update ← lift (add_hours this_update validity_hours)
    items ← lift (crl_items revoked_certs)
    aki ← lift (fromhex ca.subject_key_identifier)
    crl_der ←
        build_and_sign_crl p issuer_name this_update next_update items crl_number aki ca.kms_key_id
          algorithm
    audit_record p audit_secret (record {
      actor = "system";
      action = "crl.generate";
      resource = glue "ca:" ca_name;
      details = some (
          ("crl_number", Scalar.number crl_number)
          ∷ ("revoked_count", Scalar.number (length revoked_certs))
          ∷ []);
    })
    pure crl_der

  -- CAService.sign_ocsp_response
  unfoldable pub sign_ocsp_response : String → String → Exec (World p) Bytes
  sign_ocsp_response ca_name serial_number = do
    ca ← get_ca p ca_name
    cert ← read_db (certificate_with_serial serial_number)
    issuer_name ← lift (name_from_attributes p (dn_string_to_attrs ca.subject_dn))
    public_key ← with_kms (p.public_key ca.kms_key_id)
    this_update ← now
    algorithm ← lift (algorithm_named ca.signature_algorithm)
    cert_serial ← lift (serial_value serial_number)
    next_update ← lift (add_hours this_update (pos 1))
    build_and_sign_ocsp_response p issuer_name public_key cert_serial (status_of cert)
        (revoked_at_of cert) (reason_of cert) this_update next_update ca.kms_key_id algorithm
