-- ===== src/Crypto/Responses.antt =====
-- common/pkicore/pkicore/crypto.py: revocation lists and OCSP responses.
use mathlib.Core.List.{tail}
use pkica.Crypto.Names.{signed_digest_algo_id}
use pkica.Base.{ℕ, String, Option, none, some, List, [], ◌∷◌, ◌==◌, if◌then◌else◌}
use pkica.Base.Int.{ℤ}
use pkica.Effect.{Result, ok, Exec, ◌>>=◌, and_then, lift}
use pkica.Asn1.{
  Bytes, utc_time, TbsCertList, RevokedCertificate, SingleResponse, ResponseData, CertStatus, good,
  unknown, revoked,
}
use pkica.Kms.{SignatureAlgorithm}
use pkica.Platform.{Platform, World, now, with_kms}

-- `revocation_reason or "unspecified"`
unfoldable pub reason_or_unspecified : Option String → String
reason_or_unspecified none = "unspecified"
reason_or_unspecified (some r) = if r == "" then "unspecified" else r

unfoldable pub cert_status : String → Option ℤ → Option String → CertStatus
unfolding reason_or_unspecified
cert_status status revoked_at reason =
    if status == "good"
    then good
    else if status == "revoked"
    then revoked revoked_at (reason_or_unspecified reason)
    else unknown

module _ (p : Platform) where
  -- One turn of the loop over `revoked`: (serial, revoked_at, reason).
  unfoldable pub revoked_entry : ℤ × Option ℤ × String → Result RevokedCertificate
  revoked_entry (serial, revoked_at, reason) = and_then (p.crl_reason reason) λ code.
      ok (record { user_certificate = serial; revocation_date = revoked_at; crl_reason = code })

  unfoldable pub revoked_entries : List (ℤ × Option ℤ × String) → Result (List RevokedCertificate)
  unfolding revoked_entry
  revoked_entries [] = ok []
  revoked_entries (r ∷ rs) =
      let rest = revoked_entries rs in
      and_then (revoked_entry r) (λ e. and_then rest (λ es. ok (e ∷ es)))

  unfoldable pub build_and_sign_crl :
      p.Name
      → ℤ
      → ℤ
      → List (ℤ × Option ℤ × String)
      → ℕ
      → Bytes
      → String
      → SignatureAlgorithm
      → Exec (World p) Bytes
  build_and_sign_crl issuer this_update next_update entries crl_number aki key_id algorithm = do
    revoked_certificates ← lift (revoked_entries entries)
    let tbs : TbsCertList p.Name = record {
      version = "v2";
      signature = signed_digest_algo_id algorithm;
      issuer = issuer;
      this_update = utc_time this_update;
      next_update = utc_time next_update;
      revoked_certificates = revoked_certificates;
      crl_number = crl_number;
      authority_key_id = aki;
    }
    tbs_der ← lift (p.dump_tbs_cert_list tbs)
    signature ← with_kms (p.sign key_id tbs_der algorithm)
    lift (
        p.dump_certificate_list (record {
          tbs_cert_list = tbs;
          signature_algorithm = signed_digest_algo_id algorithm;
          signature = signature;
        }))

  -- `contents[1:]` of the BIT STRING
  unfoldable pub raw_public_key_bits : p.PublicKey → Bytes
  raw_public_key_bits public_key = tail (p.public_key_contents (p.spki_der public_key))

  unfoldable pub build_and_sign_ocsp_response :
      p.Name
      → p.PublicKey
      → ℤ
      → String
      → Option ℤ
      → Option String
      → ℤ
      → ℤ
      → String
      → SignatureAlgorithm
      → Exec (World p) Bytes
  build_and_sign_ocsp_response responder public_key serial status revoked_at reason this next key_id
        algorithm =
      do
        name_der ← lift (p.dump_name responder)
        let single : SingleResponse = record {
          hash_algorithm = "sha256";
          issuer_name_hash = p.sha256 name_der;
          issuer_key_hash = p.sha256 (raw_public_key_bits public_key);
          serial_number = serial;
          cert_status = cert_status status revoked_at reason;
          this_update = this;
          next_update = next;
        }
        produced_at ← now
        let tbs : ResponseData p.Name = record {
          responder_id = responder;
          produced_at = produced_at;
          responses = single ∷ [];
        }
        tbs_der ← lift (p.dump_response_data tbs)
        signature ← with_kms (p.sign key_id tbs_der algorithm)
        lift (
            p.dump_ocsp_response (record {
              response_status = "successful";
              tbs_response_data = tbs;
              signature_algorithm = signed_digest_algo_id algorithm;
              signature = signature;
            }))
