-- ===== src/Ca/Lifecycle.antt =====
-- services/ca/app/service.py: the creation of root and intermediate authorities.
use Prim.Native.String.{◌++◌ as glue, slice}
use pkica.Base.{String, true, false, Option, none, some, List, [], ◌∷◌}
use pkica.Base.Int.{ℤ, min_ℤ}
use pkica.Text.HexBytes.{hex_of_bytes}
use pkica.Effect.{Exec, pure, lift, ◌>>=◌, ◌>>◌}
use pkica.Asn1.{Bytes}
use pkica.Audit.{Scalar}
use pkica.Models.{CertificateAuthority, active, insert_ca}
use pkica.Kms.{value}
use pkica.Platform.{Platform, World, now, uuid4, with_kms, with_db}
use pkica.Crypto.{
  ExtensionSpec, default_spec, build_extensions, build_tbs_certificate,
  default_algorithm_for_public_key, name_from_attributes, sign_certificate, generate_serial_number,
}
use pkica.Ca.Subjects.{dn_string_to_attrs}
use pkica.Ca.Session.{add_days, fromhex, algorithm_named, get_ca, audit_record}

-- The extensions of an authority's certificate.
abbrev ca_spec : Option ℤ → Bytes → Bytes → ExtensionSpec
ca_spec path_len ski aki = record default_spec {
  is_ca = true;
  path_len = path_len;
  key_usages = "key_cert_sign" ∷ "crl_sign" ∷ [];
  subject_key_id = some ski;
  authority_key_id = some aki;
}

-- f"{kind}-{name}-{uuid.uuid4().hex[:8]}"
abbrev key_name : String → String → String → String
key_name kind name hex = glue kind (glue name (glue "-" (slice hex 0 8)))

module _ (p : Platform) (audit_secret : String) where
  -- CAService.create_root_ca
  unfoldable pub create_root_ca :
      String → List (String × String) → String → ℤ → Exec (World p) CertificateAuthority
  create_root_ca name subject key_algorithm validity_days = do
    key_uuid ← uuid4
    let key_id = key_name "root-" name (p.uuid_hex key_uuid)
    with_kms (
        p.create_key (record {
          key_id = key_id;
          algorithm = key_algorithm;
          label = glue "PKICA root CA " name;
        }))
    public_key ← with_kms (p.public_key key_id)
    algorithm ← lift (default_algorithm_for_public_key p public_key)
    subject_name ← lift (name_from_attributes p subject)
    let ski = p.ski_digest public_key
    not_before ← now
    not_after ← lift (add_days not_before validity_days)
    serial ← generate_serial_number p
    extensions ← lift (build_extensions p (ca_spec none ski ski))
    let tbs =
        build_tbs_certificate p serial subject_name subject_name public_key not_before not_after
          extensions algorithm
    cert_der ← sign_certificate p tbs key_id algorithm
    pem ← lift (p.pem_of_der cert_der)
    id ← uuid4
    let ca : CertificateAuthority = record {
      id = id;
      name = name;
      is_root = true;
      parent_id = none;
      subject_dn = p.human_friendly subject_name;
      kms_backend = p.kms_name;
      kms_key_id = key_id;
      signature_algorithm = value algorithm;
      certificate_pem = pem;
      subject_key_identifier = hex_of_bytes ski;
      not_before = not_before;
      not_after = not_after;
      status = active;
      crl_number = 0;
    }
    with_db (insert_ca ca)
    audit_record p audit_secret (record {
      actor = "system";
      action = "ca.create_root";
      resource = glue "ca:" name;
      details = some (("key_algorithm", Scalar.text key_algorithm) ∷ []);
    })
    pure ca

  -- CAService.create_intermediate_ca
  unfoldable pub create_intermediate_ca :
      String
      → String
      → List (String × String)
      → String
      → ℤ
      → ℤ
      → Exec (World p) CertificateAuthority
  create_intermediate_ca name parent_name subject key_algorithm validity_days path_len = do
    parent ← get_ca p parent_name
    key_uuid ← uuid4
    let key_id = key_name "intermediate-" name (p.uuid_hex key_uuid)
    with_kms (
        p.create_key (record {
          key_id = key_id;
          algorithm = key_algorithm;
          label = glue "PKICA intermediate CA " name;
        }))
    public_key ← with_kms (p.public_key key_id)
    algorithm ← lift (default_algorithm_for_public_key p public_key)
    subject_name ← lift (name_from_attributes p subject)
    issuer_name ← lift (name_from_attributes p (dn_string_to_attrs parent.subject_dn))
    let ski = p.ski_digest public_key
    aki ← lift (fromhex parent.subject_key_identifier)
    not_before ← now
    end ← lift (add_days not_before validity_days)
    let not_after = min_ℤ end parent.not_after
    serial ← generate_serial_number p
    extensions ← lift (build_extensions p (ca_spec (some path_len) ski aki))
    let tbs =
        build_tbs_certificate p serial issuer_name subject_name public_key not_before not_after
          extensions algorithm
    parent_algo ← lift (algorithm_named parent.signature_algorithm)
    cert_der ← sign_certificate p tbs parent.kms_key_id parent_algo
    pem ← lift (p.pem_of_der cert_der)
    id ← uuid4
    let ca : CertificateAuthority = record {
      id = id;
      name = name;
      is_root = false;
      parent_id = some parent.id;
      subject_dn = p.human_friendly subject_name;
      kms_backend = p.kms_name;
      kms_key_id = key_id;
      signature_algorithm = value algorithm;
      certificate_pem = pem;
      subject_key_identifier = hex_of_bytes ski;
      not_before = not_before;
      not_after = not_after;
      status = active;
      crl_number = 0;
    }
    with_db (insert_ca ca)
    audit_record p audit_secret (record {
      actor = "system";
      action = "ca.create_intermediate";
      resource = glue "ca:" name;
      details = some (("parent", Scalar.text parent_name) ∷ []);
    })
    pure ca
