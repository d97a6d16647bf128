-- ===== src/Asn1.antt =====
-- The values of `asn1crypto` that common/pkicore/pkicore/crypto.py builds, as it builds them: the
-- names of the fields are the keys of its dictionaries. `Name` is the library's type of names.
use pkica.Base.{ℕ, String, Bool, Option, List}
use pkica.Base.Int.{ℤ}

abbrev pub Bytes : Type 0
Bytes = List ℕ

pub data GeneralName : Type 0 where
  dns_name rfc822_name uniform_resource_identifier : String → GeneralName
  ip_address : Bytes → GeneralName

pub data AccessMethod : Type 0 where
  ocsp ca_issuers : AccessMethod

-- `key_usage` holds the bits, `extended_key_usage` object identifiers; a distribution point is the
-- full name of its location.
pub data ExtnValue : Type 0 where
  basic_constraints : Bool → Option ℤ → ExtnValue
  key_usage : Bytes → ExtnValue
  extended_key_usage : List String → ExtnValue
  subject_alt_name : List GeneralName → ExtnValue
  key_identifier : Bytes → ExtnValue
  authority_key_identifier : Bytes → ExtnValue
  crl_distribution_points : List (List GeneralName) → ExtnValue
  authority_information_access : List (AccessMethod × GeneralName) → ExtnValue

pub record Extension : Type 0 where
  pub critical : Bool
  pub extn_value : ExtnValue

pub data Time : Type 0 where
  utc_time general_time : ℤ → Time

pub record TbsCertificate (Name : Type 0) : Type 0 where
  pub version : String
  pub serial_number : ℕ
  pub signature : String
  pub issuer : Name
  pub not_before : Time
  pub not_after : Time
  pub subject : Name
  pub subject_public_key_info : Bytes
  pub extensions : List Extension

pub record SignedCertificate (Name : Type 0) : Type 0 where
  pub tbs_certificate : TbsCertificate Name
  pub signature_algorithm : String
  pub signature_value : Bytes

pub record RevokedCertificate : Type 0 where
  pub user_certificate : ℤ
  pub revocation_date : Option ℤ
  pub crl_reason : ℕ

pub record TbsCertList (Name : Type 0) : Type 0 where
  pub version : String
  pub signature : String
  pub issuer : Name
  pub this_update : Time
  pub next_update : Time
  pub revoked_certificates : List RevokedCertificate
  pub crl_number : ℕ
  pub authority_key_id : Bytes

pub record CertificateList (Name : Type 0) : Type 0 where
  pub tbs_cert_list : TbsCertList Name
  pub signature_algorithm : String
  pub signature : Bytes

pub data CertStatus : Type 0 where
  good unknown : CertStatus
  revoked : Option ℤ → String → CertStatus

pub record SingleResponse : Type 0 where
  pub hash_algorithm : String
  pub issuer_name_hash : Bytes
  pub issuer_key_hash : Bytes
  pub serial_number : ℤ
  pub cert_status : CertStatus
  pub this_update : ℤ
  pub next_update : ℤ

pub record ResponseData (Name : Type 0) : Type 0 where
  pub responder_id : Name
  pub produced_at : ℤ
  pub responses : List SingleResponse

pub record OcspResponse (Name : Type 0) : Type 0 where
  pub response_status : String
  pub tbs_response_data : ResponseData Name
  pub signature_algorithm : String
  pub signature : Bytes
