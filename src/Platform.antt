-- ===== src/Platform.antt =====
-- What the services call outside the repository, as one record of types and operations, and the state
-- that a service works on. `cryptography` and `asn1crypto` give keys, names, requests and DER; the
-- key store is the abstract class `KMSBackend` of kms/base.py; clock and random sources answer by the
-- number of the call, so that a value of the record is any course of such answers.
pub mod Keeps
use pkica.Base.{ℕ, ◌+◌, String, Bool, List}
use pkica.Base.Int.{ℤ}
use pkica.Effect.{Result, ok, Exec}
use pkica.Audit.{AuditLib}
use pkica.Kms.{SignatureAlgorithm, KeySpec}
use pkica.Models.{Db}
use pkica.Asn1.{
  Bytes, TbsCertificate, SignedCertificate, TbsCertList, CertificateList, ResponseData,
  OcspResponse,
}

-- What `isinstance` and the attributes `key_size` and `curve.name` tell of a public key.
pub data KeyKind : Type 0 where
  rsa : ℕ → KeyKind
  ec : String → KeyKind
  other : KeyKind

pub record Platform : Type 1 where
  pub PublicKey : Type 0
  pub Csr : Type 0
  pub Name : Type 0
  pub key_kind : PublicKey → KeyKind
  -- c_x509.SubjectKeyIdentifier.from_public_key(public_key).digest
  pub ski_digest : PublicKey → Bytes
  -- public_key.public_bytes(DER, SubjectPublicKeyInfo)
  pub spki_der : PublicKey → Bytes
  -- c_x509.load_pem_x509_csr, `csr.is_signature_valid`, `csr.public_key()`
  pub load_pem_x509_csr : String → Result Csr
  pub is_signature_valid : Csr → Bool
  pub csr_public_key : Csr → PublicKey
  -- the values of csr.subject.get_attributes_for_oid(oid)
  pub attributes_for_oid : Csr → String → List String
  -- a_x509.Name.build, `name.human_friendly`
  pub name_build : List (String × String) → Result Name
  pub human_friendly : Name → String
  -- ipaddress.ip_address(value).packed
  pub ip_packed : String → Result Bytes
  -- a_x509.KeyUsage(set), a_crl.CRLReason(text): an error on a name that they do not know
  pub key_usage_bits : List String → Result Bytes
  pub crl_reason : String → Result ℕ
  -- load_der_x509_certificate(der).public_bytes(PEM).decode()
  pub pem_of_der : Bytes → Result String
  -- `dump` of the values that crypto.py builds, and sha256
  pub dump_name : Name → Result Bytes
  pub dump_tbs_certificate : TbsCertificate Name → Result Bytes
  pub dump_certificate : SignedCertificate Name → Result Bytes
  pub dump_tbs_cert_list : TbsCertList Name → Result Bytes
  pub dump_certificate_list : CertificateList Name → Result Bytes
  pub dump_response_data : ResponseData Name → Result Bytes
  pub dump_ocsp_response : OcspResponse Name → Result Bytes
  pub sha256 : Bytes → Bytes
  -- bytes of the BIT STRING subjectPublicKey in an SPKI, its leading count byte included
  pub public_key_contents : Bytes → Bytes
  -- the key store
  pub KmsState : Type 0
  pub kms_name : String
  pub create_key : KeySpec → Exec KmsState String
  pub public_key : String → Exec KmsState PublicKey
  pub sign : String → Bytes → SignatureAlgorithm → Exec KmsState Bytes
  -- datetime.now(utc), uuid4(), os.urandom(n), at the k-th call
  pub now_at : ℕ → ℤ
  pub uuid4_at : ℕ → ℕ
  pub urandom_at : ℕ → ℕ → Bytes
  -- uuid.hex
  pub uuid_hex : ℕ → String
  pub uuid_text : ℕ → String
  pub audit : AuditLib

pub record World (p : Platform) : Type 0 where
  pub db : Db
  pub kms : p.KmsState
  pub calls : ℕ

module _ {p : Platform} where
  unfoldable pub now : Exec (World p) ℤ
  now w = (ok (p.now_at w.calls), record w { calls = w.calls + 1 })

  unfoldable pub uuid4 : Exec (World p) ℕ
  uuid4 w = (ok (p.uuid4_at w.calls), record w { calls = w.calls + 1 })

  unfoldable pub urandom : ℕ → Exec (World p) Bytes
  urandom n w = (ok (p.urandom_at n w.calls), record w { calls = w.calls + 1 })

  -- a call of the key store changes the key store alone
  unfoldable pub with_kms : {A : Type 0} → Exec p.KmsState A → Exec (World p) A
  with_kms m w = let (r, k) = m w.kms in (r, record w { kms = k })

  -- a statement on the session's database
  unfoldable pub with_db : (Db → Result Db) → Exec (World p) (Unit {0})
  with_db f w = elim (f w.db) [
    | ok d ↦ (ok tt, record w { db = d })
    | Result.err e ↦ (Result.err e, w)
  ]

  unfoldable pub read_db : {A : Type 0} → (Db → A) → Exec (World p) A
  read_db f w = (ok (f w.db), w)
