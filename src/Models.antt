-- ===== src/Models.antt =====
-- common/pkicore/pkicore/db/models.py: the rows of the tables that the CA and the RA use, and the
-- tables as lists of rows. A UUID is its number, an instant is a number of microseconds since the
-- epoch, and a nullable column is an option. Columns that the database fills in and no code reads
-- (`created_at`) are left out.
use pkica.Base.{
  ℕ, String, Bool, true, false, ◌&&◌, ◌||◌, Option, List, ◌∷◌, [], ◌++◌, eqb, ◌==◌, any, find_first,
  if◌then◌else◌,
}
use pkica.Base.Int.{ℤ}
use pkica.Audit.{AuditTable}
use pkica.Effect.{Result, ok, err, outside}

pub data CaStatus : Type 0 where
  active revoked expired pending : CaStatus

abbrev pub is_active : CaStatus → Bool
is_active active = true
is_active _ = false

pub record CertificateAuthority : Type 0 where
  pub id : ℕ
  pub name : String
  pub is_root : Bool
  pub parent_id : Option ℕ
  pub subject_dn : String
  pub kms_backend : String
  pub kms_key_id : String
  pub signature_algorithm : String
  pub certificate_pem : String
  pub subject_key_identifier : String
  pub not_before : ℤ
  pub not_after : ℤ
  pub status : CaStatus
  pub crl_number : ℕ

pub record CertProfile : Type 0 where
  pub id : ℕ
  pub name : String
  pub issuing_ca_id : ℕ
  pub max_validity_days : ℤ
  pub allowed_key_algorithms : String
  pub key_usage : String
  pub extended_key_usage : String
  pub allow_san_dns : Bool
  pub allow_san_ip : Bool
  pub require_approval : Bool
  pub allowed_protocols : String

pub data RequestStatus : Type 0 where
  pending approved rejected issued failed : RequestStatus

-- The text of an enumeration's member.
abbrev pub status_text : RequestStatus → String
status_text RequestStatus.pending = "pending"
status_text RequestStatus.approved = "approved"
status_text RequestStatus.rejected = "rejected"
status_text RequestStatus.issued = "issued"
status_text RequestStatus.failed = "failed"

abbrev pub is_pending : RequestStatus → Bool
is_pending RequestStatus.pending = true
is_pending _ = false

pub record CertificateRequest : Type 0 where
  pub id : ℕ
  pub profile_id : ℕ
  pub protocol : String
  pub requester_identity : String
  pub csr_pem : String
  pub requested_sans : String
  pub status : RequestStatus
  pub approver_identity : Option String
  pub rejection_reason : Option String
  pub issued_serial_number : Option String
  pub issued_certificate_pem : Option String
  pub decided_at : Option ℤ

-- `serial_number` and `revocation_reason` are of at most 64 characters: the serial numbers that
-- `generate_serial_number` gives have 38 digits at most, and the width of the reason is checked where it
-- is written.
pub record Certificate : Type 0 where
  pub id : ℕ
  pub request_id : Option ℕ
  pub issuing_ca_id : ℕ
  pub serial_number : String
  pub subject_dn : String
  pub sans : String
  pub certificate_pem : String
  pub not_before : ℤ
  pub not_after : ℤ
  pub revoked : Bool
  pub revoked_at : Option ℤ
  pub revocation_reason : Option String

pub record Db : Type 0 where
  pub certificate_authorities : List CertificateAuthority
  pub cert_profiles : List CertProfile
  pub certificate_requests : List CertificateRequest
  pub certificates : List Certificate
  pub audit_log : AuditTable

-- The columns `id` and `name` of the authorities are unique: a second row with one of them is an
-- error of the flush.
unfoldable pub insert_ca : CertificateAuthority → Db → Result Db
insert_ca ca db =
    if any (λ c. c.name == ca.name || eqb c.id ca.id) db.certificate_authorities
    then err (outside "IntegrityError")
    else ok (record db { certificate_authorities = db.certificate_authorities ++ ca ∷ [] })

abbrev pub same_serial : Certificate → Certificate → Bool
same_serial c d = eqb c.issuing_ca_id d.issuing_ca_id && c.serial_number == d.serial_number

-- The primary key, and the constraint `uq_ca_serial`: one certificate for each authority and serial
-- number.
unfoldable pub insert_certificate : Certificate → Db → Result Db
insert_certificate cert db =
    if any (λ c. same_serial c cert || eqb c.id cert.id) db.certificates
    then err (outside "IntegrityError")
    else ok (record db { certificates = db.certificates ++ cert ∷ [] })

-- `select(CertificateAuthority).where(CertificateAuthority.name == name)`
unfoldable pub ca_named : String → Db → Option CertificateAuthority
ca_named name db = find_first (λ c. c.name == name) db.certificate_authorities

-- `session.get(CertificateAuthority, id)`
unfoldable pub ca_with_id : ℕ → Db → Option CertificateAuthority
ca_with_id id db = find_first (λ c. eqb c.id id) db.certificate_authorities

unfoldable pub profile_named : String → Db → Option CertProfile
profile_named name db = find_first (λ p. p.name == name) db.cert_profiles

unfoldable pub profile_with_id : ℕ → Db → Option CertProfile
profile_with_id id db = find_first (λ p. eqb p.id id) db.cert_profiles

unfoldable pub request_with_id : ℕ → Db → Option CertificateRequest
request_with_id id db = find_first (λ r. eqb r.id id) db.certificate_requests

-- `select(Certificate).where(Certificate.serial_number == serial)`. The query has no order: it answers
-- with some row of that number, here with the first one; where it matters a theorem asks that there is
-- one.
unfoldable pub certificate_with_serial : String → Db → Option Certificate
certificate_with_serial serial db = find_first (λ c. c.serial_number == serial) db.certificates

-- The database after a rollback: the tables as they were, and the numbers that a sequence has given
-- out stay given out.
unfoldable pub rolled_back : Db → Db → Db
rolled_back old new = record old {
  audit_log = record old.audit_log { next_seq = new.audit_log.next_seq };
}
