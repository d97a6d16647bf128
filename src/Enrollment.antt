-- ===== src/Enrollment.antt =====
-- What services/est and services/scep share: the calls of `cryptography` and base64, the state of the
-- services behind them, and the request that both send to the RA.
use Prim.Native.String.{◌++◌ as glue}
use pkica.Base.{String, Bool}
use pkica.Asn1.{Bytes}
use pkica.Effect.{Result, Exec}
use pkica.Ra.Http.{RaClient}
use pkica.Ra.Client.{CaClient}

pub record EnrollmentLib : Type 1 where
  pub Csr : Type 0
  -- base64.encodebytes, read as text
  pub encodebytes : Bytes → String
  -- base64.b64decode(b, validate=True)
  pub b64decode : Bytes → Result Bytes
  pub load_pem_x509_csr : String → Result Csr
  pub is_signature_valid : Csr → Bool
  -- csr.subject.rfc4514_string()
  pub subject : Csr → String
  -- c_x509.load_pem_x509_certificate(pem.encode()).public_bytes(c_x509.Encoding.DER)
  pub der_of_pem : String → Result Bytes
  -- secrets.compare_digest of two texts: a TypeError if one is not ASCII
  pub compare_digest : String → String → Result Bool

-- The RA and the CA behind a server.
pub record Behind (ra : RaClient) (ca : CaClient) : Type 0 where
  pub ra_state : ra.Remote
  pub ca_state : ca.Remote

module _ {ra : RaClient} {ca : CaClient} {A : Type 0} where
  unfoldable pub ask_ra : Exec ra.Remote A → Exec (Behind ra ca) A
  ask_ra m s = let (r, state) = m s.ra_state in (r, record s { ra_state = state })

  unfoldable pub ask_ca : Exec ca.Remote A → Exec (Behind ra ca) A
  ask_ca m s = let (r, state) = m s.ca_state in (r, record s { ca_state = state })

-- The text of a request in PEM.
unfoldable pub csr_pem_of : EnrollmentLib → Bytes → String
csr_pem_of lib der =
    glue "-----BEGIN CERTIFICATE REQUEST-----\n"
      (glue (lib.encodebytes der) "-----END CERTIFICATE REQUEST-----\n")
