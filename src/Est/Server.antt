-- ===== src/Est/Server.antt =====
-- services/est/app/main.py: the routes.
use Prim.Native.String.{◌++◌ as glue}
use pkica.Base.{String, not, List, [], ◌∷◌, leb}
use pkica.Text.{upper_equals}
use pkica.Text.Infix.{is_within}
use pkica.Asn1.{Bytes}
use pkica.Effect.{
  Result, ok, err, and_then, http_exception, Exec, pure, lift, or_raise, raise_if, ◌>>=◌, ◌>>◌,
}
use pkica.Auth.{Headers}
use pkica.Ra.Http.{RaClient, RequestView}
use pkica.Ra.Client.{CaClient}
use pkica.Acme.Finalize.{issued_pem}
use pkica.Cms.{CmsLib}
use pkica.Enrollment.{EnrollmentLib, Behind, ask_ra, ask_ca, csr_pem_of}
use pkica.Est.Auth.{verify_basic_auth}
use pkica.Est.Pkcs7.{certs_only_pkcs7}

-- _PROFILE_NAME, _ISSUING_CA_NAME
abbrev pub profile_name : String
profile_name = "est-device"

abbrev pub issuing_ca_name : String
issuing_ca_name = "issuing-ca-1"

-- Requests with basic credentials, or with the headers of the gateway; and their bodies.
pub data Request : Type 0 where
  get_cacerts healthz : Request
  post_simpleenroll : String → String → Bytes → Request
  post_simplereenroll : Headers → Bytes → Request

abbrev decoded_or_raw : Bytes → Result Bytes → Bytes
decoded_or_raw raw (ok der) = der
decoded_or_raw raw (err e) = raw

module _ (lib : EnrollmentLib) (cms : CmsLib) where
  -- _pkcs10_body_to_pem
  unfoldable pub pkcs10_body_to_pem : Bytes → String
  unfolding csr_pem_of
  pkcs10_body_to_pem body = csr_pem_of lib (decoded_or_raw body (lib.b64decode body))

  -- `certs_only_pkcs7` of one certificate, in base64
  unfoldable pub pkcs7_text : String → Result String
  unfolding certs_only_pkcs7
  pkcs7_text pem =
      and_then (lib.der_of_pem pem)
        λ der. and_then (certs_only_pkcs7 cms (der ∷ [])) λ pkcs7. ok (lib.encodebytes pkcs7)

module _ (lib : EnrollmentLib) (cms : CmsLib) (configured : String) {ra : RaClient}
    {ca : CaClient} where
  -- _ra_submit
  unfoldable pub ra_submit : String → String → List String → Exec (Behind ra ca) RequestView
  ra_submit requester_identity csr_pem sans = do
    resp ← ask_ra (ra.post_request profile_name "est" requester_identity csr_pem sans)
    raise_if (leb 400 resp.status_code)
        (http_exception 502 (glue "RA rejected request: " resp.body))
    lift resp.json

  -- the end of both enrollments
  unfoldable pub enroll : String → String → Exec (Behind ra ca) String
  enroll requester_identity csr_pem = do
    result ← ra_submit requester_identity csr_pem []
    pem ←
        or_raise (issued_pem result.issued_certificate_pem)
          (http_exception 202 "Request pending manual approval")
    lift (pkcs7_text lib cms pem)

  -- the request of the body, whose signature is checked
  unfoldable pub checked_csr : String → Exec (Behind ra ca) lib.Csr
  checked_csr csr_pem = do
    csr ← lift (lib.load_pem_x509_csr csr_pem)
    raise_if (not (lib.is_signature_valid csr)) (http_exception 400 "Invalid CSR signature")
    pure csr

  unfoldable pub cacerts : Exec (Behind ra ca) String
  cacerts = do pem ← ask_ca (ca.get_ca_certificate issuing_ca_name); lift (pkcs7_text lib cms pem)

  unfoldable pub simpleenroll : String → String → Bytes → Exec (Behind ra ca) String
  simpleenroll username password body = do
    user ← lift (verify_basic_auth lib configured username password)
    let csr_pem = pkcs10_body_to_pem lib cms body
    checked_csr csr_pem
    enroll (glue "est-user:" user) csr_pem

  unfoldable pub simplereenroll : Headers → Bytes → Exec (Behind ra ca) String
  simplereenroll h body = do
    raise_if (not (upper_equals h.x_client_cert_verify "SUCCESS"))
        (http_exception 401 "A valid client certificate is required for EST re-enrollment")
    let csr_pem = pkcs10_body_to_pem lib cms body
    csr ← checked_csr csr_pem
    raise_if (not (is_within h.x_client_cert_cn (lib.subject csr)))
        (http_exception 403 "CSR subject does not match authenticated client certificate")
    enroll (glue "est-reenroll:" h.x_client_cert_cn) csr_pem

  unfoldable pub handle : Request → Exec (Behind ra ca) String
  handle get_cacerts = cacerts
  handle healthz = pure "ok"
  handle (post_simpleenroll username password body) = simpleenroll username password body
  handle (post_simplereenroll h body) = simplereenroll h body
