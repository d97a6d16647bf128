-- ===== src/Scep/Server.antt =====
-- services/scep/app/main.py: the routes.
use Prim.Native.String.{◌++◌ as glue}
use pkica.Base.{String, not, ◌&&◌, Option, none, some, List, [], ◌∷◌, leb, ◌==◌, if◌then◌else◌}
use pkica.Json.{nonempty}
use pkica.Asn1.{Bytes}
use pkica.Effect.{
  Error, Result, err, and_then, error_of, message, http_exception, outside, Exec, pure, lift,
  or_raise, raise, raise_if, ◌>>=◌, ◌>>◌,
}
use pkica.Ra.Http.{RaClient}
use pkica.Ra.Client.{CaClient}
use pkica.Acme.Finalize.{issued_pem}
use pkica.Cms.{ContentInfo, signed_data}
use pkica.Enrollment.{csr_pem_of}
use pkica.Scep.Cms.{decrypt_enveloped_data, build_enveloped_data, sign_data}
use pkica.Scep.Keys.{ScepLib, Server, padded, ask_ra, ask_ca, draw, load_ra_key, load_ra_cert_der}

-- _PROFILE_NAME, _ISSUING_CA_NAME
abbrev pub profile_name : String
profile_name = "scep-device"

abbrev pub issuing_ca_name : String
issuing_ca_name = "issuing-ca-1"

abbrev pub malformed : Error → Error
malformed exc = http_exception 400 (glue "Malformed SCEP PKIOperation: " (message exc))

module _ (lib : ScepLib) where
  -- cms.ContentInfo.load(plaintext)["content"]["encap_content_info"]["content"].parsed.dump()
  abbrev content_of : ContentInfo lib.cms.Certificate lib.cms.Name → Result Bytes
  content_of (signed_data d) = elim d.encap_content_info.content [
    | some octets ↦ lib.cms.dump_parsed octets
    | none ↦ err (outside "AttributeError")
  ]
  content_of _ = err (outside "KeyError")

  -- the `try` of `_handle_pki_operation`
  unfoldable pub pkcs10_of : lib.PrivateKey → Bytes → Result Bytes
  pkcs10_of key der =
      and_then (decrypt_enveloped_data lib.cipher lib.cms der (lib.decrypt key))
        λ plaintext. and_then (lib.cms.load_content plaintext) content_of

module _ (lib : ScepLib) {ra : RaClient} {ca : CaClient} where
  -- the message that carries the certificate: signed, encrypted for the key of the request, and signed
  unfoldable pub reply_with :
      lib.PrivateKey → lib.cipher.PublicKey → Bytes → Exec (Server ra ca) Bytes
  reply_with key recipient issued_der = do
    cert_der ← load_ra_cert_der lib
    inner_signed ← lift (sign_data lib.cipher lib.cms issued_der cert_der (lib.sign key))
    secret ← draw (lib.cipher.urandom_at 16)
    iv ← draw (lib.cipher.urandom_at 16)
    enveloped ←
        lift (build_enveloped_data lib.cipher lib.cms secret iv inner_signed cert_der recipient)
    lift (sign_data lib.cipher lib.cms enveloped cert_der (lib.sign key))

  -- _handle_pki_operation
  unfoldable pub handle_pki_operation : Bytes → Exec (Server ra ca) Bytes
  handle_pki_operation der = do
    key ← load_ra_key lib
    pkcs10_der ← lift (error_of malformed (pkcs10_of lib key der))
    let csr_pem = csr_pem_of lib.enrollment pkcs10_der
    csr ← lift (lib.enrollment.load_pem_x509_csr csr_pem)
    raise_if (not (lib.enrollment.is_signature_valid csr))
        (http_exception 400 "Invalid CSR signature inside SCEP request")
    resp ← ask_ra (ra.post_request profile_name "scep" (lib.enrollment.subject csr) csr_pem [])
    raise_if (leb 400 resp.status_code) (
        http_exception 502
          "SCEP enrollment failed, or requires manual approval (not supported synchronously)")
    view ← lift resp.json
    issued ← or_raise (issued_pem view.issued_certificate_pem) (
        http_exception 502
          "SCEP enrollment failed, or requires manual approval (not supported synchronously)")
    issued_der ← lift (lib.enrollment.der_of_pem issued)
    reply_with key (lib.csr_key csr) issued_der

  -- the content of the answer of GetCACert
  unfoldable pub ca_certificate : Exec (Server ra ca) Bytes
  ca_certificate = do
    pem ← ask_ca (ca.get_ca_certificate issuing_ca_name)
    lift (lib.enrollment.der_of_pem pem)

abbrev caps : String
caps = "POSTPKIOperation\nSHA-256\nAES\n"

-- The content of an answer.
pub data Content : Type 0 where
  plain_text : String → Content
  der_bytes : Bytes → Content

pub data Request : Type 0 where
  get_scep : String → Option String → Request
  post_scep : String → Bytes → Request
  healthz : Request

abbrev unsupported : String → Error
unsupported operation = http_exception 400 (glue "Unsupported SCEP operation: " operation)

abbrev post_only : String → Error
post_only operation =
    http_exception 400 (glue "POST only supported for PKIOperation, got " operation)

module _ (lib : ScepLib) {ra : RaClient} {ca : CaClient} where
  abbrev in_der : Exec (Server ra ca) Bytes → Exec (Server ra ca) Content
  in_der m = do bytes ← m; pure (der_bytes bytes)

  -- `operation == "PKIOperation" and message`
  unfoldable pub get_operation : String → Option String → Exec (Server ra ca) Content
  get_operation operation none = raise (unsupported operation)
  get_operation operation (some encoded) =
      if operation == "PKIOperation" && nonempty encoded
      then in_der
          (do der ← lift (lib.urlsafe_b64decode (padded encoded)); handle_pki_operation lib der)
      else raise (unsupported operation)

  unfoldable pub scep_get : String → Option String → Exec (Server ra ca) Content
  scep_get operation encoded =
      if operation == "GetCACaps"
      then pure (plain_text caps)
      else if operation == "GetCACert"
      then in_der (ca_certificate lib)
      else get_operation operation encoded

  unfoldable pub scep_post : String → Bytes → Exec (Server ra ca) Content
  scep_post operation body = do
    raise_if (not (operation == "PKIOperation")) (post_only operation)
    in_der (handle_pki_operation lib body)

  unfoldable pub handle : Request → Exec (Server ra ca) Content
  handle (get_scep operation encoded) = scep_get operation encoded
  handle (post_scep operation body) = scep_post operation body
  handle healthz = pure (plain_text "ok")

  -- the start of the service, and the requests to it
  unfoldable pub handle_all : List Request → Server ra ca → Server ra ca
  handle_all [] s = s
  handle_all (q ∷ qs) s = handle_all qs (handle q s).1
