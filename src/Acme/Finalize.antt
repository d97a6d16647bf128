-- ===== src/Acme/Finalize.antt =====
-- services/acme/app/main.py: the end of an order, and what it is answered with.
use Prim.Native.String.{◌++◌ as glue}
use pkica.Base.{
  ℕ, String, Bool, true, false, not, Option, none, some, List, [], ◌∷◌, ◌++◌, all, map, leb, ◌==◌,
  if◌then◌else◌,
}
use pkica.Json.{Json, text, object, item, as_text, dict, nonempty}
use pkica.Asn1.{Bytes}
use pkica.Effect.{and_then, http_exception, Exec, pure, lift, or_raise, raise_if, ◌>>=◌, ◌>>◌}
use pkica.Ra.Http.{RaClient, RequestView}
use pkica.Acme.Tables.{AcmeAuthorization, AcmeOrder, order_with_id, authorizations_of, change_order}
use pkica.Acme.Server.{AcmeLib, Server, read, write, commit, ask_ra, new_nonce}
use pkica.Acme.Jws.{
  value_of, parse_jws, b64url_decode, protected_header, verify_and_decode, get_account_from_kid,
}
use pkica.Acme.Accounts.{Answer, consume_header}
use pkica.Acme.Orders.{url, plain}

-- _PROFILE_NAME
abbrev pub profile_name : String
profile_name = "acme-tls-server"

-- all(a.status == "valid" for a in authzs)
unfoldable pub all_valid : List AcmeAuthorization → Bool
all_valid = all (λ a. a.status == "valid")

-- [f"dns:{a.identifier_value}" for a in authzs]
unfoldable pub sans_of : List AcmeAuthorization → List String
sans_of = map (λ a. glue "dns:" a.identifier_value)

-- `ra_request.get("issued_certificate_pem")`, where it is a text that is not empty
unfoldable pub issued_pem : Option String → Option String
issued_pem none = none
issued_pem (some pem) = if nonempty pem then some pem else none

-- The order's row behind the RA's answer.
unfoldable pub finalized_row : RequestView → AcmeOrder → AcmeOrder
finalized_row view order = elim (issued_pem view.issued_certificate_pem) [
  | some pem ↦ record order {
    request_id = some view.id;
    certificate_pem = some pem;
    status = "valid";
  }
  | none ↦ record order { request_id = some view.id; status = "processing" }
]

-- the member `certificate`, for an order that is valid
abbrev certificate_member : Bool → String → List (String × Json)
certificate_member true address = ("certificate", text address) ∷ []
certificate_member false address = []

abbrev pub with_certificate : (lib : AcmeLib) → AcmeOrder → List (String × Json) → Json
with_certificate lib order members =
    object
      (dict (members ++ certificate_member (order.status == "valid") (url lib "/cert/" order.id)))

-- `not order.certificate_pem`
unfoldable pub certificate_of : Option AcmeOrder → Option String
unfolding issued_pem
certificate_of none = none
certificate_of (some order) = issued_pem order.certificate_pem

module _ (lib : AcmeLib) where
  -- the text of a request in PEM
  unfoldable pub csr_pem_of : Bytes → String
  csr_pem_of der =
      glue "-----BEGIN CERTIFICATE REQUEST-----\n"
        (glue (lib.encodebytes der) "-----END CERTIFICATE REQUEST-----\n")

module _ {lib : AcmeLib} {ra : RaClient} where
  -- finalize
  unfoldable pub finalize : ℕ → Bytes → Exec (Server lib ra) Answer
  finalize order_id body = do
    flat ← lift (parse_jws lib body)
    protected ← lift (protected_header lib flat)
    consume_header protected
    found ← read (order_with_id order_id)
    order ← or_raise found (http_exception 404 "Not Found")
    account ← get_account_from_kid protected
    jwk ← lift (value_of (lib.loads_text account.jwk_json))
    payload ← lift (verify_and_decode lib flat jwk)
    authzs ← read (authorizations_of order.id)
    raise_if (not (all_valid authzs)) (http_exception 403 "Not all authorizations are valid")
    csr_der ← lift (and_then (and_then (item "csr" payload) as_text) (b64url_decode lib))
    resp ← ask_ra (
        ra.post_request profile_name "acme" account.jwk_thumbprint (csr_pem_of lib csr_der)
          (sans_of authzs))
    raise_if (leb 400 resp.status_code)
        (http_exception 502 (glue "RA rejected request: " resp.body))
    ra_request ← lift resp.json
    let row = finalized_row ra_request order
    write (change_order order.id (finalized_row ra_request))
    commit
    nonce ← new_nonce
    identifiers ← lift (value_of (lib.loads_text row.identifiers))
    pure (
        plain nonce (
          with_certificate lib row (
            ("status", text row.status)
            ∷ ("identifiers", identifiers)
            ∷ ("finalize", text (glue (url lib "/order/" row.id) "/finalize"))
            ∷ [])))

  -- get_order
  unfoldable pub get_order : ℕ → Bytes → Exec (Server lib ra) Answer
  get_order order_id body = do
    lift (parse_jws lib body)
    found ← read (order_with_id order_id)
    order ← or_raise found (http_exception 404 "Not Found")
    nonce ← new_nonce
    identifiers ← lift (value_of (lib.loads_text order.identifiers))
    pure (
        plain nonce (
          with_certificate lib order
            (("status", text order.status) ∷ ("identifiers", identifiers) ∷ [])))

  -- download_cert
  unfoldable pub download_cert : ℕ → Exec (Server lib ra) Answer
  download_cert order_id = do
    found ← read (order_with_id order_id)
    pem ← or_raise (certificate_of found) (http_exception 404 "Not Found")
    pure (record { status_code = 200; location = none; replay_nonce = none; content = text pem })
