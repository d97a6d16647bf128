-- ===== src/Ra/Api.antt =====
-- services/ra/app/api.py with the session and the identities of services/ra/app/main.py.
use pkica.Base.{ℕ, String, Option, List, map, [], ◌∷◌, some, reverse}
use pkica.Effect.{
  Error, Result, ok, err, map_error, policy_violation, lookup_error, value_error, key_error,
  http_exception, Exec, pure, lift, or_raise, ◌>>=◌, ◌>>◌,
}
use pkica.Auth.{Headers, Claims, require_mtls_peer, require_role, subject_of}
use pkica.Models.{CertificateRequest, status_text, request_with_id, rolled_back}
use pkica.Platform.{Platform, read_db}
use pkica.Ra.Client.{CaClient, Site, locally}
use pkica.Ra.Service.{submit_request, approve_request, reject_request, revoke}

-- The bodies and paths of schemas.py and api.py, each with what its route learns of the caller: the
-- claims of an operator, or the headers of a protocol adapter.
pub data Request : Type 0 where
  submit : Claims → String → String → List String → Request
  list_requests : Claims → Request
  approve : Claims → ℕ → Request
  reject : Claims → ℕ → String → Request
  revoke_certificate : Claims → String → String → Request
  internal_submit : Headers → String → String → String → String → List String → Request
  internal_get : Headers → ℕ → Request
  healthz : Request

-- The members of an answer about a request.
pub record RequestView : Type 0 where
  pub id : ℕ
  pub status : String
  pub protocol : String
  pub requester_identity : String
  pub issued_serial_number : Option String
  pub issued_certificate_pem : Option String

-- `response_model=RequestView`, from the attributes of a row
abbrev pub request_view : CertificateRequest → RequestView
request_view req = record {
  id = req.id;
  status = status_text req.status;
  protocol = req.protocol;
  requester_identity = req.requester_identity;
  issued_serial_number = req.issued_serial_number;
  issued_certificate_pem = req.issued_certificate_pem;
}

pub data Reply : Type 0 where
  view : RequestView → Reply
  listing : List RequestView → Reply
  revoked : String → Reply
  healthy : Reply

-- _PROTOCOL_ADAPTER_PEERS
unfoldable pub protocol_adapter_peers : List String
protocol_adapter_peers = "acme" ∷ "est" ∷ "scep" ∷ []

abbrev pub approver_roles : List String
approver_roles = "pkica-ra-approver" ∷ "pkica-admin" ∷ []

-- `_dev_identity_stub`, which stands for an operator's token when no OIDC provider is configured
unfoldable pub dev_identity_stub : Claims
dev_identity_stub = record { sub = some "dev-user"; pkica_roles = some ("pkica-admin" ∷ []) }

-- `except (PolicyViolation, ValueError)`, `except (PolicyViolation, LookupError)` and
-- `except LookupError`, each with its `HTTPException(status, str(exc))`
unfoldable pub policy_or_value_to_422 : Error → Error
policy_or_value_to_422 (policy_violation text) = http_exception 422 text
policy_or_value_to_422 (value_error text) = http_exception 422 text
policy_or_value_to_422 e = e

unfoldable pub policy_or_lookup_to_422 : Error → Error
policy_or_lookup_to_422 (policy_violation text) = http_exception 422 text
policy_or_lookup_to_422 (lookup_error text) = http_exception 422 text
policy_or_lookup_to_422 (key_error text) = http_exception 422 text
policy_or_lookup_to_422 e = e

unfoldable pub lookup_to_404 : Error → Error
lookup_to_404 (lookup_error text) = http_exception 404 text
lookup_to_404 (key_error text) = http_exception 404 text
lookup_to_404 e = e

module _ (p : Platform) (c : CaClient) (secret : String) where
  -- the handlers, each behind the identity check of its route
  unfoldable pub handle : Request → Exec (Site p c) Reply
  handle (submit claims profile_name csr_pem requested_sans) = do
    req ←
        map_error policy_or_value_to_422
          (submit_request p c secret profile_name "rest" (subject_of claims) csr_pem requested_sans)
    pure (view (request_view req))
  handle (list_requests claims) = do
    lift (require_role approver_roles claims)
    rows ← locally (read_db (λ db. db.certificate_requests))
    pure (listing (map request_view (reverse rows)))
  handle (approve claims request_id) = do
    lift (require_role approver_roles claims)
    req ←
        map_error policy_or_lookup_to_422
          (approve_request p c secret request_id (subject_of claims))
    pure (view (request_view req))
  handle (reject claims request_id reason) = do
    lift (require_role approver_roles claims)
    req ← map_error lookup_to_404 (reject_request p c secret request_id (subject_of claims) reason)
    pure (view (request_view req))
  handle (revoke_certificate claims serial_number reason) = do
    lift (require_role approver_roles claims)
    serial ← revoke p c secret serial_number reason (subject_of claims)
    pure (revoked serial)
  handle (internal_submit h profile_name protocol requester_identity csr_pem requested_sans) = do
    lift (require_mtls_peer protocol_adapter_peers h)
    req ←
        map_error policy_or_value_to_422 (
          submit_request p c secret profile_name protocol requester_identity csr_pem requested_sans)
    pure (view (request_view req))
  handle (internal_get h request_id) = do
    lift (require_mtls_peer protocol_adapter_peers h)
    found ← locally (read_db (request_with_id request_id))
    req ← or_raise found (http_exception 404 "not found")
    pure (view (request_view req))
  handle healthz = pure healthy

  -- `_get_session`: what a handler that raised had written is gone; what the CA did stays done.
  unfoldable pub commit_or_rollback : Site p c → Result Reply × Site p c → Result Reply × Site p c
  commit_or_rollback s (ok reply, s') = (ok reply, s')
  commit_or_rollback s (err e, s') =
      (err e, record s' { local = record s'.local { db = rolled_back s.local.db s'.local.db } })

  unfoldable pub serve : Request → Site p c → Result Reply × Site p c
  serve r s = commit_or_rollback s (handle r s)

  unfoldable pub serve_all : List Request → Site p c → Site p c
  serve_all [] s = s
  serve_all (r ∷ rs) s = serve_all rs (serve r s).1
