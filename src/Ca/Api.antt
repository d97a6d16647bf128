-- ===== src/Ca/Api.antt =====
-- services/ca/app/api.py, with the session of services/ca/app/main.py: a request is answered inside one
-- database session, which is committed when the handler returns and rolled back when it raises.
use pkica.Base.{String, List, [], ◌∷◌}
use Prim.Native.String.{◌++◌ as glue}
use pkica.Base.Int.{ℤ, pos}
use pkica.Effect.{
  Error, Result, ok, err, map_error, policy_violation, lookup_error, key_error, http_exception,
  Exec, pure, lift, or_raise, ◌>>=◌, ◌>>◌,
}
use pkica.Asn1.{Bytes}
use pkica.Auth.{Headers, require_mtls_peer}
use pkica.Models.{profile_named, ca_named, rolled_back}
use pkica.Platform.{Platform, World, read_db}
use pkica.Ca.Lifecycle.{create_root_ca, create_intermediate_ca}
use pkica.Ca.Issue.{issue_certificate, revoke_certificate}
use pkica.Ca.Status.{generate_crl, sign_ocsp_response}

-- The bodies and paths of schemas.py and api.py.
pub data Request : Type 0 where
  create_root : String → List (String × String) → String → ℤ → Request
  create_intermediate : String → String → List (String × String) → String → ℤ → ℤ → Request
  issue : String → String → String → List String → ℤ → String → Request
  revoke : String → String → String → Request
  crl : String → Request
  sign_ocsp : String → String → Request
  get_ca_certificate : String → Request
  healthz : Request

pub data Reply : Type 0 where
  ca_view : String → String → Reply
  issued : String → String → String → String → Reply
  revoked : String → Reply
  content : Bytes → Reply
  healthy : Reply

-- _ISSUANCE_PEERS, _SIGNING_PEERS, _ADMIN_PEERS
unfoldable pub issuance_peers : List String
issuance_peers = "ra" ∷ []

unfoldable pub signing_peers : List String
signing_peers = "ocsp" ∷ "crl" ∷ []

unfoldable pub admin_peers : List String
admin_peers = "pkica-admin-cli" ∷ []

-- `except PolicyViolation as exc: raise HTTPException(422, str(exc))`
unfoldable pub policy_to_422 : Error → Error
policy_to_422 (policy_violation text) = http_exception 422 text
policy_to_422 e = e

-- `except LookupError as exc: raise HTTPException(404, str(exc))`; a KeyError is a LookupError
unfoldable pub lookup_to_404 : Error → Error
lookup_to_404 (lookup_error text) = http_exception 404 text
lookup_to_404 (key_error text) = http_exception 404 text
lookup_to_404 e = e

module _ (p : Platform) (secret : String) where
  -- the handlers, each behind the identity check of its route
  unfoldable pub handle : Headers → Request → Exec (World p) Reply
  handle h (create_root name subject key_algorithm validity_days) = do
    lift (require_mtls_peer admin_peers h)
    ca ← create_root_ca p secret name subject key_algorithm validity_days
    pure (ca_view ca.name ca.certificate_pem)
  handle h (create_intermediate name parent_name subject key_algorithm validity_days path_len) = do
    lift (require_mtls_peer admin_peers h)
    ca ←
        create_intermediate_ca p secret name parent_name subject key_algorithm validity_days
          path_len
    pure (ca_view ca.name ca.certificate_pem)
  handle h (issue ca_name profile_name csr_pem requested_sans validity_days requester_identity) = do
    lift (require_mtls_peer issuance_peers h)
    found ← read_db (profile_named profile_name)
    profile ← or_raise found (http_exception 404 (glue "Unknown profile " profile_name))
    cert ← map_error policy_to_422 (
        issue_certificate p secret ca_name profile csr_pem requested_sans validity_days
          requester_identity)
    pure (
        issued cert.serial_number cert.certificate_pem (p.audit.isoformat cert.not_before)
          (p.audit.isoformat cert.not_after))
  handle h (revoke serial_number reason actor) = do
    lift (require_mtls_peer issuance_peers h)
    cert ← map_error lookup_to_404 (revoke_certificate p secret serial_number reason actor)
    pure (revoked cert.serial_number)
  handle h (crl ca_name) = do
    lift (require_mtls_peer signing_peers h)
    der ← generate_crl p secret ca_name (pos 24)
    pure (content der)
  handle h (sign_ocsp ca_name serial_number) = do
    lift (require_mtls_peer signing_peers h)
    der ← sign_ocsp_response p secret ca_name serial_number
    pure (content der)
  handle h (get_ca_certificate ca_name) = do
    found ← read_db (ca_named ca_name)
    ca ← or_raise found (http_exception 404 (glue "CA " (glue ca_name " not found")))
    pure (ca_view ca.name ca.certificate_pem)
  handle h healthz = pure healthy

  -- `yield session; session.commit()`, and `session.close()` whatever happened: what a handler that
  -- raised had written is gone, and calls of the key store stay made.
  unfoldable pub commit_or_rollback : World p → Result Reply × World p → Result Reply × World p
  commit_or_rollback w (ok reply, w') = (ok reply, w')
  commit_or_rollback w (err e, w') = (err e, record w' { db = rolled_back w.db w'.db })

  unfoldable pub serve : Headers → Request → World p → Result Reply × World p
  serve h r w = commit_or_rollback w (handle h r w)

  -- a history of requests, whoever sent them
  unfoldable pub serve_all : List (Headers × Request) → World p → World p
  serve_all [] w = w
  serve_all ((h, r) ∷ rs) w = serve_all rs (serve h r w).1
