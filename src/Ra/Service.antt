-- ===== src/Ra/Service.antt =====
-- services/ra/app/service.py: the class `RAService`.
use Prim.Native.String.{◌++◌ as glue}
use pkica.Base.{
  ℕ, String, Bool, true, not, none, some, List, [], ◌∷◌, ◌++◌, ◌==◌, eqb, member, update_where,
  if◌then◌else◌,
}
use pkica.Text.{split, join, comma}
use pkica.Effect.{
  Result, ok, err, message, policy_violation, lookup_error, attribute_error, Exec, pure, raise,
  raise_if, lift, or_raise, ◌>>=◌, ◌>>◌,
}
use pkica.Base.Int.{ℤ}
use pkica.Audit.{Scalar}
use pkica.Models.{
  Db, CertProfile, CertificateRequest, RequestStatus, status_text, is_pending, profile_named,
  profile_with_id, ca_with_id, request_with_id,
}
use pkica.Platform.{Platform, now, uuid4, with_db, read_db}
use pkica.Crypto.{parse_csr}
use pkica.Ca.Session.{audit_record}
use pkica.Ra.Client.{CaClient, Issued, Site, locally, remotely, attempt}

-- The row that `submit_request` adds.
abbrev pub new_request :
    ℕ → CertProfile → String → String → String → List String → CertificateRequest
new_request id profile protocol requester_identity csr_pem sans = record {
  id = id;
  profile_id = profile.id;
  protocol = protocol;
  requester_identity = requester_identity;
  csr_pem = csr_pem;
  requested_sans = join "," sans;
  status = RequestStatus.pending;
  approver_identity = none;
  rejection_reason = none;
  issued_serial_number = none;
  issued_certificate_pem = none;
  decided_at = none;
}

-- The writes of `_issue` when the CA has raised, and when it has answered.
abbrev pub failed_row : String → CertificateRequest → CertificateRequest
failed_row text req = record req { status = RequestStatus.failed; rejection_reason = some text }

abbrev pub issued_row : Issued → ℤ → CertificateRequest → CertificateRequest
issued_row result at req = record req {
  status = RequestStatus.issued;
  decided_at = some at;
  issued_serial_number = some result.serial_number;
  issued_certificate_pem = some result.certificate_pem;
}

abbrev pub approved_row : String → CertificateRequest → CertificateRequest
approved_row approver_identity req = record req { approver_identity = some approver_identity }

abbrev pub rejected_row : String → String → CertificateRequest → CertificateRequest
rejected_row approver_identity reason req = record req {
  status = RequestStatus.rejected;
  approver_identity = some approver_identity;
  rejection_reason = some reason;
}

unfoldable pub add_request : CertificateRequest → Db → Result Db
add_request req db = ok (record db { certificate_requests = db.certificate_requests ++ req ∷ [] })

-- The flush of a changed row, which its primary key finds.
unfoldable pub change_request : ℕ → (CertificateRequest → CertificateRequest) → Db → Result Db
change_request id f db =
    ok (record db {
      certificate_requests = update_where (λ r. eqb r.id id) f db.certificate_requests;
    })

-- `req.requested_sans.split(",") if req.requested_sans else []`
unfoldable pub stored_sans : String → List String
stored_sans text = if text == "" then [] else split comma text

module _ (p : Platform) (c : CaClient) (audit_secret : String) where
  abbrev record_event :
      String → String → String → List (String × Scalar) → Exec (Site p c) (Unit {0})
  record_event actor action resource details = locally (
      audit_record p audit_secret
        (record { actor = actor; action = action; resource = resource; details = some details }))

  -- RAService._get_request
  unfoldable pub get_request : ℕ → Exec (Site p c) CertificateRequest
  get_request id = do
    req ← locally (read_db (request_with_id id))
    or_raise req (lookup_error (glue "Request " (glue (p.uuid_text id) " not found")))

  -- the `except` block of `_issue`, and what follows the `try`
  unfoldable pub conclude :
      CertificateRequest → String → Result Issued → Exec (Site p c) CertificateRequest
  conclude req actor (err e) = do
    locally (with_db (change_request req.id (failed_row (message e))))
    record_event actor "request.issue_failed" (glue "request:" (p.uuid_text req.id))
        (("error", Scalar.text (message e)) ∷ [])
    raise e
  conclude req actor (ok result) = do
    decided_at ← locally now
    locally (with_db (change_request req.id (issued_row result decided_at)))
    record_event actor "request.issued" (glue "request:" (p.uuid_text req.id))
        (("serial_number", Scalar.text result.serial_number) ∷ [])
    pure (issued_row result decided_at req)

  -- RAService._issue
  unfoldable pub issue_request :
      CertificateRequest → CertProfile → List String → String → Exec (Site p c) CertificateRequest
  issue_request req profile sans actor = do
    found ← locally (read_db (ca_with_id profile.issuing_ca_id))
    result ← attempt (do
      ca ← or_raise found (attribute_error "'NoneType' object has no attribute 'name'")
      remotely (
          c.issue ca.name profile.name req.csr_pem sans profile.max_validity_days
            req.requester_identity))
    conclude req actor result

  -- `if not profile.require_approval: self._issue(...)`
  unfoldable pub issue_unless :
      Bool
      → CertificateRequest
      → CertProfile
      → List String
      → String
      → Exec (Site p c) CertificateRequest
  issue_unless true req profile sans actor = pure req
  issue_unless Bool.false req profile sans actor = issue_request req profile sans actor

  -- RAService.submit_request
  unfoldable pub submit_request :
      String → String → String → String → List String → Exec (Site p c) CertificateRequest
  submit_request profile_name protocol requester_identity csr_pem requested_sans = do
    found ← locally (read_db (profile_named profile_name))
    profile ←
        or_raise found
          (policy_violation (glue "Unknown certificate profile '" (glue profile_name "'")))
    raise_if (not (member protocol (split comma profile.allowed_protocols))) (
        policy_violation (
          glue "Protocol '"
            (glue protocol (glue "' not permitted for profile '" (glue profile_name "'")))))
    lift (parse_csr p csr_pem)
    id ← locally uuid4
    let req = new_request id profile protocol requester_identity csr_pem requested_sans
    locally (with_db (add_request req))
    record_event requester_identity "request.submit" (glue "request:" (p.uuid_text id))
        (("profile", Scalar.text profile_name) ∷ ("protocol", Scalar.text protocol) ∷ [])
    issue_unless profile.require_approval req profile requested_sans requester_identity

  -- RAService.approve_request
  unfoldable pub approve_request : ℕ → String → Exec (Site p c) CertificateRequest
  approve_request request_id approver_identity = do
    req ← get_request request_id
    raise_if (not (is_pending req.status)) (
        policy_violation (
          glue "Request " (
            glue (p.uuid_text request_id)
              (glue " is not pending (status=" (glue (status_text req.status) ")")))))
    found ← locally (read_db (profile_with_id req.profile_id))
    profile ← or_raise found (attribute_error "'NoneType' object has no attribute 'issuing_ca_id'")
    issued ← issue_request req profile (stored_sans req.requested_sans) approver_identity
    locally (with_db (change_request request_id (approved_row approver_identity)))
    pure (approved_row approver_identity issued)

  -- RAService.reject_request
  unfoldable pub reject_request : ℕ → String → String → Exec (Site p c) CertificateRequest
  reject_request request_id approver_identity reason = do
    req ← get_request request_id
    locally (with_db (change_request request_id (rejected_row approver_identity reason)))
    record_event approver_identity "request.reject" (glue "request:" (p.uuid_text request_id))
        (("reason", Scalar.text reason) ∷ [])
    pure (rejected_row approver_identity reason req)

  -- RAService.revoke
  unfoldable pub revoke : String → String → String → Exec (Site p c) String
  revoke serial_number reason actor = do
    result ← remotely (c.revoke serial_number reason actor)
    record_event actor "cert.revoke.request" (glue "cert:" serial_number)
        (("reason", Scalar.text reason) ∷ [])
    pure result
