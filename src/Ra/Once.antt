-- ===== src/Ra/Once.antt =====
-- services/ra/app/service.py and api.py: requests that have been decided, and approvals of them.
use Prim.Native.String.{◌++◌ as glue}
use pkica.Base.{ℕ, String, ◌≡◌, refl, false, some}
use pkica.Effect.{
  Error, Result, ok, err, policy_violation, lift, or_raise, raise_if, map_error, ◌>>=◌,
}
use pkica.Auth.{Claims, require_role, subject_of}
use pkica.Models.{CertificateRequest, request_with_id, is_pending, status_text, rolled_back}
use pkica.Platform.{Platform, read_db}
use pkica.Ra.Client.{CaClient, Site, locally}
use pkica.Ra.Service.{get_request, approve_request}
use pkica.Ra.Api.{
  Request, approve, approver_roles, policy_or_lookup_to_422, handle, commit_or_rollback, serve,
}

-- The exception of an approval of a request that is not pending.
abbrev not_pending : (p : Platform) → ℕ → CertificateRequest → Error
not_pending p id r = policy_violation (
    glue "Request "
      (glue (p.uuid_text id) (glue " is not pending (status=" (glue (status_text r.status) ")"))))

module _ (p : Platform) (c : CaClient) (secret : String) where
  approve_request-decided :
      (id : ℕ) (approver : String) (s : Site p c) (r : CertificateRequest)
      → request_with_id id s.local.db ≡ some r
      → is_pending r.status ≡ false
      → approve_request p c secret id approver s ≡ (err (not_pending p id r), s)
  unfolding approve_request get_request ◌>>=◌ locally read_db or_raise raise_if
  approve_request-decided id approver s r found decided = rw found (rw decided refl)

  handled :
      (claims : Claims) (id : ℕ) (s : Site p c) (r : CertificateRequest) (role : Result Claims)
      → require_role approver_roles claims ≡ role
      → request_with_id id s.local.db ≡ some r
      → is_pending r.status ≡ false
      → (e : Error) × (handle p c secret (approve claims id) s ≡ (err e, s))
  unfolding handle ◌>>=◌ lift map_error
  handled claims id s r (err e) role found decided = (e, rw role refl)
  handled claims id s r (ok _) role found decided = (
    policy_or_lookup_to_422 (not_pending p id r),
    rw role (rw (approve_request-decided id (subject_of claims) s r found decided) refl),
  )

  served :
      (q : Request) (s : Site p c) (e : Error)
      → handle p c secret q s ≡ (err e, s)
      → serve p c secret q s ≡ (err e, s)
  unfolding serve commit_or_rollback rolled_back
  served q s e h = rw h refl

  -- The approval of a request that is not pending, by whoever, is answered by an error and leaves the
  -- tables and the CA as they were: no second certificate is asked for.
  pub serve-decided :
      (claims : Claims) (id : ℕ) (s : Site p c) (r : CertificateRequest)
      → request_with_id id s.local.db ≡ some r
      → is_pending r.status ≡ false
      → (e : Error) × (serve p c secret (approve claims id) s ≡ (err e, s))
  serve-decided claims id s r found decided =
      let (e, h) = handled claims id s r (require_role approver_roles claims) refl found decided in
      (e, served (approve claims id) s e h)
