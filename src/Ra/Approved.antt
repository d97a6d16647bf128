-- ===== src/Ra/Approved.antt =====
-- services/ra/app/service.py and api.py: the approval of a pending request that the CA serves.
use pkica.Base.{
  ℕ, String, ◌≡◌, refl, ap, true, some, List, eqb, eqb_iff, eqb_refl, find_first, update_where,
  arith,
}
use pkica.Base.Lists.{find_first-update_where, find_first-passes}
use pkica.Effect.{ok, pure, lift, or_raise, raise_if, map_error, ◌>>=◌}
use pkica.Auth.{Claims, require_role, subject_of}
use pkica.Models.{
  CertProfile, CertificateAuthority, CertificateRequest, request_with_id, profile_with_id,
  ca_with_id, is_pending,
}
use pkica.Platform.{Platform, now, with_db, read_db}
use pkica.Ca.Session.{audit_record}
use pkica.Ra.Client.{CaClient, Issued, Site, locally, remotely, attempt}
use pkica.Ra.Service.{
  issued_row, approved_row, change_request, stored_sans, get_request, conclude, issue_request,
  approve_request,
}
use pkica.Ra.Api.{request_view, view, approve, approver_roles, handle, commit_or_rollback, serve}

-- A pending request with its profile, the profile's authority, and the CA's answer.
pub record IsServed (p : Platform) (c : CaClient) (s : Site p c) (id : ℕ) (r : CertificateRequest)
    (i : Issued) : Type 0 where
  pub profile : CertProfile
  pub ca : CertificateAuthority
  pub found : request_with_id id s.local.db ≡ some r
  pub is_open : is_pending r.status ≡ true
  pub profile_found : profile_with_id r.profile_id s.local.db ≡ some profile
  pub ca_found : ca_with_id profile.issuing_ca_id s.local.db ≡ some ca
  pub answered :
      (c.issue ca.name profile.name r.csr_pem
        (stored_sans r.requested_sans)
        profile.max_validity_days
        r.requester_identity
        s.remote).0
      ≡ ok i

module _ (p : Platform) (c : CaClient) (secret : String) where
  abbrev pub final_row : Site p c → String → Issued → CertificateRequest → CertificateRequest
  final_row s approver i r = approved_row approver (issued_row i (p.now_at s.local.calls) r)

  approve_request-final_row :
      (s : Site p c) (id : ℕ) (approver : String) (r : CertificateRequest) (i : Issued)
      → (h : IsServed p c s id r i)
      → ((approve_request p c secret id approver s).0 ≡ ok (final_row s approver i r))
        × ((approve_request p c secret id approver s).1.local.db.certificate_requests
            ≡ update_where
                (λ x. eqb x.id id)
                (approved_row approver)
                (update_where
                  (λ x. eqb x.id r.id)
                  (issued_row i (p.now_at s.local.calls))
                  s.local.db.certificate_requests))
  unfolding approve_request get_request issue_request conclude ◌>>=◌ locally remotely attempt
      read_db with_db now or_raise raise_if pure audit_record change_request
  approve_request-final_row s id approver r i h =
      rw h.found (rw h.is_open (rw h.profile_found (rw h.ca_found (rw h.answered (refl, refl)))))

  row_behind :
      (id : ℕ) (f g : CertificateRequest → CertificateRequest) (rows : List CertificateRequest)
      (r : CertificateRequest)
      → ((x : CertificateRequest) → (f x).id ≡ x.id)
      → ((x : CertificateRequest) → (g x).id ≡ x.id)
      → find_first (λ x. eqb x.id id) rows ≡ some r
      → find_first
          (λ x. eqb x.id id)
          (update_where (λ x. eqb x.id id) g (update_where (λ x. eqb x.id r.id) f rows))
        ≡ some (g (f r))
  row_behind id f g rows r keeps_f keeps_g h =
      let passed : eqb r.id id ≡ true = find_first-passes (λ x. eqb x.id id) rows r h in
      let same : r.id ≡ id = ground (arith, eqb_iff r.id id, passed) in
      rw
        (find_first-update_where (λ x. eqb x.id id) (λ x. eqb x.id id) g
          (update_where (λ x. eqb x.id r.id) f rows) (λ x. ap (λ k. eqb k id) (keeps_g x)))
        (rw
          (find_first-update_where (λ x. eqb x.id id) (λ x. eqb x.id r.id) f rows
            (λ x. ap (λ k. eqb k id) (keeps_f x)))
          (rw h (rw (eqb_refl r.id) (rw (keeps_f r) (rw passed refl)))))

  -- The approval of a pending request by an approver brings its certificate when the CA answers: the
  -- route returns the view of the request's row as it is stored from then on, issued with the certificate and the
  -- serial number that the CA gave, the caller's name and the time.
  pub serve-approved :
      (claims : Claims) (s : Site p c) (id : ℕ) (r : CertificateRequest) (i : Issued)
      → require_role approver_roles claims ≡ ok claims
      → IsServed p c s id r i
      → ((serve p c secret (approve claims id) s).0
          ≡ ok (view (request_view (final_row s (subject_of claims) i r))))
        × (request_with_id id (serve p c secret (approve claims id) s).1.local.db
            ≡ some (final_row s (subject_of claims) i r))
  unfolding serve handle commit_or_rollback ◌>>=◌ lift map_error pure request_with_id
  serve-approved claims s id r i role h =
      let (answer, rows) = approve_request-final_row s id (subject_of claims) r i h in
      rw role (
        rw answer (
          refl,
          rw rows (
              row_behind id (issued_row i (p.now_at s.local.calls))
                (approved_row (subject_of claims)) s.local.db.certificate_requests r (λ x. refl)
                (λ x. refl) h.found),
        ))
