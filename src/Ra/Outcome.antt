-- ===== src/Ra/Outcome.antt =====
-- services/ra/app/service.py and api.py: the states of a request that a session commits, with
-- the writes of `_issue` in front of the exception that it raises again.
use pkica.Base.{ℕ, String, ◌≡◌, refl, Bool, true, false, not, ◌&&◌, List, [], ◌∷◌, is_none, All}
use pkica.Base.Int.{ℤ}
use pkica.Base.Lists.{All-append, All-update_where}
use pkica.Effect.{Result, ok, err}
use pkica.Effect.Keeps.{Keeps, Keeps-bind, keeps_rules}
use pkica.Effect.Commits.{
  Commits, Raises-raise, Raises-bind, Commits-Keeps, Commits-Raises, Commits-bind,
}
use pkica.Models.{Db, CertProfile, CertificateRequest, RequestStatus}
use pkica.Platform.{Platform, World, now, with_db}
use pkica.Platform.Keeps.{OnDb, Keeps-with_db, Keeps-now, db_rules}
use pkica.Ca.Session.{audit_record}
use pkica.Audit.{Event}
use pkica.Ra.Client.{CaClient, Site, Issued}
use pkica.Ra.Service.{
  new_request, approved_row, rejected_row, issued_row, add_request, change_request, get_request,
  conclude, issue_request, issue_unless, submit_request, approve_request, reject_request, revoke,
}
use pkica.Ra.Keeps.{OnTables, site_rules}

-- A pending request has no certificate yet, an issued one has its serial number, its certificate and
-- the time of the decision, a request may be rejected at any time, and no other state is stored.
unfoldable pub is_settled : CertificateRequest → Bool
is_settled r = elim r.status [
  | RequestStatus.pending ↦ is_none r.issued_serial_number && is_none r.issued_certificate_pem
  | RequestStatus.approved ↦ false
  | RequestStatus.rejected ↦ true
  | RequestStatus.issued ↦
      not (is_none r.issued_serial_number)
      && not (is_none r.issued_certificate_pem)
      && not (is_none r.decided_at)
  | RequestStatus.failed ↦ false
]

abbrev pub IsSettled : CertificateRequest → Type 0
IsSettled r = is_settled r ≡ true

abbrev pub AllSettled : Db → Type 0
AllSettled db = All IsSettled db.certificate_requests

abbrev LeavesSettled : (CertificateRequest → CertificateRequest) → Type 0
LeavesSettled f = (r : CertificateRequest) → IsSettled r → IsSettled (f r)

approved_row-LeavesSettled : (approver : String) → LeavesSettled (approved_row approver)
unfolding is_settled
approved_row-LeavesSettled approver r h = h

rejected_row-LeavesSettled :
    (approver reason : String) → LeavesSettled (rejected_row approver reason)
unfolding is_settled
rejected_row-LeavesSettled approver reason r h = refl

issued_row-LeavesSettled : (i : Issued) (at : ℤ) → LeavesSettled (issued_row i at)
unfolding is_settled
issued_row-LeavesSettled i at r h = refl

new_request-IsSettled :
    (id : ℕ) (profile : CertProfile) (protocol requester csr_pem : String) (sans : List String)
    → IsSettled (new_request id profile protocol requester csr_pem sans)
unfolding is_settled
new_request-IsSettled id profile protocol requester csr_pem sans = refl

module _ {p : Platform} where
  abbrev Settled : World p → Type 0
  Settled = OnDb AllSettled

  Keeps-audit_record : (secret : String) (e : Event) → Keeps Settled (audit_record p secret e)
  unfolding audit_record
  Keeps-audit_record secret e = Keeps-bind now _ Keeps-now λ t. Keeps-with_db _ λ db h. h

  Keeps-add_request :
      (r : CertificateRequest) → IsSettled r → Keeps Settled (with_db (add_request r))
  Keeps-add_request r k =
      Keeps-with_db _ λ db h.
        unfold add_request in All-append IsSettled db.certificate_requests (r ∷ []) h (k, tt)

  Keeps-change_request :
      (id : ℕ) (f : CertificateRequest → CertificateRequest)
      → LeavesSettled f
      → Keeps Settled (with_db (change_request id f))
  Keeps-change_request id f k =
      Keeps-with_db _
        λ db h. unfold change_request in All-update_where IsSettled _ f db.certificate_requests k h

ruleset settled_steps = (
  keeps_rules, db_rules, site_rules, Keeps-audit_record, Keeps-add_request, Keeps-change_request,
  approved_row-LeavesSettled, rejected_row-LeavesSettled, issued_row-LeavesSettled,
  new_request-IsSettled,
)

module _ (p : Platform) (c : CaClient) (secret : String) where
  abbrev SettledSite : Site p c → Type 0
  SettledSite = OnTables AllSettled

  get_request-Settled : (id : ℕ) → Keeps SettledSite (get_request p c secret id)
  unfolding get_request
  get_request-Settled id = search settled_steps depth 20

  -- a failure is raised again behind its writes
  conclude-Settled :
      (req : CertificateRequest) (actor : String) (r : Result Issued)
      → Commits SettledSite (conclude p c secret req actor r)
  unfolding conclude
  conclude-Settled req actor (ok issued) = Commits-Keeps _ (search settled_steps depth 20)
  conclude-Settled req actor (err e) = Commits-Raises _ (search (Raises-raise, Raises-bind) depth 8)

  issue_request-Settled :
      (req : CertificateRequest) (profile : CertProfile) (sans : List String) (actor : String)
      → Commits SettledSite (issue_request p c secret req profile sans actor)
  unfolding issue_request
  issue_request-Settled req profile sans actor =
      Commits-bind _ _ (Commits-Keeps _ (search settled_steps depth 20)) λ found.
        Commits-bind _ _ (Commits-Keeps _ (search settled_steps depth 20))
          λ r. conclude-Settled req actor r

  issue_unless-Settled :
      (b : Bool) (req : CertificateRequest) (profile : CertProfile) (sans : List String)
      (actor : String)
      → Commits SettledSite (issue_unless p c secret b req profile sans actor)
  unfolding issue_unless
  issue_unless-Settled true req profile sans actor = Commits-Keeps _ (search settled_steps depth 20)
  issue_unless-Settled false req profile sans actor = issue_request-Settled req profile sans actor

  pub reject_request-Settled :
      (id : ℕ) (approver reason : String)
      → Keeps SettledSite (reject_request p c secret id approver reason)
  unfolding reject_request
  reject_request-Settled id approver reason = search (settled_steps, get_request-Settled) depth 30

  pub revoke-Settled :
      (serial reason actor : String) → Keeps SettledSite (revoke p c secret serial reason actor)
  unfolding revoke
  revoke-Settled serial reason actor = search settled_steps depth 30

  -- the steps of the methods that keep the property, then the issue of the request, which commits it
  pub submit_request-Settled :
      (profile protocol requester csr_pem : String) (sans : List String)
      → Commits SettledSite (submit_request p c secret profile protocol requester csr_pem sans)
  unfolding submit_request
  submit_request-Settled profile protocol requester csr_pem sans =
      search (Commits-bind, issue_unless-Settled, Commits-Keeps, settled_steps) depth 30

  pub approve_request-Settled :
      (id : ℕ) (approver : String) → Commits SettledSite (approve_request p c secret id approver)
  unfolding approve_request
  approve_request-Settled id approver =
      search
        (Commits-bind, issue_request-Settled, get_request-Settled, Commits-Keeps, settled_steps)
        depth 30
