-- ===== src/Tests/RaRuns.antt =====
-- The theorems on the RA at concrete inputs.
use pkica.Base.{◌+◌, String, ◌≡◌, refl, false, none, some, List, [], ◌∷◌}
use pkica.Base.Int.{pos}
use pkica.Text.Hex.{format_hex}
use pkica.Effect.{Error, ok, err}
use pkica.Auth.{Claims, require_role, subject_of}
use pkica.Models.{
  CaStatus, CertificateAuthority, CertificateRequest, request_with_id, profile_with_id, ca_with_id,
}
use pkica.Ra.Client.{CaClient, Issued, Site}
use pkica.Ra.Service.{submit_request, stored_sans, new_request, issued_row}
use pkica.Ra.Api.{
  Request, request_view, view, submit, approve, reject, internal_submit, revoke_certificate, serve,
  serve_all,
}
use pkica.Ra.Http.{ra_over_http}
use pkica.Ra.Outcome.{AllSettled}
use pkica.Ra.Committed.{serve_all-AllSettled}
use pkica.Ra.Approval.{serve_all-NeedsApprover}
use pkica.Ra.Names.{submit_request-stored_sans}
use pkica.Ra.Once.{serve-decided}
use pkica.Ra.Approved.{IsServed, final_row, serve-approved}
use pkica.Acme.Issued.{IssuesOnly}
use pkica.Acme.FromCa.{CaIssuesOnly, ra_over_http-IssuesOnly}
use pkica.Tests.World.{
  server_profile, test_db, test_world, test_platform, test_ca, test_site, peer, operator,
}

-- Two requests, one approved and one rejected.
abbrev ra_requests : List Request
ra_requests =
    submit (operator []) "tls-server" "csr" ("dns:host.example" ∷ [])
    ∷ internal_submit (peer "acme") "tls-server" "acme" "bob" "csr2" []
    ∷ approve (operator ("pkica-ra-approver" ∷ [])) 0
    ∷ reject (operator ("pkica-admin" ∷ [])) 2 "not ours"
    ∷ []

-- Requests of callers without a role, an approval among them.
abbrev plain_requests : List Request
plain_requests =
    submit (operator []) "tls-server" "csr" ("dns:host.example" ∷ [])
    ∷ internal_submit (peer "acme") "tls-server" "acme" "bob" "csr2" []
    ∷ approve (operator ("auditor" ∷ [])) 0
    ∷ revoke_certificate (operator []) "64" "superseded"
    ∷ []

serve_all-AllSettled_example :
    AllSettled (serve_all test_platform test_ca "secret" ra_requests test_site).local.db
serve_all-AllSettled_example =
    serve_all-AllSettled test_platform test_ca "secret" ra_requests test_site tt

serve_all-NeedsApprover_example :
    (serve_all test_platform test_ca "secret" plain_requests test_site).remote ≡ 100
serve_all-NeedsApprover_example =
    serve_all-NeedsApprover test_platform test_ca "secret" plain_requests test_site
      (tt, (tt, (refl, (refl, tt)))) (refl, tt)

-- A request that has its certificate.
abbrev issued_request : CertificateRequest
issued_request =
    issued_row (record { serial_number = "64"; certificate_pem = "csr" }) (pos 7)
      (new_request 5 server_profile "rest" "alice" "csr" [])

abbrev decided_site : Site test_platform test_ca
decided_site = record test_site {
  local = record test_world { db = record test_db { certificate_requests = issued_request ∷ [] } };
}

serve-decided_example :
    (e : Error) × (serve test_platform test_ca "secret"
        (approve (operator ("pkica-admin" ∷ [])) 5)
        decided_site
      ≡ (err e, decided_site))
serve-decided_example =
    serve-decided test_platform test_ca "secret" (operator ("pkica-admin" ∷ [])) 5 decided_site
      issued_request (unfold request_with_id in refl) refl

-- The authority of the profile, and a request that waits for its approval.
abbrev pub issuing_authority : CertificateAuthority
issuing_authority = record {
  id = 0;
  name = "issuing-ca-1";
  is_root = false;
  parent_id = none;
  subject_dn = "Common Name: issuing-ca-1";
  kms_backend = "software";
  kms_key_id = "ca-issuing-ca-1";
  signature_algorithm = "ECDSA_SHA384";
  certificate_pem = "-----BEGIN CERTIFICATE-----";
  subject_key_identifier = "1122";
  not_before = pos 0;
  not_after = pos 9;
  status = CaStatus.active;
  crl_number = 0;
}

abbrev waiting_request : CertificateRequest
waiting_request = new_request 5 server_profile "rest" "bob" "csr" ("dns:host.example" ∷ [])

abbrev waiting_site : Site test_platform test_ca
waiting_site = record test_site {
  local = record test_world {
    db = record test_db {
      certificate_authorities = issuing_authority ∷ [];
      certificate_requests = waiting_request ∷ [];
    };
  };
}

-- The CA's answer: the next serial number, and in this test the request's own text.
abbrev answered_issue : Issued
answered_issue = record { serial_number = "64"; certificate_pem = "csr" }

abbrev approver : Claims
approver = operator ("pkica-ra-approver" ∷ [])

waiting_site-IsServed : IsServed test_platform test_ca waiting_site 5 waiting_request answered_issue
waiting_site-IsServed = record {
  profile = server_profile;
  ca = issuing_authority;
  found = unfold request_with_id in refl;
  is_open = refl;
  profile_found = unfold profile_with_id in refl;
  ca_found = unfold ca_with_id in refl;
  answered = unfold format_hex in refl;
}

serve-approved_example :
    ((serve test_platform test_ca "secret" (approve approver 5) waiting_site).0
      ≡ ok (
          view (
            request_view (
              final_row test_platform test_ca "secret" waiting_site "alice" answered_issue
                waiting_request))))
    × (request_with_id 5
          (serve test_platform test_ca "secret" (approve approver 5) waiting_site).1.local.db
        ≡ some (
            final_row test_platform test_ca "secret" waiting_site "alice" answered_issue
              waiting_request))
unfolding require_role subject_of
serve-approved_example =
    serve-approved test_platform test_ca "secret" approver waiting_site 5 waiting_request
      answered_issue refl waiting_site-IsServed

-- A CA that issues one certificate to all.
abbrev fixed_ca : CaClient
fixed_ca = record test_ca {
  issue = λ ca_name profile_name csr_pem sans days requester n.
      (ok (record { serial_number = "64"; certificate_pem = "CERT" }), n + 1);
}

abbrev IsCert : String → Type 0
IsCert pem = pem ≡ "CERT"

fixed_ca-CaIssuesOnly : CaIssuesOnly fixed_ca IsCert
fixed_ca-CaIssuesOnly = record {
  issued = λ ca_name profile_name csr_pem sans days requester state i e. cc;
}

ra_over_http-IssuesOnly_example :
    IssuesOnly (ra_over_http test_platform fixed_ca "secret" (peer "acme")) IsCert
ra_over_http-IssuesOnly_example =
    ra_over_http-IssuesOnly test_platform fixed_ca "secret" (peer "acme") IsCert
      fixed_ca-CaIssuesOnly

abbrev two_names : List String
two_names = "dns:host.example" ∷ "ip:10.0.0.1" ∷ []

-- a request that waits, with the identifier of the first call
abbrev submitted : CertificateRequest
submitted = new_request 0 server_profile "rest" "bob" "csr" two_names

names_are_submitted :
    (submit_request test_platform test_ca "secret" "tls-server" "rest" "bob" "csr" two_names
      test_site).0
    ≡ ok submitted
unfolding submit_request pkica.Effect.◌>>=◌ pkica.Effect.pure pkica.Effect.lift
    pkica.Effect.or_raise pkica.Effect.raise_if pkica.Models.profile_named pkica.Ra.Client.locally
    pkica.Ra.Service.issue_unless pkica.Ra.Service.add_request pkica.Platform.read_db
    pkica.Platform.with_db pkica.Platform.uuid4 pkica.Platform.now pkica.Ca.Session.audit_record
    pkica.Text.split pkica.Text.contains pkica.Crypto.parse_csr
names_are_submitted = refl

submit_request-stored_sans_example : stored_sans submitted.requested_sans ≡ two_names
submit_request-stored_sans_example =
    submit_request-stored_sans test_platform test_ca "secret" two_names "tls-server" "rest" "bob"
      "csr" test_site submitted (unfold pkica.Text.contains in ((refl, refl), ((refl, refl), tt)))
      names_are_submitted
