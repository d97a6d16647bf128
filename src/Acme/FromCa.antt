-- ===== src/Acme/FromCa.antt =====
-- services/ra/app/service.py and api.py behind services/acme/app/main.py: where the certificates in the
-- RA's answers come from.
use pkica.Base.{String, ◌≡◌, refl, ap, ◌∙◌, Bool, true, false, Option, none, some, List}
use pkica.Effect.{Result, ok, err, http_exception, Exec}
use pkica.Auth.{Headers}
use pkica.Platform.{Platform}
use pkica.Models.{CertProfile, CertificateRequest}
use pkica.Base.Int.{ℤ}
use pkica.Ra.Client.{CaClient, Issued, Site, remotely, attempt}
use pkica.Ra.Service.{conclude, issue_request, issue_unless, submit_request}
use pkica.Ra.Api.{
  Reply, request_view, view, listing, revoked, healthy, internal_submit, handle, commit_or_rollback,
  serve,
}
use pkica.Ra.Http.{RequestView, Response, ra_over_http, view_of, response_of}
use pkica.Acme.Issued.{IfSome, IssuesOnly}
use pkica.Effect.Gives.{
  OfResult, Gives, Gives-bind, Gives-after, Gives-pure, Gives-raise, Gives-map_error,
}

-- Each certificate that the CA issues is good.
pub record CaIssuesOnly (c : CaClient) (Good : String → Type 0) : Type 0 where
  pub issued :
      (ca_name profile_name csr_pem : String) (sans : List String) (days : ℤ) (requester : String)
      (state : c.Remote) (i : Issued)
      → (c.issue ca_name profile_name csr_pem sans days requester state).0 ≡ ok i
      → Good i.certificate_pem

Gives-attempt :
    {S A : Type 0} {Q : A → Type 0} (m : Exec S A) → Gives Q m → Gives (OfResult Q) (attempt m)
unfolding attempt
Gives-attempt m g = record { gives = λ s. g.gives s }

module _ (p : Platform) (c : CaClient) (secret : String) (Good : String → Type 0)
    (only : CaIssuesOnly c Good) where
  abbrev GoodRow : CertificateRequest → Type 0
  GoodRow r = IfSome Good r.issued_certificate_pem

  abbrev GoodIssue : Issued → Type 0
  GoodIssue i = Good i.certificate_pem

  asked : (r : Result Issued) → ((i : Issued) → r ≡ ok i → GoodIssue i) → OfResult GoodIssue r
  asked (ok i) h = h i refl
  asked (err e) h = tt

  Gives-issue :
      (ca_name profile_name csr_pem : String) (sans : List String) (days : ℤ) (requester : String)
      → Gives {S = Site p c} GoodIssue
          (remotely (c.issue ca_name profile_name csr_pem sans days requester))
  unfolding remotely
  Gives-issue ca_name profile_name csr_pem sans days requester = record {
    gives = λ s.
        asked (c.issue ca_name profile_name csr_pem sans days requester s.remote).0
          λ i e. only.issued ca_name profile_name csr_pem sans days requester s.remote i e;
  }

  Gives-conclude :
      (req : CertificateRequest) (actor : String) (r : Result Issued)
      → OfResult GoodIssue r
      → Gives GoodRow (conclude p c secret req actor r)
  unfolding conclude
  Gives-conclude req actor (ok i) h =
      Gives-after _ _ λ at. Gives-after _ _ λ _. Gives-after _ _ λ _. Gives-pure _ h
  Gives-conclude req actor (err e) h = Gives-after _ _ λ _. Gives-after _ _ λ _. Gives-raise e

  Gives-issue_unless :
      (b : Bool) (req : CertificateRequest) (profile : CertProfile) (sans : List String)
      (actor : String)
      → GoodRow req
      → Gives GoodRow (issue_unless p c secret b req profile sans actor)
  unfolding issue_unless issue_request
  Gives-issue_unless true req profile sans actor h = Gives-pure req h
  Gives-issue_unless false req profile sans actor h = Gives-after _ _ λ found.
      Gives-bind _ _ (Gives-attempt _ (Gives-after _ _ λ ca. Gives-issue _ _ _ _ _ _))
        λ result k. Gives-conclude req actor result k

  Gives-submit :
      (profile_name protocol requester csr_pem : String) (sans : List String)
      → Gives GoodRow (submit_request p c secret profile_name protocol requester csr_pem sans)
  unfolding submit_request
  Gives-submit profile_name protocol requester csr_pem sans = Gives-after _ _ λ found.
      Gives-after _ _ λ profile. Gives-after _ _ λ _. Gives-after _ _ λ _.
        Gives-after _ _
          λ id. Gives-after _ _ λ _. Gives-after _ _ λ _. Gives-issue_unless _ _ _ _ _ tt

  abbrev GoodReply : Reply → Type 0
  GoodReply (view req) = IfSome Good req.issued_certificate_pem
  GoodReply _ = Unit

  Gives-handle :
      (h : Headers) (profile_name protocol requester csr_pem : String) (sans : List String)
      → Gives GoodReply
          (handle p c secret (internal_submit h profile_name protocol requester csr_pem sans))
  unfolding handle
  Gives-handle h profile_name protocol requester csr_pem sans = Gives-after _ _ λ _.
      Gives-bind _ _
        (Gives-map_error _ _ (Gives-submit profile_name protocol requester csr_pem sans))
        λ req k. Gives-pure (view (request_view req)) k

  committed :
      (s : Site p c) (r : Result Reply × Site p c)
      → OfResult GoodReply r.0
      → OfResult GoodReply (commit_or_rollback p c secret s r).0
  unfolding commit_or_rollback
  committed s (ok reply, s') h = h
  committed s (err e, s') h = tt

  if_some : (o : Option String) (pem : String) → IfSome Good o → o ≡ some pem → Good pem
  if_some none pem h e = absurd cc
  if_some (some x) pem h e = let same : pem ≡ x = cc in rw same h

  good_view :
      (r : Result Reply) (resp : Response) (v : RequestView) (pem : String)
      → OfResult GoodReply r
      → ok (response_of r) ≡ ok resp
      → resp.json ≡ ok v
      → v.issued_certificate_pem ≡ some pem
      → Good pem
  good_view (ok (view req)) resp v pem h e j k =
      let same : response_of (ok (view req)) ≡ resp = cc in
      let whole : ok (view_of req) ≡ ok v = ap (λ r. r.json) same ∙ j in
      let row : view_of req ≡ v = cc in
      if_some req.issued_certificate_pem pem h (ap (λ w. w.issued_certificate_pem) row ∙ k)
  good_view (ok (listing rows)) resp v pem h e j k = absurd cc
  good_view (ok (revoked serial)) resp v pem h e j k = absurd cc
  good_view (ok healthy) resp v pem h e j k = absurd cc
  good_view (err (http_exception status text)) resp v pem h e j k = absurd cc
  good_view (err x) resp v pem h e j k = absurd cc

-- The RA's routes fill what the ACME server expects of its RA: whatever property the certificates
-- have that the CA issues, the certificates have it that the RA answers a request with, whoever sends
-- it and whatever the state of the RA.
pub ra_over_http-IssuesOnly :
    (p : Platform) (c : CaClient) (secret : String) (h : Headers) (Good : String → Type 0)
    → CaIssuesOnly c Good
    → IssuesOnly (ra_over_http p c secret h) Good
unfolding ra_over_http serve
ra_over_http-IssuesOnly p c secret h Good only = record {
  issued = λ profile protocol requester csr sans state resp v pem answered holds named.
      let request = internal_submit h profile protocol requester csr sans in
      let g =
        (Gives-handle p c secret Good only h profile protocol requester csr sans).gives state in
      good_view p c secret Good only (serve p c secret request state).0 resp v pem
        (committed p c secret Good only state (handle p c secret request state) g) answered holds
        named;
}
