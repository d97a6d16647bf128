-- ===== src/Ra/Client.antt =====
-- common/pkicore/pkicore/ca_client.py: the CA as the other services see it, as an interface and as
-- the requests that the client sends to the CA's routes; and the state of a session of the RA, which
-- has the tables it works on beside the CA it calls. In the program both services work on one database: the
-- tables that the RA reads, but for the audit log, are written by no route that it calls, and the shared
-- audit log is left apart.
use pkica.Base.{String, List}
use pkica.Base.Int.{ℤ}
use pkica.Effect.{Result, ok, err, outside, Exec}
use pkica.Auth.{Headers}
use pkica.Asn1.{Bytes}
use pkica.Platform.{Platform, World}
use pkica.Ca.Api.{Reply, issue, revoke, sign_ocsp, crl, get_ca_certificate, serve}

-- The fields of IssueCertificateResponse.
pub record Issued : Type 0 where
  pub serial_number : String
  pub certificate_pem : String

-- The methods of `CAClient`, each on the state of the remote service.
pub record CaClient : Type 1 where
  pub Remote : Type 0
  pub issue : String → String → String → List String → ℤ → String → Exec Remote Issued
  pub revoke : String → String → String → Exec Remote String
  pub get_ca_certificate : String → Exec Remote String
  pub fetch_crl : String → Exec Remote Bytes
  pub sign_ocsp : String → String → Exec Remote Bytes

-- `resp.raise_for_status()`, and the reading of the body
abbrev answer : {A : Type 0} → (Reply → Result A) → Result Reply → Result A
answer read (ok reply) = read reply
answer read (err e) = err (outside "HTTPStatusError")

abbrev issued_of : Reply → Result Issued
issued_of (Reply.issued serial_number certificate_pem _ _) =
    ok (record { serial_number = serial_number; certificate_pem = certificate_pem })
issued_of _ = err (outside "KeyError")

abbrev serial_of : Reply → Result String
serial_of (Reply.revoked serial_number) = ok serial_number
serial_of _ = err (outside "KeyError")

abbrev pem_of : Reply → Result String
pem_of (Reply.ca_view _ certificate_pem) = ok certificate_pem
pem_of _ = err (outside "KeyError")

abbrev content_of : Reply → Result Bytes
content_of (Reply.content der) = ok der
content_of _ = err (outside "KeyError")

-- The client of a peer with the headers `h`, over the routes of the CA.
module _ (p : Platform) (secret : String) (h : Headers) where
  abbrev asked : {A : Type 0} → (Reply → Result A) → Result Reply × World p → Result A × World p
  asked read (r, w) = (answer read r, w)

  unfoldable pub ca_over_http : CaClient
  ca_over_http = record {
    Remote = World p;
    issue = λ ca_name profile_name csr_pem requested_sans validity_days requester_identity w.
        asked issued_of (
          serve p secret h
            (issue ca_name profile_name csr_pem requested_sans validity_days requester_identity) w);
    revoke = λ serial_number reason actor w.
        asked serial_of (serve p secret h (revoke serial_number reason actor) w);
    get_ca_certificate =
        λ ca_name w. asked pem_of (serve p secret h (get_ca_certificate ca_name) w);
    fetch_crl = λ ca_name w. asked content_of (serve p secret h (crl ca_name) w);
    sign_ocsp = λ ca_name serial_number w.
        asked content_of (serve p secret h (sign_ocsp ca_name serial_number) w);
  }

pub record Site (p : Platform) (c : CaClient) : Type 0 where
  pub local : World p
  pub remote : c.Remote

module _ {p : Platform} {c : CaClient} {A : Type 0} where
  -- a step on the session's tables, its clock and its random source
  unfoldable pub locally : Exec (World p) A → Exec (Site p c) A
  locally m s = let (r, w) = m s.local in (r, record s { local = w })

  -- a call of the CA
  unfoldable pub remotely : Exec c.Remote A → Exec (Site p c) A
  remotely m s = let (r, w) = m s.remote in (r, record s { remote = w })

-- `try: x = m`, with the exception as a value for the handlers behind it
unfoldable pub attempt : {S A : Type 0} → Exec S A → Exec S (Result A)
attempt m s = let (r, s') = m s in (ok r, s')
