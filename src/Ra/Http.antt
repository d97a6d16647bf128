-- ===== src/Ra/Http.antt =====
-- The RA as the protocol servers see it: `POST /internal/v1/requests` of services/ra/app/api.py, with
-- the status and the body of the answer, as an interface and over the RA's routes.
use pkica.Base.{ℕ, String, Option, List}
use pkica.Effect.{Result, ok, err, outside, http_exception, Exec}
use pkica.Auth.{Headers}
use pkica.Platform.{Platform}
use pkica.Ra.Client.{CaClient, Site}
use pkica.Ra.Api.{RequestView as ServedView, Reply, view, internal_submit, serve}

-- The members of the answer that the servers read.
pub record RequestView : Type 0 where
  pub id : ℕ
  pub issued_certificate_pem : Option String

-- resp.status_code, resp.text and resp.json()
pub record Response : Type 0 where
  pub status_code : ℕ
  pub body : String
  pub json : Result RequestView

pub record RaClient : Type 1 where
  pub Remote : Type 0
  -- an exception is a failure of the transport
  pub post_request : String → String → String → String → List String → Exec Remote Response

abbrev pub view_of : ServedView → RequestView
view_of req = record { id = req.id; issued_certificate_pem = req.issued_certificate_pem }

-- FastAPI's answer: the status of an HTTPException, and 500 for any other exception
abbrev pub response_of : Result Reply → Response
response_of (ok (view req)) = record {
  status_code = 200;
  body = "RequestView";
  json = ok (view_of req);
}
response_of (ok _) = record { status_code = 200; body = ""; json = err (outside "KeyError") }
response_of (err (http_exception status text)) = record {
  status_code = status;
  body = text;
  json = err (outside "KeyError");
}
response_of (err _) = record {
  status_code = 500;
  body = "Internal Server Error";
  json = err (outside "JSONDecodeError");
}

-- The client of a peer with the headers `h`.
module _ (p : Platform) (c : CaClient) (secret : String) (h : Headers) where
  abbrev answered : Result Reply × Site p c → Result Response × Site p c
  answered (r, s) = (ok (response_of r), s)

  unfoldable pub ra_over_http : RaClient
  ra_over_http = record {
    Remote = Site p c;
    post_request = λ profile_name protocol requester_identity csr_pem requested_sans s. answered (
        serve p c secret
          (internal_submit h profile_name protocol requester_identity csr_pem requested_sans) s);
  }
