-- ===== src/Acme/Api.antt =====
-- services/acme/app/main.py: the routes. A request has a session of its own, whose uncommitted changes
-- are gone when it ends.
use pkica.Base.{ℕ, List, [], ◌∷◌, none}
use pkica.Json.{Json, text, object, dict}
use pkica.Asn1.{Bytes}
use pkica.Effect.{Result, Exec, pure}
use pkica.Ra.Http.{RaClient}
use pkica.Acme.Server.{AcmeLib, Server}
use pkica.Acme.Accounts.{Answer, directory, get_nonce, new_account}
use pkica.Acme.Orders.{new_order, get_authz, respond_challenge}
use pkica.Acme.Finalize.{finalize, get_order, download_cert}

-- The paths of the routes, and the bodies of those that are posted to.
pub data Request : Type 0 where
  get_directory healthz get_new_nonce : Request
  post_account post_order : Bytes → Request
  post_authz post_challenge post_finalize post_order_id : ℕ → Bytes → Request
  get_certificate : ℕ → Request

abbrev page : Json → Answer
page content = record { status_code = 200; location = none; replay_nonce = none; content = content }

module _ {lib : AcmeLib} {ra : RaClient} where
  unfoldable pub handle : Request → Exec (Server lib ra) Answer
  handle get_directory = pure (page directory)
  handle healthz = pure (page (object (dict (("status", text "ok") ∷ []))))
  handle get_new_nonce = get_nonce
  handle (post_account body) = new_account body
  handle (post_order body) = new_order body
  handle (post_authz id body) = get_authz id body
  handle (post_challenge id body) = respond_challenge id body
  handle (post_finalize id body) = finalize id body
  handle (post_order_id id body) = get_order id body
  handle (get_certificate id) = download_cert id

  -- `with session_factory() as session`: a new session sees what is stored
  unfoldable pub opened : Server lib ra → Server lib ra
  opened s = record s { session = s.stored }

  unfoldable pub serve : Request → Server lib ra → Result Answer × Server lib ra
  serve r s = handle r (opened s)

  unfoldable pub serve_all : List Request → Server lib ra → Server lib ra
  serve_all [] s = s
  serve_all (r ∷ rs) s = serve_all rs (serve r s).1
