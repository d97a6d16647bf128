-- ===== src/Acme/Rows/Routes.antt =====
-- services/acme/app/main.py: the routes and the properties of the rows in `Acme/Rows.antt`.
use pkica.Base.{ℕ, String, Option, none, some, List, [], ◌∷◌}
use pkica.Json.{Json, Elements, none_left, element}
use pkica.Asn1.{Bytes}
use pkica.Effect.Keeps.{Keeps, Keeps-pure, Keeps-bind, Keeps-lift, Keeps-or_raise}
use pkica.Ra.Http.{RaClient}
use pkica.Acme.Tables.{AcmeAccount}
use pkica.Acme.Server.{AcmeLib, Server, new_nonce, consume_nonce}
use pkica.Acme.Jws.{get_account_from_kid}
use pkica.Acme.Accounts.{consume_header, find_or_add, get_nonce, new_account}
use pkica.Acme.Orders.{
  add_authorization, add_authorizations, new_order, get_authz, respond_challenge,
}
use pkica.Acme.Finalize.{finalize, get_order, download_cert}
use pkica.Acme.Api.{Request, get_directory, post_challenge, handle, opened, serve, serve_all}
use pkica.Acme.Rows.{RowProperties, AreKept, InRows}
use pkica.Acme.Rows.Calls.{Kept, Keeps-read, Keeps-after_challenge, row_rules}

module _ {lib : AcmeLib} {ra : RaClient} {r : RowProperties} (kept : AreKept lib ra r) where
  Keeps-new_nonce : Keeps (Kept kept) new_nonce
  unfolding new_nonce
  Keeps-new_nonce = search row_rules depth 12

  Keeps-consume_header : (protected : Json) → Keeps (Kept kept) (consume_header protected)
  unfolding consume_header consume_nonce
  Keeps-consume_header protected = search row_rules depth 16

  Keeps-get_account : (protected : Json) → Keeps (Kept kept) (get_account_from_kid protected)
  unfolding get_account_from_kid
  Keeps-get_account protected = search row_rules depth 12

  Keeps-find_or_add :
      (found : Option AcmeAccount) (thumb : String) (jwk payload : Json)
      → Keeps (Kept kept) (find_or_add found thumb jwk payload)
  unfolding find_or_add
  Keeps-find_or_add none thumb jwk payload = search row_rules depth 16
  Keeps-find_or_add (some a) thumb jwk payload = search row_rules depth 16

  Keeps-add_authorization : (id : ℕ) (ident : Json) → Keeps (Kept kept) (add_authorization id ident)
  unfolding add_authorization
  Keeps-add_authorization id ident = search row_rules depth 24

  Keeps-add_authorizations :
      (id : ℕ) (idents : Elements) → Keeps (Kept kept) (add_authorizations id idents)
  unfolding add_authorizations
  Keeps-add_authorizations id none_left = Keeps-pure _
  Keeps-add_authorizations id (element ident rest) =
      Keeps-bind _ _ (Keeps-add_authorization id ident)
        λ address. Keeps-bind _ _ (Keeps-add_authorizations id rest) λ addresses. Keeps-pure _

ruleset row_route_rules = (
  row_rules, Keeps-new_nonce, Keeps-consume_header, Keeps-get_account, Keeps-find_or_add,
  Keeps-add_authorizations,
)

module _ {lib : AcmeLib} {ra : RaClient} {r : RowProperties} (kept : AreKept lib ra r) where
  respond_challenge-Kept : (id : ℕ) (body : Bytes) → Keeps (Kept kept) (respond_challenge id body)
  unfolding respond_challenge
  respond_challenge-Kept id body = Keeps-bind _ _ (Keeps-lift _) λ flat.
      Keeps-bind _ _ (Keeps-lift _) λ protected.
        Keeps-bind _ _ (Keeps-consume_header kept protected) λ spent.
          Keeps-bind _ _ (Keeps-read kept _) λ found. Keeps-bind _ _ (Keeps-or_raise _ _) λ authz.
            Keeps-bind _ _ (Keeps-get_account kept protected) λ account.
              Keeps-bind _ _ (Keeps-lift _) λ jwk.
                Keeps-after_challenge kept jwk authz.identifier_value authz.token _
                  λ thumb reply v. search row_route_rules depth 30

  -- each route, whatever the requests
  handle-Kept : (q : Request) → Keeps (Kept kept) (handle q)
  unfolding handle get_nonce new_account new_order get_authz finalize get_order download_cert
  handle-Kept get_directory = search row_route_rules depth 40
  handle-Kept (post_challenge id body) = respond_challenge-Kept id body
  handle-Kept _ = search row_route_rules depth 40

  pub serve_all-OnRows :
      (qs : List Request) (s : Server lib ra) → InRows r s.stored → InRows r (serve_all qs s).stored
  unfolding serve_all serve opened
  serve_all-OnRows [] s h = h
  serve_all-OnRows (q ∷ qs) s h =
      serve_all-OnRows qs (serve q s).1
        ((handle-Kept q).at (opened s) (record { in_store = h; in_session = h })).in_store
