-- ===== src/Acme/Rows.antt =====
-- services/acme/app/main.py: properties of the rows of orders and authorizations, given what the RA and
-- the hosts of the challenges answer, and the routes.
pub mod Calls
pub mod Routes
use pkica.Base.{
  ℕ, String, ◌≡◌, refl, Bool, true, false, Option, none, some, if◌then◌else◌, List, [], ◌∷◌, ◌++◌,
  eqb, All,
}
use pkica.Base.Lists.{All-append, All-update_where}
use pkica.Json.{Json, Elements, none_left, element}
use pkica.Effect.{Error, Result, continue, ok, err, Exec, lift, ◌>>=◌}
use pkica.Effect.Keeps.{Keeps, Keeps-pure, Keeps-bind, Keeps-after_lift, keeps_rules}
use pkica.Ra.Http.{RaClient, RequestView, Response}
use pkica.Acme.Tables.{
  AcmeDb, AcmeAccount, AcmeOrder, AcmeAuthorization, insert_nonce, insert_account, insert_order,
  insert_authorization, delete_nonce, change_order, change_authorization,
}
use pkica.Acme.Server.{
  AcmeLib, Server, read, write, commit, token, uuid4, ask_ra, fetch, new_nonce, consume_nonce,
}
use pkica.Acme.Jws.{jwk_thumbprint, get_account_from_kid}
use pkica.Acme.Accounts.{consume_header, find_or_add, get_nonce, new_account}
use pkica.Acme.Orders.{
  challenge_url, key_authorization, is_validated, challenge_status, with_status, add_authorization,
  add_authorizations, new_order, get_authz, respond_challenge,
}
use pkica.Acme.Finalize.{finalized_row, finalize, get_order, download_cert}
use pkica.Acme.Api.{Request, get_directory, handle, opened, serve, serve_all}

-- Properties of the rows, of a key's text with the reply to its challenge, and of the RA's view of a
-- request.
pub record RowProperties : Type 1 where
  pub OfOrder : AcmeOrder → Type 0
  pub OfAuthorization : AcmeAuthorization → Type 0
  pub OfReply : String → Result (ℕ × String) → Type 0
  pub OfView : RequestView → Type 0

-- Rows have them when they are added and when they are changed.
pub record AreKept (lib : AcmeLib) (ra : RaClient) (r : RowProperties) : Type 0 where
  pub replied :
      (value secret thumb : String) (jwk : Json) (net : lib.Net)
      → jwk_thumbprint lib jwk ≡ ok thumb
      → r.OfReply (key_authorization secret thumb) (lib.http_get (challenge_url value secret) net).0
  pub answered :
      (profile protocol requester csr : String) (sans : List String) (state : ra.Remote)
      (resp : Response) (view : RequestView)
      → (ra.post_request profile protocol requester csr sans state).0 ≡ ok resp
      → resp.json ≡ ok view
      → r.OfView view
  pub new_order_row :
      (id account : ℕ) (identifiers : String)
      → r.OfOrder (record {
        id = id;
        account_id = account;
        identifiers = identifiers;
        status = "pending";
        certificate_pem = none;
        request_id = none;
      })
  pub finalized :
      (view : RequestView) (o : AcmeOrder)
      → r.OfView view
      → r.OfOrder o
      → r.OfOrder (finalized_row view o)
  pub new_authorization_row :
      (id order : ℕ) (kind identifier secret : String)
      → r.OfAuthorization (record {
        id = id;
        order_id = order;
        identifier_type = kind;
        identifier_value = identifier;
        status = "pending";
        token = secret;
      })
  pub challenged :
      (key : String) (reply : Result (ℕ × String)) (a : AcmeAuthorization)
      → r.OfReply key reply
      → r.OfAuthorization a
      → r.OfAuthorization (with_status (challenge_status (is_validated key reply)) a)

-- Each view that the answer holds has the property.
pub record Answers (r : RowProperties) (resp : Response) : Type 0 where
  pub views : (view : RequestView) → resp.json ≡ ok view → r.OfView view

pub record InRows (r : RowProperties) (db : AcmeDb) : Type 0 where
  pub orders : All r.OfOrder db.orders
  pub authorizations : All r.OfAuthorization db.authorizations

pub record OnRows {lib : AcmeLib} {ra : RaClient} (r : RowProperties) (s : Server lib ra)
    : Type 0 where
  pub in_store : InRows r s.stored
  pub in_session : InRows r s.session

abbrev pub Holds : RowProperties → Result AcmeDb → Type 0
Holds r (ok db) = InRows r db
Holds r (err e) = Unit

abbrev pub KeepsRows : RowProperties → (AcmeDb → Result AcmeDb) → Type 0
KeepsRows r f = (db : AcmeDb) → InRows r db → Holds r (f db)

module _ (r : RowProperties) where
  Holds-unless :
      (taken : Bool) (e : Error) (db : AcmeDb)
      → InRows r db
      → Holds r (if taken then err e else ok db)
  Holds-unless true e db h = tt
  Holds-unless false e db h = h

  pub insert_nonce-KeepsRows : (n : String) → KeepsRows r (insert_nonce n)
  unfolding insert_nonce
  insert_nonce-KeepsRows n db h =
      Holds-unless _ _ _ (record { orders = h.orders; authorizations = h.authorizations })

  pub delete_nonce-KeepsRows : (n : String) → KeepsRows r (delete_nonce n)
  unfolding delete_nonce
  delete_nonce-KeepsRows n db h = record { orders = h.orders; authorizations = h.authorizations }

  pub insert_account-KeepsRows : (a : AcmeAccount) → KeepsRows r (insert_account a)
  unfolding insert_account
  insert_account-KeepsRows a db h =
      Holds-unless _ _ _ (record { orders = h.orders; authorizations = h.authorizations })

  pub insert_order-KeepsRows : (o : AcmeOrder) → r.OfOrder o → KeepsRows r (insert_order o)
  unfolding insert_order
  insert_order-KeepsRows o k db h = Holds-unless _ _ _ (record {
    orders = All-append r.OfOrder db.orders (o ∷ []) h.orders (k, tt);
    authorizations = h.authorizations;
  })

  pub insert_authorization-KeepsRows :
      (a : AcmeAuthorization) → r.OfAuthorization a → KeepsRows r (insert_authorization a)
  unfolding insert_authorization
  insert_authorization-KeepsRows a k db h = Holds-unless _ _ _ (record {
    orders = h.orders;
    authorizations =
        All-append r.OfAuthorization db.authorizations (a ∷ []) h.authorizations (k, tt);
  })

  pub change_order-KeepsRows :
      (id : ℕ) (f : AcmeOrder → AcmeOrder)
      → ((o : AcmeOrder) → r.OfOrder o → r.OfOrder (f o))
      → KeepsRows r (change_order id f)
  unfolding change_order
  change_order-KeepsRows id f k db h = record {
    orders = All-update_where r.OfOrder (λ o. eqb o.id id) f db.orders k h.orders;
    authorizations = h.authorizations;
  }

  pub change_authorization-KeepsRows :
      (id : ℕ) (f : AcmeAuthorization → AcmeAuthorization)
      → ((a : AcmeAuthorization) → r.OfAuthorization a → r.OfAuthorization (f a))
      → KeepsRows r (change_authorization id f)
  unfolding change_authorization
  change_authorization-KeepsRows id f k db h = record {
    orders = h.orders;
    authorizations =
        All-update_where r.OfAuthorization (λ a. eqb a.id id) f db.authorizations k
          h.authorizations;
  }
