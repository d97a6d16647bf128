-- ===== src/Acme/Tables.antt =====
-- common/pkicore/pkicore/db/models.py: the tables of the ACME server, as lists of rows in insertion
-- order. The rows of a nonce's table are their keys.
use pkica.Base.{
  ℕ, String, ◌||◌, Option, List, [], ◌∷◌, ◌++◌, not, eqb, ◌==◌, any, find_first, select, member,
  update_where, if◌then◌else◌,
}
use pkica.Effect.{Result, ok, err, outside}

pub record AcmeAccount : Type 0 where
  pub id : ℕ
  pub jwk_thumbprint : String
  pub jwk_json : String
  pub contact : String
  pub status : String

pub record AcmeOrder : Type 0 where
  pub id : ℕ
  pub account_id : ℕ
  pub identifiers : String
  pub status : String
  pub certificate_pem : Option String
  pub request_id : Option ℕ

pub record AcmeAuthorization : Type 0 where
  pub id : ℕ
  pub order_id : ℕ
  pub identifier_type : String
  pub identifier_value : String
  pub status : String
  pub token : String

pub record AcmeDb : Type 0 where
  pub accounts : List AcmeAccount
  pub orders : List AcmeOrder
  pub authorizations : List AcmeAuthorization
  pub nonces : List String

-- The primary keys, and the unique thumbprint: a second row with one of them is an error of the flush.
unfoldable pub insert_nonce : String → AcmeDb → Result AcmeDb
insert_nonce nonce db =
    if member nonce db.nonces
    then err (outside "IntegrityError")
    else ok (record db { nonces = db.nonces ++ nonce ∷ [] })

unfoldable pub insert_account : AcmeAccount → AcmeDb → Result AcmeDb
insert_account account db =
    if any (λ a. a.jwk_thumbprint == account.jwk_thumbprint || eqb a.id account.id) db.accounts
    then err (outside "IntegrityError")
    else ok (record db { accounts = db.accounts ++ account ∷ [] })

unfoldable pub insert_order : AcmeOrder → AcmeDb → Result AcmeDb
insert_order order db =
    if any (λ o. eqb o.id order.id) db.orders
    then err (outside "IntegrityError")
    else ok (record db { orders = db.orders ++ order ∷ [] })

unfoldable pub insert_authorization : AcmeAuthorization → AcmeDb → Result AcmeDb
insert_authorization authz db =
    if any (λ a. eqb a.id authz.id) db.authorizations
    then err (outside "IntegrityError")
    else ok (record db { authorizations = db.authorizations ++ authz ∷ [] })

-- session.delete(row)
unfoldable pub delete_nonce : String → AcmeDb → Result AcmeDb
delete_nonce nonce db = ok (record db { nonces = select (λ n. not (n == nonce)) db.nonces })

unfoldable pub account_with_thumbprint : String → AcmeDb → Option AcmeAccount
account_with_thumbprint thumb db = find_first (λ a. a.jwk_thumbprint == thumb) db.accounts

-- session.get of each table
unfoldable pub account_with_id : ℕ → AcmeDb → Option AcmeAccount
account_with_id id db = find_first (λ a. eqb a.id id) db.accounts

unfoldable pub order_with_id : ℕ → AcmeDb → Option AcmeOrder
order_with_id id db = find_first (λ o. eqb o.id id) db.orders

unfoldable pub authorization_with_id : ℕ → AcmeDb → Option AcmeAuthorization
authorization_with_id id db = find_first (λ a. eqb a.id id) db.authorizations

-- select(AcmeAuthorization).where(AcmeAuthorization.order_id == id)
unfoldable pub authorizations_of : ℕ → AcmeDb → List AcmeAuthorization
authorizations_of id db = select (λ a. eqb a.order_id id) db.authorizations

-- The flush of a changed row, which its primary key finds.
unfoldable pub change_order : ℕ → (AcmeOrder → AcmeOrder) → AcmeDb → Result AcmeDb
change_order id f db = ok (record db { orders = update_where (λ o. eqb o.id id) f db.orders })

unfoldable pub change_authorization :
    ℕ → (AcmeAuthorization → AcmeAuthorization) → AcmeDb → Result AcmeDb
change_authorization id f db =
    ok (record db { authorizations = update_where (λ a. eqb a.id id) f db.authorizations })
