-- ===== src/Acme/Orders.antt =====
-- services/acme/app/main.py: orders, their authorizations and the challenges.
use Prim.Native.String.{◌++◌ as glue}
use pkica.Base.{
  ℕ, String, Bool, false, ◌&&◌, not, none, some, List, [], ◌∷◌, eqb, ◌==◌, if◌then◌else◌,
}
use pkica.Text.{strip}
use pkica.Json.{
  Json, Elements, none_left, element, text, array, object, item, get_or, iterate, as_text, dict,
  text_array,
}
use pkica.Asn1.{Bytes}
use pkica.Effect.{
  Result, ok, err, and_then, http_exception, Exec, pure, lift, or_raise, raise_if, ◌>>=◌, ◌>>◌,
}
use pkica.Ra.Http.{RaClient}
use pkica.Acme.Tables.{
  AcmeAuthorization, AcmeOrder, insert_order, insert_authorization, authorization_with_id,
  change_authorization,
}
use pkica.Acme.Server.{AcmeLib, Server, read, write, commit, token, uuid4, fetch, new_nonce}
use pkica.Acme.Jws.{
  value_of, parse_jws, protected_header, jwk_thumbprint, verify_and_decode, get_account_from_kid,
}
use pkica.Acme.Accounts.{Answer, base_url, consume_header}

abbrev pub url : (lib : AcmeLib) → String → ℕ → String
url lib path id = glue base_url (glue path (lib.uuid_text id))

-- An answer that carries no location.
abbrev pub plain : String → Json → Answer
plain nonce content = record {
  status_code = 200;
  location = none;
  replay_nonce = some nonce;
  content = content;
}

-- the address of a challenge, and the text that answers it
abbrev pub challenge_url : String → String → String
challenge_url value secret =
    glue "http://" (glue value (glue "/.well-known/acme-challenge/" secret))

abbrev pub key_authorization : String → String → String
key_authorization secret thumb = glue secret (glue "." thumb)

-- `resp.status_code == 200 and resp.text.strip() == key_authorization`, and False for an exception
unfoldable pub is_validated : String → Result (ℕ × String) → Bool
is_validated key (ok (status, body)) = eqb status 200 && strip body == key
is_validated key (err e) = false

-- "valid" if ok else "invalid"
abbrev pub challenge_status : Bool → String
challenge_status ok' = if ok' then "valid" else "invalid"

abbrev pub with_status : String → AcmeAuthorization → AcmeAuthorization
with_status status authz = record authz { status = status }

module _ {lib : AcmeLib} {ra : RaClient} where
  -- the body of the loop over the identifiers, with the address of the authorization
  unfoldable pub add_authorization : ℕ → Json → Exec (Server lib ra) String
  add_authorization order_id ident = do
    secret ← token 32
    kind ← lift (and_then (get_or "type" (text "dns") ident) as_text)
    value ← lift (and_then (item "value" ident) as_text)
    id ← uuid4
    let authz : AcmeAuthorization = record {
      id = id;
      order_id = order_id;
      identifier_type = kind;
      identifier_value = value;
      status = "pending";
      token = secret;
    }
    write (insert_authorization authz)
    pure (url lib "/authz/" id)

  -- the loop
  unfoldable pub add_authorizations : ℕ → Elements → Exec (Server lib ra) (List String)
  add_authorizations order_id none_left = pure []
  add_authorizations order_id (element ident rest) = do
    address ← add_authorization order_id ident
    addresses ← add_authorizations order_id rest
    pure (address ∷ addresses)

  -- new_order
  unfoldable pub new_order : Bytes → Exec (Server lib ra) Answer
  new_order body = do
    flat ← lift (parse_jws lib body)
    protected ← lift (protected_header lib flat)
    consume_header protected
    account ← get_account_from_kid protected
    jwk ← lift (value_of (lib.loads_text account.jwk_json))
    payload ← lift (verify_and_decode lib flat jwk)
    identifiers ← lift (item "identifiers" payload)
    id ← uuid4
    let order : AcmeOrder = record {
      id = id;
      account_id = account.id;
      identifiers = lib.dumps identifiers;
      status = "pending";
      certificate_pem = none;
      request_id = none;
    }
    write (insert_order order)
    idents ← lift (iterate identifiers)
    authz_urls ← add_authorizations id idents
    commit
    nonce ← new_nonce
    pure (record {
      status_code = 201;
      location = some (url lib "/order/" id);
      replay_nonce = some nonce;
      content = object (
          dict (
            ("status", text "pending")
            ∷ ("identifiers", identifiers)
            ∷ ("authorizations", array (text_array authz_urls))
            ∷ ("finalize", text (glue (url lib "/order/" id) "/finalize"))
            ∷ []));
    })

  -- get_authz
  unfoldable pub get_authz : ℕ → Bytes → Exec (Server lib ra) Answer
  get_authz authz_id body = do
    lift (parse_jws lib body)
    found ← read (authorization_with_id authz_id)
    authz ← or_raise found (http_exception 404 "Not Found")
    nonce ← new_nonce
    let identifier =
        object (
          dict (("type", text authz.identifier_type) ∷ ("value", text authz.identifier_value) ∷ []))
    let challenge = object (
        dict (
          ("type", text "http-01")
          ∷ ("url", text (url lib "/chall/" authz.id))
          ∷ ("token", text authz.token)
          ∷ ("status", text authz.status)
          ∷ []))
    pure (
        plain nonce (
          object (
            dict (
              ("status", text authz.status)
              ∷ ("identifier", identifier)
              ∷ ("challenges", array (element challenge none_left))
              ∷ []))))

  -- respond_challenge
  unfoldable pub respond_challenge : ℕ → Bytes → Exec (Server lib ra) Answer
  respond_challenge authz_id body = do
    flat ← lift (parse_jws lib body)
    protected ← lift (protected_header lib flat)
    consume_header protected
    found ← read (authorization_with_id authz_id)
    authz ← or_raise found (http_exception 404 "Not Found")
    account ← get_account_from_kid protected
    jwk ← lift (value_of (lib.loads_text account.jwk_json))
    thumb ← lift (jwk_thumbprint lib jwk)
    reply ← fetch (challenge_url authz.identifier_value authz.token)
    let validated = is_validated (key_authorization authz.token thumb) reply
    write (change_authorization authz.id (with_status (challenge_status validated)))
    commit
    nonce ← new_nonce
    raise_if (not validated)
        (http_exception 403 "urn:ietf:params:acme:error:unauthorized http-01 validation failed")
    pure (
        plain nonce (
          object (
            dict (
              ("status", text "valid")
              ∷ ("type", text "http-01")
              ∷ ("token", text authz.token)
              ∷ []))))
