-- ===== src/Acme/Accounts.antt =====
-- services/acme/app/main.py: the directory, the nonces and the accounts.
use Prim.Native.String.{◌++◌ as glue}
use pkica.Base.{ℕ, String, false, Option, none, some, [], ◌∷◌}
use pkica.Text.{join}
use pkica.Json.{
  Json, text, boolean, array, object, none_left, item, get_or, iterate, texts, as_text, dict,
}
use pkica.Asn1.{Bytes}
use pkica.Effect.{and_then, Exec, pure, lift, ◌>>=◌, ◌>>◌}
use pkica.Ra.Http.{RaClient}
use pkica.Acme.Tables.{AcmeAccount, insert_account, account_with_thumbprint}
use pkica.Acme.Server.{AcmeLib, Server, read, write, commit, uuid4, new_nonce, consume_nonce}
use pkica.Acme.Jws.{parse_jws, protected_header, jwk_thumbprint, verify_and_decode}

-- _EXTERNAL_BASE_URL
abbrev pub base_url : String
base_url = "https://acme.pkica.local/acme"

-- f"{_EXTERNAL_BASE_URL}/account/{account.id}"
unfoldable pub location_of : AcmeLib → ℕ → String
location_of lib id = glue base_url (glue "/account/" (lib.uuid_text id))

-- An answer: its status, the headers `Location` and `Replay-Nonce`, and the value of its body.
pub record Answer : Type 0 where
  pub status_code : ℕ
  pub location : Option String
  pub replay_nonce : Option String
  pub content : Json

-- directory
unfoldable pub directory : Json
directory = object (
    dict (
      ("newNonce", text (glue base_url "/new-nonce"))
      ∷ ("newAccount", text (glue base_url "/new-account"))
      ∷ ("newOrder", text (glue base_url "/new-order"))
      ∷ ("revokeCert", text (glue base_url "/revoke-cert"))
      ∷ ("keyChange", text (glue base_url "/key-change"))
      ∷ ("meta", object (dict (("externalAccountRequired", boolean false) ∷ [])))
      ∷ []))

module _ {lib : AcmeLib} {ra : RaClient} where
  -- `_consume_nonce(session, protected["nonce"])`
  unfoldable pub consume_header : Json → Exec (Server lib ra) (Unit {0})
  consume_header protected = do
    nonce ← lift (and_then (item "nonce" protected) as_text)
    consume_nonce nonce

  -- `session.scalar(select(AcmeAccount)...)`, and the account that is added where there is none; with
  -- the status of the answer
  unfoldable pub find_or_add :
      Option AcmeAccount → String → Json → Json → Exec (Server lib ra) (ℕ × AcmeAccount)
  find_or_add (some account) thumb jwk payload = pure (200, account)
  find_or_add none thumb jwk payload = do
    contact ←
        lift (and_then (get_or "contact" (array none_left) payload) λ c. and_then (iterate c) texts)
    id ← uuid4
    let account : AcmeAccount = record {
      id = id;
      jwk_thumbprint = thumb;
      jwk_json = lib.dumps jwk;
      contact = join "," contact;
      status = "valid";
    }
    write (insert_account account)
    commit
    pure (201, account)

  -- new_nonce
  unfoldable pub get_nonce : Exec (Server lib ra) Answer
  get_nonce = do
    nonce ← new_nonce
    pure (record {
      status_code = 204;
      location = none;
      replay_nonce = some nonce;
      content = text "";
    })

  -- new_account
  unfoldable pub new_account : Bytes → Exec (Server lib ra) Answer
  new_account body = do
    flat ← lift (parse_jws lib body)
    protected ← lift (protected_header lib flat)
    consume_header protected
    jwk ← lift (item "jwk" protected)
    payload ← lift (verify_and_decode lib flat jwk)
    thumb ← lift (jwk_thumbprint lib jwk)
    found ← read (account_with_thumbprint thumb)
    (status, account) ← find_or_add found thumb jwk payload
    nonce ← new_nonce
    contact ← lift (get_or "contact" (array none_left) payload)
    pure (record {
      status_code = status;
      location = some (location_of lib account.id);
      replay_nonce = some nonce;
      content = object (dict (("status", text "valid") ∷ ("contact", contact) ∷ []));
    })
