-- ===== src/Acme/Jws.antt =====
-- services/acme/app/jws.py, and `_parse_jws` and `_get_account_from_kid` of services/acme/app/main.py.
use Prim.Native.String.{◌++◌ as glue}
use pkica.Base.{ℕ, ◌-◌, ◌%◌, String, [], ◌∷◌, ◌==◌, if◌then◌else◌}
use pkica.Text.{text_length, repeat, rstrip_char, after_last}
use pkica.Json.{Json, text, object, item, get_or, as_text, is_truthy, dict}
use pkica.Asn1.{Bytes}
use pkica.Effect.{
  Result, ok, err, and_then, value_error, attribute_error, http_exception, Exec, lift, or_raise,
  ◌>>=◌,
}
use pkica.Ra.Http.{RaClient}
use pkica.Acme.Tables.{AcmeAccount, account_with_id}
use pkica.Acme.Server.{
  AcmeLib, Server, Loaded, loaded, json_decode_error, unicode_decode_error, read,
}

-- json.loads where no exception is caught
abbrev pub value_of : Loaded → Result Json
value_of (loaded j) = ok j
value_of (json_decode_error s) = err (value_error s)
value_of (unicode_decode_error s) = err (value_error s)

-- `except json.JSONDecodeError as exc: raise HTTPException(400, "Malformed JWS body")`
abbrev or_malformed : Loaded → Result Json
or_malformed (loaded j) = ok j
or_malformed (json_decode_error s) = err (http_exception 400 "Malformed JWS body")
or_malformed (unicode_decode_error s) = err (value_error s)

-- the characters that a text of n characters wants: -n % 4
unfoldable pub padding_length : ℕ → ℕ
padding_length n = (4 - n % 4) % 4

module _ (lib : AcmeLib) where
  -- _parse_jws
  unfoldable pub parse_jws : Bytes → Result Json
  parse_jws body = or_malformed (lib.loads body)

  unfoldable pub b64url_decode : String → Result Bytes
  unfolding text_length repeat padding_length
  b64url_decode segment =
      lib.urlsafe_b64decode (glue segment (repeat "=" (padding_length (text_length segment))))

  -- json.loads(b64url_decode(j))
  unfoldable pub decode_json : Json → Result Json
  unfolding b64url_decode as_text
  decode_json j =
      and_then (as_text j)
        λ segment. and_then (b64url_decode segment) λ bytes. value_of (lib.loads bytes)

  -- json.loads(b64url_decode(flat["protected"]))
  unfoldable pub protected_header : Json → Result Json
  unfolding item decode_json
  protected_header flat = and_then (item "protected" flat) decode_json

  -- the members of the key that its thumbprint covers
  unfoldable pub canonical_rsa : Json → Result Json
  unfolding item
  canonical_rsa jwk = and_then (item "e" jwk) λ e.
      and_then (item "n" jwk)
        λ n. ok (object (dict (("e", e) ∷ ("kty", text "RSA") ∷ ("n", n) ∷ [])))

  unfoldable pub canonical_ec : Json → Result Json
  unfolding item
  canonical_ec jwk = and_then (item "crv" jwk) λ crv. and_then (item "x" jwk) λ x.
      and_then (item "y" jwk)
        λ y. ok (object (dict (("crv", crv) ∷ ("kty", text "EC") ∷ ("x", x) ∷ ("y", y) ∷ [])))

  abbrev unsupported : Result Json
  unsupported = err (value_error "Unsupported JWK kty")

  unfoldable pub canonical : Json → Json → Result Json
  unfolding canonical_rsa canonical_ec
  canonical (text kty) jwk =
      if kty == "RSA"
      then canonical_rsa jwk
      else if kty == "EC"
      then canonical_ec jwk
      else unsupported
  canonical _ jwk = unsupported

  unfoldable pub jwk_thumbprint : Json → Result String
  unfolding item canonical rstrip_char
  jwk_thumbprint jwk = and_then (item "kty" jwk) λ kty. and_then (canonical kty jwk) λ members.
      ok (rstrip_char b'=' (lib.urlsafe_b64encode (lib.sha256_of (lib.dumps_canonical members))))

  -- the text of a value in an f-string
  unfoldable pub str_of : Json → String
  str_of (text s) = s
  str_of j = lib.str_other j

  -- `json.loads(b64url_decode(payload_b64)) if payload_b64 else {}`
  unfoldable pub decode_payload : Json → Result Json
  unfolding is_truthy decode_json
  decode_payload payload_b64 =
      if is_truthy payload_b64 then decode_json payload_b64 else ok (object (dict []))

  -- the payload of `verify_and_decode`, whose header no caller reads again
  unfoldable pub verify_and_decode : Json → Json → Result Json
  unfolding item get_or str_of decode_json decode_payload
  verify_and_decode flat jwk = and_then (item "protected" flat) λ protected_b64.
      and_then (get_or "payload" (text "") flat) λ payload_b64.
        and_then (item "signature" flat) λ signature_b64.
          and_then (decode_json protected_b64) λ protected. and_then (item "alg" protected) λ alg.
            and_then
              (lib.jws_verify
                (glue (str_of protected_b64)
                  (glue "." (glue (str_of payload_b64) (glue "." (str_of signature_b64)))))
                jwk alg)
              λ _. decode_payload payload_b64

  -- kid.rstrip("/").rsplit("/", 1)[-1]
  unfoldable pub account_part : String → String
  unfolding rstrip_char after_last
  account_part kid = after_last b'/' (rstrip_char b'/' kid)

  -- `kid.rstrip` is no attribute of a value that is no text
  abbrev kid_text : Json → Result String
  kid_text (text s) = ok s
  kid_text _ = err (attribute_error "rstrip")

  -- the identifier in `protected.get("kid", "")`
  unfoldable pub kid_uuid : Json → Result ℕ
  unfolding get_or account_part
  kid_uuid protected =
      and_then (get_or "kid" (text "") protected)
        λ kid. and_then (kid_text kid) λ s. lib.parse_uuid (account_part s)

module _ {lib : AcmeLib} {ra : RaClient} where
  -- _get_account_from_kid
  unfoldable pub get_account_from_kid : Json → Exec (Server lib ra) AcmeAccount
  get_account_from_kid protected = do
    account_id ← lift (kid_uuid lib protected)
    account ← read (account_with_id account_id)
    or_raise account (http_exception 401 "Unknown ACME account")
