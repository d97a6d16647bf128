-- ===== src/Tests/AcmeRuns.antt =====
-- The theorems on the ACME server at concrete inputs.
use Prim.Native.String.{◌++◌ as glue}
use pkica.Base.{
  ℕ, zero, suc, ◌+◌, ◌-◌, ◌%◌, ◌≤◌, String, ◌≡◌, refl, sym, ap, ◌∙◌, true, false, Option, none,
  some, List, [], ◌∷◌, All, arith,
}
use pkica.Base.Int.{ℤ, pos}
use pkica.Text.{contains, strip, text_length, repeat}
use pkica.Text.Segments.{text_length-append, text_length-repeat}
use pkica.Text.Hex.{format_hex, int_hex}
use pkica.Text.Hex.RoundTrip.{int_hex-format_hex}
use pkica.Json.{Json, text, object, dict, item, as_text, find_member, nonempty}
use pkica.Effect.{Error, Result, ok, err, pure, ◌>>=◌}
use pkica.Ra.Http.{RaClient}
use pkica.Acme.Tables.{
  AcmeDb, AcmeAccount, AcmeOrder, AcmeAuthorization, insert_nonce, account_with_id,
}
use pkica.Acme.Server.{AcmeLib, Server, Loaded, loaded, bad_nonce, new_nonce, token, write, commit}
use pkica.Acme.Jws.{parse_jws, protected_header, decode_json, b64url_decode, get_account_from_kid}
use pkica.Acme.Accounts.{get_nonce, location_of, Answer}
use pkica.Acme.Api.{
  Request, get_new_nonce, post_account, post_challenge, post_finalize, get_certificate, handle,
  opened, serve, serve_all,
}
use pkica.Acme.Replay.{TokensDiffer, presented, serve-bad_nonce}
use pkica.Acme.Issued.{
  IsSettled, pending, IssuesOnly, NoneAnswers, NotValid, serve_all-IsSettled,
  serve-get_certificate-Good, serve_all-NotValid,
}
use pkica.Acme.Gate.{serve-post_finalize-Untouched}
use pkica.Tests.AcmeWorld.{test_ra}
use pkica.Acme.Kid.{IsUuidText, get_account_from_kid-location_of, b64url_decode-padded}

abbrev test_jwk : Json
test_jwk = object (dict (("kty", text "RSA") ∷ ("e", text "AQAB") ∷ ("n", text "n") ∷ []))

-- The header and the body of each posted request.
abbrev test_protected : Json
test_protected = object (
    dict (
      ("alg", text "RS256")
      ∷ ("nonce", text "0")
      ∷ ("jwk", test_jwk)
      ∷ ("kid", text "https://acme.pkica.local/acme/account/1")
      ∷ ("csr", text "e30")
      ∷ []))

abbrev test_flat : Json
test_flat =
    object (
      dict
        (("protected", text "e30=") ∷ ("payload", text "e30=") ∷ ("signature", text "c2ln") ∷ []))

abbrev test_loads : List ℕ → Loaded
test_loads [] = loaded test_protected
test_loads (_ ∷ _) = loaded test_flat

-- Tokens are the numbers of their calls.
abbrev test_acme : AcmeLib
test_acme = record {
  loads = test_loads;
  loads_text = λ s. loaded test_jwk;
  dumps = λ j. "jwk";
  dumps_canonical = λ j. "canonical";
  str_other = λ j. "other";
  urlsafe_b64decode = λ s. ok [];
  urlsafe_b64encode = λ b. "thumb=";
  encodebytes = λ b. "MII=\n";
  sha256_of = λ s. 1 ∷ [];
  jws_verify = λ compact key alg. ok tt;
  parse_uuid = λ s. ok 1;
  uuid_text = format_hex;
  uuid4_at = λ k. k;
  token_urlsafe = λ n k. format_hex k;
  Net = ℕ;
  http_get = λ url. pure (200, "");
}

-- int_hex answers with a number that is not negative
abbrev value_or_zero : Option ℤ → ℕ
value_or_zero (some (pos n)) = n
value_or_zero _ = 0

pos_value : {i j : ℕ} → some (pos i) ≡ some (pos j) → i ≡ j
pos_value e = ap value_or_zero e

test_acme-TokensDiffer : TokensDiffer test_acme
test_acme-TokensDiffer = record {
  differ = λ i j e. pos_value (sym (int_hex-format_hex i) ∙ ap int_hex e ∙ int_hex-format_hex j);
}

abbrev test_server : Server test_acme test_ra
test_server =
    let empty : AcmeDb = record { accounts = []; orders = []; authorizations = []; nonces = [] } in
    record { stored = empty; session = empty; ra_state = 0; net = 0; calls = 0 }

abbrev with_nonce : Server test_acme test_ra
with_nonce = serve_all (get_new_nonce ∷ []) (opened test_server)

abbrev replayed : Server test_acme test_ra
replayed = serve_all [] (serve (post_account (1 ∷ [])) with_nonce).1

serve-bad_nonce_example :
    serve (post_finalize 5 (1 ∷ [])) replayed ≡ (err bad_nonce, opened replayed)
serve-bad_nonce_example =
    serve-bad_nonce test_acme test_ra test_acme-TokensDiffer (get_new_nonce ∷ []) []
      (post_account (1 ∷ [])) (post_finalize 5 (1 ∷ [])) (1 ∷ []) (1 ∷ []) "0" test_server refl refl
      refl
      (unfold presented parse_jws protected_header decode_json item find_member as_text in refl)
      (unfold presented parse_jws protected_header decode_json item find_member as_text in refl)
      (unfold serve_all serve handle opened get_nonce new_nonce token write commit pure ◌>>=◌
          insert_nonce format_hex in
        refl)

-- An RA that issues one certificate to all.
abbrev issuing_ra : RaClient
issuing_ra = record {
  Remote = ℕ;
  post_request = λ profile protocol requester csr sans n. (
    ok (record {
      status_code = 200;
      body = "";
      json = ok (record { id = n; issued_certificate_pem = some "CERT" });
    }),
    n + 1,
  );
}

abbrev IsCert : String → Type 0
IsCert pem = pem ≡ "CERT"

issuing_ra-IssuesOnly : IssuesOnly issuing_ra IsCert
issuing_ra-IssuesOnly = record {
  issued = λ profile protocol requester csr sans state resp view pem answered holds named. cc;
}

-- An order with one authorization that has been tried, and one that waits.
abbrev open_order : AcmeOrder
open_order = record {
  id = 5;
  account_id = 1;
  identifiers = "[]";
  status = "pending";
  certificate_pem = none;
  request_id = none;
}

abbrev authorization : ℕ → String → AcmeAuthorization
authorization id status = record {
  id = id;
  order_id = 5;
  identifier_type = "dns";
  identifier_value = "host.example";
  status = status;
  token = "t";
}

abbrev open_db : AcmeDb
open_db = record {
  accounts =
      record { id = 1; jwk_thumbprint = "thumb"; jwk_json = "jwk"; contact = ""; status = "valid" }
      ∷ [];
  orders = open_order ∷ [];
  authorizations = authorization 6 "invalid" ∷ authorization 7 "pending" ∷ [];
  nonces = "0" ∷ [];
}

abbrev open_server : Server test_acme issuing_ra
open_server = record { stored = open_db; session = open_db; ra_state = 0; net = 0; calls = 1 }

abbrev acme_requests : List Request
acme_requests = get_new_nonce ∷ post_finalize 5 (1 ∷ []) ∷ post_challenge 6 (1 ∷ []) ∷ []

serve_all-IsSettled_example :
    All (IsSettled IsCert) (serve_all acme_requests open_server).stored.orders
serve_all-IsSettled_example =
    serve_all-IsSettled test_acme issuing_ra IsCert issuing_ra-IssuesOnly acme_requests open_server
      (pending refl refl refl, tt)

-- An order whose authorization is valid: its end brings the certificate, which is handed out.
abbrev ready_server : Server test_acme issuing_ra
ready_server =
    let ready : AcmeDb = record open_db { authorizations = authorization 6 "valid" ∷ [] } in
    record { stored = ready; session = ready; ra_state = 0; net = 0; calls = 1 }

abbrev handed_out : Answer
handed_out = record {
  status_code = 200;
  location = none;
  replay_nonce = none;
  content = text "CERT";
}

certificate_is_answered :
    (serve (get_certificate 5) (serve_all (post_finalize 5 (1 ∷ []) ∷ []) ready_server)).0
    ≡ ok handed_out
unfolding pkica.Acme.Tables.insert_nonce pkica.Acme.Tables.delete_nonce
    pkica.Acme.Tables.account_with_id pkica.Acme.Tables.order_with_id
    pkica.Acme.Tables.authorizations_of pkica.Acme.Tables.change_order pkica.Acme.Server.read
    pkica.Acme.Server.write pkica.Acme.Server.commit pkica.Acme.Server.token
    pkica.Acme.Server.ask_ra pkica.Acme.Server.new_nonce pkica.Acme.Server.consume_nonce
    pkica.Acme.Jws.padding_length pkica.Acme.Jws.parse_jws pkica.Acme.Jws.b64url_decode
    pkica.Acme.Jws.decode_json pkica.Acme.Jws.protected_header pkica.Acme.Jws.jwk_thumbprint
    pkica.Acme.Jws.str_of pkica.Acme.Jws.decode_payload pkica.Acme.Jws.verify_and_decode
    pkica.Acme.Jws.account_part pkica.Acme.Jws.kid_uuid pkica.Acme.Jws.get_account_from_kid
    pkica.Acme.Accounts.location_of pkica.Acme.Accounts.consume_header pkica.Acme.Finalize.all_valid
    pkica.Acme.Finalize.sans_of pkica.Acme.Finalize.issued_pem pkica.Acme.Finalize.finalized_row
    pkica.Acme.Finalize.certificate_of pkica.Acme.Finalize.csr_pem_of pkica.Acme.Finalize.finalize
    pkica.Acme.Finalize.download_cert pkica.Acme.Api.handle pkica.Acme.Api.opened
    pkica.Acme.Api.serve pkica.Acme.Api.serve_all pkica.Json.find_member pkica.Json.item
    pkica.Json.get_or pkica.Json.as_text pkica.Json.is_truthy pkica.Text.text_length
    pkica.Text.rstrip_char pkica.Text.repeat pkica.Text.contains pkica.Text.split pkica.Text.before
    pkica.Text.after pkica.Text.join pkica.Text.lstrip pkica.Text.rstrip pkica.Text.strip
    pkica.Effect.pure pkica.Effect.lift pkica.Effect.or_raise pkica.Effect.raise_if
    pkica.Effect.◌>>=◌
certificate_is_answered = refl

serve-get_certificate-Good_example : (pem : String) × (handed_out.content ≡ text pem) × IsCert pem
serve-get_certificate-Good_example =
    serve-get_certificate-Good test_acme issuing_ra IsCert issuing_ra-IssuesOnly
      (post_finalize 5 (1 ∷ []) ∷ []) ready_server 5 handed_out (pending refl refl refl, tt)
      certificate_is_answered

-- the text of a page, and of the key
is_answer : (secret thumb : String) → strip "" ≡ glue secret (glue "." thumb) → ⊥
unfolding strip text_length
is_answer secret thumb e =
    let lengths : 0 ≡ text_length secret + text_length (glue "." thumb) =
      ap text_length e ∙ text_length-append secret (glue "." thumb) in
    let dotted : text_length (glue "." thumb) ≡ 1 + text_length thumb =
      text_length-append "." thumb in
    omega arith

page_text :
    (body : String) → ◌≡◌ {A = Result (ℕ × String)} (ok (200, "")) (ok (200, body)) → body ≡ ""
page_text body e =
    let same : ◌≡◌ {A = ℕ × String} (200, "") (200, body) = cc in sym (ap (λ r. r.1) same)

test_acme-NoneAnswers : NoneAnswers test_acme
unfolding pure
test_acme-NoneAnswers = record {
  unanswered = λ value secret thumb body jwk net e answer same.
      is_answer secret thumb (ap strip (sym (page_text body answer)) ∙ same);
}

serve_all-NotValid_example :
    All NotValid (serve_all (post_challenge 7 (1 ∷ []) ∷ []) open_server).stored.authorizations
serve_all-NotValid_example =
    serve_all-NotValid test_acme issuing_ra test_acme-NoneAnswers (post_challenge 7 (1 ∷ []) ∷ [])
      open_server (refl, (refl, tt))

serve-post_finalize-Untouched_example :
    ((serve (post_finalize 5 (1 ∷ [])) open_server).1.ra_state ≡ 0)
    × ((serve (post_finalize 5 (1 ∷ [])) open_server).1.stored.orders ≡ open_order ∷ [])
    × ((serve (post_finalize 5 (1 ∷ [])) open_server).1.stored.authorizations
        ≡ open_db.authorizations)
    × (e : Error) × ((serve (post_finalize 5 (1 ∷ [])) open_server).0 ≡ err e)
serve-post_finalize-Untouched_example =
    serve-post_finalize-Untouched test_acme issuing_ra open_server 5 (1 ∷ []) refl

-- UUIDs in one letter, one more than the number.
abbrev unary : ℕ → String
unary n = repeat "a" (suc n)

unary-no_slash : (n : ℕ) → contains b'/' (repeat "a" n) ≡ false
unfolding contains repeat
unary-no_slash zero = refl
unary-no_slash (suc n) = unary-no_slash n

unary-filled : (n : ℕ) → nonempty (unary n) ≡ true
unfolding repeat
unary-filled n = refl

abbrev unary_acme : AcmeLib
unary_acme = record test_acme { uuid_text = unary; parse_uuid = λ s. ok (text_length s - 1) }

unary_acme-IsUuidText : IsUuidText unary_acme
unary_acme-IsUuidText = record {
  parse_uuid-uuid_text = λ id. rw (text_length-repeat "a" (suc id)) (ap ok (omega arith));
  filled = unary-filled;
  no_slash = λ id. unary-no_slash (suc id);
}

abbrev unary_server : Server unary_acme issuing_ra
unary_server = record { stored = open_db; session = open_db; ra_state = 0; net = 0; calls = 1 }

abbrev first_account : AcmeAccount
first_account = record {
  id = 1;
  jwk_thumbprint = "thumb";
  jwk_json = "jwk";
  contact = "";
  status = "valid";
}

get_account_from_kid-location_of_example :
    get_account_from_kid
      (object (dict (("kid", text "https://acme.pkica.local/acme/account/aa") ∷ [])))
      unary_server
    ≡ (ok first_account, unary_server)
get_account_from_kid-location_of_example =
    get_account_from_kid-location_of unary_acme issuing_ra unary_server first_account
      (dict (("kid", text "https://acme.pkica.local/acme/account/aa") ∷ [])) unary_acme-IsUuidText
      (unfold account_with_id in refl) (unfold find_member location_of repeat in refl)

b64url_decode-padded_example :
    (n : ℕ) × (b64url_decode test_acme "e30"
      ≡ test_acme.urlsafe_b64decode (glue "e30" (repeat "=" n)))
    × (n ≤ 3)
    × (text_length (glue "e30" (repeat "=" n)) % 4 ≡ 0)
b64url_decode-padded_example = b64url_decode-padded test_acme "e30"
