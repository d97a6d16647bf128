-- ===== src/Acme/Issued.antt =====
-- services/acme/app/main.py: the rows of orders, the certificates in them, and the authorizations.
use pkica.Base.{
  ℕ, String, Bool, false, ◌≡◌, refl, sym, Option, none, some, List, [], ◌∷◌, eqb, ◌==◌, find_first,
  All, ap, eq_iff, Bool-cases, inl, inr, arith,
}
use Prim.Native.String.{◌++◌ as glue}
use pkica.Text.{strip}
use pkica.Acme.Jws.{jwk_thumbprint}
use pkica.Json.{Json, text, nonempty}
use pkica.Effect.{Result, ok, err, pure, or_raise, ◌>>=◌}
use pkica.Ra.Http.{RaClient, RequestView, Response}
use pkica.Acme.Tables.{AcmeOrder, AcmeAuthorization, order_with_id}
use pkica.Acme.Server.{AcmeLib, Server, read}
use pkica.Acme.Accounts.{Answer}
use pkica.Acme.Orders.{challenge_url, is_validated, challenge_status, with_status}
use pkica.Acme.Finalize.{finalized_row, issued_pem, certificate_of, download_cert}
use pkica.Acme.Api.{Request, get_certificate, handle, opened, serve, serve_all}
use pkica.Acme.Rows.{RowProperties, AreKept}
use pkica.Acme.Rows.Routes.{serve_all-OnRows}

abbrev pub IfSome : (String → Type 0) → Option String → Type 0
IfSome Good none = Unit
IfSome Good (some pem) = Good pem

-- An order is pending without a request or a certificate, waits for the certificate of its request, or
-- is valid with its request and a certificate; each certificate is good.
pub data IsSettled (Good : String → Type 0) (o : AcmeOrder) : Type 0 where
  pending : o.status ≡ "pending" → o.request_id ≡ none → o.certificate_pem ≡ none → IsSettled Good o
  processing :
      (id : ℕ)
      → o.status ≡ "processing"
      → o.request_id ≡ some id
      → IfSome Good o.certificate_pem
      → IsSettled Good o
  valid :
      (id : ℕ) (pem : String)
      → o.status ≡ "valid"
      → o.request_id ≡ some id
      → o.certificate_pem ≡ some pem
      → Good pem
      → IsSettled Good o

-- Each certificate that the RA answers with is good.
pub record IssuesOnly (ra : RaClient) (Good : String → Type 0) : Type 0 where
  pub issued :
      (profile protocol requester csr : String) (sans : List String) (state : ra.Remote)
      (resp : Response) (view : RequestView) (pem : String)
      → (ra.post_request profile protocol requester csr sans state).0 ≡ ok resp
      → resp.json ≡ ok view
      → view.issued_certificate_pem ≡ some pem
      → Good pem

module _ (Good : String → Type 0) where
  abbrev order_properties : RowProperties
  order_properties = record {
    OfOrder = IsSettled Good;
    OfAuthorization = λ a. Unit {0};
    OfReply = λ key reply. Unit {0};
    OfView = λ view. IfSome Good view.issued_certificate_pem;
  }

  good_certificate : (o : AcmeOrder) → IsSettled Good o → IfSome Good o.certificate_pem
  good_certificate o (pending _ _ e) = rw e tt
  good_certificate o (processing _ _ _ h) = h
  good_certificate o (valid _ _ _ _ e h) = rw e h

  good_view : (r : Option String) → ((pem : String) → r ≡ some pem → Good pem) → IfSome Good r
  good_view none h = tt
  good_view (some pem) h = h pem refl

  good_issued_pem : (r : Option String) → IfSome Good r → IfSome Good (issued_pem r)
  unfolding issued_pem
  good_issued_pem none h = tt
  good_issued_pem (some pem) h = elim (Bool-cases (nonempty pem)) [
    | inl e ↦ rw e h
    | inr e ↦ rw e tt
  ]

  issued_row-IsSettled :
      (id : ℕ) (o : AcmeOrder) (issued : Option String)
      → IfSome Good issued
      → IfSome Good o.certificate_pem
      → IsSettled Good (elim issued [
        | some pem ↦ record o { request_id = some id; certificate_pem = some pem; status = "valid" }
        | none ↦ record o { request_id = some id; status = "processing" }
      ])
  issued_row-IsSettled id o (some pem) h k = valid id pem refl refl refl h
  issued_row-IsSettled id o none h k = processing id refl refl k

  finalized_row-IsSettled :
      (view : RequestView) (o : AcmeOrder)
      → IfSome Good view.issued_certificate_pem
      → IsSettled Good o
      → IsSettled Good (finalized_row view o)
  unfolding finalized_row
  finalized_row-IsSettled view o h k =
      issued_row-IsSettled view.id o (issued_pem view.issued_certificate_pem)
        (good_issued_pem view.issued_certificate_pem h) (good_certificate o k)

  orders-AreKept :
      (lib : AcmeLib) (ra : RaClient) → IssuesOnly ra Good → AreKept lib ra order_properties
  orders-AreKept lib ra only = record {
    replied = λ value secret thumb jwk net e. tt;
    answered = λ profile protocol requester csr sans state resp view e v.
        good_view view.issued_certificate_pem
          λ pem. only.issued profile protocol requester csr sans state resp view pem e v;
    new_order_row = λ id account identifiers. pending refl refl refl;
    finalized = λ view o v h. finalized_row-IsSettled view o v h;
    new_authorization_row = λ id order kind identifier secret. tt;
    challenged = λ key reply a q h. tt;
  }

unconstrained : (rows : List AcmeAuthorization) → All (λ a. Unit {0}) rows
unconstrained [] = tt
unconstrained (a ∷ rows) = (tt, unconstrained rows)

-- After any requests, from tables where it was so before, every order is pending without a request and
-- without a certificate, or processing with a request, or valid with a request and a certificate; and
-- each certificate in an order has whatever property the RA's certificates have.
pub serve_all-IsSettled :
    (lib : AcmeLib) (ra : RaClient) (Good : String → Type 0)
    → IssuesOnly ra Good
    → (qs : List Request) (s : Server lib ra) → All (IsSettled Good) s.stored.orders
    → All (IsSettled Good) (serve_all qs s).stored.orders
serve_all-IsSettled lib ra Good only qs s h =
    (serve_all-OnRows (orders-AreKept Good lib ra only) qs s
      (record { orders = h; authorizations = unconstrained s.stored.authorizations })).orders

-- what a look-up finds has the property of all rows
found_in :
    (P : AcmeOrder → Type 0) (q : AcmeOrder → Bool) (rows : List AcmeOrder) (o : AcmeOrder)
    → All P rows
    → find_first q rows ≡ some o
    → P o
found_in P q [] o h e = absurd cc
found_in P q (x ∷ rows) o h e = elim (Bool-cases (q x)) [
  | inl y ↦ let same : o ≡ x = ground (arith, y, e) in rw same h.0
  | inr n ↦ found_in P q rows o h.1 (ground (arith, n, e))
]

module _ (Good : String → Type 0) where
  good_certificate_of :
      (found : Option AcmeOrder)
      → ((o : AcmeOrder) → found ≡ some o → IfSome Good o.certificate_pem)
      → IfSome Good (certificate_of found)
  unfolding certificate_of
  good_certificate_of none h = tt
  good_certificate_of (some o) h = good_issued_pem Good o.certificate_pem (h o refl)

  abbrev HandsOut : Result Answer → Type 0
  HandsOut (ok a) = (pem : String) × (a.content ≡ text pem) × Good pem
  HandsOut (err e) = Unit

  handed_answer :
      (outcome : Result Answer) (a : Answer)
      → outcome ≡ ok a
      → HandsOut outcome
      → (pem : String) × (a.content ≡ text pem) × Good pem
  handed_answer (ok x) a e h = let same : x ≡ a = cc in rw (sym same) h
  handed_answer (err x) a e h = absurd cc

  given_out :
      {lib : AcmeLib} {ra : RaClient} (id : ℕ) (s : Server lib ra) (found : Option String)
      → certificate_of (order_with_id id s.session) ≡ found
      → IfSome Good found
      → HandsOut (download_cert id s).0
  unfolding download_cert ◌>>=◌ read or_raise pure
  given_out id s none e h = rw e tt
  given_out id s (some pem) e h = rw e (pem, refl, h)

-- After any requests, from tables whose orders are settled with certificates that have some property, a
-- download that is answered hands out a certificate with that property, if the certificates in the RA's
-- answers have it.
pub serve-get_certificate-Good :
    (lib : AcmeLib) (ra : RaClient) (Good : String → Type 0)
    → IssuesOnly ra Good
    → (qs : List Request) (s : Server lib ra) (id : ℕ) (a : Answer)
    → All (IsSettled Good) s.stored.orders
    → (serve (get_certificate id) (serve_all qs s)).0 ≡ ok a
    → (pem : String) × (a.content ≡ text pem) × Good pem
unfolding serve handle opened order_with_id
serve-get_certificate-Good lib ra Good only qs s id a start answered =
    let after = opened (serve_all qs s) in
    let rows = serve_all-IsSettled lib ra Good only qs s start in
    let handed : HandsOut Good (download_cert id after).0 =
      given_out Good id after (certificate_of (order_with_id id after.session)) refl (
        good_certificate_of Good (order_with_id id after.session) λ o e.
          good_certificate Good o
            (found_in (IsSettled Good) (λ r. eqb r.id id) after.session.orders o rows e)) in
    handed_answer Good _ a answered handed

-- An authorization that is not valid.
abbrev pub NotValid : AcmeAuthorization → Type 0
NotValid a = (a.status == "valid") ≡ false

-- No host answers its challenge: at the address of a token, no answer with status 200 is the token, a
-- dot and a key's thumbprint.
pub record NoneAnswers (lib : AcmeLib) : Type 0 where
  pub unanswered :
      (value secret thumb body : String) (jwk : Json) (net : lib.Net)
      → jwk_thumbprint lib jwk ≡ ok thumb
      → (lib.http_get (challenge_url value secret) net).0 ≡ ok (200, body)
      → strip body ≡ glue secret (glue "." thumb)
      → ⊥

not_validated :
    (key : String) (reply : Result (ℕ × String))
    → ((body : String) → reply ≡ ok (200, body) → strip body ≡ key → ⊥)
    → is_validated key reply ≡ false
unfolding is_validated
not_validated key (err e) h = refl
not_validated key (ok (status, body)) h = elim (Bool-cases (eqb status 200)) [
  | inr other ↦ rw other refl
  | inl same ↦ elim (Bool-cases (strip body == key)) [
    | inr differs ↦ rw same (rw differs refl)
    | inl equal ↦ absurd (
        h body (ap (λ n. ok (n, body)) (ground (arith, same)))
          (ground (arith, eq_iff (strip body) key, equal)))
  ]
]

challenged-NotValid :
    (key : String) (reply : Result (ℕ × String)) (a : AcmeAuthorization)
    → is_validated key reply ≡ false
    → NotValid (with_status (challenge_status (is_validated key reply)) a)
challenged-NotValid key reply a h = rw h refl

authorizations-AreKept :
    (lib : AcmeLib) (ra : RaClient)
    → NoneAnswers lib
    → AreKept lib ra (record {
      OfOrder = λ o. Unit {0};
      OfAuthorization = NotValid;
      OfReply = λ key reply. is_validated key reply ≡ false;
      OfView = λ view. Unit {0};
    })
authorizations-AreKept lib ra none_answers = record {
  replied = λ value secret thumb jwk net e.
      not_validated _ _
        λ body answer same. none_answers.unanswered value secret thumb body jwk net e answer same;
  answered = λ profile protocol requester csr sans state resp view e v. tt;
  new_order_row = λ id account identifiers. tt;
  finalized = λ view o v h. tt;
  new_authorization_row = λ id order kind identifier secret. refl;
  challenged = λ key reply a q h. challenged-NotValid key reply a q;
}

unconstrained_orders : (rows : List AcmeOrder) → All (λ o. Unit {0}) rows
unconstrained_orders [] = tt
unconstrained_orders (o ∷ rows) = (tt, unconstrained_orders rows)

-- While no host answers at the address of a token with status 200 and, white space around it aside, that
-- token, a dot and a key's thumbprint, no authorization becomes valid, whatever the requests, from tables
-- where none is.
pub serve_all-NotValid :
    (lib : AcmeLib) (ra : RaClient)
    → NoneAnswers lib
    → (qs : List Request) (s : Server lib ra) → All NotValid s.stored.authorizations
    → All NotValid (serve_all qs s).stored.authorizations
serve_all-NotValid lib ra none_answers qs s h =
    (serve_all-OnRows (authorizations-AreKept lib ra none_answers) qs s
      (record { orders = unconstrained_orders s.stored.orders; authorizations = h })).authorizations
