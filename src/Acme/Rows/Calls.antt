-- ===== src/Acme/Rows/Calls.antt =====
-- services/acme/app/main.py: the calls of the routes and the properties of rows.
use pkica.Base.{ℕ, String, ◌≡◌, refl, none, List}
use pkica.Effect.{Result, continue, ok, err, Exec, lift, ◌>>=◌}
use pkica.Effect.Keeps.{Keeps, Keeps-pure, Keeps-bind, Keeps-after_lift, keeps_rules}
use pkica.Ra.Http.{RaClient, RequestView, Response}
use pkica.Acme.Tables.{
  AcmeDb, insert_order, insert_authorization, change_order, change_authorization,
}
use pkica.Acme.Server.{AcmeLib, Server, read, write, commit, token, uuid4, ask_ra, fetch}
use pkica.Json.{Json}
use pkica.Acme.Jws.{jwk_thumbprint}
use pkica.Acme.Orders.{
  challenge_url, key_authorization, is_validated, challenge_status, with_status,
}
use pkica.Acme.Finalize.{finalized_row}
use pkica.Acme.Rows.{
  RowProperties, AreKept, Answers, InRows, OnRows, Holds, KeepsRows, insert_nonce-KeepsRows,
  delete_nonce-KeepsRows, insert_account-KeepsRows, insert_order-KeepsRows,
  insert_authorization-KeepsRows, change_order-KeepsRows, change_authorization-KeepsRows,
}

module _ {lib : AcmeLib} {ra : RaClient} {r : RowProperties} (kept : AreKept lib ra r) where
  abbrev pub Kept : Server lib ra → Type 0
  Kept = OnRows r

  pub Keeps-read : {A : Type 0} (f : AcmeDb → A) → Keeps Kept (read f)
  unfolding read
  Keeps-read f = record { at = λ s h. h }

  pub Keeps-commit : Keeps Kept commit
  unfolding commit
  Keeps-commit = record {
    at = λ s h. record { in_store = h.in_session; in_session = h.in_session };
  }

  pub Keeps-uuid4 : Keeps Kept uuid4
  unfolding uuid4
  Keeps-uuid4 = record { at = λ s h. record { in_store = h.in_store; in_session = h.in_session } }

  pub Keeps-token : (n : ℕ) → Keeps Kept (token n)
  unfolding token
  Keeps-token n = record { at = λ s h. record { in_store = h.in_store; in_session = h.in_session } }

  written :
      (outcome : Result AcmeDb) (s : Server lib ra)
      → Holds r outcome
      → Kept s
      → Kept (write (λ _. outcome) s).1
  unfolding write
  written (ok db) s k h = record { in_store = h.in_store; in_session = k }
  written (err x) s k h = h

  pub Keeps-write : (f : AcmeDb → Result AcmeDb) → KeepsRows r f → Keeps Kept (write f)
  Keeps-write f k = record {
    at = λ s h. unfold write in written (f s.session) s (k s.session h.in_session) h;
  }

  -- the thumbprint of a key, and the reply to a challenge
  pub Keeps-after_challenge :
      {B : Type 0} (jwk : Json) (value secret : String)
      (rest : String → Result (ℕ × String) → Exec (Server lib ra) B)
      → ((thumb : String) (reply : Result (ℕ × String))
          → r.OfReply (key_authorization secret thumb) reply
          → Keeps Kept (rest thumb reply))
      → Keeps Kept (
          lift (jwk_thumbprint lib jwk) >>= λ thumb.
          fetch (challenge_url value secret) >>= rest thumb)
  Keeps-after_challenge jwk value secret rest k = Keeps-after_lift _ _ λ thumb e.
      let url = challenge_url value secret in
      record {
        at = λ s h.
            unfold ◌>>=◌ fetch in
            (k thumb (lib.http_get url s.net).0 (kept.replied value secret thumb jwk s.net e)).at
              (record s { net = (lib.http_get url s.net).1 })
              (record { in_store = h.in_store; in_session = h.in_session });
      }

  after_answer :
      {B : Type 0} (outcome : Result Response) (rest : Response → Exec (Server lib ra) B)
      (s : Server lib ra)
      → ((resp : Response) → outcome ≡ ok resp → Answers r resp)
      → ((resp : Response) → Answers r resp → Keeps Kept (rest resp))
      → Kept s
      → Kept (continue outcome rest s).1
  after_answer (ok resp) rest s a k h = (k resp (a resp refl)).at s h
  after_answer (err e) rest s a k h = h

  pub Keeps-after_request :
      {B : Type 0} (profile protocol requester csr : String) (sans : List String)
      (rest : Response → Exec (Server lib ra) B)
      → ((resp : Response) → Answers r resp → Keeps Kept (rest resp))
      → Keeps Kept (ask_ra (ra.post_request profile protocol requester csr sans) >>= rest)
  unfolding ◌>>=◌ ask_ra
  Keeps-after_request profile protocol requester csr sans rest k = record {
    at = λ s h.
        let answer = ra.post_request profile protocol requester csr sans s.ra_state in
        after_answer answer.0 rest (record s { ra_state = answer.1 })
          (λ resp e. record {
            views = λ view v.
                kept.answered profile protocol requester csr sans s.ra_state resp view e v;
          })
          k (record { in_store = h.in_store; in_session = h.in_session });
  }

  pub Keeps-after_view :
      {B : Type 0} (resp : Response) (rest : RequestView → Exec (Server lib ra) B)
      → Answers r resp
      → ((view : RequestView) → r.OfView view → Keeps Kept (rest view))
      → Keeps Kept (lift resp.json >>= rest)
  Keeps-after_view resp rest a k =
      Keeps-after_lift resp.json rest (λ view e. k view (a.views view e))

  pub Keeps-add_order :
      (id account : ℕ) (identifiers : String)
      → Keeps Kept (
          write (
            insert_order (record {
              id = id;
              account_id = account;
              identifiers = identifiers;
              status = "pending";
              certificate_pem = none;
              request_id = none;
            })))
  Keeps-add_order id account identifiers =
      Keeps-write _ (insert_order-KeepsRows r _ (kept.new_order_row id account identifiers))

  pub Keeps-add_row :
      (id order : ℕ) (kind identifier secret : String)
      → Keeps Kept (
          write (
            insert_authorization (record {
              id = id;
              order_id = order;
              identifier_type = kind;
              identifier_value = identifier;
              status = "pending";
              token = secret;
            })))
  Keeps-add_row id order kind identifier secret = Keeps-write _ (
      insert_authorization-KeepsRows r _
        (kept.new_authorization_row id order kind identifier secret))

  pub Keeps-change_order :
      (id : ℕ) (view : RequestView)
      → r.OfView view
      → Keeps Kept (write (change_order id (finalized_row view)))
  Keeps-change_order id view v =
      Keeps-write _
        (change_order-KeepsRows r id (finalized_row view) (λ o h. kept.finalized view o v h))

  pub Keeps-change_authorization :
      (id : ℕ) (key : String) (reply : Result (ℕ × String))
      → r.OfReply key reply
      → Keeps Kept (
          write (change_authorization id (with_status (challenge_status (is_validated key reply)))))
  Keeps-change_authorization id key reply v = Keeps-write _ (
      change_authorization-KeepsRows r id (with_status (challenge_status (is_validated key reply)))
        (λ a h. kept.challenged key reply a v h))

pub ruleset row_rules = (
  Keeps-after_challenge, Keeps-after_request, Keeps-after_view, keeps_rules, Keeps-read,
  Keeps-commit, Keeps-uuid4, Keeps-token, Keeps-add_order, Keeps-add_row, Keeps-change_order,
  Keeps-change_authorization, Keeps-write, insert_nonce-KeepsRows, delete_nonce-KeepsRows,
  insert_account-KeepsRows,
)
