-- ===== src/Acme/Nonces.antt =====
-- services/acme/app/main.py: properties of the stored nonces and of the number of tokens drawn, and
-- the routes.
use pkica.Base.{
  ℕ, ◌+◌, String, ◌≡◌, refl, Option, none, some, List, [], ◌∷◌, ◌++◌, not, ◌==◌, select, arith,
  Bool, true, false, member,
}
use pkica.Json.{Json, Elements, none_left, element}
use pkica.Effect.{Result, ok, err, Exec, pure, ◌>>=◌}
use pkica.Effect.Keeps.{Keeps, Keeps-pure, Keeps-bind, keeps_rules}
use pkica.Ra.Http.{RaClient}
use pkica.Acme.Tables.{
  AcmeDb, AcmeAccount, AcmeOrder, AcmeAuthorization, insert_nonce, insert_account, insert_order,
  insert_authorization, delete_nonce, change_order, change_authorization,
}
use pkica.Acme.Server.{
  AcmeLib, Server, read, write, commit, token, uuid4, ask_ra, fetch, new_nonce, consume_nonce,
}
use pkica.Acme.Jws.{get_account_from_kid}
use pkica.Acme.Accounts.{consume_header, find_or_add, get_nonce, new_account}
use pkica.Acme.Orders.{
  add_authorization, add_authorizations, new_order, get_authz, respond_challenge,
}
use pkica.Acme.Finalize.{finalize, get_order, download_cert}
use pkica.Acme.Api.{Request, get_directory, handle, opened, serve, serve_all}

abbrev pub Nonces : Type 1
Nonces = List String → ℕ → Type 0

-- What is true of the nonces stays true when a token is drawn, when it becomes a nonce, and when a
-- nonce is deleted.
pub record IsStable (lib : AcmeLib) (R : Nonces) : Type 0 where
  pub drawn : (ns : List String) (calls : ℕ) → R ns calls → R ns (calls + 1)
  pub added :
      (ns : List String) (calls : ℕ)
      → R ns calls
      → R (ns ++ lib.token_urlsafe 24 calls ∷ []) (calls + 1)
  pub deleted :
      (ns : List String) (calls : ℕ) (m : String)
      → R ns calls
      → R (select (λ n. not (n == m)) ns) calls

pub record OnNonces {lib : AcmeLib} {ra : RaClient} (R : Nonces) (s : Server lib ra) : Type 0 where
  pub in_store : R s.stored.nonces s.calls
  pub in_session : R s.session.nonces s.calls

-- A statement that leaves the nonces alone.
abbrev pub SameNonces : AcmeDb → Result AcmeDb → Type 0
SameNonces db (ok db') = db'.nonces ≡ db.nonces
SameNonces db (err e) = Unit

abbrev pub KeepsNonces : (AcmeDb → Result AcmeDb) → Type 0
KeepsNonces f = (db : AcmeDb) → SameNonces db (f db)

pub insert_account-KeepsNonces : (a : AcmeAccount) → KeepsNonces (insert_account a)
unfolding insert_account
insert_account-KeepsNonces a db = ground arith

pub insert_order-KeepsNonces : (o : AcmeOrder) → KeepsNonces (insert_order o)
unfolding insert_order
insert_order-KeepsNonces o db = ground arith

pub insert_authorization-KeepsNonces :
    (a : AcmeAuthorization) → KeepsNonces (insert_authorization a)
unfolding insert_authorization
insert_authorization-KeepsNonces a db = ground arith

pub change_order-KeepsNonces :
    (id : ℕ) (f : AcmeOrder → AcmeOrder) → KeepsNonces (change_order id f)
unfolding change_order
change_order-KeepsNonces id f db = refl

pub change_authorization-KeepsNonces :
    (id : ℕ) (f : AcmeAuthorization → AcmeAuthorization) → KeepsNonces (change_authorization id f)
unfolding change_authorization
change_authorization-KeepsNonces id f db = refl

module _ {lib : AcmeLib} {ra : RaClient} {R : Nonces} (stable : IsStable lib R) where
  abbrev pub Kept : Server lib ra → Type 0
  Kept = OnNonces R

  pub Keeps-read : {A : Type 0} (f : AcmeDb → A) → Keeps Kept (read f)
  unfolding read
  Keeps-read f = record { at = λ s h. h }

  pub Keeps-commit : Keeps Kept commit
  unfolding commit
  Keeps-commit = record {
    at = λ s h. record { in_store = h.in_session; in_session = h.in_session };
  }

  pub Keeps-ask_ra : {A : Type 0} (m : Exec ra.Remote A) → Keeps Kept (ask_ra m)
  unfolding ask_ra
  Keeps-ask_ra m = record {
    at = λ s h. record { in_store = h.in_store; in_session = h.in_session };
  }

  pub Keeps-fetch : (url : String) → Keeps Kept (fetch url)
  unfolding fetch
  Keeps-fetch url = record {
    at = λ s h. record { in_store = h.in_store; in_session = h.in_session };
  }

  pub Keeps-uuid4 : Keeps Kept uuid4
  unfolding uuid4
  Keeps-uuid4 = record {
    at = λ s h. record {
      in_store = stable.drawn s.stored.nonces s.calls h.in_store;
      in_session = stable.drawn s.session.nonces s.calls h.in_session;
    };
  }

  pub Keeps-token : (n : ℕ) → Keeps Kept (token n)
  unfolding token
  Keeps-token n = record {
    at = λ s h. record {
      in_store = stable.drawn s.stored.nonces s.calls h.in_store;
      in_session = stable.drawn s.session.nonces s.calls h.in_session;
    };
  }

  written :
      (r : Result AcmeDb) (s : Server lib ra)
      → SameNonces s.session r
      → Kept s
      → Kept (write (λ _. r) s).1
  unfolding write
  written (ok db) s e h = record { in_store = h.in_store; in_session = rw e h.in_session }
  written (err x) s e h = h

  pub Keeps-write : (f : AcmeDb → Result AcmeDb) → KeepsNonces f → Keeps Kept (write f)
  Keeps-write f k = record { at = λ s h. unfold write in written (f s.session) s (k s.session) h }

  pub Keeps-delete_nonce : (m : String) → Keeps Kept (write (delete_nonce m))
  unfolding write delete_nonce
  Keeps-delete_nonce m = record {
    at = λ s h. record {
      in_store = h.in_store;
      in_session = stable.deleted s.session.nonces s.calls m h.in_session;
    };
  }

  added_nonce :
      (s : Server lib ra) (b : Bool)
      → member (lib.token_urlsafe 24 s.calls) s.session.nonces ≡ b
      → Kept s
      → Kept (new_nonce s).1
  unfolding new_nonce ◌>>=◌ token write commit insert_nonce pure
  added_nonce s true e h = rw e (record {
    in_store = stable.drawn s.stored.nonces s.calls h.in_store;
    in_session = stable.drawn s.session.nonces s.calls h.in_session;
  })
  added_nonce s false e h = rw e (record {
    in_store = stable.added s.session.nonces s.calls h.in_session;
    in_session = stable.added s.session.nonces s.calls h.in_session;
  })

  pub Keeps-new_nonce : Keeps Kept new_nonce
  Keeps-new_nonce = record {
    at = λ s h. added_nonce s (member (lib.token_urlsafe 24 s.calls) s.session.nonces) refl h;
  }

  pub Keeps-get_account : (protected : Json) → Keeps Kept (get_account_from_kid protected)
  unfolding get_account_from_kid
  Keeps-get_account protected = search (keeps_rules, Keeps-read) depth 12

pub ruleset nonce_rules = (
  keeps_rules, Keeps-read, Keeps-commit, Keeps-ask_ra, Keeps-fetch, Keeps-uuid4, Keeps-token,
  Keeps-write, Keeps-delete_nonce, Keeps-new_nonce, Keeps-get_account, insert_account-KeepsNonces,
  insert_order-KeepsNonces, insert_authorization-KeepsNonces, change_order-KeepsNonces,
  change_authorization-KeepsNonces,
)

module _ {lib : AcmeLib} {ra : RaClient} {R : Nonces} (stable : IsStable lib R) where
  pub Keeps-consume_header :
      (protected : Json) → Keeps (Kept {ra = ra} stable) (consume_header protected)
  unfolding consume_header consume_nonce
  Keeps-consume_header protected = search nonce_rules depth 16

  pub Keeps-find_or_add :
      (found : Option AcmeAccount) (thumb : String) (jwk payload : Json)
      → Keeps (Kept {ra = ra} stable) (find_or_add found thumb jwk payload)
  unfolding find_or_add
  Keeps-find_or_add none thumb jwk payload = search nonce_rules depth 16
  Keeps-find_or_add (some a) thumb jwk payload = search nonce_rules depth 16

  pub Keeps-add_authorization :
      (id : ℕ) (ident : Json) → Keeps (Kept {ra = ra} stable) (add_authorization id ident)
  unfolding add_authorization
  Keeps-add_authorization id ident = search nonce_rules depth 24

  pub Keeps-add_authorizations :
      (id : ℕ) (idents : Elements) → Keeps (Kept {ra = ra} stable) (add_authorizations id idents)
  unfolding add_authorizations
  Keeps-add_authorizations id none_left = Keeps-pure _
  Keeps-add_authorizations id (element ident rest) =
      Keeps-bind _ _ (Keeps-add_authorization id ident)
        λ address. Keeps-bind _ _ (Keeps-add_authorizations id rest) λ addresses. Keeps-pure _

pub ruleset route_rules =
    (nonce_rules, Keeps-consume_header, Keeps-find_or_add, Keeps-add_authorizations)

module _ {lib : AcmeLib} {ra : RaClient} {R : Nonces} (stable : IsStable lib R) where
  -- each route, whatever the requests
  pub handle-Kept : (r : Request) → Keeps (Kept {ra = ra} stable) (handle r)
  unfolding handle get_nonce new_account new_order get_authz respond_challenge finalize get_order
      download_cert
  handle-Kept get_directory = search route_rules depth 40
  handle-Kept _ = search route_rules depth 40

  pub opened-Kept : (s : Server lib ra) → Kept stable s → Kept stable (opened s)
  unfolding opened
  opened-Kept s h = record { in_store = h.in_store; in_session = h.in_store }

  pub serve_all-Kept :
      (rs : List Request) (s : Server lib ra) → Kept stable s → Kept stable (serve_all rs s)
  unfolding serve_all serve
  serve_all-Kept [] s h = h
  serve_all-Kept (r ∷ rs) s h =
      serve_all-Kept rs (serve r s).1 ((handle-Kept r).at (opened s) (opened-Kept s h))
