-- ===== src/Acme/Gate.antt =====
-- services/acme/app/main.py: the check of the authorizations at the end of an order.
use pkica.Base.{
  ℕ, ◌≡◌, refl, ap, ◌&&◌, ◌==◌, any, select, Bool, true, false, not, String, Option, none, some,
  List, [], ◌∷◌, eqb, eqb_iff, find_first, arith,
}
use pkica.Base.Lists.{find_first-passes}
use pkica.Json.{Json}
use pkica.Asn1.{Bytes}
use pkica.Effect.{Error, Result, ok, err, continue, Exec, or_raise, raise_if, ◌>>=◌}
use pkica.Effect.Keeps.{Keeps, keeps_rules}
use pkica.Ra.Http.{RaClient}
use pkica.Acme.Tables.{
  AcmeDb, AcmeOrder, AcmeAuthorization, order_with_id, authorizations_of, delete_nonce,
}
use pkica.Acme.Server.{AcmeLib, Server, read, write, commit, consume_nonce}
use pkica.Acme.Jws.{get_account_from_kid}
use pkica.Acme.Accounts.{consume_header}
use pkica.Acme.Finalize.{all_valid, finalize}
use pkica.Acme.Api.{post_finalize, handle, opened, serve}

-- The block ends with an error, and the property holds behind it.
pub record Fails {S A : Type 0} (P : S → Type 0) (m : Exec S A) : Type 0 where
  pub fails : (s : S) → P s → P (m s).1 × (e : Error) × ((m s).0 ≡ err e)

module _ {S A B : Type 0} {P : S → Type 0} where
  step_continue :
      (outcome : Result A) (rest : A → Exec S B)
      → ((a : A) → outcome ≡ ok a → Fails P (rest a))
      → (s : S) → P s
      → P (continue outcome rest s).1 × (e : Error) × ((continue outcome rest s).0 ≡ err e)
  step_continue (ok a) rest k s h = (k a refl).fails s h
  step_continue (err e) rest k s h = (h, e, refl)

  Fails-bind :
      (call : Exec S A) (rest : A → Exec S B)
      → Keeps P call
      → ((a : A) → Fails P (rest a))
      → Fails P (call >>= rest)
  unfolding ◌>>=◌
  Fails-bind call rest kc kr = record {
    fails = λ s h. step_continue (call s).0 rest (λ a e. kr a) (call s).1 (kc.at s h);
  }

  Fails-after_or_raise :
      (o : Option A) (e : Error) (rest : A → Exec S B)
      → ((a : A) → o ≡ some a → Fails P (rest a))
      → Fails P (or_raise o e >>= rest)
  unfolding ◌>>=◌ or_raise
  Fails-after_or_raise none e rest k = record { fails = λ s h. (h, e, refl) }
  Fails-after_or_raise (some a) e rest k = record { fails = (k a refl).fails }

module _ {S B : Type 0} {P : S → Type 0} where
  Fails-raise_if :
      (b : Bool) (e : Error) (rest : Unit {0} → Exec S B)
      → b ≡ true
      → Fails P (raise_if b e >>= rest)
  unfolding ◌>>=◌ raise_if
  Fails-raise_if true e rest h = record { fails = λ s k. (k, e, refl) }
  Fails-raise_if false e rest h = absurd cc

-- The RA, the orders and the authorizations are those of the other server.
pub record Untouched {lib : AcmeLib} {ra : RaClient} (before s : Server lib ra) : Type 0 where
  pub same_ra : s.ra_state ≡ before.ra_state
  pub same_orders : s.session.orders ≡ before.stored.orders
  pub same_authorizations : s.session.authorizations ≡ before.stored.authorizations
  pub orders_kept : s.stored.orders ≡ before.stored.orders
  pub authorizations_kept : s.stored.authorizations ≡ before.stored.authorizations

module _ {lib : AcmeLib} {ra : RaClient} (before : Server lib ra) where
  Keeps-read : {A : Type 0} (f : AcmeDb → A) → Keeps (Untouched before) (read f)
  unfolding read
  Keeps-read f = record { at = λ s h. h }

  Keeps-commit : Keeps (Untouched before) commit
  unfolding commit
  Keeps-commit = record {
    at = λ s h. record {
      same_ra = h.same_ra;
      same_orders = h.same_orders;
      same_authorizations = h.same_authorizations;
      orders_kept = h.same_orders;
      authorizations_kept = h.same_authorizations;
    };
  }

  Keeps-delete_nonce : (n : String) → Keeps (Untouched before) (write (delete_nonce n))
  unfolding write delete_nonce
  Keeps-delete_nonce n = record {
    at = λ s h. record {
      same_ra = h.same_ra;
      same_orders = h.same_orders;
      same_authorizations = h.same_authorizations;
      orders_kept = h.orders_kept;
      authorizations_kept = h.authorizations_kept;
    };
  }

  Keeps-consume_header : (protected : Json) → Keeps (Untouched before) (consume_header protected)
  unfolding consume_header consume_nonce
  Keeps-consume_header protected =
      search (keeps_rules, Keeps-read, Keeps-commit, Keeps-delete_nonce) depth 16

  Keeps-get_account : (protected : Json) → Keeps (Untouched before) (get_account_from_kid protected)
  unfolding get_account_from_kid
  Keeps-get_account protected = search (keeps_rules, Keeps-read) depth 12

  -- a look-up in the session is a look-up in the tables before
  Fails-after_orders :
      {A B : Type 0} (f : AcmeDb → A) (g : List AcmeOrder → A) (rest : A → Exec (Server lib ra) B)
      → ((db : AcmeDb) → f db ≡ g db.orders)
      → Fails (Untouched before) (rest (g before.stored.orders))
      → Fails (Untouched before) (read f >>= rest)
  unfolding ◌>>=◌ read
  Fails-after_orders f g rest same k = record {
    fails = λ s h.
        let e : f s.session ≡ g before.stored.orders = rw (same s.session) (ap g h.same_orders) in
        rw e (k.fails s h);
  }

  Fails-after_authorizations :
      {A B : Type 0} (f : AcmeDb → A) (g : List AcmeAuthorization → A)
      (rest : A → Exec (Server lib ra) B)
      → ((db : AcmeDb) → f db ≡ g db.authorizations)
      → Fails (Untouched before) (rest (g before.stored.authorizations))
      → Fails (Untouched before) (read f >>= rest)
  unfolding ◌>>=◌ read
  Fails-after_authorizations f g rest same k = record {
    fails = λ s h.
        let e : f s.session ≡ g before.stored.authorizations =
          rw (same s.session) (ap g h.same_authorizations) in
        rw e (k.fails s h);
  }

found_id :
    (id : ℕ) (rows : List AcmeOrder) (o : AcmeOrder)
    → find_first (λ r. eqb r.id id) rows ≡ some o
    → o.id ≡ id
found_id id rows o e =
    let passed : eqb o.id id ≡ true = find_first-passes (λ r. eqb r.id id) rows o e in
    ground (arith, eqb_iff o.id id, passed)

abbrev of_order : ℕ → List AcmeAuthorization → List AcmeAuthorization
of_order id rows = select (λ a. eqb a.order_id id) rows

module _ {lib : AcmeLib} {ra : RaClient} (before : Server lib ra) (order_id : ℕ)
    (open_ : all_valid (of_order order_id before.stored.authorizations) ≡ false) where
  not_all :
      (o : AcmeOrder)
      → find_first (λ r. eqb r.id order_id) before.stored.orders ≡ some o
      → not (all_valid (of_order o.id before.stored.authorizations)) ≡ true
  not_all o e = rw (found_id order_id before.stored.orders o e) (rw open_ refl)

  refused_there : (body : Bytes) → Fails (Untouched before) (finalize order_id body)
  unfolding finalize order_with_id authorizations_of
  refused_there body = Fails-bind _ _ (search keeps_rules) λ flat.
      Fails-bind _ _ (search keeps_rules) λ protected.
        Fails-bind _ _ (Keeps-consume_header before protected) λ _.
          Fails-after_orders before _ (λ rows. find_first (λ r. eqb r.id order_id) rows) _
            (λ db. refl)
            (Fails-after_or_raise _ _ _ λ order e.
              Fails-bind _ _ (Keeps-get_account before protected) λ account.
                Fails-bind _ _ (search keeps_rules) λ jwk.
                  Fails-bind _ _ (search keeps_rules) λ payload.
                    Fails-after_authorizations before _ (of_order order.id) _ (λ db. refl)
                      (Fails-raise_if _ _ _ (not_all order e)))

one_left :
    (id : ℕ) (rows : List AcmeAuthorization)
    → any (λ a. eqb a.order_id id && not (a.status == "valid")) rows ≡ true
    → all_valid (of_order id rows) ≡ false
unfolding all_valid
one_left id [] h = absurd cc
one_left id (a ∷ rows) h = ground (arith, one_left id rows)

-- While an order has an authorization that is not valid, the order's end is refused with an error: the
-- RA is asked nothing, and the orders and the authorizations stay as they are.
pub serve-post_finalize-Untouched :
    (lib : AcmeLib) (ra : RaClient) (s : Server lib ra) (order_id : ℕ) (body : Bytes)
    → any (λ a. eqb a.order_id order_id && not (a.status == "valid")) s.stored.authorizations ≡ true
    → ((serve (post_finalize order_id body) s).1.ra_state ≡ s.ra_state)
      × ((serve (post_finalize order_id body) s).1.stored.orders ≡ s.stored.orders)
      × ((serve (post_finalize order_id body) s).1.stored.authorizations ≡ s.stored.authorizations)
      × (e : Error) × ((serve (post_finalize order_id body) s).0 ≡ err e)
unfolding serve handle opened
serve-post_finalize-Untouched lib ra s order_id body one =
    let open_ = one_left order_id s.stored.authorizations one in
    let (u, e, failed) = (refused_there s order_id open_ body).fails (opened s) (record {
      same_ra = refl;
      same_orders = refl;
      same_authorizations = refl;
      orders_kept = refl;
      authorizations_kept = refl;
    }) in
    (u.same_ra, u.orders_kept, u.authorizations_kept, e, failed)
