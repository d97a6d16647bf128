-- ===== src/Acme/Replay.antt =====
-- services/acme/app/main.py: a nonce that has been presented. The requests that `_consume_nonce` guards
-- are those to /new-account, /new-order, /chall and /finalize.
use pkica.Base.{
  ℕ, ◌+◌, ◌<◌, String, ◌≡◌, ◌∙◌, refl, sym, true, false, not, List, [], ◌∷◌, ◌==◌, arith, eq_iff,
  Bool-cases, inl, inr, member, select, All,
}
use pkica.Base.Lists.{any-append, any-select, any-select-not, All-append, All-implies, All-select}
use pkica.Json.{Json, item, as_text}
use pkica.Asn1.{Bytes}
use pkica.Effect.{Result, ok, err, and_then, Exec, lift, raise_if, ◌>>=◌, ◌>>◌}
use pkica.Effect.Keeps.{Keeps, and_then_returned}
use pkica.Ra.Http.{RaClient}
use pkica.Acme.Tables.{delete_nonce}
use pkica.Acme.Server.{AcmeLib, Server, bad_nonce, read, write, commit, consume_nonce}
use pkica.Acme.Jws.{parse_jws, protected_header}
use pkica.Acme.Accounts.{consume_header, new_account}
use pkica.Acme.Orders.{new_order, respond_challenge}
use pkica.Acme.Finalize.{finalize}
use pkica.Acme.Api.{
  Request, post_account, post_order, post_challenge, post_finalize, handle, opened, serve,
  serve_all,
}
use pkica.Acme.Nonces.{IsStable, OnNonces, route_rules, serve_all-Kept}

-- Tokens of different calls differ: what `secrets` is documented to make practically certain.
pub record TokensDiffer (lib : AcmeLib) : Type 0 where
  pub differ : (i j : ℕ) → lib.token_urlsafe 24 i ≡ lib.token_urlsafe 24 j → i ≡ j

module _ (lib : AcmeLib) where
  -- The text was drawn as a token.
  abbrev pub Drawn : ℕ → String → Type 0
  Drawn calls n = (k : ℕ) × (lib.token_urlsafe 24 k ≡ n) × (k < calls)

  abbrev pub Known : List String → ℕ → Type 0
  Known ns calls = All (Drawn calls) ns

  abbrev pub Spent : String → List String → ℕ → Type 0
  Spent n ns calls = (member n ns ≡ false) × Drawn calls n

  one_call_later : (calls : ℕ) (n : String) → Drawn calls n → Drawn (calls + 1) n
  one_call_later calls n (k, e, lt) = (k, e, omega arith)

  Known-IsStable : IsStable lib Known
  Known-IsStable = record {
    drawn = λ ns calls h. All-implies (Drawn calls) (Drawn (calls + 1)) ns (one_call_later calls) h;
    added = λ ns calls h.
        All-append (Drawn (calls + 1)) ns (lib.token_urlsafe 24 calls ∷ [])
          (All-implies (Drawn calls) (Drawn (calls + 1)) ns (one_call_later calls) h)
          ((calls, refl, omega arith), tt);
    deleted = λ ns calls m h. All-select (Drawn calls) (λ n. not (n == m)) ns h;
  }

  new_token_differs :
      TokensDiffer lib
      → (n : String) (calls : ℕ) → Drawn calls n
      → (lib.token_urlsafe 24 calls == n) ≡ false
  new_token_differs t n calls (k, e, lt) = elim (Bool-cases (lib.token_urlsafe 24 calls == n)) [
    | inl same ↦
        let again : lib.token_urlsafe 24 calls ≡ lib.token_urlsafe 24 k =
          ground (arith, eq_iff (lib.token_urlsafe 24 calls) n, same) ∙ sym e in
        absurd (omega (arith, t.differ calls k again))
    | inr other ↦ other
  ]

  Spent-IsStable : TokensDiffer lib → (n : String) → IsStable lib (Spent n)
  Spent-IsStable t n = record {
    drawn = λ ns calls h. (h.0, one_call_later calls n h.1);
    added = λ ns calls h. (
      ground (
        arith,
        any-append (λ x. x == n) ns (lib.token_urlsafe 24 calls ∷ []),
        new_token_differs t n calls h.1,
        h.0,
      ),
      one_call_later calls n h.1,
    );
    deleted = λ ns calls m h. (any-select (λ x. x == n) (λ x. not (x == m)) ns h.0, h.1);
  }

  -- The nonce that a posted body presents.
  unfoldable pub presented : Bytes → Result String
  presented body = and_then (parse_jws lib body) λ flat.
      and_then (protected_header lib flat) λ protected. and_then (item "nonce" protected) as_text

-- The request is to a route that `_consume_nonce` guards, with this body.
abbrev pub Posts : Bytes → Request → Type 0
Posts body (post_account b) = b ≡ body
Posts body (post_order b) = b ≡ body
Posts body (post_challenge _ b) = b ≡ body
Posts body (post_finalize _ b) = b ≡ body
Posts body _ = ⊥

token_of_member :
    (lib : AcmeLib) (n : String) (ns : List String) (calls : ℕ)
    → member n ns ≡ true
    → Known lib ns calls
    → Drawn lib calls n
token_of_member lib n [] calls h k = absurd cc
token_of_member lib n (x ∷ ns) calls h k = elim (Bool-cases (x == n)) [
  | inl same ↦ let e : x ≡ n = ground (arith, eq_iff x n, same) in (k.0.0, k.0.1 ∙ e, k.0.2)
  | inr other ↦ token_of_member lib n ns calls (ground (arith, other, h)) k.1
]

-- The nonce is deleted, and the deletion committed.
abbrev spent : {lib : AcmeLib} {ra : RaClient} → String → Server lib ra → Server lib ra
spent n s =
    let db = record s.session { nonces = select (λ m. not (m == n)) s.session.nonces } in
    record s { session = db; stored = db }

module _ {lib : AcmeLib} {ra : RaClient} {A : Type 0} (body : Bytes) (n : String)
    (k : Json → Json → Exec (Server lib ra) A) where
  -- the first steps of the routes, and what follows them
  abbrev signed : Exec (Server lib ra) A
  signed = do
    flat ← lift (parse_jws lib body)
    protected ← lift (protected_header lib flat)
    consume_header protected
    k flat protected

  refused :
      (s : Server lib ra) (flat protected : Json)
      → parse_jws lib body ≡ ok flat
      → protected_header lib flat ≡ ok protected
      → and_then (item "nonce" protected) as_text ≡ ok n
      → member n s.session.nonces ≡ false
      → signed s ≡ (err bad_nonce, s)
  unfolding ◌>>=◌ lift consume_header consume_nonce read raise_if
  refused s flat protected f p given absent = rw f (rw p (rw given (rw absent refl)))

  accepted :
      (s : Server lib ra) (flat protected : Json)
      → parse_jws lib body ≡ ok flat
      → protected_header lib flat ≡ ok protected
      → and_then (item "nonce" protected) as_text ≡ ok n
      → member n s.session.nonces ≡ true
      → signed s ≡ k flat protected (spent n s)
  unfolding ◌>>=◌ lift consume_header consume_nonce read raise_if write delete_nonce commit
  accepted s flat protected f p given present = rw f (rw p (rw given (rw present refl)))

  -- a body that presents a nonce that is not stored
  signed-refused :
      (s : Server lib ra)
      → presented lib body ≡ ok n
      → member n s.session.nonces ≡ false
      → signed s ≡ (err bad_nonce, s)
  unfolding presented
  signed-refused s h absent =
      let (flat, f, h') = and_then_returned _ _ h in
      let (protected, p, given) = and_then_returned _ _ h' in
      refused s flat protected f p given absent

  -- a body that presents a nonce that is stored: what is left of the route, behind its deletion
  signed-accepted :
      (s : Server lib ra)
      → presented lib body ≡ ok n
      → member n s.session.nonces ≡ true
      → (flat : Json) × (protected : Json) × (signed s ≡ k flat protected (spent n s))
  unfolding presented
  signed-accepted s h present =
      let (flat, f, h') = and_then_returned _ _ h in
      let (protected, p, given) = and_then_returned _ _ h' in
      (flat, protected, accepted s flat protected f p given present)

  start_Spent :
      (s : Server lib ra)
      → Known lib s.session.nonces s.calls
      → member n s.session.nonces ≡ true
      → OnNonces (Spent lib n) (spent n s)
  start_Spent s known present =
      let drawn = token_of_member lib n s.session.nonces s.calls present known in
      let gone = any-select-not (λ m. m == n) s.session.nonces in
      record { in_store = (gone, drawn); in_session = (gone, drawn) }

  signed-Spent :
      (s : Server lib ra)
      → presented lib body ≡ ok n
      → Known lib s.session.nonces s.calls
      → member n s.session.nonces ≡ true
      → ((flat protected : Json) → Keeps (OnNonces (Spent lib n)) (k flat protected))
      → OnNonces (Spent lib n) (signed s).1
  signed-Spent s h known present kept =
      let (flat, protected, e) = signed-accepted s h present in
      rw e ((kept flat protected).at (spent n s) (start_Spent s known present))

module _ {lib : AcmeLib} {ra : RaClient} (t : TokensDiffer lib) where
  -- the nonce is spent behind the request that presents it
  used :
      (body : Bytes) (n : String) (q : Request) (s : Server lib ra)
      → Posts body q
      → presented lib body ≡ ok n
      → Known lib s.session.nonces s.calls
      → member n s.session.nonces ≡ true
      → OnNonces (Spent lib n) (handle q s).1
  unfolding handle new_account new_order respond_challenge finalize
  used body n (post_account b) s e h known present =
      let stable = Spent-IsStable lib t n in
      signed-Spent b n _ s (rw e h) known present (λ flat protected. search route_rules depth 40)
  used body n (post_order b) s e h known present =
      let stable = Spent-IsStable lib t n in
      signed-Spent b n _ s (rw e h) known present (λ flat protected. search route_rules depth 40)
  used body n (post_challenge id b) s e h known present =
      let stable = Spent-IsStable lib t n in
      signed-Spent b n _ s (rw e h) known present (λ flat protected. search route_rules depth 40)
  used body n (post_finalize id b) s e h known present =
      let stable = Spent-IsStable lib t n in
      signed-Spent b n _ s (rw e h) known present (λ flat protected. search route_rules depth 40)
  used body n _ s e h known present = absurd e

module _ {lib : AcmeLib} {ra : RaClient} where
  unused :
      (body : Bytes) (n : String) (q : Request) (s : Server lib ra)
      → Posts body q
      → presented lib body ≡ ok n
      → member n s.session.nonces ≡ false
      → handle q s ≡ (err bad_nonce, s)
  unfolding handle new_account new_order respond_challenge finalize
  unused body n (post_account b) s e h absent = signed-refused b n _ s (rw e h) absent
  unused body n (post_order b) s e h absent = signed-refused b n _ s (rw e h) absent
  unused body n (post_challenge id b) s e h absent = signed-refused b n _ s (rw e h) absent
  unused body n (post_finalize id b) s e h absent = signed-refused b n _ s (rw e h) absent
  unused body n _ s e h absent = absurd e

-- A nonce is good for one request. When tokens differ, after any history from a server without nonces,
-- a request that presents a stored nonce spends it, whatever it is answered with: after any further
-- requests, a request that presents it again, to any route that nonces guard, is refused with the
-- error badNonce and does nothing else.
pub serve-bad_nonce :
    (lib : AcmeLib) (ra : RaClient)
    → TokensDiffer lib
    → (earlier later : List Request) (q q' : Request) (body body' : Bytes) (n : String)
      (s : Server lib ra)
    → s.stored.nonces ≡ []
    → Posts body q
    → Posts body' q'
    → presented lib body ≡ ok n
    → presented lib body' ≡ ok n
    → member n (serve_all earlier (opened s)).stored.nonces ≡ true
    → serve q' (serve_all later (serve q (serve_all earlier (opened s))).1)
      ≡ (err bad_nonce, opened (serve_all later (serve q (serve_all earlier (opened s))).1))
unfolding serve opened
serve-bad_nonce lib ra t earlier later q q' body body' n s empty e e' h h' present =
    let start : Known lib s.stored.nonces s.calls = rw empty tt in
    let known =
      serve_all-Kept (Known-IsStable lib) earlier (opened s)
        (record { in_store = start; in_session = start }) in
    let first = opened (serve_all earlier (opened s)) in
    let then_spent = used t body n q first e h known.in_store present in
    let at_last = serve_all-Kept (Spent-IsStable lib t n) later (handle q first).1 then_spent in
    unused body' n q' (opened (serve_all later (handle q first).1)) e' h' at_last.in_store.0
