-- ===== src/Acme/Server.antt =====
-- What services/acme calls outside the repository, the state of a request, and `_new_nonce` and
-- `_consume_nonce` of services/acme/app/main.py. A session works on its own copy of the tables, and a
-- commit stores it.
use pkica.Base.{ℕ, ◌+◌, String, member, not}
use pkica.Json.{Json}
use pkica.Asn1.{Bytes}
use pkica.Effect.{Error, Result, ok, http_exception, Exec, pure, raise_if, ◌>>=◌, ◌>>◌}
use pkica.Ra.Http.{RaClient}
use pkica.Acme.Tables.{AcmeDb, insert_nonce, delete_nonce}

-- The outcome of json.loads: a value, a JSONDecodeError, or a UnicodeDecodeError of its bytes.
pub data Loaded : Type 0 where
  loaded : Json → Loaded
  json_decode_error unicode_decode_error : String → Loaded

-- json, base64, hashlib, uuid, secrets, python-jose and httpx.get; secrets and uuid4 answer by the
-- number of the call.
pub record AcmeLib : Type 1 where
  pub loads : Bytes → Loaded
  pub loads_text : String → Loaded
  pub dumps : Json → String
  -- json.dumps(j, separators=(",", ":"), sort_keys=True)
  pub dumps_canonical : Json → String
  -- str(j), for a value that is no text
  pub str_other : Json → String
  pub urlsafe_b64decode : String → Result Bytes
  pub urlsafe_b64encode : Bytes → String
  -- base64.encodebytes(der).decode()
  pub encodebytes : Bytes → String
  -- hashlib.sha256(s.encode()).digest()
  pub sha256_of : String → Bytes
  -- jose_jws.verify(compact, key, algorithms=[alg])
  pub jws_verify : String → Json → Json → Result (Unit {0})
  pub parse_uuid : String → Result ℕ
  pub uuid_text : ℕ → String
  pub uuid4_at : ℕ → ℕ
  pub token_urlsafe : ℕ → ℕ → String
  -- the network, and httpx.get(url, timeout=10.0, follow_redirects=True): the status and the text
  pub Net : Type 0
  pub http_get : String → Exec Net (ℕ × String)

pub record Server (lib : AcmeLib) (ra : RaClient) : Type 0 where
  pub stored : AcmeDb
  pub session : AcmeDb
  pub ra_state : ra.Remote
  pub net : lib.Net
  pub calls : ℕ

module _ {lib : AcmeLib} {ra : RaClient} where
  unfoldable pub read : {A : Type 0} → (AcmeDb → A) → Exec (Server lib ra) A
  read f s = (ok (f s.session), s)

  -- a statement that is flushed
  unfoldable pub write : (AcmeDb → Result AcmeDb) → Exec (Server lib ra) (Unit {0})
  write f s = elim (f s.session) [
    | ok db ↦ (ok tt, record s { session = db })
    | Result.err e ↦ (Result.err e, s)
  ]

  -- session.commit()
  unfoldable pub commit : Exec (Server lib ra) (Unit {0})
  commit s = (ok tt, record s { stored = s.session })

  unfoldable pub token : ℕ → Exec (Server lib ra) String
  token n s = (ok (lib.token_urlsafe n s.calls), record s { calls = s.calls + 1 })

  unfoldable pub uuid4 : Exec (Server lib ra) ℕ
  uuid4 s = (ok (lib.uuid4_at s.calls), record s { calls = s.calls + 1 })

  unfoldable pub ask_ra : {A : Type 0} → Exec ra.Remote A → Exec (Server lib ra) A
  ask_ra m s = let (r, state) = m s.ra_state in (r, record s { ra_state = state })

  -- httpx.get in a `try`, with its exception as a value
  unfoldable pub fetch : String → Exec (Server lib ra) (Result (ℕ × String))
  fetch url s = let (r, net) = lib.http_get url s.net in (ok r, record s { net = net })

-- The detail of the refusal of a nonce: its type and its text.
abbrev pub bad_nonce : Error
bad_nonce = http_exception 400 "urn:ietf:params:acme:error:badNonce invalid or reused nonce"

module _ {lib : AcmeLib} {ra : RaClient} where
  -- _new_nonce
  unfoldable pub new_nonce : Exec (Server lib ra) String
  new_nonce = do nonce ← token 24; write (insert_nonce nonce); commit; pure nonce

  -- _consume_nonce
  unfoldable pub consume_nonce : String → Exec (Server lib ra) (Unit {0})
  consume_nonce nonce = do
    present ← read (λ db. member nonce db.nonces)
    raise_if (not present) bad_nonce
    write (delete_nonce nonce)
    commit
