-- ===== src/Responders/Cache.antt =====
-- `_CACHE` of services/ocsp/app/main.py and `_CRL_CACHE` of services/crl/app/main.py: a dictionary
-- from a key to the time and the content of the last answer, in a process that asks the CA. The
-- clock answers by the number of the call, in microseconds.
use pkica.Base.{ℕ, ◌+◌, String, Option, none, some, List, [], ◌∷◌, ◌==◌, if◌then◌else◌}
use pkica.Base.Int.{ℤ, ◌-ℤ◌, ltb_ℤ}
use pkica.Effect.{Result, ok, Exec, pure, lift, ◌>>=◌, ◌>>◌}
use pkica.Asn1.{Bytes}

abbrev pub Entries : Type 0
Entries = List (String × (ℤ × Bytes))

-- cache.get(key)
unfoldable pub get : String → Entries → Option (ℤ × Bytes)
get k [] = none
get k ((k', v) ∷ es) = let rest = get k es in if k' == k then some v else rest

-- cache[key] = value
unfoldable pub set : String → ℤ × Bytes → Entries → Entries
set k v [] = (k, v) ∷ []
set k v ((k', v') ∷ es) = let rest = set k v es in if k' == k then (k, v) ∷ es else (k', v') ∷ rest

-- `if cached and (now - cached[0]) < ttl: ... cached[1]`
unfoldable pub fresh : ℤ → ℤ → Option (ℤ × Bytes) → Option Bytes
unfolding ◌-ℤ◌
fresh ttl now none = none
fresh ttl now (some (at, content)) = if ltb_ℤ (now -ℤ at) ttl then some content else none

-- The process: its cache, the CA behind it, and the calls of its clock.
pub record Process (R : Type 0) : Type 0 where
  pub cache : Entries
  pub remote : R
  pub calls : ℕ

module _ {R : Type 0} (time_at : ℕ → ℤ) where
  -- time.time()
  unfoldable pub time : Exec (Process R) ℤ
  time s = (ok (time_at s.calls), record s { calls = s.calls + 1 })

module _ {R : Type 0} where
  unfoldable pub read_cache : {A : Type 0} → (Entries → A) → Exec (Process R) A
  read_cache f s = (ok (f s.cache), s)

  unfoldable pub write_cache : (Entries → Entries) → Exec (Process R) (Unit {0})
  write_cache f s = (ok tt, record s { cache = f s.cache })

  -- a call of the CA
  unfoldable pub ask : {A : Type 0} → Exec R A → Exec (Process R) A
  ask m s = let (r, remote) = m s.remote in (r, record s { remote = remote })

  -- A cached answer, or the CA's, which is stored with the time at which it was asked for.
  unfoldable pub or_ask : String → ℤ → Exec R Bytes → Option Bytes → Exec (Process R) Bytes
  or_ask key now fetch (some content) = pure content
  or_ask key now fetch none = do
    content ← ask fetch
    write_cache (set key (now, content))
    pure content

module _ {R Request Query : Type 0} (time_at : ℕ → ℤ) (ttl : ℤ) (parse : Request → Result Query)
    (key : Query → String) (fetch : Query → Exec R Bytes) where
  -- `_handle` of the OCSP responder, and `get_crl` of the CRL publisher
  unfoldable pub respond : Request → Exec (Process R) Bytes
  respond request = do
    query ← lift (parse request)
    cached ← read_cache (get (key query))
    now ← time time_at
    or_ask (key query) now (fetch query) (fresh ttl now cached)

  -- the process after a history of requests, the latest of them first
  unfoldable pub after : List Request → Process R → Process R
  after [] s = s
  after (r ∷ rs) s = (respond r (after rs s)).1
