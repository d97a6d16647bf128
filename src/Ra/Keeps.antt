-- ===== src/Ra/Keeps.antt =====
-- Invariants of a session of the RA: of its tables, and of the CA behind it.
use pkica.Effect.{Result, ok, err, Exec}
use pkica.Effect.Keeps.{Keeps}
use pkica.Models.{Db, rolled_back}
use pkica.Platform.{Platform, World}
use pkica.Platform.Keeps.{OnDb}
use pkica.Ra.Client.{CaClient, Site, locally, remotely, attempt}
use pkica.Ra.Api.{Request, Reply, handle, commit_or_rollback, serve, serve_all}
use pkica.Base.{String, List, [], ◌∷◌}

module _ {p : Platform} {c : CaClient} where
  -- the session's tables have the property
  pub record OnTables (Q : Db → Type 0) (s : Site p c) : Type 0 where
    pub tables : OnDb Q s.local

  -- and the CA's state has another
  pub record OnBoth (Q : Db → Type 0) (R : c.Remote → Type 0) (s : Site p c) : Type 0 where
    pub tables : OnDb Q s.local
    pub ca : R s.remote

module _ {p : Platform} {c : CaClient} {A : Type 0} {Q : Db → Type 0} where
  pub Keeps-locally :
      (m : Exec (World p) A) → Keeps (OnDb Q) m → Keeps (OnTables {p = p} {c = c} Q) (locally m)
  unfolding locally
  Keeps-locally m k = record { at = λ s h. record { tables = k.at s.local h.tables } }

  pub Keeps-remotely : (m : Exec c.Remote A) → Keeps (OnTables {p = p} {c = c} Q) (remotely m)
  unfolding remotely
  Keeps-remotely m = record { at = λ s h. record { tables = h.tables } }

  pub Keeps-both_locally :
      {R : c.Remote → Type 0} (m : Exec (World p) A)
      → Keeps (OnDb Q) m
      → Keeps (OnBoth {p = p} {c = c} Q R) (locally m)
  unfolding locally
  Keeps-both_locally m k = record {
    at = λ s h. record { tables = k.at s.local h.tables; ca = h.ca };
  }

pub Keeps-attempt : {S A : Type 0} {P : S → Type 0} (m : Exec S A) → Keeps P m → Keeps P (attempt m)
unfolding attempt
Keeps-attempt m k = record { at = k.at }

pub ruleset site_rules = (Keeps-locally, Keeps-remotely, Keeps-attempt)

module _ (p : Platform) (c : CaClient) (secret : String) {P : Site p c → Type 0} where
  -- What every handler keeps, and a rollback restores, holds after every history.
  pub serve_all-Keeps :
      ((r : Request) (s : Site p c) → P s → P (serve p c secret r s).1)
      → (rs : List Request) (s : Site p c) → P s
      → P (serve_all p c secret rs s)
  unfolding serve_all
  serve_all-Keeps step [] s h = h
  serve_all-Keeps step (r ∷ rs) s h = serve_all-Keeps step rs (serve p c secret r s).1 (step r s h)

module _ (p : Platform) (c : CaClient) (secret : String) {Q : Db → Type 0} where
  committed :
      (s : Site p c) (r : Result Reply × Site p c)
      → ((old new : Db) → Q old → Q (rolled_back old new))
      → OnTables Q s
      → OnTables Q r.1
      → OnTables Q (commit_or_rollback p c secret s r).1
  unfolding commit_or_rollback
  committed s (ok reply, s') back h k = k
  committed s (err e, s') back h k = record {
    tables = record { holds = back s.local.db s'.local.db h.tables.holds };
  }

  -- A session commits what its handler kept, or takes it back.
  pub serve-Keeps :
      ((r : Request) → Keeps (OnTables Q) (handle p c secret r))
      → ((old new : Db) → Q old → Q (rolled_back old new))
      → (r : Request) (s : Site p c) → OnTables Q s
      → OnTables Q (serve p c secret r s).1
  unfolding serve
  serve-Keeps step back r s h = committed s (handle p c secret r s) back h ((step r).at s h)
