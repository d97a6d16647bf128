-- ===== src/Ra/Committed.antt =====
-- services/ra/app/api.py and main.py: what the sessions of a history of requests commit.
use pkica.Base.{String, List}
use pkica.Effect.{Result, ok, err}
use pkica.Effect.Keeps.{keeps_rules}
use pkica.Effect.Commits.{Commits, IfReturned, Commits-Keeps, Commits-bind, Commits-map_error}
use pkica.Models.{rolled_back}
use pkica.Platform.{Platform}
use pkica.Platform.Keeps.{db_rules}
use pkica.Ra.Client.{CaClient, Site}
use pkica.Ra.Api.{Request, Reply, submit, handle, commit_or_rollback, serve, serve_all}
use pkica.Ra.Keeps.{OnTables, site_rules, serve_all-Keeps}
use pkica.Ra.Outcome.{
  AllSettled, submit_request-Settled, approve_request-Settled, reject_request-Settled,
  revoke-Settled,
}

ruleset settled_service = (
  Commits-bind, Commits-map_error, submit_request-Settled, approve_request-Settled, Commits-Keeps,
  reject_request-Settled, revoke-Settled, keeps_rules, db_rules, site_rules,
)

module _ (p : Platform) (c : CaClient) (secret : String) where
  handle-Settled : (r : Request) → Commits (OnTables AllSettled) (handle p c secret r)
  unfolding handle
  handle-Settled (submit claims profile csr_pem sans) = search settled_service depth 16
  handle-Settled _ = search settled_service depth 16

  committed :
      (s : Site p c) (r : Result Reply) (s' : Site p c)
      → OnTables AllSettled s
      → IfReturned (OnTables AllSettled) r s'
      → OnTables AllSettled (commit_or_rollback p c secret s (r, s')).1
  unfolding commit_or_rollback rolled_back
  committed s (ok reply) s' h k = k
  committed s (err e) s' h k = record { tables = record { holds = h.tables.holds } }

  serve-Settled :
      (r : Request) (s : Site p c)
      → OnTables AllSettled s
      → OnTables AllSettled (serve p c secret r s).1
  unfolding serve
  serve-Settled r s h =
      let (reply, s') = handle p c secret r s in committed s reply s' h ((handle-Settled r).at s h)

  -- After any requests to the RA, whatever the CA answers, from tables where it was so before: every
  -- stored request is pending without a certificate, issued with a serial number, a certificate and a
  -- time of decision, or rejected; none is stored as failed or approved.
  pub serve_all-AllSettled :
      (rs : List Request) (s : Site p c)
      → AllSettled s.local.db
      → AllSettled (serve_all p c secret rs s).local.db
  serve_all-AllSettled rs s h =
      (serve_all-Keeps p c secret serve-Settled rs s
        (record { tables = record { holds = h } })).tables.holds
