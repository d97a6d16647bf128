-- ===== src/Ca/History.antt =====
-- services/ca/app/api.py: what every history of requests keeps, whoever sends them and whatever they
-- hold, with the commits and rollbacks between them.
use pkica.Base.{String, ◌≡◌, true, none, List, [], ◌∷◌}
use pkica.Effect.{Result, ok, err}
use pkica.Effect.Keeps.{Keeps, keeps_rules}
use pkica.Audit.{verify_chain}
use pkica.Audit.Chain.{IsCodec}
use pkica.Auth.{Headers}
use pkica.Models.{Db, rolled_back}
use pkica.Platform.{Platform, World}
use pkica.Platform.Keeps.{OnDb, db_rules}
use pkica.Ca.Api.{Request, Reply, create_root, handle, commit_or_rollback, serve, serve_all}
use pkica.Ca.Audited.{
  IsAudited, create_root_ca-Audited, create_intermediate_ca-Audited, issue_certificate-Audited,
  revoke_certificate-Audited, generate_crl-Audited, sign_ocsp_response-Audited,
}
use pkica.Ca.Validity.{IsValid}
use pkica.Ca.Expiry.{
  create_root_ca-Valid, create_intermediate_ca-Valid, issue_certificate-Valid,
  revoke_certificate-Valid, generate_crl-Valid, sign_ocsp_response-Valid,
}

module _ (p : Platform) (secret : String) {Q : Db → Type 0} where
  committed :
      (w : World p) (r : Result Reply × World p)
      → ((old new : Db) → Q old → Q (rolled_back old new))
      → OnDb Q w
      → OnDb Q r.1
      → OnDb Q (commit_or_rollback p secret w r).1
  unfolding commit_or_rollback
  committed w (ok reply, w') back h k = k
  committed w (err e, w') back h k = record { holds = back w.db w'.db h.holds }

  -- a property that every handler keeps, and that a rollback keeps, holds after every history
  serve_all-Keeps :
      ((h : Headers) (r : Request) → Keeps (OnDb Q) (handle p secret h r))
      → ((old new : Db) → Q old → Q (rolled_back old new))
      → (rs : List (Headers × Request)) (w : World p) → OnDb Q w
      → OnDb Q (serve_all p secret rs w)
  unfolding serve_all serve
  serve_all-Keeps step back [] w h = h
  serve_all-Keeps step back ((a, r) ∷ rs) w h =
      serve_all-Keeps step back rs (commit_or_rollback p secret w (handle p secret a r w)).1
        (committed w (handle p secret a r w) back h ((step a r).at w h))

ruleset audited_service = (
  keeps_rules, db_rules, create_root_ca-Audited, create_intermediate_ca-Audited,
  issue_certificate-Audited, revoke_certificate-Audited, generate_crl-Audited,
  sign_ocsp_response-Audited,
)

ruleset valid_service = (
  keeps_rules, db_rules, create_root_ca-Valid, create_intermediate_ca-Valid,
  issue_certificate-Valid, revoke_certificate-Valid, generate_crl-Valid, sign_ocsp_response-Valid,
)

module _ (p : Platform) (secret : String) where
  handle-Audited :
      IsCodec p.audit
      → (h : Headers) (r : Request) → Keeps (OnDb (IsAudited p.audit secret)) (handle p secret h r)
  unfolding handle
  handle-Audited codec h (create_root name subject key_algorithm days) =
      search audited_service depth 12
  handle-Audited codec h _ = search audited_service depth 12

  handle-Valid : (h : Headers) (r : Request) → Keeps (OnDb IsValid) (handle p secret h r)
  unfolding handle
  handle-Valid h (create_root name subject key_algorithm days) = search valid_service depth 12
  handle-Valid h _ = search valid_service depth 12

  -- After any requests to the CA, from any peers and with any outcome, an audit log that verified
  -- before still verifies.
  pub serve_all-IsAudited :
      IsCodec p.audit
      → (rs : List (Headers × Request)) (w : World p)
      → verify_chain p.audit secret w.db.audit_log.rows ≡ ok (true, none)
      → verify_chain p.audit secret (serve_all p secret rs w).db.audit_log.rows ≡ ok (true, none)
  serve_all-IsAudited codec rs w h =
      (serve_all-Keeps p secret (handle-Audited codec) (λ old new k. unfold rolled_back in k) rs w
        (record { holds = h })).holds

  -- After any requests to the CA, from tables where it was so before: identifiers of authorities are
  -- distinct, every certificate's issuer exists, and neither a certificate nor an intermediate
  -- authority ends after its issuer.
  pub serve_all-IsValid :
      (rs : List (Headers × Request)) (w : World p)
      → IsValid w.db
      → IsValid (serve_all p secret rs w).db
  serve_all-IsValid rs w h =
      (serve_all-Keeps p secret handle-Valid
        (λ old new k.
          unfold rolled_back in
          record { distinct = k.distinct; nested = k.nested; covered = k.covered })
        rs w (record { holds = h })).holds
