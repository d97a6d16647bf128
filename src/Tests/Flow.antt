-- ===== src/Tests/Flow.antt =====
-- A run of the CA's routes: the requests of `Tests/CaRuns.antt` are answered one after the other.
use pkica.Base.{◌≡◌, refl, List, [], ◌∷◌, map}
use pkica.Base.Int.{ℤ, pos}
use pkica.Ca.Api.{serve_all}
use pkica.Tests.World.{test_platform, test_world}
use pkica.Tests.CaRuns.{ca_requests}

-- The ends of the certificates behind the run.
abbrev issued_ends : List ℤ
issued_ends =
    map (λ c. c.not_after) (serve_all test_platform "secret" ca_requests test_world).db.certificates

-- One certificate is issued, for the ninety days of the profile and not for the days asked for.
issued_ends_run : issued_ends ≡ pos 1775001600000010 ∷ []
unfolding pkica.Effect.◌>>=◌ pkica.Base.Int.min_ℤ pkica.Auth.require_mtls_peer
    pkica.Models.insert_ca pkica.Models.insert_certificate pkica.Models.ca_named
    pkica.Models.profile_named pkica.Models.certificate_with_serial pkica.Models.rolled_back
    pkica.Platform.now pkica.Platform.uuid4 pkica.Platform.urandom pkica.Platform.with_kms
    pkica.Platform.with_db pkica.Platform.read_db pkica.Kms.value pkica.Text.Hex.format_hex
    pkica.Text.HexBytes.hex_of_bytes pkica.Crypto.default_algorithm_for_public_key
    pkica.Crypto.name_from_attributes pkica.Crypto.build_extensions pkica.Crypto.from_bytes
    pkica.Crypto.sign_certificate pkica.Crypto.parse_csr pkica.Crypto.generate_serial_number
    pkica.Crypto.revoked_entries pkica.Crypto.build_and_sign_crl pkica.Ca.Subjects.name_from_csr
    pkica.Ca.Policy.enforce_profile pkica.Ca.Session.add_days pkica.Ca.Session.add_hours
    pkica.Ca.Session.fromhex pkica.Ca.Session.algorithm_named pkica.Ca.Session.get_ca
    pkica.Ca.Session.audit_record pkica.Ca.Lifecycle.create_root_ca
    pkica.Ca.Lifecycle.create_intermediate_ca pkica.Ca.Issue.issue_certificate
    pkica.Ca.Issue.revoke_certificate pkica.Ca.Status.crl_items pkica.Ca.Status.revoked_by
    pkica.Ca.Status.bump_crl_number pkica.Ca.Status.generate_crl pkica.Ca.Api.issuance_peers
    pkica.Ca.Api.signing_peers pkica.Ca.Api.admin_peers pkica.Ca.Api.handle
    pkica.Ca.Api.commit_or_rollback pkica.Ca.Api.serve pkica.Ca.Api.serve_all
issued_ends_run = refl
