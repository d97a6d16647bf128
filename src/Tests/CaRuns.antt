-- ===== src/Tests/CaRuns.antt =====
-- The theorems on the CA at concrete inputs.
use pkica.Base.{arith, some, ◌↔◌, false, ◌≡◌, refl, true, none, List, [], ◌∷◌}
use pkica.Base.Int.{pos}
use pkica.Effect.{ok}
use pkica.Auth.{Headers}
use pkica.Text.{text_length}
use pkica.Audit.{verify_chain}
use pkica.Platform.{World}
use pkica.Ca.Api.{Request, create_root, create_intermediate, issue, revoke, crl, serve_all}
use pkica.Ca.Validity.{IsValid}
use pkica.Ca.History.{serve_all-IsAudited, serve_all-IsValid}
use pkica.Text.{upper_equals}
use pkica.Models.{Db, Certificate, certificate_with_serial}
use pkica.Ca.Api.{admin_peers, signing_peers, issuance_peers}
use pkica.Ca.Policy.{enforce_profile}
use pkica.Ca.Permitted.{IsPermitted, enforce_profile-iff-IsPermitted}
use pkica.Ca.Gate.{serve_all-Refused}
use pkica.Ca.Issue.{revoked_row, revoke_certificate}
use pkica.Crypto.{reason_or_unspecified}
use pkica.Text.Hex.{int_hex, format_hex, hex_from, hex_digit}
use pkica.Ca.Status.{status_of, serial_value, crl_items, revoked_by}
use pkica.Ca.Listed.{Stands, crl_items-Stands}
use pkica.Ca.Revocation.{revoke_certificate-status_of}
use pkica.Tests.World.{server_profile, test_db, test_audit-IsCodec, test_platform, test_world, peer}

-- A root, an authority below it, a certificate for ten thousand days, its revocation and a list.
abbrev pub ca_requests : List (Headers × Request)
ca_requests =
    (
      peer "pkica-admin-cli",
      create_root "root" (("common_name", "Root") ∷ []) "RSA_4096" (pos 7300),
    )
    ∷ (
      peer "pkica-admin-cli",
      create_intermediate "issuing" "root" (("common_name", "Issuing") ∷ []) "RSA_4096" (pos 9000)
          (pos 0),
    )
    ∷ (peer "ra", issue "issuing" "tls-server" "csr" ("dns:host.example" ∷ []) (pos 10000) "alice")
    ∷ (peer "ra", revoke "6" "key_compromise" "alice")
    ∷ (peer "crl", crl "issuing")
    ∷ []

serve_all-IsAudited_example :
    verify_chain test_platform.audit "secret"
      (serve_all test_platform "secret" ca_requests test_world).db.audit_log.rows
    ≡ ok (true, none)
serve_all-IsAudited_example =
    serve_all-IsAudited test_platform "secret" test_audit-IsCodec ca_requests test_world
      (unfold verify_chain in refl)

serve_all-IsValid_example : IsValid (serve_all test_platform "secret" ca_requests test_world).db
serve_all-IsValid_example =
    serve_all-IsValid test_platform "secret" ca_requests test_world
      (record { distinct = tt; nested = tt; covered = tt })

-- Neither an administrator's request nor a responder's is taken from the RA.
abbrev refused_requests : List (Headers × Request)
refused_requests =
    (peer "ra", create_root "rogue" (("common_name", "Rogue") ∷ []) "RSA_4096" (pos 7300))
    ∷ (peer "ra", crl "issuing")
    ∷ (peer "ocsp", revoke "6" "key_compromise" "ocsp")
    ∷ []

serve_all-Refused_example :
    serve_all test_platform "secret" refused_requests test_world ≡ test_world
serve_all-Refused_example =
    serve_all-Refused test_platform "secret" refused_requests test_world
      (unfold upper_equals admin_peers signing_peers issuance_peers in (refl, (refl, (refl, tt))))

-- One name that the profile allows, and a key that it lists.
enforce_profile-iff-IsPermitted_example :
    (enforce_profile test_platform server_profile "key" ("dns:host.example" ∷ []) ≡ ok tt)
    ↔ IsPermitted test_platform server_profile "key" ("dns:host.example" ∷ [])
enforce_profile-iff-IsPermitted_example =
    enforce_profile-iff-IsPermitted test_platform server_profile "key" ("dns:host.example" ∷ [])

enforce_profile_accepts :
    enforce_profile test_platform server_profile "key" ("dns:host.example" ∷ []) ≡ ok tt
unfolding enforce_profile
enforce_profile_accepts = refl

abbrev pub good_certificate : Certificate
good_certificate = record {
  id = 3;
  request_id = none;
  issuing_ca_id = 0;
  serial_number = "1f";
  subject_dn = "Common Name: host.example";
  sans = "dns:host.example";
  certificate_pem = "-----BEGIN CERTIFICATE-----";
  not_before = pos 1;
  not_after = pos 2;
  revoked = false;
  revoked_at = none;
  revocation_reason = none;
}

abbrev one_certificate : World test_platform
one_certificate = record test_world { db = record test_db { certificates = good_certificate ∷ [] } }

revoke_certificate-status_of_example :
    ((revoke_certificate test_platform "secret" "1f" "superseded" "alice" one_certificate).0
      ≡ ok (revoked_row "superseded" (test_platform.now_at 0) good_certificate))
    × (status_of (
          certificate_with_serial "1f"
            (revoke_certificate test_platform "secret" "1f" "superseded" "alice"
              one_certificate).1.db)
        ≡ "revoked")
revoke_certificate-status_of_example =
    revoke_certificate-status_of test_platform "secret" "1f" "superseded" "alice" one_certificate
      good_certificate refl (unfold text_length in omega arith)

abbrev revoked_certificate : Certificate
revoked_certificate = revoked_row "superseded" (pos 9) good_certificate

abbrev crl_db : Db
crl_db = record test_db { certificates = good_certificate ∷ revoked_certificate ∷ [] }

crl_items-Stands_example :
    Stands (pos 31, some (pos 9), "superseded") ((pos 31, some (pos 9), "superseded") ∷ [])
unfolding revoked_by crl_items serial_value int_hex format_hex hex_from hex_digit
    reason_or_unspecified
crl_items-Stands_example =
    crl_items-Stands crl_db (good_certificate ∷ []) [] revoked_certificate 31
      ((pos 31, some (pos 9), "superseded") ∷ []) refl refl refl refl
