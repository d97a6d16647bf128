-- ===== src/Tests/SerialRuns.antt =====
-- The theorem on serial numbers at a concrete input.
use pkica.Base.{ℕ, ◌<◌, String, ◌≡◌, refl, some, List, [], ◌∷◌, arith, none, false}
use pkica.Base.Int.{pos}
use pkica.Effect.{Result, ok, err}
use pkica.Text.Hex.{int_hex}
use pkica.Models.{Certificate}
use pkica.Platform.{Platform, World}
use pkica.Ca.Issue.{issue_certificate}
use pkica.Ca.Serials.{GivesOctets, serial_bound, issue_certificate-serial_bound}
use pkica.Tests.World.{server_profile, test_db, test_platform}
use pkica.Tests.CaRuns.{good_certificate}
use pkica.Tests.RaRuns.{issuing_authority}

abbrev octet_platform : Platform
octet_platform = record test_platform {
  urandom_at =
      λ n k. 7 ∷ 0 ∷ 0 ∷ 0 ∷ 0 ∷ 0 ∷ 0 ∷ 0 ∷ 0 ∷ 0 ∷ 0 ∷ 0 ∷ 0 ∷ 0 ∷ 0 ∷ 0 ∷ 0 ∷ 0 ∷ 255 ∷ [];
}

octet_platform-GivesOctets : GivesOctets octet_platform
octet_platform-GivesOctets = record { octets = λ k. ground arith; length-urandom_at = λ k. refl }

abbrev issuing_world : World octet_platform
issuing_world = record {
  db = record test_db { certificate_authorities = issuing_authority ∷ [] };
  kms = 0;
  calls = 0;
}

abbrev outcome : Result Certificate
outcome =
    (issue_certificate octet_platform "secret" "issuing-ca-1" server_profile "csr"
      ("dns:host.example" ∷ []) (pos 30) "alice" issuing_world).0

abbrev certificate_or : Certificate → Result Certificate → Certificate
certificate_or c (ok d) = d
certificate_or c (err e) = c

abbrev issued_certificate : Certificate
issued_certificate = certificate_or good_certificate outcome

certificate_is_issued : outcome ≡ ok issued_certificate
unfolding pkica.Effect.◌>>=◌ pkica.Base.Int.min_ℤ pkica.Models.insert_certificate
    pkica.Models.ca_named pkica.Platform.now pkica.Platform.uuid4 pkica.Platform.urandom
    pkica.Platform.with_kms pkica.Platform.with_db pkica.Platform.read_db pkica.Text.Hex.format_hex
    pkica.Text.HexBytes.hex_of_bytes pkica.Crypto.default_algorithm_for_public_key
    pkica.Crypto.name_from_attributes pkica.Crypto.build_extensions pkica.Crypto.from_bytes
    pkica.Crypto.sign_certificate pkica.Crypto.parse_csr pkica.Crypto.generate_serial_number
    pkica.Ca.Subjects.name_from_csr pkica.Ca.Policy.enforce_profile pkica.Ca.Session.add_days
    pkica.Ca.Session.fromhex pkica.Ca.Session.algorithm_named pkica.Ca.Session.get_ca
    pkica.Ca.Session.audit_record pkica.Ca.Issue.issue_certificate pkica.Effect.pure
    pkica.Effect.lift pkica.Effect.or_raise pkica.Effect.raise_if pkica.Text.split
    pkica.Text.contains pkica.Text.join pkica.Text.HexBytes.bytes_from_hex pkica.Kms.algo_by_name
    pkica.Text.Hex.digit_value
certificate_is_issued = refl

issue_certificate-serial_bound_example :
    (n : ℕ) × (int_hex issued_certificate.serial_number ≡ some (pos n)) × (n < serial_bound)
issue_certificate-serial_bound_example =
    issue_certificate-serial_bound octet_platform octet_platform-GivesOctets "secret" "issuing-ca-1"
      server_profile "csr" ("dns:host.example" ∷ []) (pos 30) "alice" issuing_world
      issued_certificate certificate_is_issued
