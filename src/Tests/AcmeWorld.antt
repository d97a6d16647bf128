-- ===== src/Tests/AcmeWorld.antt =====
-- An RA for the runs of the protocol servers.
use pkica.Base.{ℕ, ◌+◌, none}
use pkica.Effect.{ok}
use pkica.Ra.Http.{RaClient}

-- An RA whose requests all wait for an approval.
abbrev pub test_ra : RaClient
test_ra = record {
  Remote = ℕ;
  post_request = λ profile protocol requester csr sans n. (
    ok (record {
      status_code = 200;
      body = "";
      json = ok (record { id = n; issued_certificate_pem = none });
    }),
    n + 1,
  );
}
