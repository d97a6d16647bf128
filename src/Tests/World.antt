-- ===== src/Tests/World.antt =====
-- Concrete values for the libraries, the key store and the first state of the services.
use Prim.Native.String.{◌++◌ as glue}
use pkica.Base.{ℕ, ◌+◌, String, true, false, some, List, [], ◌∷◌}
use pkica.Base.Int.{pos}
use pkica.Text.Hex.{format_hex}
use pkica.Effect.{ok, pure}
use pkica.Audit.{AuditLib}
use pkica.Audit.Chain.{IsCodec}
use pkica.Auth.{Headers, Claims}
use pkica.Models.{CertProfile, Db}
use pkica.Platform.{Platform, World, rsa}
use pkica.Ra.Client.{CaClient, Site}
use pkica.Tests.Json.{dumps, loads, loads-dumps}

-- A keyed hash that shows its key and its text, so that no two texts collide.
abbrev pub test_audit : AuditLib
test_audit = record {
  hmac_sha256 = λ key text. glue key text;
  dumps = dumps;
  dumps_sorted = dumps;
  loads = loads;
  isoformat = λ t. "2026-01-01T00:00:00+00:00";
}

pub test_audit-IsCodec : IsCodec test_audit
test_audit-IsCodec = record { loads-dumps = loads-dumps }

-- Keys and names are texts, the key store counts its keys, and the clock ticks once a call.
abbrev pub test_platform : Platform
test_platform = record {
  PublicKey = String;
  Csr = String;
  Name = String;
  key_kind = λ key. rsa 4096;
  ski_digest = λ key. 17 ∷ 34 ∷ [];
  spki_der = λ key. 48 ∷ 0 ∷ [];
  load_pem_x509_csr = λ pem. ok pem;
  is_signature_valid = λ csr. true;
  csr_public_key = λ csr. csr;
  attributes_for_oid = λ csr oid. "host.example" ∷ [];
  name_build = λ attributes. ok "Common Name: host.example";
  human_friendly = λ name. name;
  ip_packed = λ value. ok (10 ∷ 0 ∷ 0 ∷ 1 ∷ []);
  key_usage_bits = λ names. ok (160 ∷ []);
  crl_reason = λ text. ok 1;
  pem_of_der = λ der. ok "-----BEGIN CERTIFICATE-----";
  dump_name = λ name. ok (48 ∷ []);
  dump_tbs_certificate = λ tbs. ok (48 ∷ tbs.serial_number ∷ []);
  dump_certificate = λ cert. ok (48 ∷ cert.signature_value);
  dump_tbs_cert_list = λ tbs. ok (48 ∷ tbs.crl_number ∷ []);
  dump_certificate_list = λ crl. ok (48 ∷ crl.signature);
  dump_response_data = λ data_. ok (48 ∷ []);
  dump_ocsp_response = λ response. ok (48 ∷ response.signature);
  sha256 = λ bytes. bytes;
  public_key_contents = λ spki. 0 ∷ spki;
  KmsState = ℕ;
  kms_name = "software";
  create_key = λ spec keys. (ok spec.key_id, keys + 1);
  public_key = pure;
  sign = λ key_id bytes algorithm keys. (ok (7 ∷ bytes), keys);
  now_at = λ k. pos (1767225600000000 + k);
  uuid4_at = λ k. k;
  urandom_at = λ n k. k ∷ [];
  uuid_hex = format_hex;
  uuid_text = format_hex;
  audit = test_audit;
}

abbrev pub server_profile : CertProfile
server_profile = record {
  id = 1;
  name = "tls-server";
  issuing_ca_id = 0;
  max_validity_days = pos 90;
  allowed_key_algorithms = "RSA_4096,EC_P256";
  key_usage = "digital_signature,key_encipherment";
  extended_key_usage = "server_auth";
  allow_san_dns = true;
  allow_san_ip = false;
  require_approval = true;
  allowed_protocols = "rest,acme";
}

abbrev pub test_db : Db
test_db = record {
  certificate_authorities = [];
  cert_profiles = server_profile ∷ [];
  certificate_requests = [];
  certificates = [];
  audit_log = record { rows = []; next_seq = 1 };
}

abbrev pub test_world : World test_platform
test_world = record { db = test_db; kms = 0; calls = 0 }

abbrev pub peer : String → Headers
peer name = record { x_client_cert_verify = "SUCCESS"; x_client_cert_cn = name }

-- A CA that answers every request for a certificate with the next serial number.
abbrev pub test_ca : CaClient
test_ca = record {
  Remote = ℕ;
  issue = λ ca_name profile_name csr_pem sans days requester n.
      (ok (record { serial_number = format_hex n; certificate_pem = csr_pem }), n + 1);
  revoke = λ serial reason actor. pure serial;
  get_ca_certificate = λ name. pure "-----BEGIN CERTIFICATE-----";
  fetch_crl = λ name. pure (48 ∷ []);
  sign_ocsp = λ name serial. pure (48 ∷ []);
}

abbrev pub test_site : Site test_platform test_ca
test_site = record { local = test_world; remote = 100 }

abbrev pub operator : List String → Claims
operator roles = record { sub = some "alice"; pkica_roles = some roles }
