-- ===== src/Tests/EnrollRuns.antt =====
-- The theorems on EST and SCEP at concrete inputs.
use pkica.Base.{◌&&◌, if◌then◌else◌, String, ◌≡◌, ◌↔◌, refl, true, List, [], ◌∷◌, ◌==◌, map}
use pkica.Base.Int.{pos}
use pkica.Text.{upper_equals, join, split, contains, before, after}
use pkica.Json.{nonempty}
use pkica.Asn1.{Bytes}
use pkica.Effect.{Error, ok, err, outside}
use pkica.Cms.{CmsLib}
use pkica.Enrollment.{EnrollmentLib, Behind}
use pkica.Est.Auth.{verify_basic_auth, check_password, password_of, valid_pairs}
use pkica.Est.Credentials.{
  is_ascii, ComparesAscii, LastEntry, entry_of, verify_basic_auth-iff-LastEntry,
}
use pkica.Est.Server.{
  Request, get_cacerts, post_simpleenroll, post_simplereenroll, pkcs10_body_to_pem, simplereenroll,
}
use pkica.Est.Admission.{is_admitted, handle_all, handle_all-SameRa, simplereenroll-no_name}
use pkica.Tests.World.{test_ca}
use pkica.Tests.AcmeWorld.{test_ra}

-- A request in PEM is its own value, and its signature is valid when it is not empty.
abbrev pub test_enrollment : EnrollmentLib
test_enrollment = record {
  Csr = String;
  encodebytes = λ b. "MII=\n";
  b64decode = λ b. ok b;
  load_pem_x509_csr = λ pem. ok pem;
  is_signature_valid = λ csr. nonempty csr;
  subject = λ csr. "CN=device-1";
  der_of_pem = λ pem. ok (48 ∷ []);
  compare_digest =
      λ a b. if is_ascii a && is_ascii b then ok (a == b) else err (outside "TypeError");
}

test_enrollment-ComparesAscii : ComparesAscii test_enrollment
test_enrollment-ComparesAscii = record {
  compared = λ a b h k. rw h (rw k refl);
  refused = λ a b h. (outside "TypeError", rw h refl);
}

abbrev test_cms : CmsLib
test_cms = record {
  Certificate = Bytes;
  Name = String;
  load_certificate = λ der. ok der;
  issuer = λ cert. "CN=issuing-ca-1";
  serial_number = λ cert. pos 7;
  load_content = λ der. err (Error.value_error "no content");
  dump_content = λ content. 48 ∷ [];
  dump_attributes = λ attributes. 49 ∷ [];
  dump_parsed = λ octets. ok octets;
}

abbrev test_users : List (String × String)
test_users = ("alice", "s3cret") ∷ ("bob", "a:b") ∷ ("alice", "newer") ∷ []

verify_basic_auth-iff-LastEntry_example :
    (verify_basic_auth test_enrollment (join "," (map entry_of test_users)) "alice" "newer"
      ≡ ok "alice")
    ↔ ((nonempty "newer" ≡ true) × (is_ascii "newer" ≡ true) × LastEntry "alice" "newer" test_users)
verify_basic_auth-iff-LastEntry_example =
    verify_basic_auth-iff-LastEntry test_enrollment test_users "alice" "newer"
      test_enrollment-ComparesAscii
      (unfold contains in ((refl, refl, refl), ((refl, refl, refl), ((refl, refl, refl), tt))))

abbrev test_behind : Behind test_ra test_ca
test_behind = record { ra_state = 3; ca_state = 100 }

-- Wrong credentials, no verified certificate, and a name that is not in the subject.
abbrev refused_requests : List Request
refused_requests =
    get_cacerts
    ∷ post_simpleenroll "alice" "wrong" (1 ∷ [])
    ∷ post_simplereenroll (record { x_client_cert_verify = "NONE"; x_client_cert_cn = "device-1" })
        (1 ∷ [])
    ∷ []

handle_all-SameRa_example :
    (handle_all test_enrollment test_cms "alice:s3cret" refused_requests test_behind).ra_state ≡ 3
handle_all-SameRa_example =
    handle_all-SameRa test_enrollment test_cms "alice:s3cret" refused_requests test_behind (
      unfold is_ascii is_admitted verify_basic_auth check_password password_of valid_pairs split
        contains before after upper_equals in
      (refl, (refl, (refl, tt))))

simplereenroll-no_name_example :
    (simplereenroll test_enrollment test_cms ""
      (record { x_client_cert_verify = "SUCCESS"; x_client_cert_cn = "" })
      (1 ∷ [])
      test_behind).1.ra_state
    ≡ (test_ra.post_request "est-device" "est" "est-reenroll:"
        (pkcs10_body_to_pem test_enrollment test_cms (1 ∷ []))
        []
        3).1
simplereenroll-no_name_example =
    simplereenroll-no_name test_enrollment test_cms "" (1 ∷ [])
      (pkcs10_body_to_pem test_enrollment test_cms (1 ∷ [])) test_behind refl
      (unfold pkcs10_body_to_pem in refl)
