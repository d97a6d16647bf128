-- ===== src/Tests/ScepRuns.antt =====
-- The theorems on SCEP at concrete inputs.
use pkica.Base.{ℕ, zero, suc, String, ◌≡◌, refl, none, some, List, [], ◌∷◌, ◌++◌, length}
use pkica.Base.Int.{pos}
use pkica.Asn1.{Bytes}
use pkica.Effect.{Error, Result, ok, err}
use pkica.Cms.{CmsLib, RecipientInfo, ktri, ContentInfo, enveloped_data}
use pkica.Scep.Cms.{CipherLib, envelope, decrypt_enveloped_data, build_enveloped_data}
use pkica.Scep.Envelope.{IsInverse, decrypt_enveloped_data-build_enveloped_data}
use pkica.Scep.Keys.{ScepLib, Server, ensure_ra_keypair}
use pkica.Scep.Server.{Request, get_scep, post_scep, handle_all, handle_pki_operation, pkcs10_of}
use pkica.Scep.Restart.{ensure_ra_keypair-handle_all}
use pkica.Scep.Refusal.{is_signed, handle_pki_operation-refused}
use pkica.Tests.World.{test_ca}
use pkica.Tests.AcmeWorld.{test_ra}
use pkica.Tests.EnrollRuns.{test_enrollment}

-- Ciphers that keep what they are given, and padding by one octet.
abbrev unpad_one : Bytes → Result Bytes
unpad_one [] = err (Error.value_error "Invalid padding bytes.")
unpad_one (_ ∷ bytes) = ok bytes

abbrev test_cipher : CipherLib
test_cipher = record {
  PublicKey = String;
  aes_decrypt = λ key iv bytes. ok bytes;
  aes_encrypt = λ key iv bytes. ok bytes;
  triple_des_decrypt = λ key iv bytes. ok bytes;
  pad = λ bits bytes. 1 ∷ bytes;
  unpad = λ bits bytes. unpad_one bytes;
  rsa_encrypt = λ recipient secret. ok secret;
  sha256 = λ bytes. bytes;
  urandom_at = λ n k. k ∷ [];
}

-- Messages are written with the lengths of their parts.
abbrev sized : Bytes → Bytes → Bytes
sized part rest = length part ∷ (part ++ rest)

abbrev front : ℕ → Bytes → Bytes
front zero bytes = []
front (suc n) [] = []
front (suc n) (b ∷ bytes) = b ∷ front n bytes

abbrev back : ℕ → Bytes → Bytes
back zero bytes = bytes
back (suc n) [] = []
back (suc n) (b ∷ bytes) = back n bytes

front-append : (part rest : Bytes) → front (length part) (part ++ rest) ≡ part
front-append [] rest = refl
front-append (b ∷ part) rest = rw (front-append part rest) refl

back-append : (part rest : Bytes) → back (length part) (part ++ rest) ≡ rest
back-append [] rest = refl
back-append (b ∷ part) rest = back-append part rest

abbrev sealed_key : List (RecipientInfo String) → Bytes
sealed_key (ktri info ∷ _) = info.encrypted_key
sealed_key _ = []

abbrev write_content : ContentInfo Bytes String → Bytes
write_content (enveloped_data e) =
    let info = e.encrypted_content_info in
    sized info.parameters (sized (sealed_key e.recipient_infos) info.encrypted_content)
write_content _ = []

-- the envelope, whose recipient stands in the library
abbrev read_parts : ℕ → Bytes → Bytes → Bytes → ContentInfo Bytes String
read_parts n iv sealed cipher = enveloped_data (record {
  version = "v0";
  recipient_infos =
      ktri (record {
        version = "v0";
        rid = record { issuer = "CN=ra"; serial_number = pos 7 };
        key_encryption_algorithm = "rsaes_pkcs1v15";
        encrypted_key = sealed;
      })
      ∷ [];
  encrypted_content_info = record {
    content_type = "data";
    algorithm = "aes128_cbc";
    parameters = iv;
    encrypted_content = cipher;
  };
})

abbrev read_second : Bytes → Bytes → Result (ContentInfo Bytes String)
read_second iv [] = err (Error.value_error "truncated")
read_second iv (n ∷ rest) = ok (read_parts n iv (front n rest) (back n rest))

abbrev read_content : Bytes → Result (ContentInfo Bytes String)
read_content [] = err (Error.value_error "truncated")
read_content (n ∷ rest) = read_second (front n rest) (back n rest)

abbrev written_cms : CmsLib
written_cms = record {
  Certificate = Bytes;
  Name = String;
  load_certificate = λ der. ok der;
  issuer = λ cert. "CN=ra";
  serial_number = λ cert. pos 7;
  load_content = read_content;
  dump_content = write_content;
  dump_attributes = λ attributes. 49 ∷ [];
  dump_parsed = λ octets. ok octets;
}

written_cms-IsInverse : IsInverse test_cipher written_cms
unfolding envelope
written_cms-IsInverse = record {
  aes = λ key iv plain cipher h. cc;
  unpad-pad = λ plain. refl;
  load-dump = λ cert iv sealed cipher. rw (front-append iv (sized sealed cipher)) (
      rw (back-append iv (sized sealed cipher))
        (rw (front-append sealed cipher) (rw (back-append sealed cipher) refl)));
}

abbrev sealed_message : Bytes
sealed_message = 2 ∷ 9 ∷ 8 ∷ 1 ∷ 5 ∷ 1 ∷ 4 ∷ 2 ∷ []

decrypt_enveloped_data-build_enveloped_data_example :
    decrypt_enveloped_data test_cipher written_cms sealed_message ok ≡ ok (4 ∷ 2 ∷ [])
decrypt_enveloped_data-build_enveloped_data_example =
    decrypt_enveloped_data-build_enveloped_data test_cipher written_cms (5 ∷ []) (9 ∷ 8 ∷ [])
      (4 ∷ 2 ∷ []) (3 ∷ []) sealed_message "device" ok written_cms-IsInverse (λ secret sealed h. cc)
      (unfold build_enveloped_data envelope in refl)

abbrev test_scep : ScepLib
test_scep = record {
  enrollment = test_enrollment;
  cipher = test_cipher;
  cms = written_cms;
  csr_key = λ csr. csr;
  PrivateKey = ℕ;
  generate_private_key = λ exponent size k. k;
  private_bytes = λ key. key ∷ [];
  load_pem_private_key = λ bytes. ok (length bytes);
  decrypt = λ key bytes. ok bytes;
  sign = λ key bytes. ok bytes;
  self_signed = λ key name serial begin end. serial ∷ [];
  der_of_pem_bytes = λ bytes. ok bytes;
  urlsafe_b64decode = λ s. ok [];
  uuid4_at = λ k. k;
  now_at = λ k. pos k;
}

abbrev new_server : Server test_ra test_ca
new_server = record { ra_key = none; ra_crt = none; ra_state = 3; ca_state = 100; calls = 0 }

abbrev scep_requests : List Request
scep_requests =
    get_scep "GetCACert" none
    ∷ post_scep "PKIOperation" sealed_message
    ∷ get_scep "GetCACaps" none
    ∷ []

abbrev started : Server test_ra test_ca
started = (ensure_ra_keypair test_scep new_server).1

ensure_ra_keypair-handle_all_example :
    ((handle_all test_scep scep_requests started).ra_key ≡ started.ra_key)
    × ((handle_all test_scep scep_requests started).ra_crt ≡ started.ra_crt)
    × (ensure_ra_keypair test_scep (handle_all test_scep scep_requests started)
        ≡ (ok tt, handle_all test_scep scep_requests started))
ensure_ra_keypair-handle_all_example =
    ensure_ra_keypair-handle_all test_scep scep_requests new_server

abbrev keyed_server : Server test_ra test_ca
keyed_server = record new_server { ra_key = some (6 ∷ []) }

handle_pki_operation-refused_example :
    (e : Error) × (handle_pki_operation test_scep (7 ∷ []) keyed_server ≡ (err e, keyed_server))
handle_pki_operation-refused_example =
    handle_pki_operation-refused test_scep test_ra test_ca keyed_server (6 ∷ []) (7 ∷ []) 1 refl
      refl (unfold is_signed pkcs10_of decrypt_enveloped_data in refl)
