-- ===== src/Scep/Cms.antt =====
-- services/scep/app/cms.py: the messages of SCEP, encrypted for a recipient and signed.
use Prim.Native.String.{◌++◌ as glue}
use pkica.Base.{ℕ, String, ◌||◌, some, List, [], ◌∷◌, ◌==◌, if◌then◌else◌}
use pkica.Text.Infix.{is_within}
use pkica.Asn1.{Bytes}
use pkica.Effect.{Result, ok, err, and_then, value_error, outside}
use pkica.Cms.{
  CmsLib, IssuerAndSerialNumber, RecipientInfo, ktri, other_recipient, EnvelopedData, CmsAttribute,
  content_type, message_digest, ContentInfo, enveloped_data, signed_data,
}

-- The ciphers, the padding and the keys of `cryptography`, hashlib and os.urandom, which answers by the
-- number of the call.
pub record CipherLib : Type 1 where
  pub PublicKey : Type 0
  -- a decryptor or an encryptor of AES in CBC mode, with the key and the initial vector
  pub aes_decrypt : Bytes → Bytes → Bytes → Result Bytes
  pub aes_encrypt : Bytes → Bytes → Bytes → Result Bytes
  pub triple_des_decrypt : Bytes → Bytes → Bytes → Result Bytes
  -- PKCS7 of a block size in bits
  pub pad : ℕ → Bytes → Bytes
  pub unpad : ℕ → Bytes → Result Bytes
  -- public_key.encrypt(key, PKCS1v15())
  pub rsa_encrypt : PublicKey → Bytes → Result Bytes
  pub sha256 : Bytes → Bytes
  pub urandom_at : ℕ → ℕ → Bytes

abbrev not_chosen : {A : Type 0} → Result A
not_chosen = err (outside "KeyError")

module _ (lib : CipherLib) (cms : CmsLib) where
  -- cms.ContentInfo.load(der)["content"], where its fields are those of enveloped data
  unfoldable pub as_enveloped :
      ContentInfo cms.Certificate cms.Name → Result (EnvelopedData cms.Name)
  as_enveloped (enveloped_data e) = ok e
  as_enveloped _ = not_chosen

  -- enveloped["recipient_infos"][0].chosen["encrypted_key"].native
  unfoldable pub encrypted_key_of : List (RecipientInfo cms.Name) → Result Bytes
  encrypted_key_of [] = err (outside "IndexError")
  encrypted_key_of (ktri info ∷ _) = ok info.encrypted_key
  encrypted_key_of (other_recipient ∷ _) = not_chosen

  -- the decryptor that the name of the algorithm chooses
  unfoldable pub decryptor : String → Bytes → Bytes → Bytes → Result Bytes
  decryptor algo_oid key iv ciphertext =
      if is_within "aes128" algo_oid
      then lib.aes_decrypt key iv ciphertext
      else if is_within "des_ede3" algo_oid
          || is_within "3des" algo_oid
          || algo_oid == "1.2.840.113549.3.7"
      then lib.triple_des_decrypt key iv ciphertext
      else err (value_error (glue "Unsupported SCEP content encryption algorithm: " algo_oid))

  -- 128 if "aes" in algo_oid else 64
  unfoldable pub block_size : String → ℕ
  block_size algo_oid = if is_within "aes" algo_oid then 128 else 64

  unfoldable pub decrypt_enveloped_data : Bytes → (Bytes → Result Bytes) → Result Bytes
  unfolding as_enveloped encrypted_key_of decryptor block_size
  decrypt_enveloped_data der recipient_private_key_decrypt =
      and_then (and_then (cms.load_content der) as_enveloped) λ enveloped.
        and_then (encrypted_key_of enveloped.recipient_infos) λ encrypted_key.
          let info = enveloped.encrypted_content_info in
          and_then (recipient_private_key_decrypt encrypted_key) λ symmetric_key.
            and_then (decryptor info.algorithm symmetric_key info.parameters info.encrypted_content)
              (lib.unpad (block_size info.algorithm))

  abbrev id_of : cms.Certificate → IssuerAndSerialNumber cms.Name
  id_of cert = record { issuer = cms.issuer cert; serial_number = cms.serial_number cert }

  -- the message for a recipient, with the key and the initial vector that were drawn
  unfoldable pub envelope :
      cms.Certificate → Bytes → Bytes → Bytes → ContentInfo cms.Certificate cms.Name
  envelope cert iv encrypted_key ciphertext = enveloped_data (record {
    version = "v0";
    recipient_infos =
        ktri (record {
          version = "v0";
          rid = id_of cert;
          key_encryption_algorithm = "rsaes_pkcs1v15";
          encrypted_key = encrypted_key;
        })
        ∷ [];
    encrypted_content_info = record {
      content_type = "data";
      algorithm = "aes128_cbc";
      parameters = iv;
      encrypted_content = ciphertext;
    };
  })

  -- build_enveloped_data, behind its two calls of os.urandom(16)
  unfoldable pub build_enveloped_data : Bytes → Bytes → Bytes → Bytes → lib.PublicKey → Result Bytes
  unfolding envelope
  build_enveloped_data key iv plaintext recipient_certificate_der recipient_public_key =
      and_then (lib.aes_encrypt key iv (lib.pad 128 plaintext)) λ ciphertext.
        and_then (lib.rsa_encrypt recipient_public_key key) λ encrypted_key.
          and_then (cms.load_certificate recipient_certificate_der)
            λ cert. ok (cms.dump_content (envelope cert iv encrypted_key ciphertext))

  abbrev signed_attrs : Bytes → List CmsAttribute
  signed_attrs digest = content_type "data" ∷ message_digest digest ∷ []

  unfoldable pub signed :
      Bytes → cms.Certificate → Bytes → Bytes → ContentInfo cms.Certificate cms.Name
  signed content cert digest signature = signed_data (record {
    version = "v1";
    digest_algorithms = "sha256" ∷ [];
    encap_content_info = record { content_type = "data"; content = some content };
    certificates = cert ∷ [];
    signer_infos =
        record {
          version = "v1";
          sid = id_of cert;
          digest_algorithm = "sha256";
          signed_attrs = signed_attrs digest;
          signature_algorithm = "rsassa_pkcs1v15";
          signature = signature;
        }
        ∷ [];
  })

  unfoldable pub sign_data : Bytes → Bytes → (Bytes → Result Bytes) → Result Bytes
  unfolding signed
  sign_data content signer_certificate_der sign_callback =
      and_then (cms.load_certificate signer_certificate_der) λ cert.
        let digest = lib.sha256 content in
        and_then (sign_callback (cms.dump_attributes (signed_attrs digest)))
          λ signature. ok (cms.dump_content (signed content cert digest signature))
