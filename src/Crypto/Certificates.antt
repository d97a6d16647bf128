-- ===== src/Crypto/Certificates.antt =====
-- common/pkicore/pkicore/crypto.py: certificate bodies, their signatures, requests and serial numbers.
use mathlib.Core.List.{foldl}
use pkica.Crypto.Names.{signed_digest_algo_id}
use pkica.Base.{ℕ, ◌+◌, ◌*◌, String, List, ◌∷◌, if◌then◌else◌}
use pkica.Base.Int.{ℤ, pos, ltb_ℤ}
use pkica.Effect.{Result, ok, err, value_error, Exec, pure, ◌>>=◌, and_then, lift}
use pkica.Asn1.{Bytes, Extension, Time, utc_time, general_time, TbsCertificate}
use pkica.Kms.{SignatureAlgorithm}
use pkica.Platform.{Platform, World, urandom, with_kms}

-- 2050-01-01T00:00:00Z: `t.year < 2050` for an instant in UTC
abbrev year_2050 : ℤ
year_2050 = pos 2524608000000000

-- `Time({"utc_time": t}) if t.year < 2050 else Time({"general_time": t})`
unfoldable pub time_of : ℤ → Time
time_of t = if ltb_ℤ t year_2050 then utc_time t else general_time t

unfoldable pub build_tbs_certificate :
    (p : Platform)
    → ℕ
    → p.Name
    → p.Name
    → p.PublicKey
    → ℤ
    → ℤ
    → List Extension
    → SignatureAlgorithm
    → TbsCertificate p.Name
unfolding time_of signed_digest_algo_id
build_tbs_certificate p serial issuer subject public_key not_before not_after extensions algorithm =
    record {
      version = "v3";
      serial_number = serial;
      signature = signed_digest_algo_id algorithm;
      issuer = issuer;
      not_before = time_of not_before;
      not_after = time_of not_after;
      subject = subject;
      subject_public_key_info = p.spki_der public_key;
      extensions = extensions;
    }

abbrev base_256 : ℕ → ℕ → ℕ
base_256 n b = n * 256 + b

-- int.from_bytes(raw, "big") of a zero byte and 19 random ones
unfoldable pub from_bytes : Bytes → ℕ
from_bytes = foldl base_256 0

module _ (p : Platform) where
  -- The DER body is signed by the key store, and the DER of the whole certificate is the result.
  unfoldable pub sign_certificate :
      TbsCertificate p.Name → String → SignatureAlgorithm → Exec (World p) Bytes
  sign_certificate tbs key_id algorithm = do
    tbs_der ← lift (p.dump_tbs_certificate tbs)
    signature ← with_kms (p.sign key_id tbs_der algorithm)
    lift (
        p.dump_certificate (record {
          tbs_certificate = tbs;
          signature_algorithm = signed_digest_algo_id algorithm;
          signature_value = signature;
        }))

  -- A request whose signature does not verify is a ValueError.
  unfoldable pub parse_csr : String → Result p.Csr
  parse_csr pem = and_then (p.load_pem_x509_csr pem) λ csr.
      if p.is_signature_valid csr
      then ok csr
      else err (value_error "CSR signature verification failed")

  unfoldable pub generate_serial_number : Exec (World p) ℕ
  generate_serial_number = do raw ← urandom 19; pure (from_bytes (0 ∷ raw))
