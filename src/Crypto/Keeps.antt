-- ===== src/Crypto/Keeps.antt =====
-- The functions that sign, and invariants of the database.
use pkica.Base.{ℕ, String, Option, List}
use pkica.Base.Int.{ℤ}
use pkica.Effect.Keeps.{Keeps, keeps_rules}
use pkica.Asn1.{Bytes, TbsCertificate}
use pkica.Kms.{SignatureAlgorithm}
use pkica.Models.{Db}
use pkica.Platform.{Platform}
use pkica.Platform.Keeps.{OnDb, db_rules}
use pkica.Crypto.{
  sign_certificate, generate_serial_number, build_and_sign_crl, build_and_sign_ocsp_response,
}

module _ (p : Platform) {Q : Db → Type 0} where
  pub Keeps-sign_certificate :
      (tbs : TbsCertificate p.Name) (key_id : String) (a : SignatureAlgorithm)
      → Keeps (OnDb Q) (sign_certificate p tbs key_id a)
  unfolding sign_certificate
  Keeps-sign_certificate tbs key_id a = search (keeps_rules, db_rules)

  pub Keeps-generate_serial_number : Keeps (OnDb Q) (generate_serial_number p)
  unfolding generate_serial_number
  Keeps-generate_serial_number = search (keeps_rules, db_rules)

  pub Keeps-build_and_sign_crl :
      (issuer : p.Name) (this next : ℤ) (items : List (ℤ × Option ℤ × String)) (n : ℕ) (aki : Bytes)
      (key_id : String) (a : SignatureAlgorithm)
      → Keeps (OnDb Q) (build_and_sign_crl p issuer this next items n aki key_id a)
  unfolding build_and_sign_crl
  Keeps-build_and_sign_crl issuer this next items n aki key_id a = search (keeps_rules, db_rules)

  pub Keeps-build_and_sign_ocsp_response :
      (name : p.Name) (key : p.PublicKey) (serial : ℤ) (status : String) (at : Option ℤ)
      (reason : Option String) (this next : ℤ) (key_id : String) (a : SignatureAlgorithm)
      → Keeps
          (OnDb Q)
          (build_and_sign_ocsp_response p name key serial status at reason this next key_id a)
  unfolding build_and_sign_ocsp_response
  Keeps-build_and_sign_ocsp_response name key serial status at reason this next key_id a =
      search (keeps_rules, db_rules)

pub ruleset crypto_rules = (
  Keeps-sign_certificate, Keeps-generate_serial_number, Keeps-build_and_sign_crl,
  Keeps-build_and_sign_ocsp_response,
)
