-- ===== src/Kms.antt =====
-- common/pkicore/pkicore/kms/base.py: the algorithms of signatures and the description of a key.
pub mod Software
pub mod Custody
pub mod Factory
pub mod OptIn
use pkica.Base.{String, Option, none, some, ◌==◌, if◌then◌else◌, ◌≡◌, refl}

pub data SignatureAlgorithm : Type 0 where
  rsa_pkcs1_sha256 rsa_pkcs1_sha384 rsa_pss_sha256 ecdsa_sha256 ecdsa_sha384 : SignatureAlgorithm

-- algorithm.value
unfoldable pub value : SignatureAlgorithm → String
value rsa_pkcs1_sha256 = "RSA_PKCS1_SHA256"
value rsa_pkcs1_sha384 = "RSA_PKCS1_SHA384"
value rsa_pss_sha256 = "RSA_PSS_SHA256"
value ecdsa_sha256 = "ECDSA_SHA256"
value ecdsa_sha384 = "ECDSA_SHA384"

-- `_ALGO_BY_NAME` of services/ca/app/service.py
unfoldable pub algo_by_name : String → Option SignatureAlgorithm
algo_by_name s =
    if s == "RSA_PKCS1_SHA256"
    then some rsa_pkcs1_sha256
    else if s == "RSA_PKCS1_SHA384"
    then some rsa_pkcs1_sha384
    else if s == "RSA_PSS_SHA256"
    then some rsa_pss_sha256
    else if s == "ECDSA_SHA256"
    then some ecdsa_sha256
    else if s == "ECDSA_SHA384"
    then some ecdsa_sha384
    else none

pub record KeySpec : Type 0 where
  pub key_id : String
  pub algorithm : String
  pub label : String
